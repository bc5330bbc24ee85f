-- ===== src/Sdk/Paging.antt =====
-- `events_paged` of crates/tideline-sdk/src/run.rs, over a record that may grow between two requests.
use tideline.Base.{
  ℕ, zero, suc, ◌+◌, ◌*◌, ◌-◌, ◌^◌, ◌≤◌, ◌<◌, ◌≡◌, refl, sym, ap, ◌∙◌, subst, inl, inr, some, List,
  [], ◌∷◌, ◌++◌, length, length-append, last_or, take, drop, ltb, ltb→lt, arith, Bool-cases,
}
use tideline.Platform.{Platform}
use tideline.Proto.Event.{RunEvent}
use tideline.Sdk.{ok, Server, next_from, paged_from, events_paged}

module _ {ℓ} {A : Type ℓ} where
  pub take_all : (n : ℕ) (xs : List A) → length xs ≤ n → take n xs ≡ xs
  take_all zero [] h = refl
  take_all zero (x ∷ xs) h = absurd (omega arith)
  take_all (suc n) [] h = refl
  take_all (suc n) (x ∷ xs) h = ap (◌∷◌ x) (take_all n xs (omega arith))

  take_nil : (n : ℕ) → take {A = A} n [] ≡ []
  take_nil zero = refl
  take_nil (suc n) = refl

  pub length-take_short : (n : ℕ) (xs : List A) → length (take n xs) < n → length xs < n
  length-take_short zero xs h = absurd (omega arith)
  length-take_short (suc n) [] h = omega arith
  length-take_short (suc n) (x ∷ xs) h = omega (arith, length-take_short n xs (omega arith))

  pub length-take_le : (n : ℕ) (xs : List A) → length (take n xs) ≤ n
  length-take_le zero xs = omega arith
  length-take_le (suc n) [] = omega arith
  length-take_le (suc n) (x ∷ xs) = omega (arith, length-take_le n xs)

  pub length-take_inside : (n : ℕ) (xs : List A) → length (take n xs) ≤ length xs
  length-take_inside zero xs = omega arith
  length-take_inside (suc n) [] = omega arith
  length-take_inside (suc n) (x ∷ xs) = omega (arith, length-take_inside n xs)

  pub length-drop : (n : ℕ) (xs : List A) → length (drop n xs) ≡ length xs - n
  length-drop zero xs = omega arith
  length-drop (suc n) [] = omega arith
  length-drop (suc n) (x ∷ xs) = omega (arith, length-drop n xs)

  pub take-append_take : (n m : ℕ) (xs : List A) → take n xs ++ take m (drop n xs) ≡ take (n + m) xs
  take-append_take zero m xs = ap (λ k. take k xs) (omega arith)
  take-append_take (suc n) m [] = take_nil m ∙ sym (take_nil (suc n + m))
  take-append_take (suc n) m (x ∷ xs) = rw (shift) (ap (◌∷◌ x) (take-append_take n m xs))
    where
      shift : suc n + m ≡ suc (n + m)
      shift = omega arith

  -- What stands at the front of a list stands there still when the list has grown.
  pub take-grown : (n : ℕ) (xs ys : List A) → n ≤ length xs → take n (xs ++ ys) ≡ take n xs
  take-grown zero xs ys h = refl
  take-grown (suc n) [] ys h = absurd (omega arith)
  take-grown (suc n) (x ∷ xs) ys h = ap (◌∷◌ x) (take-grown n xs ys (omega arith))

module _ (p : Platform) where
  -- Events that name their places, from `i` on.
  abbrev pub Placed : ℕ → List (RunEvent p) → Type 0
  Placed i [] = Unit
  Placed i (e ∷ es) = (e.seq ≡ i) × Placed (suc i) es

  pub Placed-drop : (n i : ℕ) (es : List (RunEvent p)) → Placed i es → Placed (i + n) (drop n es)
  Placed-drop zero i es h = subst (λ j. Placed j es) (omega arith) h
  Placed-drop (suc n) i [] h = tt
  Placed-drop (suc n) i (e ∷ es) h =
      subst (λ j. Placed j (drop n es)) (omega arith) (Placed-drop n (suc i) es h.1)

  pub Placed-take : (n i : ℕ) (es : List (RunEvent p)) → Placed i es → Placed i (take n es)
  Placed-take zero i es h = tt
  Placed-take (suc n) i [] h = tt
  Placed-take (suc n) i (e ∷ es) h = (h.0, Placed-take n (suc i) es h.1)

  pub last_or-place :
      (i : ℕ) (e : RunEvent p) (es : List (RunEvent p))
      → Placed i (e ∷ es)
      → (last_or e es).seq ≡ i + length es
  last_or-place i e [] h = omega arith
  last_or-place i e (f ∷ es) h = omega (arith, last_or-place (suc i) f es h.1)

  next_from-place :
      (i : ℕ) (es : List (RunEvent p))
      → Placed i es
      → i + length es < 2 ^ 64
      → next_from p i es ≡ i + length es
  unfolding next_from
  next_from-place i [] h fits = omega arith
  next_from-place i (e ∷ es) h fits = omega (arith, last_or-place i e es h)

  -- A record that only grows, as it stands at each request.
  pub record Growing (n : ℕ) (record_at : ℕ → List (RunEvent p)) : Type 0 where
    pub placed : (i : ℕ) → Placed 0 (record_at i)
    pub grows : (i : ℕ) → (more : List (RunEvent p)) × (record_at (suc i) ≡ record_at i ++ more)
    pub bounded : (i : ℕ) → length (record_at i) ≤ n

  -- A server that answers a request with a page of the record as it stands.
  abbrev pub Serves : Server p → ℕ → (ℕ → List (RunEvent p)) → Type 0
  Serves events_from page record_at =
      (i from : ℕ)
      → from ≤ length (record_at i)
      → events_from i from page ≡ ok (take page (drop from (record_at i)))

  module _ (n page : ℕ) (record_at : ℕ → List (RunEvent p)) (events_from : Server p) where
    paged_from-record :
        (grow : Growing n record_at) (serves : Serves events_from page record_at)
        → 1 ≤ page
        → n < 2 ^ 64
        → (fuel i from : ℕ) (all : List (RunEvent p)) → from ≤ length (record_at i)
        → all ≡ take from (record_at i)
        → n < from + fuel * page
        → (j : ℕ) × (paged_from p events_from page fuel i from all ≡ some (ok (record_at j)))
    unfolding paged_from
    paged_from-record grow serves some_page fits zero i from all inside front enough =
        absurd (omega (arith, grow.bounded i))
    paged_from-record grow serves some_page fits (suc fuel) i from all inside front enough =
        let xs = record_at i in
        let batch = take page (drop from xs) in
        let whole : all ++ batch ≡ take (from + page) xs =
          rw front (take-append_take from page xs) in
        let size = length-drop from xs in
        elim (Bool-cases (ltb (length batch) page)) [
          | inl short ↦
              let lt = length-take_short page (drop from xs) (ltb→lt _ _ short) in
              let end : all ++ batch ≡ xs = whole ∙ take_all (from + page) xs (omega arith) in
              (i, ground (arith, serves i from inside, end))
          | inr full ↦
              let count : length batch ≡ page =
                ground (arith, length-take_le page (drop from xs), full) in
              let inside' = length-take_inside page (drop from xs) in
              let placed : Placed from batch = Placed-take page from (drop from xs) (
                subst (λ k. Placed k (drop from xs)) (omega arith)
                  (Placed-drop from 0 xs (grow.placed i))) in
              let next : next_from p from batch ≡ from + page =
                next_from-place from batch placed (omega (arith, grow.bounded i, size))
                ∙ ap (λ k. from + k) count in
              let (more, after) = grow.grows i in
              let front' : all ++ batch ≡ take (from + page) (record_at (suc i)) =
                whole
                ∙ sym (take-grown (from + page) xs more (omega (arith, size)))
                ∙ ap (take (from + page)) (sym after) in
              let (j, done) =
                paged_from-record grow serves some_page fits fuel (suc i) (from + page)
                  (all ++ batch)
                  (subst (λ l. from + page ≤ length l) (sym after)
                    (omega (arith, length-append xs more, size)))
                  front' (omega arith) in
              let done' : paged_from p events_from page fuel (suc i) (next_from p from batch)
                    (all ++ batch)
                  ≡ some (ok (record_at j)) =
                subst
                  (λ k.
                    paged_from p events_from page fuel (suc i) k (all ++ batch)
                    ≡ some (ok (record_at j)))
                  (sym next) done in
              (j, ground (arith, serves i from inside, full, done'))
        ]

  -- Asked for pages of at least one event, while the record grows but never beyond `n` events,
  -- `events_paged` comes to an end: its loop runs at most `n / page + 1` times, and gives the whole
  -- record as it stood at one of the requests, no event left out or given twice.
  pub events_paged-record :
      (n page fuel : ℕ) (record_at : ℕ → List (RunEvent p)) (events_from : Server p)
      → Growing n record_at
      → Serves events_from page record_at
      → 1 ≤ page
      → n < 2 ^ 64
      → n < fuel * page
      → (j : ℕ) × (events_paged p events_from page fuel ≡ some (ok (record_at j)))
  unfolding events_paged
  events_paged-record n page fuel record_at events_from grow serves some_page fits enough =
      paged_from-record n page record_at events_from grow serves some_page fits fuel 0 0 []
        (omega arith) refl (omega (arith, enough))
