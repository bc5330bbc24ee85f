-- ===== src/Record/Paging.antt =====
-- `events` of crates/tideline-server/src/tlr/sqlite.rs: the pages of a record.
use tideline.Base.{
  ℕ, zero, suc, ◌+◌, ◌-◌, ◌%◌, ◌^◌, ◌≤◌, ◌<◌, ◌≡◌, refl, sym, ap, ◌∙◌, subst, List, [], ◌∷◌, map,
  length, take, drop, arith, leb, leb→le, Bool-cases, inl, inr, some,
}
use tideline.Base.Bytes.{le_i64}
use tideline.Platform.{Platform}
use tideline.Signing.{Signing}
use tideline.Proto.Digest.{Hash, zero_hash}
use tideline.Proto.Chain.Linked.{Linked}
use tideline.Record.Store.{RunKey}
use tideline.Record.Tables.{RunRow, EventRow, row_to_event, insert_by_seq, order_by_seq, where_from}
use tideline.Record.Sqlite.{find_run, events, clamp}
use tideline.Record.Invariant.{IsRecord, record_of}
use tideline.Record.Sound.{found-IsRecord}
use tideline.Record.History.{Call, run, empty, run-IsSound, empty-IsSound}

-- Below 2^63 the signed order is the order of the numbers.
le_i64_small : (a b : ℕ) → a < 2 ^ 63 → b < 2 ^ 63 → le_i64 a b ≡ leb a b
le_i64_small a b h k =
    let x : (a + 2 ^ 63) % 2 ^ 64 ≡ a + 2 ^ 63 = omega arith in
    let y : (b + 2 ^ 63) % 2 ^ 64 ≡ b + 2 ^ 63 = omega arith in rw (x, y) (ground arith)

map-drop {ℓ κ} :
    {A : Type ℓ} {B : Type κ} (f : A → B) (n : ℕ) (xs : List A)
    → map f (drop n xs) ≡ drop n (map f xs)
map-drop f zero xs = refl
map-drop f (suc n) [] = refl
map-drop f (suc n) (x ∷ xs) = map-drop f n xs

map-take {ℓ κ} :
    {A : Type ℓ} {B : Type κ} (f : A → B) (n : ℕ) (xs : List A)
    → map f (take n xs) ≡ take n (map f xs)
map-take f zero xs = refl
map-take f (suc n) [] = refl
map-take f (suc n) (x ∷ xs) = ap (λ l. f x ∷ l) (map-take f n xs)

module _ (p : Platform) where
  -- Rows whose places are `i`, `i + 1`, and so on.
  abbrev Numbered : ℕ → List (EventRow p) → Type 0
  Numbered i [] = Unit
  Numbered i (r ∷ rs) = (r.seq ≡ i) × Numbered (suc i) rs

  Linked-Numbered :
      (i : ℕ) (prev : Hash) (rows : List (EventRow p))
      → Linked p i prev (record_of p rows)
      → Numbered i rows
  unfolding row_to_event
  Linked-Numbered i prev [] h = tt
  Linked-Numbered i prev (r ∷ rs) h = (h.0, Linked-Numbered (suc i) r.hash rs h.3)

  where_from_all :
      (i from : ℕ) (rows : List (EventRow p))
      → Numbered i rows
      → i + length rows ≤ 2 ^ 63
      → from ≤ i
      → from < 2 ^ 63
      → where_from p from rows ≡ rows
  unfolding where_from
  where_from_all i from [] h fits le lt = refl
  where_from_all i from (r ∷ rs) h fits le lt =
      rw (le_i64_small from r.seq lt (omega (arith, h.0)))
        (ground (arith, h.0, where_from_all (suc i) from rs h.1 (omega arith) (omega arith) lt))

  drop_nil : (n : ℕ) → drop {A = EventRow p} n [] ≡ []
  drop_nil zero = refl
  drop_nil (suc n) = refl

  where_from-drop :
      (i from : ℕ) (rows : List (EventRow p))
      → Numbered i rows
      → i + length rows ≤ 2 ^ 63
      → i ≤ from
      → from < 2 ^ 63
      → where_from p from rows ≡ drop (from - i) rows
  unfolding where_from
  where_from-drop i from [] h fits le lt = sym (drop_nil (from - i))
  where_from-drop i from (r ∷ rs) h fits le lt =
      let signed = le_i64_small from r.seq lt (omega (arith, h.0)) in
      elim (Bool-cases (leb from r.seq)) [
        | inl c ↦
            let here : from - i ≡ 0 = omega (arith, h.0, leb→le from r.seq c) in
            let all = where_from_all (suc i) from rs h.1 (omega arith) (omega (arith, here)) lt in
            rw (signed, c, here) (ap (λ rest. r ∷ rest) all)
        | inr c ↦
            let past : i < from = ground (arith, h.0, c) in
            let behind : from - i ≡ suc (from - suc i) = omega arith in
            rw (signed, c, behind)
              (where_from-drop (suc i) from rs h.1 (omega arith) (omega arith) lt)
      ]

  insert_by_seq_first :
      (i : ℕ) (r : EventRow p) (rows : List (EventRow p))
      → r.seq < i
      → Numbered i rows
      → i + length rows ≤ 2 ^ 63
      → insert_by_seq p r rows ≡ r ∷ rows
  unfolding insert_by_seq
  insert_by_seq_first i r [] lt h fits = refl
  insert_by_seq_first i r (q ∷ qs) lt h fits =
      rw (le_i64_small r.seq q.seq (omega arith) (omega (arith, h.0))) (ground (arith, h.0))

  order_by_seq_same :
      (i : ℕ) (rows : List (EventRow p))
      → Numbered i rows
      → i + length rows ≤ 2 ^ 63
      → order_by_seq p rows ≡ rows
  unfolding order_by_seq
  order_by_seq_same i [] h fits = refl
  order_by_seq_same i (r ∷ rs) h fits =
      ap (insert_by_seq p r) (order_by_seq_same (suc i) rs h.1 (omega arith))
      ∙ insert_by_seq_first (suc i) r rs (omega (arith, h.0)) h.1 (omega arith)

  Numbered-drop :
      (n i : ℕ) (rows : List (EventRow p)) → Numbered i rows → Numbered (i + n) (drop n rows)
  Numbered-drop zero i rows h = subst (λ j. Numbered j rows) (omega arith) h
  Numbered-drop (suc n) i [] h = tt
  Numbered-drop (suc n) i (r ∷ rs) h =
      subst (λ j. Numbered j (drop n rs)) (omega arith) (Numbered-drop n (suc i) rs h.1)

  IsRecord-Numbered : (r : RunRow) (rows : List (EventRow p)) → IsRecord p r rows → Numbered 0 rows
  IsRecord-Numbered r [] h = tt
  IsRecord-Numbered r (x ∷ xs) h = Linked-Numbered 0 zero_hash (x ∷ xs) h.chain.1

  length-drop-le : (n : ℕ) (rows : List (EventRow p)) → length (drop n rows) ≤ length rows
  length-drop-le zero rows = omega arith
  length-drop-le (suc n) [] = omega arith
  length-drop-le (suc n) (r ∷ rs) = omega (arith, length-drop-le n rs)

  page_rows :
      (from : ℕ) (rows : List (EventRow p))
      → Numbered 0 rows
      → length rows + from < 2 ^ 63
      → order_by_seq p (where_from p from rows) ≡ drop from rows
  page_rows from rows h fits =
      let whole : from - 0 ≡ from = omega arith in
      let same =
        where_from-drop 0 from rows h (omega arith) (omega arith) (omega arith)
        ∙ ap (λ n. drop n rows) whole in
      ap (order_by_seq p) same
      ∙ order_by_seq_same from (drop from rows)
          (subst (λ j. Numbered j (drop from rows)) (omega arith) (Numbered-drop from 0 rows h))
          (omega (arith, length-drop-le from rows))

module _ (p : Platform) (s : Signing) where
  -- Whatever calls the store has run since it was empty, `events` gives a run's events from place
  -- `from` on, in order and none left out, at most `limit` of them with the limit brought within 1 and
  -- 5000; for records and places below 2^63.
  pub events_page :
      (cs : List (Call p s)) (k : RunKey) (r : RunRow) (from limit : ℕ)
      → find_run p s (run p s (empty p s) cs) k ≡ some r
      → length ((run p s (empty p s) cs).events k) + from < 2 ^ 63
      → events p s (run p s (empty p s) cs) k from limit
        ≡ take (clamp 1 5000 limit) (drop from (record_of p ((run p s (empty p s) cs).events k)))
  unfolding events
  events_page cs k r from limit h fits =
      let db = run p s (empty p s) cs in
      let rows = db.events k in
      let sound =
        found-IsRecord p s db k r (run-IsSound p s (empty p s) cs (empty-IsSound p s)) h in
      map-take (row_to_event p) (clamp 1 5000 limit) (order_by_seq p (where_from p from rows))
      ∙ ap (λ l. take (clamp 1 5000 limit) (map (row_to_event p) l))
          (page_rows p from rows (IsRecord-Numbered p r rows sound) fits)
      ∙ ap (take (clamp 1 5000 limit)) (map-drop (row_to_event p) from rows)
