-- ===== src/Sdk/Chunks.antt =====
-- `sse_events` of crates/tideline-sdk/src/run.rs: where the chunks of a stream begin and end.
use tideline.Base.{
  ℕ, zero, suc, ◌+◌, ◌≤◌, ◌≡◌, refl, sym, ap, ap₂, ◌∙◌, subst, inl, inr, Option, none, some, List,
  [], ◌∷◌, ◌++◌, length, length-append, take, drop, map, arith, Option-cases, Bool-cases,
  append-nil, append_assoc, ◌==◌, ◌&&◌,
}
use tideline.Sdk.{Fetched}
use tideline.Sdk.Sse.{find_frame_end, of_frame, drain, feed, sse_events}

abbrev pub flatten : List (List ℕ) → List ℕ
flatten [] = []
flatten (b ∷ bs) = b ++ flatten bs

find_frame_end-inside : (x : List ℕ) (n : ℕ) → find_frame_end x ≡ some n → n + 2 ≤ length x
unfolding find_frame_end
find_frame_end-inside [] n h = absurd (ground arith)
find_frame_end-inside (a ∷ []) n h = absurd (ground arith)
find_frame_end-inside (a ∷ b ∷ xs) n h = elim (Bool-cases ((a == 10) && (b == 10))) [
  | inl c ↦ ground (arith, c)
  | inr c ↦ elim (Option-cases (find_frame_end (b ∷ xs))) [
    | inl f ↦ absurd (ground (arith, c, f))
    | inr (m, f) ↦
        let q : n ≡ suc m = ground (arith, c, f) in
        omega (arith, find_frame_end-inside (b ∷ xs) m f)
  ]
]

find_frame_end-append :
    (x y : List ℕ) (n : ℕ) → find_frame_end x ≡ some n → find_frame_end (x ++ y) ≡ some n
unfolding find_frame_end
find_frame_end-append [] y n h = absurd (ground arith)
find_frame_end-append (a ∷ []) y n h = absurd (ground arith)
find_frame_end-append (a ∷ b ∷ xs) y n h = elim (Bool-cases ((a == 10) && (b == 10))) [
  | inl c ↦ ground (arith, c)
  | inr c ↦ elim (Option-cases (find_frame_end (b ∷ xs))) [
    | inl f ↦ absurd (ground (arith, c, f))
    | inr (m, f) ↦
        let q : n ≡ suc m = ground (arith, c, f) in
        let ih = find_frame_end-append (b ∷ xs) y m f in ground (arith, c, ih)
  ]
]

take-append_inside : (n : ℕ) (x y : List ℕ) → n ≤ length x → take n (x ++ y) ≡ take n x
take-append_inside zero x y h = refl
take-append_inside (suc n) [] y h = absurd (omega arith)
take-append_inside (suc n) (a ∷ x) y h = ap (◌∷◌ a) (take-append_inside n x y (omega arith))

drop-append_inside : (n : ℕ) (x y : List ℕ) → n ≤ length x → drop n (x ++ y) ≡ drop n x ++ y
drop-append_inside zero x y h = refl
drop-append_inside (suc n) [] y h = absurd (omega arith)
drop-append_inside (suc n) (a ∷ x) y h = drop-append_inside n x y (omega arith)

length-drop_add : (n : ℕ) (x : List ℕ) → n ≤ length x → length (drop n x) + n ≡ length x
length-drop_add zero x h = omega arith
length-drop_add (suc n) [] h = absurd (omega arith)
length-drop_add (suc n) (a ∷ x) h = omega (arith, length-drop_add n x (omega arith))

module _ {ℓ} {E : Type ℓ} (parse : List ℕ → Option E) where
  drain-none : (n : ℕ) (x : List ℕ) → find_frame_end x ≡ none → drain parse (suc n) x ≡ ([], x)
  unfolding drain
  drain-none n x h = rw (drain, h) refl

  drain-some :
      (n e : ℕ) (x : List ℕ)
      → find_frame_end x ≡ some e
      → drain parse (suc n) x ≡ (
        of_frame parse (take e x) ++ (drain parse n (drop (e + 2) x)).0,
        (drain parse n (drop (e + 2) x)).1,
      )
  unfolding drain
  drain-some n e x h = rw (drain, h) refl

  -- More fuel than the buffer is long makes no difference.
  drain_enough :
      (n m : ℕ) (x : List ℕ) → length x ≤ n → length x ≤ m → drain parse n x ≡ drain parse m x
  unfolding drain find_frame_end
  drain_enough zero zero x h k = refl
  drain_enough zero (suc m) [] h k = refl
  drain_enough zero (suc m) (a ∷ x) h k = absurd (omega arith)
  drain_enough (suc n) zero [] h k = refl
  drain_enough (suc n) zero (a ∷ x) h k = absurd (omega arith)
  drain_enough (suc n) (suc m) x h k = elim (Option-cases (find_frame_end x)) [
    | inl f ↦ drain-none n x f ∙ sym (drain-none m x f)
    | inr (e, f) ↦
        let inside = find_frame_end-inside x e f in
        let less = length-drop_add (e + 2) x inside in
        let ih = drain_enough n m (drop (e + 2) x) (omega arith) (omega arith) in
        drain-some n e x f
        ∙ ap (λ d. (of_frame parse (take e x) ++ d.0, d.1)) ih
        ∙ sym (drain-some m e x f)
  ]

  -- What `drain` gives for the rest of a stream, joined with what it has given.
  abbrev joined : List (Fetched E) × List ℕ → List (Fetched E) × List ℕ → List (Fetched E) × List ℕ
  joined d k = (d.0 ++ k.0, k.1)

  abbrev Joins : ℕ → Type ℓ
  Joins n =
      (m k : ℕ) (x y : List ℕ)
      → length x ≤ n
      → length (x ++ y) ≤ m
      → length ((drain parse n x).1 ++ y) ≤ k
      → drain parse m (x ++ y) ≡ joined (drain parse n x) (drain parse k ((drain parse n x).1 ++ y))

  drain-append_frame :
      (n m k : ℕ) (x y : List ℕ) (e : ℕ)
      → find_frame_end x ≡ some e
      → length x ≤ suc n
      → length (x ++ y) ≤ m
      → length ((drain parse (suc n) x).1 ++ y) ≤ k
      → Joins n
      → drain parse m (x ++ y)
        ≡ joined (drain parse (suc n) x) (drain parse k ((drain parse (suc n) x).1 ++ y))
  drain-append_frame n zero k x y e f a b c ih =
      absurd (omega (arith, find_frame_end-inside x e f, length-append x y))
  drain-append_frame n (suc m) k x y e f a b c ih =
      let inside = find_frame_end-inside x e f in
      let x' = drop (e + 2) x in
      let less = length-drop_add (e + 2) x inside in
      let q = drain-some n e x f in
      let fits : length ((drain parse n x').1 ++ y) ≤ k = subst (λ d. length (d.1 ++ y) ≤ k) q c in
      let rest =
        ih m k x' y (omega arith) (omega (arith, length-append x y, length-append x' y)) fits in
      let frame = of_frame parse (take e x) in
      drain-some m e (x ++ y) (find_frame_end-append x y e f)
      ∙ ap₂ (λ t d. (of_frame parse t ++ (drain parse m d).0, (drain parse m d).1))
          (take-append_inside e x y (omega arith)) (drop-append_inside (e + 2) x y inside)
      ∙ ap (λ d. (frame ++ d.0, d.1)) rest
      ∙ ap (λ l. (l, (drain parse k ((drain parse n x').1 ++ y)).1))
          (sym
            (append_assoc frame (drain parse n x').0 (drain parse k ((drain parse n x').1 ++ y)).0))
      ∙ ap (λ d. joined d (drain parse k (d.1 ++ y))) (sym q)

  -- The frames of what has come so far, and then those that the rest completes, are the frames of all.
  drain-append : (n : ℕ) → Joins n
  unfolding drain
  drain-append zero m k x y a b c = drain_enough m k (x ++ y) b c
  drain-append (suc n) m k x y a b c = elim (Option-cases (find_frame_end x)) [
    | inl f ↦
        let q = drain-none n x f in
        let fits : length (x ++ y) ≤ k = subst (λ d. length (d.1 ++ y) ≤ k) q c in
        drain_enough m k (x ++ y) b fits
        ∙ ap (λ d. (d.0 ++ (drain parse k (d.1 ++ y)).0, (drain parse k (d.1 ++ y)).1)) (sym q)
    | inr (e, f) ↦ drain-append_frame n m k x y e f a b c (drain-append n)
  ]

  -- Nothing more is to be taken off what `drain` leaves.
  drain_done : (n : ℕ) (x : List ℕ) → length x ≤ n → find_frame_end (drain parse n x).1 ≡ none
  unfolding drain find_frame_end
  drain_done zero [] h = refl
  drain_done zero (a ∷ x) h = absurd (omega arith)
  drain_done (suc n) x h = elim (Option-cases (find_frame_end x)) [
    | inl f ↦ ap (λ d. find_frame_end d.1) (drain-none n x f) ∙ f
    | inr (e, f) ↦
        let less = length-drop_add (e + 2) x (find_frame_end-inside x e f) in
        ap (λ d. find_frame_end d.1) (drain-some n e x f)
        ∙ drain_done n (drop (e + 2) x) (omega arith)
  ]

  drain-nothing : (n : ℕ) (x : List ℕ) → find_frame_end x ≡ none → (drain parse n x).0 ≡ []
  unfolding drain
  drain-nothing zero x h = refl
  drain-nothing (suc n) x h = ap (λ d. d.0) (drain-none n x h)

  sse_events-flatten_from :
      (x : List ℕ) (chunks : List (List ℕ))
      → find_frame_end x ≡ none
      → sse_events parse x (map some chunks) ≡ (feed parse x (flatten chunks)).0
  unfolding sse_events feed
  sse_events-flatten_from x [] h = sym (
      subst (λ l. (drain parse (length l) l).0 ≡ []) (sym (append-nil x))
        (drain-nothing (length x) x h))
  sse_events-flatten_from x (b ∷ bs) h =
      let d = feed parse x b in
      ap (◌++◌ d.0)
        (sse_events-flatten_from d.1 bs (drain_done (length (x ++ b)) (x ++ b) (omega arith)))
      ∙ sym (
          ap (λ e. e.0)
            (drain-append (length (x ++ b)) (length ((x ++ b) ++ flatten bs))
              (length (d.1 ++ flatten bs)) (x ++ b) (flatten bs) (omega arith) (omega arith)
              (omega arith)))
      ∙ ap (λ l. (drain parse (length l) l).0) (append_assoc x b (flatten bs))

  -- The events that come out of a stream do not depend on where its chunks begin and end: they are
  -- those of the frames of all its bytes, taken at once.
  pub sse_events-flatten :
      (chunks : List (List ℕ))
      → sse_events parse [] (map some chunks) ≡ (feed parse [] (flatten chunks)).0
  unfolding find_frame_end
  sse_events-flatten chunks = sse_events-flatten_from [] chunks refl
