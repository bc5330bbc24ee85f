-- ===== src/Stream/Buffer.antt =====
-- crates/tideline-server/src/stream.rs: the buffer of a stream and its snapshots.
use tideline.Base.{
  ℕ, zero, suc, ◌+◌, ◌-◌, ◌≤◌, ◌<◌, ◌≡◌, ◌↔◌, inl, inr, refl, sym, ap, ◌∙◌, subst, String, true,
  List, [], ◌∷◌, ◌++◌, length, length-append, max, arith, ltb, leb, ltb→lt, leb→le, Bool-cases,
  drop,
}
use tideline.Stream.{
  Token, Inner, Stream, with_capacity, trim, publish, complete, fail, touch, earliest_retained,
  filter_from, snapshot_from,
}

-- The offsets of the tokens are `i`, `i + 1`, and so on.
abbrev pub From : ℕ → List Token → Type 0
From i [] = Unit
From i (t ∷ ts) = (t.offset ≡ i) × From (suc i) ts

pub record IsBuffer (inner : Inner) : Type 0 where
  pub start : ℕ
  pub offsets : From start inner.tokens
  pub ends : start + length inner.tokens ≡ inner.next_offset
  pub capped : length inner.tokens ≤ inner.max_buffer
  pub positive : 1 ≤ inner.max_buffer

-- Trimming drops tokens at the front, as few as it must.
pub trim_drops : (cap : ℕ) (ts : List Token) → trim cap ts ≡ drop (length ts - cap) ts
unfolding trim
trim_drops cap [] = ground arith
trim_drops cap (t ∷ ts) = elim (Bool-cases (ltb cap (length (t ∷ ts)))) [
  | inl c ↦
      let over : length (t ∷ ts) - cap ≡ suc (length ts - cap) =
        omega (arith, ltb→lt cap (length (t ∷ ts)) c) in
      rw (c, over) (trim_drops cap ts)
  | inr c ↦ let fits : length (t ∷ ts) - cap ≡ 0 = ground (arith, c) in rw (c, fits)
]

From-append :
    (i : ℕ) (ts : List Token) (t : Token)
    → From i ts
    → t.offset ≡ i + length ts
    → From i (ts ++ t ∷ [])
From-append i [] t h e = (omega arith, tt)
From-append i (x ∷ xs) t h e = (h.0, From-append (suc i) xs t h.1 (omega arith))

From-drop : (n i : ℕ) (ts : List Token) → From i ts → n ≤ length ts → From (i + n) (drop n ts)
From-drop zero i ts h le = subst (λ j. From j ts) (omega arith) h
From-drop (suc n) i [] h le = tt
From-drop (suc n) i (t ∷ ts) h le =
    subst (λ j. From j (drop n ts)) (omega arith) (From-drop n (suc i) ts h.1 (omega arith))

pub length-drop : (n : ℕ) (ts : List Token) → length (drop n ts) ≡ length ts - n
length-drop zero ts = omega arith
length-drop (suc n) [] = omega arith
length-drop (suc n) (t ∷ ts) = omega (arith, length-drop n ts)

-- Publishing gives the next offset, whatever the state of the stream, and keeps the buffer an unbroken
-- run that ends at the newest token and is within the cap.
pub publish-IsBuffer :
    (s : Stream) (now : ℕ) (text : String)
    → IsBuffer s.inner
    → ((publish s now text).0 ≡ s.inner.next_offset) × IsBuffer (publish s now text).1.inner
unfolding publish
publish-IsBuffer s now text b =
    let t : Token = record { offset = s.inner.next_offset; text = text } in
    let ts = s.inner.tokens ++ t ∷ [] in
    let cap = s.inner.max_buffer in
    let n = length ts - cap in
    let grown = length-append s.inner.tokens (t ∷ []) in
    let left = ap length (trim_drops cap ts) ∙ length-drop n ts in
    (
      refl,
      record {
        start = b.start + n;
        offsets = subst (From (b.start + n)) (sym (trim_drops cap ts)) (
            From-drop n b.start ts (From-append b.start s.inner.tokens t b.offsets (sym b.ends))
              (omega arith));
        ends = omega (arith, left, grown, b.ends, b.capped, b.positive);
        capped = omega (arith, left);
        positive = b.positive;
      },
    )

with_capacity-IsBuffer : (now max_buffer : ℕ) → IsBuffer (with_capacity now max_buffer).inner
unfolding with_capacity
with_capacity-IsBuffer now max_buffer = record {
  start = 0;
  offsets = tt;
  ends = omega arith;
  capped = omega arith;
  positive = omega arith;
}

-- What a stream goes through.
pub data Op : Type 0 where
  publishes : ℕ → String → Op
  completes : ℕ → Op
  fails : ℕ → String → Op
  touches : ℕ → Op

unfoldable pub apply : Stream → Op → Stream
apply s (publishes now text) = (publish s now text).1
apply s (completes now) = complete s now
apply s (fails now message) = fail s now message
apply s (touches now) = touch s now

unfoldable pub apply_all : Stream → List Op → Stream
apply_all s [] = s
apply_all s (o ∷ os) = apply_all (apply s o) os

abbrev SameBuffer : (a b : Inner) → Type 0
SameBuffer a b =
    (b.tokens ≡ a.tokens) × (b.next_offset ≡ a.next_offset) × (b.max_buffer ≡ a.max_buffer)

complete-SameBuffer : (s : Stream) (now : ℕ) → SameBuffer s.inner (complete s now).inner
unfolding complete
complete-SameBuffer s now = ground arith

fail-SameBuffer :
    (s : Stream) (now : ℕ) (message : String) → SameBuffer s.inner (fail s now message).inner
unfolding fail
fail-SameBuffer s now message = ground arith

IsBuffer-SameBuffer : (a b : Inner) → SameBuffer a b → IsBuffer a → IsBuffer b
IsBuffer-SameBuffer a b (t, n, m) h = record {
  start = h.start;
  offsets = subst (From h.start) (sym t) h.offsets;
  ends = ap (λ ts. h.start + length ts) t ∙ h.ends ∙ sym n;
  capped = rw (t, m) h.capped;
  positive = rw m h.positive;
}

apply-IsBuffer : (s : Stream) (o : Op) → IsBuffer s.inner → IsBuffer (apply s o).inner
unfolding apply touch
apply-IsBuffer s (publishes now text) b = (publish-IsBuffer s now text b).1
apply-IsBuffer s (completes now) b = IsBuffer-SameBuffer s.inner _ (complete-SameBuffer s now) b
apply-IsBuffer s (fails now message) b =
    IsBuffer-SameBuffer s.inner _ (fail-SameBuffer s now message) b
apply-IsBuffer s (touches now) b = IsBuffer-SameBuffer s.inner _ (refl, refl, refl) b

pub apply_all-IsBuffer :
    (s : Stream) (os : List Op) → IsBuffer s.inner → IsBuffer (apply_all s os).inner
unfolding apply_all
apply_all-IsBuffer s [] b = b
apply_all-IsBuffer s (o ∷ os) b = apply_all-IsBuffer (apply s o) os (apply-IsBuffer s o b)

apply-max_buffer : (s : Stream) (o : Op) → (apply s o).inner.max_buffer ≡ s.inner.max_buffer
unfolding apply publish touch
apply-max_buffer s (publishes now text) = refl
apply-max_buffer s (completes now) = (complete-SameBuffer s now).2
apply-max_buffer s (fails now message) = (fail-SameBuffer s now message).2
apply-max_buffer s (touches now) = refl

apply_all-max_buffer :
    (s : Stream) (os : List Op) → (apply_all s os).inner.max_buffer ≡ s.inner.max_buffer
unfolding apply_all
apply_all-max_buffer s [] = refl
apply_all-max_buffer s (o ∷ os) = apply_all-max_buffer (apply s o) os ∙ apply-max_buffer s o

-- The buffer of a stream, after any operations since it was made, is an unbroken run of offsets that
-- ends at the next one to be given, and is no longer than the capacity that the stream was made with,
-- or than 1 if that was 0.
pub stream-IsBuffer :
    (now max_buffer : ℕ) (os : List Op)
    → IsBuffer (apply_all (with_capacity now max_buffer) os).inner
      × (length (apply_all (with_capacity now max_buffer) os).inner.tokens ≤ max max_buffer 1)
unfolding with_capacity
stream-IsBuffer now max_buffer os =
    let b =
      apply_all-IsBuffer (with_capacity now max_buffer) os
        (with_capacity-IsBuffer now max_buffer) in
    let cap : (apply_all (with_capacity now max_buffer) os).inner.max_buffer ≡ max max_buffer 1 =
      apply_all-max_buffer (with_capacity now max_buffer) os in
    (b, omega (arith, b.capped, cap))

first_offset :
    (ts : List Token) (i n : ℕ)
    → From i ts
    → i + length ts ≡ n
    → elim ts [ [] ↦ n | t ∷ _ ↦ t.offset ] ≡ i
first_offset [] i n h e = omega arith
first_offset (t ∷ ts) i n h e = h.0

pub earliest_start : (inner : Inner) (b : IsBuffer inner) → earliest_retained inner ≡ b.start
unfolding earliest_retained
earliest_start inner b = first_offset inner.tokens b.start inner.next_offset b.offsets b.ends

drop-nil : (n : ℕ) → drop {A = Token} n [] ≡ []
drop-nil zero = refl
drop-nil (suc n) = refl

filter_from_all : (i eff : ℕ) (ts : List Token) → From i ts → eff ≤ i → filter_from eff ts ≡ ts
unfolding filter_from
filter_from_all i eff [] h le = refl
filter_from_all i eff (t ∷ ts) h le =
    ground (arith, h.0, filter_from_all (suc i) eff ts h.1 (omega arith))

filter_from_drops :
    (i eff : ℕ) (ts : List Token) → From i ts → i ≤ eff → filter_from eff ts ≡ drop (eff - i) ts
unfolding filter_from
filter_from_drops i eff [] h le = sym (drop-nil (eff - i))
filter_from_drops i eff (t ∷ ts) h le = elim (Bool-cases (leb eff t.offset)) [
  | inl c ↦
      let here : eff - i ≡ 0 = omega (arith, h.0, leb→le eff t.offset c) in
      rw (c, here)
        (ap (λ rest. t ∷ rest) (filter_from_all (suc i) eff ts h.1 (omega (arith, here))))
  | inr c ↦
      let past : i < eff = ground (arith, h.0, c) in
      let behind : eff - i ≡ suc (eff - suc i) = omega arith in
      rw (c, behind) (filter_from_drops (suc i) eff ts h.1 (omega arith))
]

-- A snapshot holds the retained tokens, their texts included, but for those before the wanted offset:
-- an unbroken run of offsets up to the boundary at which live tokens take over. It begins at the oldest
-- that is retained if the wanted one is gone, and exactly then it says that there is a gap.
pub snapshot_from-From :
    (s : Stream) (from : ℕ) (b : IsBuffer s.inner)
    → from ≤ s.inner.next_offset
    → ((snapshot_from s from).tokens ≡ drop (from - b.start) s.inner.tokens)
      × From (max from b.start) (snapshot_from s from).tokens
      × (max from b.start + length (snapshot_from s from).tokens ≡ (snapshot_from s from).total)
      × (((snapshot_from s from).gap ≡ true) ↔ (from < b.start))
unfolding snapshot_from
snapshot_from-From s from b le =
    let e = earliest_start s.inner b in
    let eff = max from b.start in
    let n = eff - b.start in
    let kept : filter_from (max from (earliest_retained s.inner)) s.inner.tokens
        ≡ drop n s.inner.tokens =
      rw e (filter_from_drops b.start eff s.inner.tokens b.offsets (omega arith)) in
    (
      kept ∙ ap (λ k. drop k s.inner.tokens) (omega arith),
      subst (From eff) (sym kept) (
          subst (λ j. From j (drop n s.inner.tokens)) (omega arith)
            (From-drop n b.start s.inner.tokens b.offsets (omega (arith, b.ends)))),
      omega (arith, ap length kept ∙ length-drop n s.inner.tokens, b.ends),
      (λ h. ground (arith, h, e), λ h. ground (arith, h, e)),
    )
