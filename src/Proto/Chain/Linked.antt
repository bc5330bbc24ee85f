-- ===== src/Proto/Chain/Linked.antt =====
-- The specification of a record, apart from the verifier: what a sound chain is, and what a fault of
-- one event is.
use tideline.Base.{
  ℕ, suc, ◌+◌, ◌≡◌, ◌≢◌, refl, true, false, List, [], ◌∷◌, ◌++◌, ite, length, last_or, arith, subst,
}
use tideline.Platform.{Platform}
use tideline.Proto.Kind.{kind_discrete, run_started, run_finished}
use tideline.Proto.Digest.{Hash, zero_hash}
use tideline.Proto.Canon
use tideline.Proto.Event.{RunEvent, core}
use tideline.Proto.Chain.{ChainOk, ChainError, seq_gap, prev_mismatch, hash_mismatch}

module _ (p : Platform) where
  -- The hash of an event that follows `prev`.
  abbrev pub hash_of : RunEvent p → Hash → Hash
  hash_of e prev = Canon.hash p (core p e) prev

  -- Each event names its place, its predecessor's hash, and its own.
  abbrev pub Linked : ℕ → Hash → List (RunEvent p) → Type 0
  Linked i prev [] = Unit
  Linked i prev (e ∷ es) =
      (e.seq ≡ i) × (e.prev_hash ≡ prev) × (hash_of e prev ≡ e.hash) × Linked (suc i) e.hash es

  -- The hash that the events leave, and that the next one must name.
  abbrev pub head_after : Hash → List (RunEvent p) → Hash
  head_after prev [] = prev
  head_after prev (e ∷ es) = head_after e.hash es

  -- A sound record: it opens with `run_started`, and its events are linked from the zero hash.
  abbrev pub IsChain : List (RunEvent p) → Type 0
  IsChain [] = ⊥
  IsChain (e ∷ es) = (e.kind ≡ run_started) × Linked 0 zero_hash (e ∷ es)

  -- What the verifier's report says of a record.
  abbrev pub Describes : List (RunEvent p) → ChainOk → Type 0
  Describes [] r = ⊥
  Describes (e ∷ es) r =
      (r.len ≡ suc (length es))
      × (r.head_seq ≡ (last_or e es).seq)
      × (r.head_hash ≡ (last_or e es).hash)
      × (r.is_sealed ≡ ite (kind_discrete (last_or e es).kind run_finished) true false)

  -- What is wrong with the event that stands at place `i` behind `prev`.
  pub data Fault (i : ℕ) (prev : Hash) (e : RunEvent p) : ChainError → Type 0 where
    gap : e.seq ≢ i → Fault i prev e (seq_gap i e.seq)
    relinked :
        e.seq ≡ i → e.prev_hash ≢ prev → Fault i prev e (prev_mismatch e.seq prev e.prev_hash)
    altered :
        e.seq ≡ i
        → e.prev_hash ≡ prev
        → hash_of e prev ≢ e.hash
        → Fault i prev e (hash_mismatch e.seq e.hash (hash_of e prev))

  pub Linked-append :
      (i : ℕ) (prev : Hash) (xs ys : List (RunEvent p))
      → Linked i prev (xs ++ ys)
      → Linked i prev xs × Linked (i + length xs) (head_after prev xs) ys
  Linked-append i prev [] ys h = (tt, subst (λ k. Linked k prev ys) (omega arith) h)
  Linked-append i prev (x ∷ xs) ys h =
      let ih = Linked-append (suc i) x.hash xs ys h.3 in
      ((h.0, h.1, h.2, ih.0), subst (λ k. Linked k (head_after x.hash xs) ys) (omega arith) ih.1)

  -- A linked list of events and a next one that fits are linked.
  pub append-Linked :
      (i : ℕ) (prev : Hash) (xs ys : List (RunEvent p))
      → Linked i prev xs
      → Linked (i + length xs) (head_after prev xs) ys
      → Linked i prev (xs ++ ys)
  append-Linked i prev [] ys h k = subst (λ j. Linked j prev ys) (omega arith) k
  append-Linked i prev (x ∷ xs) ys h k = (
    h.0,
    h.1,
    h.2,
    append-Linked (suc i) x.hash xs ys h.3
        (subst (λ j. Linked j (head_after x.hash xs) ys) (omega arith) k),
  )

  pub head_after-last_or :
      (prev : Hash) (e : RunEvent p) (es : List (RunEvent p))
      → head_after prev (e ∷ es) ≡ (last_or e es).hash
  head_after-last_or prev e [] = refl
  head_after-last_or prev e (f ∷ es) = head_after-last_or e.hash f es

  pub last_or-seq :
      (i : ℕ) (prev : Hash) (e : RunEvent p) (es : List (RunEvent p))
      → Linked i prev (e ∷ es)
      → (last_or e es).seq ≡ i + length es
  last_or-seq i prev e [] h = omega arith
  last_or-seq i prev e (f ∷ es) h = omega (arith, last_or-seq (suc i) e.hash f es h.3)
