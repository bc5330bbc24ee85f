-- ===== src/Proto/Chain.antt =====
-- crates/tideline-proto/src/chain.rs: verifying a record from its first event to its last.
pub mod Linked
pub mod Verify
pub mod Faults
pub mod Tamper
use tideline.Base.{
  ℕ, suc, ◌≡◌, ◌⊎◌, refl, inl, inr, Bool, true, false, List, [], ◌∷◌, ite, length, last_or,
  dec_bytes, ℕ_discrete,
}
use tideline.Platform.{Platform}
use tideline.Proto.Kind.{kind_discrete, run_started, run_finished}
use tideline.Proto.Digest.{Hash, zero_hash}
use tideline.Proto.Canon
use tideline.Proto.Event.{RunEvent, core}

pub record ChainOk : Type 0 where
  pub len : ℕ
  pub head_seq : ℕ
  pub head_hash : Hash
  pub is_sealed : Bool

pub data ChainError : Type 0 where
  empty : ChainError
  not_run_started : ChainError
  seq_gap : (expected found : ℕ) → ChainError
  prev_mismatch : (seq : ℕ) (expected found : Hash) → ChainError
  hash_mismatch : (seq : ℕ) (expected computed : Hash) → ChainError

pub data Checked {ℓ} (A : Type ℓ) : Type ℓ where
  ok : A → Checked A
  err : ChainError → Checked A

abbrev pub map_checked {ℓ κ} : {A : Type ℓ} {B : Type κ} → (A → B) → Checked A → Checked B
map_checked f (ok a) = ok (f a)
map_checked f (err e) = err e

pub Checked-cases {ℓ} :
    {A : Type ℓ} (c : Checked A) → ((a : A) × (c ≡ ok a)) ⊎ ((x : ChainError) × (c ≡ err x))
Checked-cases (ok a) = inl (a, refl)
Checked-cases (err x) = inr (x, refl)

module _ (p : Platform) where
  -- The three tests on one event, given its place and the hash before it: the hash to go on with.
  unfoldable pub check_event : ℕ → Hash → RunEvent p → Checked Hash
  check_event i prev e =
      ite (ℕ_discrete e.seq i)
        (ite (dec_bytes e.prev_hash prev)
          (ite (dec_bytes (Canon.hash p (core p e) prev) e.hash) (ok (Canon.hash p (core p e) prev))
            (err (hash_mismatch e.seq e.hash (Canon.hash p (core p e) prev))))
          (err (prev_mismatch e.seq prev e.prev_hash)))
        (err (seq_gap i e.seq))

  -- The loop over the events from place `i`.
  unfoldable pub check_from : ℕ → Hash → List (RunEvent p) → Checked (Unit {0})
  check_from i prev [] = ok tt
  check_from i prev (e ∷ es) = elim (check_event i prev e) [
    | ok computed ↦ check_from (suc i) computed es
    | err x ↦ err x
  ]

  abbrev pub summary : RunEvent p → List (RunEvent p) → ChainOk
  summary first rest = record {
    len = suc (length rest);
    head_seq = (last_or first rest).seq;
    head_hash = (last_or first rest).hash;
    is_sealed = ite (kind_discrete (last_or first rest).kind run_finished) true false;
  }

  unfoldable pub verify_chain : List (RunEvent p) → Checked ChainOk
  verify_chain [] = err empty
  verify_chain (first ∷ rest) =
      ite (kind_discrete first.kind run_started)
        (map_checked (λ _. summary first rest) (check_from 0 zero_hash (first ∷ rest)))
        (err not_run_started)
