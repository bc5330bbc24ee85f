-- ===== src/Proto/Checkpoint.antt =====
-- crates/tideline-proto/src/checkpoint.rs: a server's signed statement of a run's head.
pub mod Signed
use tideline.Base.{
  ℕ, String, List, [], ◌∷◌, ◌++◌, none, some, as_bytes, length, ◌==◌, if◌then◌else◌,
}
use tideline.Base.Bytes.{to_be_bytes}
use tideline.Platform.{Platform}
use tideline.Signing.{Signing}
use tideline.Proto.Digest.{Hash}

abbrev pub checkpoint_canon_len : ℕ
checkpoint_canon_len = 119

-- b"tlrcp1\n"
abbrev pub domain : List ℕ
domain = b't' ∷ b'l' ∷ b'r' ∷ b'c' ∷ b'p' ∷ b'1' ∷ 10 ∷ []

pub record Checkpoint (s : Signing) : Type 0 where
  pub run_id : String
  pub seq : ℕ
  pub head_hash : Hash
  pub ts : ℕ
  pub key_id : String
  pub sig : s.Base64

pub data CheckpointError : Type 0 where
  malformed_signature bad_signature : CheckpointError

pub data Verified : Type 0 where
  ok : Verified
  err : CheckpointError → Verified

module _ (p : Platform) (s : Signing) where
  -- `canon` reads every field but the signature.
  unfoldable pub canon_of : String → ℕ → Hash → ℕ → String → List ℕ
  canon_of run_id seq head_hash ts key_id =
      domain
      ++ (p.sha256 (as_bytes run_id)
          ++ (to_be_bytes seq ++ (head_hash ++ (to_be_bytes ts ++ p.sha256 (as_bytes key_id)))))

  unfoldable pub canon : Checkpoint s → List ℕ
  canon c = canon_of c.run_id c.seq c.head_hash c.ts c.key_id

  unfoldable pub sign : String → ℕ → Hash → ℕ → String → s.SigningKey → Checkpoint s
  sign run_id seq head_hash ts key_id key = record {
    run_id = run_id;
    seq = seq;
    head_hash = head_hash;
    ts = ts;
    key_id = key_id;
    sig = s.encode (s.sign key (canon_of run_id seq head_hash ts key_id));
  }

  unfoldable pub verify : Checkpoint s → s.VerifyingKey → Verified
  verify c key = elim (s.decode c.sig) [
    | none ↦ err malformed_signature
    | some raw ↦
        if length raw == 64
        then (if s.verify key (canon c) raw then ok else err bad_signature)
        else err malformed_signature
  ]
