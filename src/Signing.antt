-- ===== src/Signing.antt =====
-- What the program takes from ed25519-dalek and base64: keys, signatures and the text of bytes. The
-- documented behaviour that proofs rely on is `IsSigning`.
use tideline.Base.{ℕ, ◌≡◌, Bool, true, Option, some, List, length}

pub record Signing : Type 1 where
  pub SigningKey : Type 0
  pub VerifyingKey : Type 0
  -- A text that may be the base64 of some bytes.
  pub Base64 : Type 0
  pub verifying_key : SigningKey → VerifyingKey
  pub sign : SigningKey → List ℕ → List ℕ
  -- Whether a 64-byte signature is one of the message under the key.
  pub verify : VerifyingKey → List ℕ → List ℕ → Bool
  pub encode : List ℕ → Base64
  pub decode : Base64 → Option (List ℕ)
  -- `VerifyingKey::from_bytes(..).ok()`
  pub key_from_bytes : List ℕ → Option VerifyingKey

pub record IsSigning (s : Signing) : Type 0 where
  pub decode-encode : (bytes : List ℕ) → s.decode (s.encode bytes) ≡ some bytes
  pub signature_width : (k : s.SigningKey) (m : List ℕ) → length (s.sign k m) ≡ 64
  pub verify-sign :
      (k : s.SigningKey) (m : List ℕ) → s.verify (s.verifying_key k) m (s.sign k m) ≡ true
