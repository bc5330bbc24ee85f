-- ===== src/Proto/Checkpoint/Signed.antt =====
-- crates/tideline-proto/src/checkpoint.rs: signatures and the signed bytes.
use tideline.Base.{
  ℕ, String, ◌<◌, ◌≡◌, ◌⊎◌, inl, inr, refl, sym, ◌∙◌, as_bytes, length, length-append,
  append-eq_parts, arith,
}
use tideline.Base.Bytes.{to_be_bytes, length-be_bytes, to_be_bytes_cancel, u64_mod}
use tideline.Platform.{Platform, IsPlatform}
use tideline.Signing.{Signing, IsSigning}
use tideline.Proto.Digest.{Hash}
use tideline.Proto.Canon.Layout.{Collision, sha256_cancel}
use tideline.Proto.Checkpoint.{
  Checkpoint, ok, canon, canon_of, sign, verify, checkpoint_canon_len, domain,
}

module _ (p : Platform) (s : Signing) where
  -- A checkpoint that a key signed verifies under its public key.
  pub verify-sign :
      (laws : IsSigning s) (run_id : String) (seq : ℕ) (head_hash : Hash) (ts : ℕ) (key_id : String)
      (key : s.SigningKey)
      → verify p s (sign p s run_id seq head_hash ts key_id key) (s.verifying_key key) ≡ ok
  unfolding verify sign canon
  verify-sign laws run_id seq head_hash ts key_id key =
      let m = canon_of p s run_id seq head_hash ts key_id in
      ground (
        arith,
        laws.decode-encode (s.sign key m),
        laws.signature_width key m,
        laws.verify-sign key m,
      )

-- A checkpoint within the types of the source.
pub record IsCheckpoint {s : Signing} (c : Checkpoint s) : Type 0 where
  pub seq_fits : c.seq < u64_mod
  pub ts_fits : c.ts < u64_mod
  pub head_width : length c.head_hash ≡ 32

pub record SameStatement {s : Signing} (c d : Checkpoint s) : Type 0 where
  pub run_id : as_bytes c.run_id ≡ as_bytes d.run_id
  pub seq : c.seq ≡ d.seq
  pub head_hash : c.head_hash ≡ d.head_hash
  pub ts : c.ts ≡ d.ts
  pub key_id : as_bytes c.key_id ≡ as_bytes d.key_id

module _ (p : Platform) (laws : IsPlatform p) (s : Signing) where
  pub length-canon :
      (c : Checkpoint s) → IsCheckpoint c → length (canon p s c) ≡ checkpoint_canon_len
  unfolding canon canon_of
  length-canon c h = simp length-append (
      omega (
        arith,
        length-be_bytes 8 c.seq,
        length-be_bytes 8 c.ts,
        laws.digest_width (as_bytes c.run_id),
        laws.digest_width (as_bytes c.key_id),
        h.head_width,
      ))

  -- Two checkpoints with the same signed bytes state the same run, place, head, time and key, or
  -- show a collision of SHA-256: a signature cannot be carried over to another statement.
  pub canon-SameStatement :
      (c d : Checkpoint s)
      → IsCheckpoint c
      → IsCheckpoint d
      → canon p s c ≡ canon p s d
      → SameStatement c d ⊎ Collision p
  unfolding canon canon_of
  canon-SameStatement c d h k eq =
      let (_, r0) = append-eq_parts domain domain _ _ refl eq in
      let (run, r1) =
        append-eq_parts (p.sha256 (as_bytes c.run_id)) (p.sha256 (as_bytes d.run_id)) _ _
          (laws.digest_width _ ∙ sym (laws.digest_width _)) r0 in
      let (seq, r2) =
        append-eq_parts (to_be_bytes c.seq) (to_be_bytes d.seq) _ _ (be_widths c.seq d.seq) r1 in
      let (head, r3) = append-eq_parts _ _ _ _ (h.head_width ∙ sym k.head_width) r2 in
      let (ts, key) =
        append-eq_parts (to_be_bytes c.ts) (to_be_bytes d.ts) _ _ (be_widths c.ts d.ts) r3 in
      elim (sha256_cancel p laws (as_bytes c.run_id) (as_bytes d.run_id) run) [
        | inr x ↦ inr x
        | inl run_id ↦ elim (sha256_cancel p laws (as_bytes c.key_id) (as_bytes d.key_id) key) [
          | inr x ↦ inr x
          | inl key_id ↦ inl (record {
            run_id = run_id;
            seq = to_be_bytes_cancel c.seq d.seq h.seq_fits k.seq_fits seq;
            head_hash = head;
            ts = to_be_bytes_cancel c.ts d.ts h.ts_fits k.ts_fits ts;
            key_id = key_id;
          })
        ]
      ]
    where
      be_widths : (m n : ℕ) → length (to_be_bytes m) ≡ length (to_be_bytes n)
      be_widths m n = length-be_bytes 8 m ∙ sym (length-be_bytes 8 n)
