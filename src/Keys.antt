-- ===== src/Keys.antt =====
-- crates/tideline-server/src/tlr/keys.rs: the key that signs checkpoints. Making a key out of a seed is
-- ed25519-dalek's, and the environment and the key file are arguments.
use tideline.Base.{ℕ, String, Option, none, some, List, length, take, ◌==◌, if◌then◌else◌}
use tideline.Platform.{Platform}
use tideline.Signing.{Signing}
use tideline.Proto.Digest.{Hash, to_hex}
use tideline.Proto.Checkpoint.{Checkpoint, sign}

-- `SigningKey::from_bytes`, `to_bytes`, `VerifyingKey::as_bytes`, and a text of ASCII bytes.
pub record Seeds (s : Signing) : Type 0 where
  pub from_bytes : List ℕ → s.SigningKey
  pub to_bytes : s.SigningKey → List ℕ
  pub as_bytes : s.VerifyingKey → List ℕ
  pub text : List ℕ → String

pub record SigningKeyring (s : Signing) : Type 0 where
  pub key : s.SigningKey
  pub key_id : String

-- Where `from_env` ends: with a keyring, and whether it was to be written to the key file, or with the
-- end of the process.
pub data Loaded (s : Signing) : Type 0 where
  kept : SigningKeyring s → Loaded s
  generated : SigningKeyring s → Loaded s
  saved : SigningKeyring s → s.Base64 → Loaded s
  exits : Loaded s

module _ (p : Platform) (s : Signing) (seeds : Seeds s) where
  unfoldable pub from_seed : List ℕ → SigningKeyring s
  from_seed seed = record {
    key = seeds.from_bytes seed;
    key_id =
        seeds.text
          (take 16 (to_hex (p.sha256 (seeds.as_bytes (s.verifying_key (seeds.from_bytes seed))))));
  }

  unfoldable pub from_seed_b64 : s.Base64 → Option (SigningKeyring s)
  from_seed_b64 b64 = elim (s.decode b64) [
    | none ↦ none
    | some raw ↦ if length raw == 32 then some (from_seed raw) else none
  ]

  unfoldable pub to_seed_b64 : SigningKeyring s → s.Base64
  to_seed_b64 k = s.encode (seeds.to_bytes k.key)

  -- With the path of the key file, if there is one, the trimmed text that it holds, if it can be read, and the
  -- random seed.
  unfoldable pub from_file_or_generate : Option String → Option s.Base64 → List ℕ → Loaded s
  from_file_or_generate none file seed = generated (from_seed seed)
  from_file_or_generate (some path) none seed =
      saved (from_seed seed) (to_seed_b64 (from_seed seed))
  from_file_or_generate (some path) (some text) seed = elim (from_seed_b64 text) [
    | some k ↦ kept k
    | none ↦ exits
  ]

  -- With the variable of the environment, when it is not empty.
  unfoldable pub from_env : Option s.Base64 → Option String → Option s.Base64 → List ℕ → Loaded s
  from_env none path file seed = from_file_or_generate path file seed
  from_env (some text) path file seed = elim (from_seed_b64 text) [
    | some k ↦ kept k
    | none ↦ from_file_or_generate path file seed
  ]

module _ (p : Platform) (s : Signing) where
  unfoldable pub sign_head : SigningKeyring s → String → ℕ → Hash → ℕ → Checkpoint s
  sign_head keys run_id seq head_hash ts = sign p s run_id seq head_hash ts keys.key_id keys.key
