-- ===== src/Platform.antt =====
-- What the program takes from the libraries it is built on: serde_json's `RawValue`, its printer and
-- its parser, and SHA-256. None of it is under the repository; the documented behaviour that proofs
-- rely on is `IsPlatform`.
use tideline.Base.{ℕ, String, ◌≡◌, Option, some, List, length}
use tideline.Base.Json.{Value, Fields, object, index, AreFlat}

pub record Platform : Type 1 where
  -- A JSON text, kept as the exact bytes that were read or printed.
  pub RawValue : Type 0
  -- `RawValue::get`, as bytes.
  pub raw_bytes : RawValue → List ℕ
  -- `Value::to_string` and `serde_json::to_string`, kept as the text that they print.
  pub to_raw : Value → RawValue
  -- `serde_json::from_str(..).ok()` at `Value`.
  pub from_raw : RawValue → Option Value
  -- `Sha256::digest`.
  pub sha256 : List ℕ → List ℕ

pub record IsPlatform (p : Platform) : Type 0 where
  -- A SHA-256 digest has 32 bytes.
  pub digest_width : (bytes : List ℕ) → length (p.sha256 bytes) ≡ 32
  -- An object of scalars that serde_json prints, it parses back to a value with the same entries. It
  -- sorts an object's keys.
  pub printed :
      (fs : Fields)
      → AreFlat fs
      → (w : Value) × (p.from_raw (p.to_raw (object fs)) ≡ some w)
        × ((k : String) → index w k ≡ index (object fs) k)
