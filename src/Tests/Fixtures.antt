-- ===== src/Tests/Fixtures.antt =====
-- The data of the tests: a platform and a signing scheme that compute, a few calls and events.
use tideline.Base.{
  ℕ, ◌≡◌, refl, String, Bool, true, none, some, List, [], ◌∷◌, replicate, length, ◌==◌, arith, All,
  zero, suc,
}
use tideline.Base.Json.{Value, object}
use tideline.Platform.{Platform, IsPlatform}
use tideline.Signing.{Signing, IsSigning}
use tideline.Proto.Kind
use tideline.Proto.Digest.{Hash, zero_hash}
use tideline.Proto.Event.{RunEvent}
use tideline.Record.Store.{RunKey, NewRun, NewEvent}
use tideline.Record.Tables.{RunRow}
use tideline.Record.History.{Call, creates, appends, seals}

-- A digest of 32 numbers: the length of what is hashed, and zeros.
abbrev pub digest_of : List ℕ → List ℕ
digest_of bytes = length bytes ∷ replicate 31 0

-- A platform whose JSON texts are the values themselves.
abbrev pub plain : Platform
plain = record {
  RawValue = Value;
  raw_bytes = λ v. 0 ∷ [];
  to_raw = λ v. v;
  from_raw = λ v. some v;
  sha256 = digest_of;
}

pub plain-IsPlatform : IsPlatform plain
plain-IsPlatform = record {
  digest_width = λ bytes. refl;
  printed = λ fs flat. (object fs, refl, λ k. refl);
}

abbrev pub starts_with : ℕ → List ℕ → Bool
starts_with k [] = k == 0
starts_with k (n ∷ ns) = n == k

abbrev pub first_byte : List ℕ → ℕ
first_byte [] = 0
first_byte (n ∷ ns) = n

-- A scheme whose signatures name their key.
abbrev pub stamps : Signing
stamps = record {
  SigningKey = ℕ;
  VerifyingKey = ℕ;
  Base64 = List ℕ;
  verifying_key = λ k. k;
  sign = λ k m. k ∷ replicate 63 0;
  verify = λ k m raw. starts_with k raw;
  encode = λ bytes. bytes;
  decode = λ bytes. some bytes;
  key_from_bytes = λ bytes. some (first_byte bytes);
}

==-self : (n : ℕ) → (n == n) ≡ true
==-self n = ground arith

pub stamps-IsSigning : IsSigning stamps
stamps-IsSigning = record {
  decode-encode = λ bytes. refl;
  signature_width = λ k m. refl;
  verify-sign = λ k m. ==-self k;
}

abbrev pub key : RunKey
key = ("acme", "r1")

abbrev pub new_run : NewRun
new_run = record {
  run_id = "r1";
  agent = record { name = "bot"; version = "1" };
  subject_ref = none;
  labels = [];
}

abbrev pub said : String → NewEvent plain
said content = record {
  kind = Kind.message;
  role = some "user";
  name = none;
  content = some content;
  metadata = none;
}

abbrev pub two_calls : List (Call plain stamps)
two_calls = creates 10 "acme" new_run ∷ appends 11 key (said "hi") (some "k1") ∷ []

abbrev pub three_calls : List (Call plain stamps)
three_calls = creates 10 "acme" new_run ∷ appends 11 key (said "hi") (some "k1") ∷ seals 12 key ∷ []

-- Every hash of the tests: that of 213 bytes.
abbrev pub any_hash : Hash
any_hash = 213 ∷ replicate 31 0

abbrev pub sealed_row : RunRow
sealed_row = record {
  started_ts = 10;
  ended_ts = some 12;
  agent = new_run.agent;
  subject_ref = none;
  labels = [];
  head_seq = 2;
  head_hash = any_hash;
}

abbrev pub opening_event : RunEvent plain
opening_event = record {
  seq = 0;
  ts = 10;
  kind = Kind.run_started;
  role = none;
  name = none;
  content = none;
  metadata = none;
  redacted = none;
  prev_hash = zero_hash;
  hash = any_hash;
}

abbrev pub second_event : RunEvent plain
second_event = record {
  seq = 1;
  ts = 11;
  kind = Kind.message;
  role = some "user";
  name = none;
  content = some "hi";
  metadata = none;
  redacted = none;
  prev_hash = any_hash;
  hash = any_hash;
}

pub All-replicate : (P : ℕ → Type 0) (n k : ℕ) → P k → All P (replicate n k)
All-replicate P zero k h = tt
All-replicate P (suc n) k h = (h, All-replicate P n k h)
