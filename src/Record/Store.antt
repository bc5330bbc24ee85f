-- ===== src/Record/Store.antt =====
-- crates/tideline-server/src/tlr/store.rs: what clients supply, what the store returns, its errors.
use tideline.Base.{ℕ, String, ◌≡◌, ap, ◌⊎◌, inl, inr, refl, Option, none, some, dec_text}
use tideline.Base.Table.{Table}
use tideline.Platform.{Platform}
use tideline.Proto.Kind.{EventKind}
use tideline.Proto.Digest.{Hash}

-- The columns `ns` and `run_id`, by which every table is keyed.
abbrev pub RunKey : Type 0
RunKey = String × String

abbrev pub key_eq : {a b c d : String} → a ≡ c → b ≡ d → ◌≡◌ {A = RunKey} (a, b) (c, d)
key_eq x y = λ i. (x i, y i)

unfoldable pub dec_key : Discrete RunKey
dec_key (a, b) (c, d) = elim (dec_text a c) [
  | no n ↦ no (λ e. n (ap (λ (k : RunKey). k.0) e))
  | yes x ↦ elim (dec_text b d) [
    | no n ↦ no (λ e. n (ap (λ (k : RunKey). k.1) e))
    | yes y ↦ yes (key_eq x y)
  ]
]

pub record Agent : Type 0 where
  pub name : String
  pub version : String

pub record RunEnvelope : Type 0 where
  pub run_id : String
  pub started_ts : ℕ
  pub ended_ts : Option ℕ
  pub agent : Agent
  pub subject_ref : Option String
  pub labels : Table String String
  pub head_seq : ℕ
  pub head_hash : Hash

pub record NewRun : Type 0 where
  pub run_id : String
  pub agent : Agent
  pub subject_ref : Option String
  pub labels : Table String String

pub record NewEvent (p : Platform) : Type 0 where
  pub kind : EventKind
  pub role : Option String
  pub name : Option String
  pub content : Option String
  pub metadata : Option p.RawValue

pub record AppendResult : Type 0 where
  pub seq : ℕ
  pub ts : ℕ
  pub prev_hash : Hash
  pub hash : Hash

-- The texts that the store formats, by what they say.
pub data Message : Type 0 where
  run_is_sealed : Message
  run_exists : String → Message
  gate_resolved : ℕ → Message
  is_structural : String → Message
  unique_failed : Message
  driver : String → Message

pub data StoreError : Type 0 where
  not_found : StoreError
  conflict : Message → StoreError
  invalid : Message → StoreError
  backend : Message → StoreError

pub data StoreResult {ℓ} (A : Type ℓ) : Type ℓ where
  ok : A → StoreResult A
  err : StoreError → StoreResult A

infixl 10 ◌>>=◌ ◌>>◌
abbrev pub ◌>>=◌ {ℓ κ} :
    {A : Type ℓ} {B : Type κ} → StoreResult A → (A → StoreResult B) → StoreResult B
ok a >>= f = f a
err e >>= f = err e

abbrev pub ◌>>◌ {ℓ} : {B : Type ℓ} → StoreResult (Unit {0}) → StoreResult B → StoreResult B
m >> k = m >>= λ _. k

abbrev pub ok_or {ℓ} : {A : Type ℓ} → StoreError → Option A → StoreResult A
ok_or e none = err e
ok_or e (some a) = ok a

pub Result-cases {ℓ} :
    {A : Type ℓ} (x : StoreResult A) → ((a : A) × (x ≡ ok a)) ⊎ ((e : StoreError) × (x ≡ err e))
Result-cases (ok a) = inl (a, refl)
Result-cases (err e) = inr (e, refl)
