-- ===== src/Proto/Canon.antt =====
-- crates/tideline-proto/src/canon.rs: the canonical bytes of an event and its hash. A text is its
-- bytes here, for the chain commits to nothing else.
pub mod Layout
use tideline.Base.{ℕ, String, Option, none, some, List, [], ◌∷◌, ◌++◌, as_bytes, dec_text}
use tideline.Base.Bytes.{to_be_bytes}
use tideline.Base.Table.{Table}
use tideline.Base.Table
use tideline.Platform.{Platform}
use tideline.Proto.Kind.{EventKind, as_str}
use tideline.Proto.Digest.{Hash, zero_hash}

-- `Option::map`
abbrev pub map_option {ℓ κ} : {A : Type ℓ} {B : Type κ} → (A → B) → Option A → Option B
map_option f none = none
map_option f (some a) = some (f a)

abbrev pub unwrap_or {ℓ} : {A : Type ℓ} → A → Option A → A
unwrap_or d none = d
unwrap_or d (some a) = a

abbrev pub canon_len : ℕ
canon_len = 181

-- b"tlr1\n"
abbrev pub domain : List ℕ
domain = b't' ∷ b'l' ∷ b'r' ∷ b'1' ∷ 10 ∷ []

abbrev pub redactable : List String
redactable = "role" ∷ "name" ∷ "content" ∷ "metadata" ∷ []

pub record EventCore : Type 0 where
  pub seq : ℕ
  pub ts : ℕ
  pub kind : EventKind
  pub role : Option (List ℕ)
  pub name : Option (List ℕ)
  pub content : Option (List ℕ)
  pub metadata_raw : Option (List ℕ)
  pub redacted : Option (Table String Hash)

-- The digest that was kept for an erased field, zero if there is none.
unfoldable pub retained : Option (Table String Hash) → String → Hash
retained none field = zero_hash
retained (some m) field = unwrap_or zero_hash (Table.get dec_text field m)

module _ (p : Platform) where
  -- A value that is there gives its own digest, an erased one the digest that was kept.
  unfoldable pub digest : EventCore → String → Option (List ℕ) → Hash
  digest e field (some v) = p.sha256 v
  digest e field none = retained e.redacted field

  unfoldable pub canon : EventCore → List ℕ
  canon e =
      domain
      ++ (to_be_bytes e.seq
          ++ (to_be_bytes e.ts
              ++ (p.sha256 (as_bytes (as_str e.kind))
                  ++ (digest e "role" e.role
                      ++ (digest e "name" e.name
                          ++ (digest e "content" e.content
                              ++ digest e "metadata" e.metadata_raw))))))

  unfoldable pub hash : EventCore → Hash → Hash
  hash e prev = p.sha256 (canon e ++ prev)
