-- ===== src/Proto/Canon/Layout.antt =====
-- crates/tideline-proto/src/canon.rs: the layout of the canonical bytes.
use tideline.Base.{
  ℕ, String, ◌<◌, ◌≡◌, ◌≢◌, ◌⊎◌, inl, inr, refl, ap, Option, none, some, List, [], ◌∷◌, length,
  length-append, append-eq_parts, as_bytes, dec_bytes, arith, sym, ◌∙◌, ite,
}
use tideline.Base.Bytes.{to_be_bytes, length-be_bytes, to_be_bytes_cancel, u64_mod}
use tideline.Platform.{Platform, IsPlatform}
use tideline.Proto.Kind.{
  EventKind, all, as_str, run_started, message, model_call, tool_call, decision, redaction,
  run_finished,
}
use tideline.Proto.Canon.{EventCore, retained, digest, canon, canon_len, domain}

-- Two byte strings with one digest.
pub record Collision (p : Platform) : Type 0 where
  pub left : List ℕ
  pub right : List ℕ
  pub distinct : left ≢ right
  pub same : p.sha256 left ≡ p.sha256 right

-- An event within the types of the source: `u64` fields, and 32 bytes in each digest that was kept.
pub record IsCore (e : EventCore) : Type 0 where
  pub seq_fits : e.seq < u64_mod
  pub ts_fits : e.ts < u64_mod
  pub kept_width : (field : String) → length (retained e.redacted field) ≡ 32

module _ (p : Platform) (laws : IsPlatform p) where
  length-digest :
      (e : EventCore) (field : String) (v : Option (List ℕ))
      → IsCore e
      → length (digest p e field v) ≡ 32
  unfolding digest
  length-digest e field none h = h.kept_width field
  length-digest e field (some v) h = laws.digest_width v

  -- The canonical form of an event has 181 bytes.
  pub length-canon : (e : EventCore) → IsCore e → length (canon p e) ≡ canon_len
  unfolding canon
  length-canon e h = simp length-append (
      omega (
        arith,
        length-be_bytes 8 e.seq,
        length-be_bytes 8 e.ts,
        laws.digest_width (as_bytes (as_str e.kind)),
        length-digest e "role" e.role h,
        length-digest e "name" e.name h,
        length-digest e "content" e.content h,
        length-digest e "metadata" e.metadata_raw h,
      ))

  -- What two events with the same canonical bytes have in common, part by part.
  pub record SameParts (e f : EventCore) : Type 0 where
    pub seq : e.seq ≡ f.seq
    pub ts : e.ts ≡ f.ts
    pub kind : p.sha256 (as_bytes (as_str e.kind)) ≡ p.sha256 (as_bytes (as_str f.kind))
    pub role : digest p e "role" e.role ≡ digest p f "role" f.role
    pub name : digest p e "name" e.name ≡ digest p f "name" f.name
    pub content : digest p e "content" e.content ≡ digest p f "content" f.content
    pub metadata : digest p e "metadata" e.metadata_raw ≡ digest p f "metadata" f.metadata_raw

  pub canon-SameParts :
      (e f : EventCore) → IsCore e → IsCore f → canon p e ≡ canon p f → SameParts e f
  unfolding canon
  canon-SameParts e f h k eq =
      let (_, r0) = append-eq_parts domain domain _ _ refl eq in
      let (seq, r1) =
        append-eq_parts (to_be_bytes e.seq) (to_be_bytes f.seq) _ _ (be_widths e.seq f.seq) r0 in
      let (ts, r2) =
        append-eq_parts (to_be_bytes e.ts) (to_be_bytes f.ts) _ _ (be_widths e.ts f.ts) r1 in
      let (kind, r3) =
        append-eq_parts (p.sha256 (as_bytes (as_str e.kind))) (p.sha256 (as_bytes (as_str f.kind)))
          _ _ (laws.digest_width _ ∙ sym (laws.digest_width _)) r2 in
      let (role, r4) = append-eq_parts _ _ _ _ (widths "role" e.role f.role) r3 in
      let (name, r5) = append-eq_parts _ _ _ _ (widths "name" e.name f.name) r4 in
      let (content, metadata) = append-eq_parts _ _ _ _ (widths "content" e.content f.content) r5 in
      record {
        seq = to_be_bytes_cancel e.seq f.seq h.seq_fits k.seq_fits seq;
        ts = to_be_bytes_cancel e.ts f.ts h.ts_fits k.ts_fits ts;
        kind = kind;
        role = role;
        name = name;
        content = content;
        metadata = metadata;
      }
    where
      be_widths : (m n : ℕ) → length (to_be_bytes m) ≡ length (to_be_bytes n)
      be_widths m n = length-be_bytes 8 m ∙ sym (length-be_bytes 8 n)

      widths :
          (field : String) (v w : Option (List ℕ))
          → length (digest p e field v) ≡ length (digest p f field w)
      widths field v w = length-digest e field v h ∙ sym (length-digest f field w k)

  -- Equal digests are those of equal bytes, or a collision.
  pub sha256_cancel : (x y : List ℕ) → p.sha256 x ≡ p.sha256 y → (x ≡ y) ⊎ Collision p
  sha256_cancel x y h = elim (dec_bytes x y) [
    | yes e ↦ inl e
    | no n ↦ inr (record { left = x; right = y; distinct = n; same = h })
  ]

-- Two values of one field that are both there are the same bytes.
abbrev pub Agree : Option (List ℕ) → Option (List ℕ) → Type 0
Agree (some v) (some w) = v ≡ w
Agree _ _ = Unit

-- What the canonical bytes bind, where no value is erased.
pub record SameValues (e f : EventCore) : Type 0 where
  pub seq : e.seq ≡ f.seq
  pub ts : e.ts ≡ f.ts
  pub kind : e.kind ≡ f.kind
  pub role : Agree e.role f.role
  pub name : Agree e.name f.name
  pub content : Agree e.content f.content
  pub metadata : Agree e.metadata_raw f.metadata_raw

-- The kind whose wire string has these bytes.
kind_of_bytes : List ℕ → List EventKind → EventKind
kind_of_bytes b [] = message
kind_of_bytes b (k ∷ ks) = ite (dec_bytes (as_bytes (as_str k)) b) k (kind_of_bytes b ks)

kind_of_bytes-as_str : (k : EventKind) → kind_of_bytes (as_bytes (as_str k)) all ≡ k
unfolding kind_of_bytes as_str as_bytes dec_bytes
kind_of_bytes-as_str run_started = refl
kind_of_bytes-as_str message = refl
kind_of_bytes-as_str model_call = refl
kind_of_bytes-as_str tool_call = refl
kind_of_bytes-as_str decision = refl
kind_of_bytes-as_str redaction = refl
kind_of_bytes-as_str run_finished = refl

as_str_cancel : (j k : EventKind) → as_bytes (as_str j) ≡ as_bytes (as_str k) → j ≡ k
as_str_cancel j k h =
    sym (kind_of_bytes-as_str j) ∙ ap (λ b. kind_of_bytes b all) h ∙ kind_of_bytes-as_str k

module _ (p : Platform) (laws : IsPlatform p) where
  Agree-of_digest :
      (e f : EventCore) (field : String) (v w : Option (List ℕ))
      → digest p e field v ≡ digest p f field w
      → Agree v w ⊎ Collision p
  unfolding digest
  Agree-of_digest e f field (some v) (some w) h = sha256_cancel p laws v w h
  Agree-of_digest e f field none w h = inl tt
  Agree-of_digest e f field (some v) none h = inl tt

  -- Two events with the same canonical bytes have the same place, time and kind, and the same bytes
  -- in each field that neither has erased or left out; or they exhibit a collision of SHA-256.
  pub canon-SameValues :
      (e f : EventCore) → IsCore e → IsCore f → canon p e ≡ canon p f → SameValues e f ⊎ Collision p
  canon-SameValues e f h k eq =
      let same = canon-SameParts p laws e f h k eq in
      elim (sha256_cancel p laws (as_bytes (as_str e.kind)) (as_bytes (as_str f.kind)) same.kind) [
        | inr c ↦ inr c
        | inl kind ↦ elim (Agree-of_digest e f "role" e.role f.role same.role) [
          | inr c ↦ inr c
          | inl role ↦ elim (Agree-of_digest e f "name" e.name f.name same.name) [
            | inr c ↦ inr c
            | inl name ↦ elim (Agree-of_digest e f "content" e.content f.content same.content) [
              | inr c ↦ inr c
              | inl content ↦
                  elim (Agree-of_digest e f "metadata" e.metadata_raw f.metadata_raw
                    same.metadata) [
                      | inr c ↦ inr c
                      | inl metadata ↦ inl (record {
                        seq = same.seq;
                        ts = same.ts;
                        kind = as_str_cancel e.kind f.kind kind;
                        role = role;
                        name = name;
                        content = content;
                        metadata = metadata;
                      })
                    ]
            ]
          ]
        ]
      ]
