-- ===== src/Record/Redact/Keeps.antt =====
-- `redact` of crates/tideline-server/src/tlr/sqlite.rs: the bytes that the chain commits to, before and
-- after.
use tideline.Base.{
  ℕ, String, ◌≡◌, Option, none, some, List, [], ◌∷◌, ◌++◌, as_bytes, dec_text, arith, refl, sym,
  ◌∙◌, subst, inl, inr, Option-cases, ◌≢◌,
}
use tideline.Base.Bytes.{to_be_bytes}
use tideline.Base.Table
use tideline.Base.Table.{Table, get-insert}
use tideline.Platform.{Platform}
use tideline.Proto.Kind
use tideline.Proto.Kind.{as_str, message}
use tideline.Proto.Digest.{Hash, zero_hash}
use tideline.Proto.Canon.{map_option, unwrap_or, retained, digest, canon, domain}
use tideline.Proto.Event.{core, metadata_raw}
use tideline.Record.Tables.{EventRow, row_to_event}
use tideline.Record.Redact.{present, set_null, erase_field, erase_fields, erased}

module _ (p : Platform) where
  -- The digest of a column, with the digests that are kept.
  abbrev pub column_digest : Table String Hash → String → Option (List ℕ) → Hash
  column_digest kept f (some v) = p.sha256 v
  column_digest kept f none = unwrap_or zero_hash (Table.get dec_text f kept)

  -- Two rows, each with its kept digests, that are alike in all that canon reads.
  pub record SameDigests (kept : Table String Hash) (r : EventRow p) (kept' : Table String Hash)
      (r' : EventRow p) : Type 0 where
    pub seq : r'.seq ≡ r.seq
    pub ts : r'.ts ≡ r.ts
    pub kind : r'.kind ≡ r.kind
    pub prev_hash : r'.prev_hash ≡ r.prev_hash
    pub hash : r'.hash ≡ r.hash
    pub role :
        column_digest kept' "role" (map_option as_bytes r'.role)
        ≡ column_digest kept "role" (map_option as_bytes r.role)
    pub name :
        column_digest kept' "name" (map_option as_bytes r'.name)
        ≡ column_digest kept "name" (map_option as_bytes r.name)
    pub content :
        column_digest kept' "content" (map_option as_bytes r'.content)
        ≡ column_digest kept "content" (map_option as_bytes r.content)
    pub metadata :
        column_digest kept' "metadata" (map_option p.raw_bytes r'.metadata)
        ≡ column_digest kept "metadata" (map_option p.raw_bytes r.metadata)

  abbrev Erases : Table String Hash → EventRow p → Table String Hash × EventRow p → Type 0
  Erases kept0 r0 (kept, r) = SameDigests kept0 r0 kept r

  erase_absent :
      (r0 : EventRow p) (f : String) (kept : Table String Hash) (r : EventRow p)
      → present p r0 f ≡ none
      → erase_field p r0 f (kept, r) ≡ (kept, r)
  unfolding erase_field
  erase_absent r0 f kept r e = rw (e, erase_field)

  erase_present :
      (r0 : EventRow p) (f : String) (kept : Table String Hash) (r : EventRow p) (v : List ℕ)
      → present p r0 f ≡ some v
      → erase_field p r0 f (kept, r) ≡ (Table.insert dec_text f (p.sha256 v) kept, set_null p f r)
  unfolding erase_field
  erase_present r0 f kept r v e = rw (e, erase_field)

  -- It is enough to look at a field that is there.
  erase_cases :
      (kept0 : Table String Hash) (r0 : EventRow p) (f : String) (kept : Table String Hash)
      (r : EventRow p)
      → SameDigests kept0 r0 kept r
      → ((v : List ℕ)
          → present p r0 f ≡ some v
          → SameDigests kept0 r0 (Table.insert dec_text f (p.sha256 v) kept) (set_null p f r))
      → Erases kept0 r0 (erase_field p r0 f (kept, r))
  erase_cases kept0 r0 f kept r h step = elim (Option-cases (present p r0 f)) [
    | inl e ↦ subst (Erases kept0 r0) (sym (erase_absent r0 f kept r e)) h
    | inr (v, e) ↦ subst (Erases kept0 r0) (sym (erase_present r0 f kept r v e)) (step v e)
  ]

  erase_role :
      (kept0 : Table String Hash) (r0 : EventRow p) (kept : Table String Hash) (r : EventRow p)
      → SameDigests kept0 r0 kept r
      → Erases kept0 r0 (erase_field p r0 "role" (kept, r))
  unfolding present set_null dec_text
  erase_role kept0 r0 kept r h = erase_cases kept0 r0 "role" kept r h (λ v e. ground (
    arith,
    get-insert dec_text "role" "role" (p.sha256 v) kept,
    get-insert dec_text "role" "name" (p.sha256 v) kept,
    get-insert dec_text "role" "content" (p.sha256 v) kept,
    get-insert dec_text "role" "metadata" (p.sha256 v) kept,
  ))

  erase_name :
      (kept0 : Table String Hash) (r0 : EventRow p) (kept : Table String Hash) (r : EventRow p)
      → SameDigests kept0 r0 kept r
      → Erases kept0 r0 (erase_field p r0 "name" (kept, r))
  unfolding present set_null dec_text
  erase_name kept0 r0 kept r h = erase_cases kept0 r0 "name" kept r h (λ v e. ground (
    arith,
    get-insert dec_text "name" "role" (p.sha256 v) kept,
    get-insert dec_text "name" "name" (p.sha256 v) kept,
    get-insert dec_text "name" "content" (p.sha256 v) kept,
    get-insert dec_text "name" "metadata" (p.sha256 v) kept,
  ))

  erase_content :
      (kept0 : Table String Hash) (r0 : EventRow p) (kept : Table String Hash) (r : EventRow p)
      → SameDigests kept0 r0 kept r
      → Erases kept0 r0 (erase_field p r0 "content" (kept, r))
  unfolding present set_null dec_text
  erase_content kept0 r0 kept r h = erase_cases kept0 r0 "content" kept r h (λ v e. ground (
    arith,
    get-insert dec_text "content" "role" (p.sha256 v) kept,
    get-insert dec_text "content" "name" (p.sha256 v) kept,
    get-insert dec_text "content" "content" (p.sha256 v) kept,
    get-insert dec_text "content" "metadata" (p.sha256 v) kept,
  ))

  erase_metadata :
      (kept0 : Table String Hash) (r0 : EventRow p) (kept : Table String Hash) (r : EventRow p)
      → SameDigests kept0 r0 kept r
      → Erases kept0 r0 (erase_field p r0 "metadata" (kept, r))
  unfolding present set_null dec_text
  erase_metadata kept0 r0 kept r h = erase_cases kept0 r0 "metadata" kept r h (λ v e. ground (
    arith,
    get-insert dec_text "metadata" "role" (p.sha256 v) kept,
    get-insert dec_text "metadata" "name" (p.sha256 v) kept,
    get-insert dec_text "metadata" "content" (p.sha256 v) kept,
    get-insert dec_text "metadata" "metadata" (p.sha256 v) kept,
  ))

  erase_other :
      (r0 : EventRow p) (f : String) (kept : Table String Hash) (r : EventRow p)
      → f ≢ "role"
      → f ≢ "name"
      → f ≢ "content"
      → f ≢ "metadata"
      → erase_field p r0 f (kept, r) ≡ (kept, r)
  unfolding erase_field present
  erase_other r0 f kept r a b c d = ground arith

  erase_field-SameDigests :
      (kept0 : Table String Hash) (r0 : EventRow p) (f : String) (kept : Table String Hash)
      (r : EventRow p)
      → SameDigests kept0 r0 kept r
      → Erases kept0 r0 (erase_field p r0 f (kept, r))
  erase_field-SameDigests kept0 r0 f kept r h = elim (dec_text f "role") [
    | yes e ↦
        subst (λ g. Erases kept0 r0 (erase_field p r0 g (kept, r))) (sym e)
          (erase_role kept0 r0 kept r h)
    | no n1 ↦ elim (dec_text f "name") [
      | yes e ↦
          subst (λ g. Erases kept0 r0 (erase_field p r0 g (kept, r))) (sym e)
            (erase_name kept0 r0 kept r h)
      | no n2 ↦ elim (dec_text f "content") [
        | yes e ↦
            subst (λ g. Erases kept0 r0 (erase_field p r0 g (kept, r))) (sym e)
              (erase_content kept0 r0 kept r h)
        | no n3 ↦ elim (dec_text f "metadata") [
          | yes e ↦
              subst (λ g. Erases kept0 r0 (erase_field p r0 g (kept, r))) (sym e)
                (erase_metadata kept0 r0 kept r h)
          | no n4 ↦ subst (Erases kept0 r0) (sym (erase_other r0 f kept r n1 n2 n3 n4)) h
        ]
      ]
    ]
  ]

  erase_fields-SameDigests :
      (kept0 : Table String Hash) (r0 : EventRow p) (fs : List String)
      (state : Table String Hash × EventRow p)
      → Erases kept0 r0 state
      → Erases kept0 r0 (erase_fields p r0 fs state)
  unfolding erase_fields
  erase_fields-SameDigests kept0 r0 [] state h = h
  erase_fields-SameDigests kept0 r0 (f ∷ fs) (kept, r) h =
      erase_fields-SameDigests kept0 r0 fs (erase_field p r0 f (kept, r))
        (erase_field-SameDigests kept0 r0 f kept r h)

  digest-column_digest :
      (r : EventRow p) (f : String) (v : Option (List ℕ))
      → digest p (core p (row_to_event p r)) f v ≡ column_digest (unwrap_or [] r.redacted) f v
  unfolding digest retained core row_to_event Table.get
  digest-column_digest r f (some v) = refl
  digest-column_digest r f none = ground arith

  -- The canonical bytes of a row, by its columns.
  row_canon : Table String Hash → EventRow p → List ℕ
  row_canon kept r =
      domain
      ++ (to_be_bytes r.seq
          ++ (to_be_bytes r.ts
              ++ (p.sha256 (as_bytes (as_str (unwrap_or message (Kind.parse r.kind))))
                  ++ (column_digest kept "role" (map_option as_bytes r.role)
                      ++ (column_digest kept "name" (map_option as_bytes r.name)
                          ++ (column_digest kept "content" (map_option as_bytes r.content)
                              ++ column_digest kept "metadata"
                                  (map_option p.raw_bytes r.metadata)))))))

  canon-row_canon :
      (r : EventRow p) → canon p (core p (row_to_event p r)) ≡ row_canon (unwrap_or [] r.redacted) r
  unfolding canon row_canon core metadata_raw row_to_event
  canon-row_canon r = cc (
    digest-column_digest r "role" (map_option as_bytes r.role),
    digest-column_digest r "name" (map_option as_bytes r.name),
    digest-column_digest r "content" (map_option as_bytes r.content),
    digest-column_digest r "metadata" (map_option p.raw_bytes r.metadata),
  )

  row_canon-SameDigests :
      (kept0 : Table String Hash) (r0 : EventRow p) (kept : Table String Hash) (r : EventRow p)
      → SameDigests kept0 r0 kept r
      → row_canon kept r ≡ row_canon kept0 r0
  unfolding row_canon
  row_canon-SameDigests kept0 r0 kept r h = cc

  -- What the chain reads of a row is the same in another.
  pub record SameInChain (r r' : EventRow p) : Type 0 where
    pub seq : r'.seq ≡ r.seq
    pub kind : r'.kind ≡ r.kind
    pub prev_hash : r'.prev_hash ≡ r.prev_hash
    pub hash : r'.hash ≡ r.hash
    pub canon : canon p (core p (row_to_event p r')) ≡ canon p (core p (row_to_event p r))

  SameDigests-self : (kept : Table String Hash) (r : EventRow p) → SameDigests kept r kept r
  SameDigests-self kept r = record {
    seq = refl;
    ts = refl;
    kind = refl;
    prev_hash = refl;
    hash = refl;
    role = refl;
    name = refl;
    content = refl;
    metadata = refl;
  }

  -- Erasing any fields of an event, some of them erased before or named twice, changes neither its
  -- place, kind and hashes nor the canonical bytes that its hash was taken of.
  pub erased-SameInChain :
      (r : EventRow p) (fields : List String) → SameInChain r (erased p r fields)
  unfolding erased
  erased-SameInChain r fields =
      let kept0 = unwrap_or [] r.redacted in
      let state = erase_fields p r fields (kept0, r) in
      let h = erase_fields-SameDigests kept0 r fields (kept0, r) (SameDigests-self kept0 r) in
      let new : EventRow p = record (state.1) { redacted = some (state.0) } in
      record {
        seq = h.seq;
        kind = h.kind;
        prev_hash = h.prev_hash;
        hash = h.hash;
        canon =
            canon-row_canon new
            ∙ row_canon-SameDigests kept0 r state.0 new (record {
              seq = h.seq;
              ts = h.ts;
              kind = h.kind;
              prev_hash = h.prev_hash;
              hash = h.hash;
              role = h.role;
              name = h.name;
              content = h.content;
              metadata = h.metadata;
            })
            ∙ sym (canon-row_canon r);
      }
