-- ===== src/Record/Sound/Redaction.antt =====
-- `redact` of crates/tideline-server/src/tlr/sqlite.rs, and the invariant.
use tideline.Base.{
  ℕ, suc, ◌≡◌, ◌≢◌, refl, sym, ap, ◌∙◌, subst, String, Option, none, some, List, [], ◌∷◌, ◌++◌,
  length, arith, Option-cases, ℕ_discrete, inl, inr, some_cancel,
}
use tideline.Platform.{Platform}
use tideline.Signing.{Signing}
use tideline.Proto.Kind
use tideline.Proto.Kind.{message, redaction}
use tideline.Proto.Digest.{Hash, zero_hash}
use tideline.Proto.Canon
use tideline.Proto.Canon.{unwrap_or}
use tideline.Proto.Chain.Linked.{Linked, IsChain, head_after, hash_of}
use tideline.Record.Store.{RunKey, dec_key, StoreError, ok, err, not_found, Result-cases}
use tideline.Record.Tables.{
  RunRow, EventRow, Db, update, row_to_event, redaction_meta, find_row, replace_row,
}
use tideline.Record.Sqlite.{find_run, append_in_tx, structural}
use tideline.Record.Redact.{erased, redact, check_fields}
use tideline.Record.Redact.Keeps.{SameInChain, erased-SameInChain}
use tideline.Record.Invariant.{
  IsSound, EndsSealed, RunOk, record_of, last_kind, update_self, update_ne,
}
use tideline.Record.Sound.{Leaves, append_in_tx-IsSound}

module _ (p : Platform) where
  hash_of_same :
      (r r' : EventRow p) (prev : Hash)
      → SameInChain p r r'
      → hash_of p (row_to_event p r') prev ≡ hash_of p (row_to_event p r) prev
  unfolding Canon.hash
  hash_of_same r r' prev h = ap (λ c. p.sha256 (c ++ prev)) h.canon

  -- One row of a list put in place of another that the chain reads alike.
  data Swap (new : EventRow p) : List (EventRow p) → List (EventRow p) → Type 0 where
    here :
        (old : EventRow p) (rest : List (EventRow p))
        → SameInChain p old new
        → Swap new (old ∷ rest) (new ∷ rest)
    there :
        (r : EventRow p) (rows rows' : List (EventRow p))
        → Swap new rows rows'
        → Swap new (r ∷ rows) (r ∷ rows')

  replace_here :
      (target : ℕ) (r new : EventRow p) (rows : List (EventRow p))
      → r.seq ≡ target
      → (replace_row p target new (r ∷ rows) ≡ new ∷ rows) × (find_row p target (r ∷ rows) ≡ some r)
  unfolding find_row replace_row
  replace_here target r new rows e = (ground arith, ground arith)

  replace_there :
      (target : ℕ) (r new : EventRow p) (rows : List (EventRow p))
      → r.seq ≢ target
      → (replace_row p target new (r ∷ rows) ≡ r ∷ replace_row p target new rows)
        × (find_row p target (r ∷ rows) ≡ find_row p target rows)
  unfolding find_row replace_row
  replace_there target r new rows n = (ground arith, ground arith)

  replace_row-Swap :
      (target : ℕ) (rows : List (EventRow p)) (old new : EventRow p)
      → find_row p target rows ≡ some old
      → SameInChain p old new
      → Swap new rows (replace_row p target new rows)
  replace_row-Swap target [] old new h same = absurd (unfold find_row in ground (arith, h))
  replace_row-Swap target (r ∷ rows) old new h same = elim (ℕ_discrete r.seq target) [
    | yes e ↦
        let (put, found) = replace_here target r new rows e in
        let is_old : old ≡ r = some_cancel (sym h ∙ found) in
        subst (Swap new (r ∷ rows)) (sym put)
          (here r rows (subst (λ o. SameInChain p o new) is_old same))
    | no n ↦
        let (put, found) = replace_there target r new rows n in
        subst (Swap new (r ∷ rows)) (sym put) (
          there r rows (replace_row p target new rows)
            (replace_row-Swap target rows old new (sym found ∙ h) same))
  ]

  Swap-Linked :
      {new : EventRow p} {rows rows' : List (EventRow p)} (i : ℕ) (prev : Hash)
      → Swap new rows rows'
      → Linked p i prev (record_of p rows)
      → Linked p i prev (record_of p rows')
  unfolding row_to_event
  Swap-Linked {new} i prev (here old rest same) h = (
    same.seq ∙ h.0,
    same.prev_hash ∙ h.1,
    hash_of_same old new prev same ∙ h.2 ∙ sym same.hash,
    subst (λ g. Linked p (suc i) g (record_of p rest)) (sym same.hash) h.3,
  )
  Swap-Linked i prev (there r rows rows' w) h = (h.0, h.1, h.2, Swap-Linked (suc i) r.hash w h.3)

  kind_of_same :
      (r r' : EventRow p) → SameInChain p r r' → (row_to_event p r').kind ≡ (row_to_event p r).kind
  unfolding row_to_event
  kind_of_same r r' h = ap (λ k. unwrap_or message (Kind.parse k)) h.kind

  Swap-head_after :
      {new : EventRow p} {rows rows' : List (EventRow p)} (prev : Hash)
      → Swap new rows rows'
      → head_after p prev (record_of p rows') ≡ head_after p prev (record_of p rows)
  unfolding row_to_event
  Swap-head_after prev (here old rest same) = ap (λ g. head_after p g (record_of p rest)) same.hash
  Swap-head_after prev (there r rows rows' w) = Swap-head_after r.hash w

  Swap-length :
      {new : EventRow p} {rows rows' : List (EventRow p)}
      → Swap new rows rows'
      → length rows' ≡ length rows
  Swap-length (here old rest same) = refl
  Swap-length (there r rows rows' w) = ap suc (Swap-length w)

  Swap-last_kind :
      {new : EventRow p} {rows rows' : List (EventRow p)}
      → Swap new rows rows'
      → last_kind p rows' ≡ last_kind p rows
  Swap-last_kind {new} (here old [] same) = ap some (kind_of_same old new same)
  Swap-last_kind (here old (q ∷ rest) same) = refl
  Swap-last_kind (there r _ _ (here old rest same)) = Swap-last_kind (here old rest same)
  Swap-last_kind (there r _ _ (there q rows rows' w)) = Swap-last_kind (there q rows rows' w)

  Swap-IsChain :
      {new : EventRow p} {rows rows' : List (EventRow p)}
      → Swap new rows rows'
      → IsChain p (record_of p rows)
      → IsChain p (record_of p rows')
  Swap-IsChain {new} (here old rest same) h =
      (kind_of_same old new same ∙ h.0, Swap-Linked 0 zero_hash (here old rest same) h.1)
  Swap-IsChain (there r rows rows' w) h = (h.0, Swap-Linked 0 zero_hash (there r rows rows' w) h.1)

  Swap-EndsSealed :
      {new : EventRow p} {rows rows' : List (EventRow p)} (t : Option ℕ)
      → Swap new rows rows'
      → EndsSealed p t rows
      → EndsSealed p t rows'
  Swap-EndsSealed none w h = tt
  Swap-EndsSealed (some t) w h = Swap-last_kind w ∙ h

  not_empty : {new : EventRow p} {rows rows' : List (EventRow p)} → Swap new rows rows' → rows ≢ []
  not_empty (here old rest same) = λ e. cc
  not_empty (there r rows rows' w) = λ e. cc

  Swap-RunOk :
      {new : EventRow p} {rows rows' : List (EventRow p)} (o : Option RunRow)
      → Swap new rows rows'
      → RunOk p o rows
      → RunOk p o rows'
  Swap-RunOk none w h = absurd (not_empty w h)
  Swap-RunOk (some r) w h = record {
    chain = Swap-IsChain w h.chain;
    head_seq = h.head_seq ∙ sym (Swap-length w);
    head_hash = h.head_hash ∙ sym (Swap-head_after zero_hash w);
    ended = Swap-EndsSealed r.ended_ts w h.ended;
  }

module _ (p : Platform) (s : Signing) where
  -- The database in which the target is erased, and no event of the erasure written.
  abbrev pub swapped : Db p s → RunKey → ℕ → EventRow p → List String → Db p s
  swapped db k target old fields = record db {
    events = update db.events k (replace_row p target (erased p old fields) (db.events k));
  }

  pub redact_structural :
      (db : Db p s) (now : ℕ) (k : RunKey) (target : ℕ) (fields : List String) (authority : String)
      (x : StoreError)
      → check_fields fields ≡ err x
      → redact p s db now k target fields authority ≡ err x
  unfolding redact
  redact_structural db now k target fields authority x h = rw (h, redact)

  pub redact_missing :
      (db : Db p s) (now : ℕ) (k : RunKey) (target : ℕ) (fields : List String) (authority : String)
      → check_fields fields ≡ ok tt
      → find_row p target (db.events k) ≡ none
      → redact p s db now k target fields authority ≡ err not_found
  unfolding redact
  redact_missing db now k target fields authority h e = rw (h, redact) (rw e)

  pub redact_found :
      (db : Db p s) (now : ℕ) (k : RunKey) (target : ℕ) (fields : List String) (authority : String)
      (old : EventRow p)
      → check_fields fields ≡ ok tt
      → find_row p target (db.events k) ≡ some old
      → redact p s db now k target fields authority
        ≡ append_in_tx p s
            (swapped db k target old fields)
            now
            k
            (structural p s redaction (redaction_meta target fields authority))
  unfolding redact
  redact_found db now k target fields authority old h e = rw (h, redact) (rw e)

  swapped-IsSound :
      (db : Db p s) (k : RunKey) (target : ℕ) (old : EventRow p) (fields : List String)
      → IsSound p s db
      → find_row p target (db.events k) ≡ some old
      → IsSound p s (swapped db k target old fields)
  swapped-IsSound db k target old fields all e j =
      let w =
        replace_row-Swap p target (db.events k) old (erased p old fields) e
          (erased-SameInChain p old fields) in
      let rows = replace_row p target (erased p old fields) (db.events k) in
      elim (dec_key k j) [
        | yes same ↦
            subst (λ i. RunOk p (find_run p s db i) (update db.events k rows i)) same
              (subst (RunOk p (find_run p s db k)) (sym (update_self p db.events k rows))
                (Swap-RunOk p (find_run p s db k) w (all k)))
        | no other ↦
            subst (RunOk p (find_run p s db j)) (sym (update_ne p db.events k j rows other)) (all j)
      ]

  -- Redacting an event, whatever the fields and whether the run is open or not, keeps every record
  -- of the store sound.
  pub redact-IsSound :
      (db : Db p s) (now : ℕ) (k : RunKey) (target : ℕ) (fields : List String) (authority : String)
      → IsSound p s db
      → Leaves p s (IsSound p s) (redact p s db now k target fields authority)
  redact-IsSound db now k target fields authority all = elim (Result-cases (check_fields fields)) [
    | inr (x, h) ↦
        subst (Leaves p s (IsSound p s))
          (sym (redact_structural db now k target fields authority x h)) tt
    | inl (u, h) ↦ elim (Option-cases (find_row p target (db.events k))) [
      | inl e ↦
          subst (Leaves p s (IsSound p s))
            (sym (redact_missing db now k target fields authority h e)) tt
      | inr (old, e) ↦
          subst (Leaves p s (IsSound p s))
            (sym (redact_found db now k target fields authority old h e))
            (append_in_tx-IsSound p s (swapped db k target old fields) now k _
              (swapped-IsSound db k target old fields all e))
    ]
  ]
