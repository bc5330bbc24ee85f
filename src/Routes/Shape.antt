-- ===== src/Routes/Shape.antt =====
-- crates/tideline-server/src/tlr/routes.rs: the kinds of a record's events, which the chain does not check.
pub mod Kept
use tideline.Base.{
  ℕ, ◌≡◌, ◌≢◌, refl, sym, ◌∙◌, ap, subst, inl, inr, ◌⊎◌, String, Bool, true, false, Option, none,
  some, List, [], ◌∷◌, ◌++◌, All, All-append, arith, Option-cases, some_cancel, ◌||◌,
}
use tideline.Base.Table
use tideline.Platform.{Platform}
use tideline.Signing.{Signing}
use tideline.Proto.Kind
use tideline.Proto.Kind.{
  EventKind, run_started, run_finished, redaction, message, kind_discrete, parse_iff,
}
use tideline.Proto.Digest.{Hash}
use tideline.Record.Store.{
  RunKey, dec_key, NewRun, NewEvent, AppendResult, StoreResult, ok, Result-cases, ◌>>=◌,
}
use tideline.Record.Tables.{RunRow, EventRow, Db, row_to_event, update, find_row, replace_row}
use tideline.Record.Sqlite.{
  find_run, next_row, first_row, run_row, append, seal, create_run, prior, remember, structural,
  update_run,
}
use tideline.Record.Redact.{redact, erased, check_fields}
use tideline.Record.Redact.Keeps.{SameInChain, erased-SameInChain}
use tideline.Record.Checkpoints.{insert_checkpoint}
use tideline.Record.Invariant.{IsSound, RunOk, update_self}
use tideline.Record.Sound.{
  Appending, missing, closed, clash, written, append_in_tx-Appending, appended,
}
use tideline.Record.Sound.Calls.{
  opened, opening, create_run_taken, create_run_free, append_repeated, append_new,
}
use tideline.Record.Sound.Sealing.{
  seal_refused, seal_missing, seal_as_append, sealing, seal_result, update_run_found,
}
use tideline.Record.Sound.Redaction.{swapped, redact_structural, redact_missing, redact_found}
use tideline.Record.History.{
  Call, creates, appends, seals, redacts, checkpoints, after, step, run, empty, step-IsSound,
  empty-IsSound,
}
use tideline.Record.Moves.{key_of, step-Moves}
use tideline.Record.Growing.{Moves-SameRun}
use tideline.Routes.Handlers.{is_structural}
use tideline.Routes.{TlrState}
use tideline.Routes.Served.{Request, serve, started}
use tideline.Routes.Calls.{Permitted}
use tideline.Routes.Refines.{Allowed, serve-run}

-- An event between the first and the last.
abbrev pub Middle : EventKind → Type 0
Middle k = (k ≢ run_started) × (k ≢ run_finished)

-- The kinds of a record that has begun and not ended.
abbrev pub Begun : List EventKind → Type 0
Begun [] = ⊥
Begun (k ∷ ks) = (k ≡ run_started) × All Middle ks

-- The kinds of a record by the end of its run: `run_started` stands at the front and nowhere else,
-- and `run_finished` stands at the end if the run has ended, and nowhere else.
abbrev pub Shaped : Option ℕ → List EventKind → Type 0
Shaped none ks = Begun ks
Shaped (some t) ks = (front : List EventKind) × (ks ≡ front ++ run_finished ∷ []) × Begun front

pub Begun-append :
    (ks : List EventKind) (k : EventKind) → Begun ks → Middle k → Begun (ks ++ k ∷ [])
Begun-append [] k h m = absurd h
Begun-append (j ∷ js) k h m = (h.0, All-append Middle js (k ∷ []) h.1 (m, tt))

module _ (p : Platform) where
  abbrev pub kinds : List (EventRow p) → List EventKind
  kinds [] = []
  kinds (r ∷ rs) = (row_to_event p r).kind ∷ kinds rs

  pub kinds-append : (xs ys : List (EventRow p)) → kinds (xs ++ ys) ≡ kinds xs ++ kinds ys
  kinds-append [] ys = refl
  kinds-append (x ∷ xs) ys = ap (λ l. (row_to_event p x).kind ∷ l) (kinds-append xs ys)

  pub kinds-replace_row :
      (target : ℕ) (old new : EventRow p) (rows : List (EventRow p))
      → find_row p target rows ≡ some old
      → new.kind ≡ old.kind
      → kinds (replace_row p target new rows) ≡ kinds rows
  unfolding find_row replace_row row_to_event
  kinds-replace_row target old new [] h e = refl
  kinds-replace_row target old new (r ∷ rs) h e =
      ground (arith, kinds-replace_row target old new rs, e)

module _ (p : Platform) (s : Signing) where
  pub next_row_kind :
      (n : ℕ) (prev : Hash) (now : ℕ) (event : NewEvent p)
      → (row_to_event p (next_row p s n prev now event)).kind ≡ event.kind
  unfolding next_row row_to_event
  next_row_kind n prev now event = rw ((parse_iff (Kind.as_str event.kind) event.kind).1 refl) refl

  pub first_row_kind :
      (now : ℕ) (new : NewRun) → (row_to_event p (first_row p s now new)).kind ≡ run_started
  unfolding first_row row_to_event
  first_row_kind now new = rw ((parse_iff (Kind.as_str run_started) run_started).1 refl) refl

  -- The shape of one run's record.
  abbrev pub ShapedAt : RunKey → Db p s → Type 0
  ShapedAt k db =
      (r : RunRow) → find_run p s db k ≡ some r → Shaped r.ended_ts (kinds p (db.events k))

  pub ShapedAt-appended :
      (db : Db p s) (k : RunKey) (r : RunRow) (row : EventRow p)
      → find_run p s db k ≡ some r
      → r.ended_ts ≡ none
      → Middle (row_to_event p row).kind
      → ShapedAt k db
      → ShapedAt k (appended p s db k r row)
  ShapedAt-appended db k r row h o m shaped r' found =
      let r1 : RunRow = record r { head_seq = row.seq; head_hash = row.hash } in
      let same : r1 ≡ r' = some_cancel (sym (Table.get-insert_self dec_key k r1 db.runs) ∙ found) in
      let before : Begun (kinds p (db.events k)) =
        subst (λ e. Shaped e (kinds p (db.events k))) o (shaped r h) in
      let now = Begun-append (kinds p (db.events k)) (row_to_event p row).kind before m in
      let rows =
        ap (kinds p) (update_self p db.events k (db.events k ++ row ∷ []))
        ∙ kinds-append p (db.events k) (row ∷ []) in
      subst (λ e. Shaped e (kinds p ((appended p s db k r row).events k)))
        (sym o ∙ ap (λ q. q.ended_ts) same) (subst Begun (sym rows) now)

  -- What a transaction leaves.
  abbrev pub Shapes : {A : Type 0} → RunKey → Db p s → StoreResult (A × Db p s) → Type 0
  Shapes k db x = ShapedAt k (after p s db x)

  pub Appending-Shapes :
      {db : Db p s} {now : ℕ} {k : RunKey} {event : NewEvent p}
      {x : StoreResult (AppendResult × Db p s)}
      → Middle event.kind
      → ShapedAt k db
      → Appending p s db now k event x
      → Shapes k db x
  Appending-Shapes m h (missing a) = h
  Appending-Shapes m h (closed r t a b) = h
  Appending-Shapes m h (clash r a b) = h
  Appending-Shapes {db} {now} {k} {event} m h (written r a b) =
      ShapedAt-appended db k r _ a b
        (subst Middle (sym (next_row_kind r.head_seq r.head_hash now event)) m) h
