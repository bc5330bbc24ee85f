-- ===== src/Record/Sound.antt =====
-- `append_in_tx` of crates/tideline-server/src/tlr/sqlite.rs, and the invariant.
pub mod Calls
pub mod Sealing
pub mod Redaction
use tideline.Base.{
  ℕ, zero, suc, ◌+◌, ◌≤◌, ◌≡◌, ◌⊎◌, inl, inr, refl, sym, ap, ◌∙◌, subst, String, Bool, false, true,
  ite, Option, none, some, List, [], ◌∷◌, ◌++◌, map, length, arith, if◌then◌else◌, Option-cases,
  Bool-cases, ℕ_discrete, length-map,
}
use tideline.Base.Table
use tideline.Base.Table.{Table, get-insert}
use tideline.Platform.{Platform}
use tideline.Signing.{Signing}
use tideline.Proto.Kind.{EventKind, run_finished}
use tideline.Proto.Digest.{Hash, zero_hash}
use tideline.Record.Store.{
  RunKey, dec_key, NewEvent, NewRun, AppendResult, RunEnvelope, StoreResult, ok, err, not_found,
  conflict, backend, run_is_sealed, unique_failed, ◌>>=◌,
}
use tideline.Record.Tables.{RunRow, EventRow, Db, update, row_to_event, has_seq}
use tideline.Record.Sqlite.{
  find_run, next_row, first_row, run_row, head_of_row, head_of, insert_event, update_run,
  write_event, append_in_tx, result_of, create_run, append, remember, prior, seal, structural,
}
use tideline.Record.Invariant.{
  IsSound, IsRecord, RunsOk, RunOk, RunsOk-update, append-IsRecord, next_row_fits,
}

module _ (p : Platform) (s : Signing) where
  -- The database after a row was written to a run.
  abbrev pub appended : Db p s → RunKey → RunRow → EventRow p → Db p s
  appended db k r row = record db {
    runs = Table.insert dec_key k (record r { head_seq = row.seq; head_hash = row.hash }) db.runs;
    events = update db.events k (db.events k ++ row ∷ []);
  }

  append_in_tx_missing :
      (db : Db p s) (now : ℕ) (k : RunKey) (event : NewEvent p)
      → find_run p s db k ≡ none
      → append_in_tx p s db now k event ≡ err not_found
  unfolding append_in_tx head_of head_of_row
  append_in_tx_missing db now k event h = ground arith

  append_in_tx_sealed :
      (db : Db p s) (now : ℕ) (k : RunKey) (event : NewEvent p) (r : RunRow) (t : ℕ)
      → find_run p s db k ≡ some r
      → r.ended_ts ≡ some t
      → append_in_tx p s db now k event ≡ err (conflict run_is_sealed)
  unfolding append_in_tx head_of head_of_row
  append_in_tx_sealed db now k event r t h e = ground arith

  pub write_event_fresh :
      (db : Db p s) (k : RunKey) (r : RunRow) (row : EventRow p)
      → find_run p s db k ≡ some r
      → has_seq p row.seq (db.events k) ≡ false
      → write_event p s db k row ≡ ok (appended db k r row)
  unfolding write_event insert_event update_run
  write_event_fresh db k r row h e = ground arith

  write_event_clash :
      (db : Db p s) (k : RunKey) (row : EventRow p)
      → has_seq p row.seq (db.events k) ≡ true
      → write_event p s db k row ≡ err (backend unique_failed)
  unfolding write_event insert_event
  write_event_clash db k row e = ground arith

  pub head_open :
      (db : Db p s) (k : RunKey) (r : RunRow)
      → find_run p s db k ≡ some r
      → r.ended_ts ≡ none
      → head_of p s db k ≡ ok (r.head_seq, r.head_hash)
  unfolding head_of head_of_row
  head_open db k r h e = ground arith

  append_in_tx_open :
      (db : Db p s) (now : ℕ) (k : RunKey) (event : NewEvent p) (r : RunRow)
      → find_run p s db k ≡ some r
      → r.ended_ts ≡ none
      → has_seq p (r.head_seq + 1) (db.events k) ≡ false
      → append_in_tx p s db now k event
        ≡ ok (
          result_of p s (next_row p s r.head_seq r.head_hash now event),
          appended db k r (next_row p s r.head_seq r.head_hash now event),
        )
  unfolding append_in_tx next_row
  append_in_tx_open db now k event r h e fresh =
      rw (head_open db k r h e)
        (rw (write_event_fresh db k r (next_row p s r.head_seq r.head_hash now event) h fresh) refl)

  append_in_tx_clash :
      (db : Db p s) (now : ℕ) (k : RunKey) (event : NewEvent p) (r : RunRow)
      → find_run p s db k ≡ some r
      → r.ended_ts ≡ none
      → has_seq p (r.head_seq + 1) (db.events k) ≡ true
      → append_in_tx p s db now k event ≡ err (backend unique_failed)
  unfolding append_in_tx next_row
  append_in_tx_clash db now k event r h e clash =
      rw (head_open db k r h e)
        (rw (write_event_clash db k (next_row p s r.head_seq r.head_hash now event) clash) refl)

  -- What an append does, by the row of the run: the whole of `append_in_tx`.
  pub data Appending (db : Db p s) (now : ℕ) (k : RunKey) (event : NewEvent p)
      : StoreResult (AppendResult × Db p s) → Type 0 where
    missing : find_run p s db k ≡ none → Appending db now k event (err not_found)
    closed :
        (r : RunRow) (t : ℕ)
        → find_run p s db k ≡ some r
        → r.ended_ts ≡ some t
        → Appending db now k event (err (conflict run_is_sealed))
    clash :
        (r : RunRow)
        → find_run p s db k ≡ some r
        → has_seq p (r.head_seq + 1) (db.events k) ≡ true
        → Appending db now k event (err (backend unique_failed))
    written :
        (r : RunRow)
        → find_run p s db k ≡ some r
        → r.ended_ts ≡ none
        → Appending db now k event (
            ok (
              result_of p s (next_row p s r.head_seq r.head_hash now event),
              appended db k r (next_row p s r.head_seq r.head_hash now event),
            ))

  pub append_in_tx-Appending :
      (db : Db p s) (now : ℕ) (k : RunKey) (event : NewEvent p)
      → Appending db now k event (append_in_tx p s db now k event)
  append_in_tx-Appending db now k event = elim (Option-cases (find_run p s db k)) [
    | inl h ↦
        subst (Appending db now k event) (sym (append_in_tx_missing db now k event h)) (missing h)
    | inr (r, h) ↦ elim (Option-cases r.ended_ts) [
      | inr (t, e) ↦
          subst (Appending db now k event) (sym (append_in_tx_sealed db now k event r t h e))
            (closed r t h e)
      | inl e ↦ elim (Bool-cases (has_seq p (r.head_seq + 1) (db.events k))) [
        | inl c ↦
            subst (Appending db now k event) (sym (append_in_tx_clash db now k event r h e c))
              (clash r h c)
        | inr f ↦
            subst (Appending db now k event) (sym (append_in_tx_open db now k event r h e f))
              (written r h e)
      ]
    ]
  ]

  -- An invariant of a result's database.
  abbrev pub Leaves {ℓ} : {A : Type 0} → (Db p s → Type ℓ) → StoreResult (A × Db p s) → Type ℓ
  Leaves P (ok (a, db)) = P db
  Leaves P (err e) = Unit

  pub found-IsRecord :
      (db : Db p s) (k : RunKey) (r : RunRow)
      → IsSound p s db
      → find_run p s db k ≡ some r
      → IsRecord p r (db.events k)
  found-IsRecord db k r all h = subst (λ o. RunOk p o (db.events k)) h (all k)

  pub appended-IsSound :
      (db : Db p s) (now : ℕ) (k : RunKey) (event : NewEvent p) (r : RunRow)
      → IsSound p s db
      → find_run p s db k ≡ some r
      → r.ended_ts ≡ none
      → IsSound p s (appended db k r (next_row p s r.head_seq r.head_hash now event))
  unfolding next_row
  appended-IsSound db now k event r all h e =
      let row = next_row p s r.head_seq r.head_hash now event in
      RunsOk-update p db.runs db.events k (record r { head_seq = row.seq; head_hash = row.hash })
        (db.events k ++ row ∷ []) (λ j _. all j)
        (append-IsRecord p s r (db.events k) row (found-IsRecord db k r all h)
          (next_row_fits p s r.head_seq r.head_hash now event) refl e)

  Appending-IsSound :
      {db : Db p s} {now : ℕ} {k : RunKey} {event : NewEvent p}
      {x : StoreResult (AppendResult × Db p s)}
      → IsSound p s db
      → Appending db now k event x
      → Leaves (IsSound p s) x
  Appending-IsSound all (missing h) = tt
  Appending-IsSound all (closed r t h e) = tt
  Appending-IsSound all (clash r h e) = tt
  Appending-IsSound {db} {now} {k} {event} all (written r h e) =
      appended-IsSound db now k event r all h e

  -- `append_in_tx` keeps every record of the store sound.
  pub append_in_tx-IsSound :
      (db : Db p s) (now : ℕ) (k : RunKey) (event : NewEvent p)
      → IsSound p s db
      → Leaves (IsSound p s) (append_in_tx p s db now k event)
  append_in_tx-IsSound db now k event all =
      Appending-IsSound all (append_in_tx-Appending db now k event)
