-- ===== src/Record/Sqlite.antt =====
-- crates/tideline-server/src/tlr/sqlite.rs: the operations of the store on SQLite. An operation is one
-- transaction: it returns the database it leaves, or an error, and then SQLite rolls back to the
-- database it began with. The clock is read into `now`.
use tideline.Base.{
  ℕ, ◌+◌, String, Option, none, some, List, [], ◌∷◌, ◌++◌, take, as_bytes, dec_text, map,
  if◌then◌else◌, min, max,
}
use tideline.Base.Json.{Value, number, object, no_fields, field}
use tideline.Base.Table
use tideline.Base.Table.{Table}
use tideline.Platform.{Platform}
use tideline.Signing.{Signing}
use tideline.Proto.Kind
use tideline.Proto.Kind.{EventKind, run_started, redaction, run_finished}
use tideline.Proto.Digest.{Hash, zero_hash}
use tideline.Proto.Canon
use tideline.Proto.Canon.{EventCore, map_option, unwrap_or, redactable}
use tideline.Proto.Event.{RunEvent}
use tideline.Record.Store.{
  RunKey, dec_key, RunEnvelope, NewRun, NewEvent, AppendResult, StoreResult, ok, err, not_found,
  conflict, backend, run_is_sealed, run_exists, unique_failed, ok_or, ◌>>=◌,
}
use tideline.Record.Tables.{
  RunRow, EventRow, Db, update, envelope_meta, to_envelope, row_to_event, has_seq, order_by_seq,
  where_from,
}

-- The head that a run's row gives, or why the run cannot be appended to.
unfoldable pub head_of_row : Option RunRow → StoreResult (ℕ × Hash)
head_of_row none = err not_found
head_of_row (some r) = elim r.ended_ts [
  | some _ ↦ err (conflict run_is_sealed)
  | none ↦ ok (r.head_seq, r.head_hash)
]

unfoldable pub clamp : ℕ → ℕ → ℕ → ℕ
clamp lo hi n = max lo (min n hi)

module _ (p : Platform) (s : Signing) where
  abbrev pub find_run : Db p s → RunKey → Option RunRow
  find_run db k = Table.get dec_key k db.runs

  unfoldable pub head_of : Db p s → RunKey → StoreResult (ℕ × Hash)
  head_of db k = head_of_row (find_run db k)

  -- `UPDATE tlr_runs SET .. WHERE ns = ?1 AND run_id = ?2`
  unfoldable pub update_run : Db p s → RunKey → (RunRow → RunRow) → Db p s
  update_run db k change = elim (find_run db k) [
    | none ↦ db
    | some r ↦ record db { runs = Table.insert dec_key k (change r) db.runs }
  ]

  -- `INSERT INTO tlr_events`, which fails on a key that is there.
  unfoldable pub insert_event : Db p s → RunKey → EventRow p → StoreResult (Db p s)
  insert_event db k row =
      if has_seq p row.seq (db.events k)
      then err (backend unique_failed)
      else ok (record db { events = update db.events k (db.events k ++ row ∷ []) })

  -- `write_event`: insert one hashed event and advance the head.
  unfoldable pub write_event : Db p s → RunKey → EventRow p → StoreResult (Db p s)
  write_event db k row = do
    db' ← insert_event db k row
    ok (update_run db' k (λ r. record r { head_seq = row.seq; head_hash = row.hash }))

  -- The row that `append_in_tx` writes for an event, behind a head.
  unfoldable pub next_row : ℕ → Hash → ℕ → NewEvent p → EventRow p
  next_row head_seq head_hash now event = record {
    seq = head_seq + 1;
    ts = now;
    kind = Kind.as_str event.kind;
    role = event.role;
    name = event.name;
    content = event.content;
    metadata = event.metadata;
    redacted = none;
    prev_hash = head_hash;
    hash = Canon.hash p core head_hash;
  }
    where
      core : EventCore
      core = record {
        seq = head_seq + 1;
        ts = now;
        kind = event.kind;
        role = map_option as_bytes event.role;
        name = map_option as_bytes event.name;
        content = map_option as_bytes event.content;
        metadata_raw = map_option p.raw_bytes event.metadata;
        redacted = none;
      }

  abbrev pub result_of : EventRow p → AppendResult
  result_of row = record { seq = row.seq; ts = row.ts; prev_hash = row.prev_hash; hash = row.hash }

  unfoldable pub append_in_tx :
      Db p s → ℕ → RunKey → NewEvent p → StoreResult (AppendResult × Db p s)
  append_in_tx db now k event = do
    head ← head_of db k
    let row = next_row head.0 head.1 now event
    db' ← write_event db k row
    ok (result_of row, db')

  abbrev pub structural : EventKind → Value → NewEvent p
  structural kind meta = record {
    kind = kind;
    role = none;
    name = none;
    content = none;
    metadata = some (p.to_raw meta);
  }

  -- The row of `run_started`, and the row of the run that it opens.
  unfoldable pub first_row : ℕ → NewRun → EventRow p
  first_row now new = record {
    seq = 0;
    ts = now;
    kind = Kind.as_str run_started;
    role = none;
    name = none;
    content = none;
    metadata = some (p.to_raw (envelope_meta new));
    redacted = none;
    prev_hash = zero_hash;
    hash = Canon.hash p core zero_hash;
  }
    where
      core : EventCore
      core = record {
        seq = 0;
        ts = now;
        kind = run_started;
        role = none;
        name = none;
        content = none;
        metadata_raw = some (p.raw_bytes (p.to_raw (envelope_meta new)));
        redacted = none;
      }

  abbrev pub run_row : ℕ → NewRun → Hash → RunRow
  run_row now new hash = record {
    started_ts = now;
    ended_ts = none;
    agent = new.agent;
    subject_ref = new.subject_ref;
    labels = new.labels;
    head_seq = 0;
    head_hash = hash;
  }

  unfoldable pub create_run : Db p s → ℕ → String → NewRun → StoreResult (RunEnvelope × Db p s)
  create_run db now ns new = elim (find_run db (ns, new.run_id)) [
    | some _ ↦ err (conflict (run_exists new.run_id))
    | none ↦ do
      let k : RunKey = (ns, new.run_id)
      let first = first_row now new
      let row = run_row now new first.hash
      db' ← write_event (record db { runs = Table.insert dec_key k row db.runs }) k first
      ok (to_envelope k row, db')
  ]

  unfoldable pub get_run : Db p s → RunKey → StoreResult RunEnvelope
  get_run db k = do row ← ok_or not_found (find_run db k); ok (to_envelope k row)

  -- The result that a repeated key had before.
  unfoldable pub prior : Db p s → RunKey → Option String → Option AppendResult
  prior db k none = none
  prior db k (some key) = Table.get dec_text key (db.idem k)

  unfoldable pub remember : RunKey → Option String → AppendResult × Db p s → AppendResult × Db p s
  remember k none (res, db) = (res, db)
  remember k (some key) (res, db) =
      (res, record db { idem = update db.idem k (Table.insert dec_text key res (db.idem k)) })

  unfoldable pub append :
      Db p s → ℕ → RunKey → NewEvent p → Option String → StoreResult (AppendResult × Db p s)
  append db now k event idem = elim (prior db k idem) [
    | some res ↦ ok (res, db)
    | none ↦ do done ← append_in_tx db now k event; ok (remember k idem done)
  ]

  unfoldable pub events : Db p s → RunKey → ℕ → ℕ → List (RunEvent p)
  events db k from limit =
      map (row_to_event p)
        (take (clamp 1 5000 limit) (order_by_seq p (where_from p from (db.events k))))

  unfoldable pub seal : Db p s → ℕ → RunKey → StoreResult (AppendResult × Db p s)
  seal db now k = do
    head ← head_of db k
    let meta = object (field "event_count" (number (head.0 + 2)) no_fields)
    done ← append_in_tx db now k (structural run_finished meta)
    ok (done.0, update_run done.1 k (λ r. record r { ended_ts = some done.0.ts }))
