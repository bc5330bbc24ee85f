-- ===== src/Tests/Served.antt =====
-- The properties of the routes at a server that opens a run, appends to it and completes it.
use tideline.Base.{
  ℕ, ◌≡◌, ◌⊎◌, refl, String, false, true, none, some, List, [], ◌∷◌, ℕ_discrete, dec_text,
  dec_bytes, as_bytes, utf8,
}
use tideline.Base.Table
use tideline.Base.Bytes
use tideline.Proto.Kind
use tideline.Proto.Kind.{kind_discrete}
use tideline.Proto.Canon
use tideline.Proto.Event
use tideline.Proto.Event.{RunEvent}
use tideline.Proto.Chain
use tideline.Proto.Chain.{ChainOk, verify_chain}
use tideline.Proto.Checkpoint
use tideline.Record.Store.{RunKey, dec_key}
use tideline.Record.Tables
use tideline.Record.Sqlite
use tideline.Record.Sqlite.{find_run}
use tideline.Record.Redact
use tideline.Record.Checkpoints
use tideline.Record.Invariant.{record_of}
use tideline.Record.History
use tideline.Record.History.{run, empty, Matches}
use tideline.Auth
use tideline.Auth.{granted}
use tideline.Keys
use tideline.Metrics
use tideline.Record.Store.{driver}
use tideline.Routes
use tideline.Routes.{Headers, Server, TlrState, authorize}
use tideline.Routes.Handlers
use tideline.Routes.Handlers.{complete_run, complete_checked}
use tideline.Routes.Served
use tideline.Routes.Served.{
  Request, creates_run, appends_event, completes_run, handle, serve, started,
}
use tideline.Routes.Calls.{Reaches}
use tideline.Routes.Refines.{handle-Answered, served_verifies}
use tideline.Routes.Shape.{Shaped, kinds}
use tideline.Routes.Shape.Kept.{served_shape}
use tideline.Routes.Sealing.{CoversHead, complete_run-CoversHead}
use tideline.Tests.Fixtures.{plain, stamps, stamps-IsSigning, new_run, said, sealed_row}

program : Unit {0}
unfolding Table.get Table.insert utf8 as_bytes dec_text dec_bytes ℕ_discrete kind_discrete
    Kind.as_str Kind.find_kind Kind.parse Bytes.be_bytes Canon.retained Canon.digest Canon.canon
    Canon.hash Event.core Event.metadata_raw dec_key Tables.update Tables.envelope_meta
    Tables.row_to_event Tables.has_seq Tables.find_row Tables.replace_row Tables.redaction_meta
    Sqlite.head_of_row Sqlite.head_of Sqlite.update_run Sqlite.insert_event Sqlite.write_event
    Sqlite.next_row Sqlite.append_in_tx Sqlite.first_row Sqlite.create_run Sqlite.prior
    Sqlite.remember Sqlite.append Sqlite.seal Redact.contains Redact.check_fields Redact.present
    Redact.set_null Redact.erase_field Redact.erase_fields Redact.erased Redact.redact History.step
    History.run Auth.is_none Auth.wide_open Auth.matches Auth.resolve_read Auth.resolve_write
    Routes.id_byte Routes.all_id_bytes Routes.valid_id Routes.strip_prefix Routes.bearer
    Routes.tenant_of Routes.authorize Routes.err Routes.guarded Routes.join Routes.stream_name
    Routes.publish_head Routes.write_checkpoint Routes.maybe_checkpoint Keys.sign_head Metrics.incr
    Checkpoint.sign Checkpoint.canon_of Checkpoints.insert_checkpoint Checkpoints.put_checkpoint
    Routes.checkpointed Routes.best_effort Handlers.repaired_with Handlers.sealed_with
    Checkpoints.later Checkpoints.latest_of Checkpoints.latest_checkpoint Sqlite.events Sqlite.clamp
    Sqlite.get_run Tables.where_from Tables.order_by_seq Tables.insert_by_seq Handlers.is_structural
    Handlers.create_run Handlers.append_checked Handlers.append_event Handlers.repair
    Handlers.complete_checked Handlers.complete_run Served.handle Served.serve
program = tt

abbrev server_state : TlrState stamps
server_state = record {
  keys = record { key = 7; key_id = "k" };
  mode = record { publish_token = some "secret"; subscribe_token = none; cloud_verify = false };
  tenants = λ token. none;
  checkpoint_every = 50;
  checkpoint_fault = λ seq. none;
}

abbrev with_token : Headers
with_token = record { authorization = some "Bearer secret"; idempotency_key = none }

abbrev key : RunKey
key = ("", "r1")

abbrev clock : ℕ → ℕ → ℕ
clock t n = t

abbrev opening_requests : List (TlrState stamps × (ℕ → ℕ) × Request plain)
opening_requests =
    (server_state, clock 10, creates_run with_token (some new_run))
    ∷ (server_state, clock 11, appends_event "r1" with_token (some (said "hi")))
    ∷ []

abbrev requests : List (TlrState stamps × (ℕ → ℕ) × Request plain)
requests =
    (server_state, clock 10, creates_run with_token (some new_run))
    ∷ (server_state, clock 11, appends_event "r1" with_token (some (said "hi")))
    ∷ (server_state, clock 12, completes_run "r1" with_token)
    ∷ []

served_found :
    find_run plain stamps (serve plain stamps (started plain stamps) requests).db key
    ≡ some sealed_row
unfolding program
served_found = refl

served_verifies_example :
    (report : ChainOk) × (verify_chain plain
        (record_of plain ((serve plain stamps (started plain stamps) requests).db.events key))
      ≡ Chain.ok report)
    × Matches plain stamps sealed_row report
served_verifies_example = served_verifies plain stamps requests key sealed_row served_found

served_shape_example :
    Shaped
      (some 12)
      (kinds plain ((serve plain stamps (started plain stamps) requests).db.events key))
served_shape_example = served_shape plain stamps requests key sealed_row served_found

handle-Answered_example :
    ((handle plain stamps server_state
        (clock 10)
        (started plain stamps)
        (creates_run with_token (some new_run))).1.db
      ≡ empty plain stamps)
    ⊎ ((ns : String) × (authorize server_state with_token true ≡ granted ns)
        × Reaches plain stamps ns
            (empty plain stamps)
            (handle plain stamps server_state
              (clock 10)
              (started plain stamps)
              (creates_run with_token (some new_run))).1.db)
handle-Answered_example =
    handle-Answered plain stamps server_state (clock 10) (started plain stamps)
      (creates_run with_token (some new_run))

-- The disk is full when the run is sealed, so that it has ended without a checkpoint.
abbrev full_disk : TlrState stamps
full_disk = record server_state {
  checkpoint_fault = λ seq. some (driver "database or disk is full");
}

abbrev unprotected : Server plain stamps
unprotected =
    (complete_run plain stamps full_disk (clock 12)
      (serve plain stamps (started plain stamps) opening_requests) "r1" with_token).1

fails_first :
    (complete_run plain stamps full_disk
      (clock 12)
      (serve plain stamps (started plain stamps) opening_requests)
      "r1"
      with_token).0.status
    ≡ 500
unfolding program
fails_first = refl

-- The second attempt repairs it.
completes :
    (complete_run plain stamps server_state (clock 20) unprotected "r1" with_token).0.status ≡ 200
unfolding program
completes = refl

complete_run-CoversHead_example :
    (ns : String) × (authorize server_state with_token true ≡ granted ns)
    × CoversHead plain stamps server_state
        (complete_run plain stamps server_state (clock 20) unprotected "r1" with_token).1.db
        (ns, "r1")
complete_run-CoversHead_example =
    complete_run-CoversHead plain stamps stamps-IsSigning server_state (clock 20) unprotected "r1"
      with_token completes
