-- ===== src/Routes/Handlers.antt =====
-- crates/tideline-server/src/tlr/routes.rs: the handlers of runs, events, checkpoints and redactions. A
-- handler reads the clock as often as it must: `clock n` is the `n`th reading.
use tideline.Base.{
  ℕ, String, Bool, true, false, Option, none, some, List, if◌then◌else◌, ◌||◌, ite, is_blank,
}
use tideline.Platform.{Platform}
use tideline.Signing.{Signing}
use tideline.Auth.{granted, denied}
use tideline.Metrics.{incr}
use tideline.Proto.Kind.{EventKind, kind_discrete, run_started, run_finished, redaction}
use tideline.Record.Store.{
  RunKey, RunEnvelope, NewRun, NewEvent, AppendResult, StoreError, StoreResult, conflict, ok,
}
use tideline.Record.Store
use tideline.Proto.Canon.{unwrap_or}
use tideline.Record.Sqlite
use tideline.Record.Sqlite.{events}
use tideline.Record.Redact
use tideline.Record.Checkpoints.{latest_checkpoint}
use tideline.Routes.{
  Headers, Response, Server, TlrState, plain, envelope, written, record_of, checkpoint, repaired,
  completes, valid_id, authorize, answer, err, bad, unauthorized, guarded, counted, sends,
  stream_name, publish_head, write_checkpoint, maybe_checkpoint,
}

abbrev is_kind : EventKind → EventKind → Bool
is_kind a b = ite (kind_discrete a b) true false

-- The kinds that `append_event` refuses.
unfoldable pub is_structural : EventKind → Bool
is_structural kind = is_kind kind run_started || is_kind kind run_finished || is_kind kind redaction

-- `EventsQuery`
pub record EventsQuery : Type 0 where
  pub from : Option ℕ
  pub limit : Option ℕ

pub record RedactBody : Type 0 where
  pub target_seq : ℕ
  pub fields : List String
  pub authority : String

module _ (p : Platform) (s : Signing) (st : TlrState s) where
  unfoldable pub create_run :
      (ℕ → ℕ) → Server p s → Headers → Option NewRun → Response p s × Server p s
  create_run clock srv headers body = elim (authorize st headers true) [
    | denied ↦ (unauthorized p s, srv)
    | granted ns ↦ elim body [
      | none ↦ (bad p s "invalid run", srv)
      | some new ↦
          if valid_id new.run_id
          then elim (Sqlite.create_run p s srv.db (clock 0) ns new) [
            | Store.err e ↦ (err p s e, srv)
            | ok (env, db) ↦
                let made =
                  counted p s (record srv { db = db })
                    (λ m. record m { runs_created = incr m.runs_created }) in
                (answer p s 200 (envelope env), publish_head p s made (ns, env.run_id) 0)
          ]
          else (bad p s "invalid run id", srv)
    ]
  ]

  unfoldable pub get_run : Server p s → String → Headers → Response p s
  get_run srv id headers =
      guarded p s st headers false id (λ r. r)
        (λ k. elim (Sqlite.get_run p s srv.db k) [
          | Store.err e ↦ err p s e
          | ok env ↦ answer p s 200 (envelope env)
        ])

  -- The part of `append_event` behind the checks of its body.
  unfoldable pub append_checked :
      (ℕ → ℕ) → Server p s → RunKey → NewEvent p → Option String → Response p s × Server p s
  append_checked clock srv k event idem = elim (Sqlite.append p s srv.db (clock 0) k event idem) [
    | Store.err e ↦
        (err p s e, counted p s srv (λ m. record m { append_failures = incr m.append_failures }))
    | ok (res, db) ↦
        let made =
          counted p s (record srv { db = db })
            (λ m. record m { events_appended = incr m.events_appended }) in
        (
          answer p s 200 (written res),
          maybe_checkpoint p s st (clock 1) (publish_head p s made k res.seq) k res.seq res.hash,
        )
  ]

  unfoldable pub append_event :
      (ℕ → ℕ) → Server p s → String → Headers → Option (NewEvent p) → Response p s × Server p s
  append_event clock srv id headers body =
      guarded p s st headers true id (λ r. (r, srv))
        (λ k. elim body [
          | none ↦ (bad p s "invalid event", srv)
          | some event ↦
              if is_structural event.kind
              then (bad p s "it is written by its own route, not by appending", srv)
              else append_checked clock srv k event headers.idempotency_key
        ])

  unfoldable pub list_events : Server p s → String → EventsQuery → Headers → Response p s
  list_events srv id q headers =
      guarded p s st headers false id (λ r. r)
        (λ k.
          answer p s 200
            (record_of (events p s srv.db k (unwrap_or 0 q.from) (unwrap_or 1000 q.limit))))

  -- What is answered behind the checkpoint that repairs a sealed run, and behind the one at a seal.
  unfoldable pub repaired_with :
      Server p s → RunEnvelope → StoreResult (Server p s) → Response p s × Server p s
  repaired_with srv env (Store.err e) = (err p s e, srv)
  repaired_with srv env (ok srv') = (answer p s 200 (repaired env.head_seq env.head_hash), srv')

  unfoldable pub sealed_with :
      Server p s → RunKey → AppendResult → StoreResult (Server p s) → Response p s × Server p s
  sealed_with told k res (Store.err e) = (err p s e, told)
  sealed_with told k res (ok covered) =
      (answer p s 200 (written res), sends p s covered (completes (stream_name k)))

  -- The end of `complete_run` for a run that is sealed already.
  unfoldable pub repair : (ℕ → ℕ) → Server p s → RunKey → StoreError → Response p s × Server p s
  repair clock srv k e = elim (latest_checkpoint p s srv.db k) [
    | some _ ↦ (err p s e, srv)
    | none ↦ elim (Sqlite.get_run p s srv.db k) [
      | Store.err x ↦ (err p s x, srv)
      | ok env ↦
          repaired_with srv env (write_checkpoint p s st (clock 1) srv k env.head_seq env.head_hash)
    ]
  ]

  unfoldable pub complete_checked : (ℕ → ℕ) → Server p s → RunKey → Response p s × Server p s
  complete_checked clock srv k = elim (Sqlite.seal p s srv.db (clock 0) k) [
    | ok (res, db) ↦
        let made =
          counted p s (record srv { db = db })
            (λ m. record m { runs_sealed = incr m.runs_sealed }) in
        let told = publish_head p s made k res.seq in
        sealed_with told k res (write_checkpoint p s st (clock 1) told k res.seq res.hash)
    | Store.err (conflict m) ↦ repair clock srv k (conflict m)
    | Store.err Store.not_found ↦ (err p s Store.not_found, srv)
    | Store.err (Store.invalid m) ↦ (err p s (Store.invalid m), srv)
    | Store.err (Store.backend m) ↦ (err p s (Store.backend m), srv)
  ]

  unfoldable pub complete_run : (ℕ → ℕ) → Server p s → String → Headers → Response p s × Server p s
  complete_run clock srv id headers =
      guarded p s st headers true id (λ r. (r, srv)) (complete_checked clock srv)

  unfoldable pub get_checkpoint : Server p s → String → Headers → Response p s
  get_checkpoint srv id headers =
      guarded p s st headers false id (λ r. r)
        (λ k. elim (latest_checkpoint p s srv.db k) [
          | some cp ↦ answer p s 200 (checkpoint cp)
          | none ↦ answer p s 404 (plain "no checkpoint yet")
        ])

  unfoldable pub redact_checked :
      (ℕ → ℕ) → Server p s → RunKey → RedactBody → Response p s × Server p s
  redact_checked clock srv k req =
      elim (Redact.redact p s srv.db (clock 0) k req.target_seq req.fields req.authority) [
        | Store.err e ↦ (err p s e, srv)
        | ok (res, db) ↦
            let made =
              counted p s (record srv { db = db })
                (λ m. record m { redactions = incr m.redactions }) in
            (answer p s 200 (written res), publish_head p s made k res.seq)
      ]

  unfoldable pub redact :
      (ℕ → ℕ) → Server p s → String → Headers → Option RedactBody → Response p s × Server p s
  redact clock srv id headers body =
      guarded p s st headers true id (λ r. (r, srv))
        (λ k. elim body [
          | none ↦ (bad p s "expected {target_seq, fields, authority}", srv)
          | some req ↦
              if is_blank req.authority
              then (bad p s "authority is required", srv)
              else redact_checked clock srv k req
        ])
