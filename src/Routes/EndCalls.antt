-- ===== src/Routes/EndCalls.antt =====
-- crates/tideline-server/src/tlr/routes.rs: the end of a run and a redaction, as calls of the store.
use tideline.Base.{
  ℕ, ◌≡◌, refl, inl, inr, String, true, false, Option, none, some, Option-cases, Bool-cases,
  is_blank,
}
use tideline.Platform.{Platform}
use tideline.Signing.{Signing}
use tideline.Metrics.{TlrMetrics, incr}
use tideline.Record.Store.{
  RunKey, NewRun, NewEvent, StoreError, StoreResult, ok, conflict, Result-cases,
}
use tideline.Record.Store
use tideline.Record.Sqlite
use tideline.Record.Sqlite.{events}
use tideline.Record.Redact
use tideline.Record.Checkpoints.{latest_checkpoint}
use tideline.Record.History.{seals, redacts, step, run}
use tideline.Routes.{Headers, Server, TlrState, valid_id, publish_head, counted}
use tideline.Routes.Handlers.{
  RedactBody, repair, repaired_with, sealed_with, complete_checked, complete_run, redact_checked,
  redact,
}
use tideline.Routes.Calls.{
  Reaches, nothing, one, both, publish_head-db, Answered, guarded-Answered, at,
  write_checkpoint-cases, checkpoint-Reaches,
}

module _ (p : Platform) (s : Signing) where
  repair-Reaches :
      (st : TlrState s) (clock : ℕ → ℕ) (srv : Server p s) (k : RunKey) (e : StoreError)
      → valid_id k.1 ≡ true
      → Reaches p s k.0 srv.db (repair p s st clock srv k e).1.db
  unfolding repair repaired_with run
  repair-Reaches st clock srv k e v = elim (Option-cases (latest_checkpoint p s srv.db k)) [
    | inr (cp, h) ↦ rw (h, repair) (nothing p s srv.db)
    | inl h ↦ elim (Result-cases (Sqlite.get_run p s srv.db k)) [
      | inr (x, g) ↦ rw (h, g, repair) (nothing p s srv.db)
      | inl (env, g) ↦
          elim (write_checkpoint-cases p s st (clock 1) srv k env.head_seq env.head_hash) [
            | inl (x, q) ↦ rw (h, g, q, repair) (nothing p s srv.db)
            | inr (srv', q, d) ↦
                rw (h, g, q, repair)
                  (checkpoint-Reaches p s st (clock 1) srv srv' k env.head_seq env.head_hash v d)
          ]
    ]
  ]

  abbrev sealed : TlrMetrics → TlrMetrics
  sealed m = record m { runs_sealed = incr m.runs_sealed }

  complete_checked-Reaches :
      (st : TlrState s) (clock : ℕ → ℕ) (srv : Server p s) (k : RunKey)
      → valid_id k.1 ≡ true
      → Reaches p s k.0 srv.db (complete_checked p s st clock srv k).1.db
  unfolding step complete_checked sealed_with run
  complete_checked-Reaches st clock srv k v =
      elim (Result-cases (Sqlite.seal p s srv.db (clock 0) k)) [
        | inr (Store.not_found, h) ↦ rw (h, complete_checked) (nothing p s srv.db)
        | inr (Store.invalid m, h) ↦ rw (h, complete_checked) (nothing p s srv.db)
        | inr (Store.backend m, h) ↦ rw (h, complete_checked) (nothing p s srv.db)
        | inr (conflict m, h) ↦
            rw (h, complete_checked) (repair-Reaches st clock srv k (conflict m) v)
        | inl ((res, db), h) ↦
            let made = counted p s (record srv { db = db }) sealed in
            let told = publish_head p s made k res.seq in
            let wrote = one p s srv.db db (seals (clock 0) k) (rw (h, step) refl) (refl, v) in
            let before = at p s srv.db db told.db wrote (publish_head-db p s made k res.seq) in
            elim (write_checkpoint-cases p s st (clock 1) told k res.seq res.hash) [
              | inl (x, q) ↦ rw (h, q, complete_checked) before
              | inr (srv', q, d) ↦
                  rw (h, q, complete_checked)
                    (both p s srv.db told.db srv'.db before
                      (checkpoint-Reaches p s st (clock 1) told srv' k res.seq res.hash v d))
            ]
      ]

  pub complete_run-Answered :
      (st : TlrState s) (clock : ℕ → ℕ) (srv : Server p s) (id : String) (headers : Headers)
      → Answered p s st headers true srv (complete_run p s st clock srv id headers)
  unfolding complete_run
  complete_run-Answered st clock srv id headers =
      guarded-Answered p s st headers true id srv _
        (λ ns v. complete_checked-Reaches st clock srv (ns, id) v)

  abbrev erased : TlrMetrics → TlrMetrics
  erased m = record m { redactions = incr m.redactions }

  redact_checked-Reaches :
      (st : TlrState s) (clock : ℕ → ℕ) (srv : Server p s) (k : RunKey) (req : RedactBody)
      → valid_id k.1 ≡ true
      → is_blank req.authority ≡ false
      → Reaches p s k.0 srv.db (redact_checked p s st clock srv k req).1.db
  unfolding step redact_checked run
  redact_checked-Reaches st clock srv k req v stated =
      elim (Result-cases
        (Redact.redact p s srv.db (clock 0) k req.target_seq req.fields req.authority)) [
          | inr (e, h) ↦ rw (h, redact_checked) (nothing p s srv.db)
          | inl ((res, db), h) ↦
              let wrote =
                one p s srv.db db (redacts (clock 0) k req.target_seq req.fields req.authority)
                  (rw (h, step) refl) (refl, v, stated) in
              rw (h, redact_checked)
                (at p s srv.db db _ wrote
                  (publish_head-db p s (counted p s (record srv { db = db }) erased) k res.seq))
        ]

  pub redact-Answered :
      (st : TlrState s) (clock : ℕ → ℕ) (srv : Server p s) (id : String) (headers : Headers)
      (body : Option RedactBody)
      → Answered p s st headers true srv (redact p s st clock srv id headers body)
  unfolding redact
  redact-Answered st clock srv id headers none =
      guarded-Answered p s st headers true id srv _ (λ ns v. nothing p s srv.db)
  redact-Answered st clock srv id headers (some req) =
      guarded-Answered p s st headers true id srv _ (λ ns v.
        elim (Bool-cases (is_blank req.authority)) [
          | inl c ↦ rw c (nothing p s srv.db)
          | inr c ↦ rw c (redact_checked-Reaches st clock srv (ns, id) req v c)
        ])
