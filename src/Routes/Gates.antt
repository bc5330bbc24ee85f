-- ===== src/Routes/Gates.antt =====
-- crates/tideline-server/src/tlr/routes.rs: the handlers of approval gates. `clock n` is the `n`th reading
-- of the clock.
use tideline.Base.{
  ℕ, suc, ◌+◌, ◌*◌, ◌%◌, String, Bool, true, false, Option, none, some, List, [], ◌∷◌,
  if◌then◌else◌, ◌==◌,
}
use tideline.Base.Bytes.{u64_mod}
use tideline.Platform.{Platform}
use tideline.Signing.{Signing}
use tideline.Metrics.{TlrMetrics, incr, incr_times}
use tideline.Proto.Event.{RunEvent}
use tideline.Record.Store.{RunKey, StoreResult, ok}
use tideline.Record.Store
use tideline.Record.Tables.{Db}
use tideline.Record.Sqlite.{events}
use tideline.Approvals.{Gate, Decision, approved, rejected, expired, is_pending, parse, project}
use tideline.Approvals.Operations
use tideline.Approvals.Operations.{find_gate, expire_lapsed_in}
use tideline.Routes.{
  Headers, Response, Server, TlrState, plain, opened_gate, gates, gate, resolved_gate, bearer,
  tenant_of, join, answer, err, bad, guarded, counted, publish_head,
}

pub record CreateApproval : Type 0 where
  pub action : String
  pub expires_at : Option ℕ
  pub expires_in : Option ℕ

pub record ResolveApproval : Type 0 where
  pub decision : String
  pub reviewer : Option String
  pub note : Option String

-- A time that is given, or so many seconds from now, or a day from now.
unfoldable pub expiry : ℕ → CreateApproval → ℕ
expiry now req = elim req.expires_at [
  | some t ↦ t
  | none ↦ elim req.expires_in [
    | some seconds ↦ (now + seconds * 1000) % u64_mod
    | none ↦ (now + 86400000) % u64_mod
  ]
]

unfoldable pub pending_gates : List Gate → List Gate
pending_gates [] = []
pending_gates (g ∷ gs) =
    let rest = pending_gates gs in if is_pending g.state then g ∷ rest else rest

-- `format!("tenant:{ns}")`, for a tenant that the control plane names.
unfoldable pub principal_of : Option String → Option String
principal_of none = none
principal_of (some ns) = some (join "tenant:" ns)

unfoldable pub is_some : Option String → Bool
is_some none = false
is_some (some _) = true

unfoldable pub count_decision : Decision → TlrMetrics → TlrMetrics
count_decision approved m = record m { gates_approved = incr m.gates_approved }
count_decision rejected m = record m { gates_rejected = incr m.gates_rejected }
count_decision expired m = record m { gates_expired = incr m.gates_expired }

module _ (p : Platform) (s : Signing) (st : TlrState s) where
  unfoldable pub create_approval :
      (ℕ → ℕ) → Server p s → String → Headers → Option CreateApproval → Response p s × Server p s
  create_approval clock srv id headers body =
      guarded p s st headers true id (λ r. (r, srv))
        (λ k. elim body [
          | none ↦ (bad p s "expected {\"action\": ...}", srv)
          | some req ↦
              elim (Operations.request p s srv.db (clock 1) k req.action (expiry (clock 0) req)) [
                | Store.err e ↦ (err p s e, srv)
                | ok (seq, db) ↦
                    let made =
                      counted p s (record srv { db = db })
                        (λ m. record m { gates_opened = incr m.gates_opened }) in
                    (
                      answer p s 200 (opened_gate seq (expiry (clock 0) req)),
                      publish_head p s made k seq,
                    )
              ]
        ])

  -- What `expire_then_read` does with the outcome of `expire_lapsed_in`. A failure keeps what was
  -- written before it.
  unfoldable pub read_after :
      Server p s
      → RunKey
      → List (RunEvent p)
      → StoreResult ℕ × Db p s
      → StoreResult (List (RunEvent p)) × Server p s
  read_after srv k evs (Store.err e, db) = (Store.err e, record srv { db = db })
  read_after srv k evs (ok n, db) =
      let after =
        counted p s (record srv { db = db })
          (λ m. record m { gates_expired = incr_times n m.gates_expired }) in
      (ok (if n == 0 then evs else events p s db k 0 5000), after)

  unfoldable pub expire_then_read :
      (ℕ → ℕ) → Server p s → RunKey → StoreResult (List (RunEvent p)) × Server p s
  expire_then_read clock srv k =
      let evs = events p s srv.db k 0 5000 in
      read_after srv k evs (expire_lapsed_in p s srv.db (λ n. clock (suc n)) k evs (clock 0))

  unfoldable pub answer_pending :
      StoreResult (List (RunEvent p)) × Server p s → Response p s × Server p s
  answer_pending (Store.err e, after) = (err p s e, after)
  answer_pending (ok evs, after) = (answer p s 200 (gates (pending_gates (project p evs))), after)

  unfoldable pub list_approvals :
      (ℕ → ℕ) → Server p s → String → Headers → Response p s × Server p s
  list_approvals clock srv id headers =
      guarded p s st headers false id (λ r. (r, srv))
        (λ k. answer_pending (expire_then_read clock srv k))

  unfoldable pub answer_gate :
      ℕ → StoreResult (List (RunEvent p)) × Server p s → Response p s × Server p s
  answer_gate seq (Store.err e, after) = (err p s e, after)
  answer_gate seq (ok evs, after) = elim (find_gate seq (project p evs)) [
    | some g ↦ (answer p s 200 (gate g), after)
    | none ↦ (answer p s 404 (plain "no such approval"), after)
  ]

  unfoldable pub get_approval :
      (ℕ → ℕ) → Server p s → String → ℕ → Headers → Response p s × Server p s
  get_approval clock srv id seq headers =
      guarded p s st headers false id (λ r. (r, srv))
        (λ k. answer_gate seq (expire_then_read clock srv k))

  -- The part of `resolve_approval` behind the checks of its body.
  unfoldable pub resolve_checked :
      (ℕ → ℕ)
      → Server p s
      → RunKey
      → ℕ
      → Decision
      → Option String
      → ResolveApproval
      → Response p s × Server p s
  resolve_checked clock srv k seq decision principal req =
      elim (Operations.resolve p s srv.db (clock 0) k seq decision req.reviewer principal
        (is_some principal) req.note) [
          | Store.err e ↦ (err p s e, srv)
          | ok (written, db) ↦ (
            answer p s 200 (resolved_gate written seq decision (is_some principal)),
            publish_head p s (counted p s (record srv { db = db }) (count_decision decision)) k
                written,
          )
        ]

  unfoldable pub resolve_approval :
      (ℕ → ℕ)
      → Server p s
      → String
      → ℕ
      → Headers
      → Option ResolveApproval
      → Response p s × Server p s
  resolve_approval clock srv id seq headers body =
      guarded p s st headers true id (λ r. (r, srv))
        (λ k. elim body [
          | none ↦ (bad p s "invalid resolve body", srv)
          | some req ↦ elim (parse req.decision) [
            | none ↦ (bad p s "decision must be 'approved' or 'rejected'", srv)
            | some expired ↦ (bad p s "'expired' is written by the server, not a reviewer", srv)
            | some approved ↦
                resolve_checked clock srv k seq approved
                  (principal_of (tenant_of st (bearer headers))) req
            | some rejected ↦
                resolve_checked clock srv k seq rejected
                  (principal_of (tenant_of st (bearer headers))) req
          ]
        ])
