-- ===== src/Routes/GateCalls.antt =====
-- crates/tideline-server/src/tlr/routes.rs: what a request about a gate does to the store, as calls of the
-- store.
use tideline.Base.{
  ℕ, suc, ◌≡◌, refl, subst, inl, inr, String, Bool, true, false, Option, none, some, List, [], ◌∷◌,
  Option-cases, arith, Bool-cases,
}
use tideline.Base.Json.{Value, object, field, string, number, no_fields}
use tideline.Platform.{Platform}
use tideline.Signing.{Signing}
use tideline.Metrics.{TlrMetrics, incr}
use tideline.Proto.Kind.{kind_discrete}
use tideline.Proto.Event.{RunEvent}
use tideline.Record.Store.{RunKey, AppendResult, StoreResult, ok, err, Result-cases}
use tideline.Record.Tables.{Db}
use tideline.Record.Sqlite
use tideline.Record.Sqlite.{events}
use tideline.Record.History.{appends, step, run}
use tideline.Approvals.{
  Decision, approved, rejected, expired, parse, is_pending, project, requested_name, resolved_name,
}
use tideline.Approvals.Operations
use tideline.Approvals.Operations.{
  decision_event, resolution, find_gate, expire_each, lapsed, expire_lapsed_in,
}
use tideline.Routes.{Headers, Server, TlrState, valid_id, tenant_of, bearer, counted}
use tideline.Routes.Handlers.{is_structural}
use tideline.Routes.Gates.{
  CreateApproval, ResolveApproval, expiry, principal_of, is_some, count_decision, create_approval,
  read_after, expire_then_read, answer_pending, answer_gate, list_approvals, get_approval,
  resolve_checked, resolve_approval,
}
use tideline.Routes.Calls.{
  Reaches, Answered, nothing, one, both, at, publish_head-db, guarded-Answered,
}

module _ (p : Platform) (s : Signing) where
  -- An append of a decision is permitted.
  decides :
      (db db' : Db p s) (now : ℕ) (k : RunKey) (name : String) (metadata : Value)
      (res : AppendResult)
      → valid_id k.1 ≡ true
      → Sqlite.append p s db now k (decision_event p s name metadata) none ≡ ok (res, db')
      → Reaches p s k.0 db db'
  unfolding step decision_event is_structural kind_discrete
  decides db db' now k name metadata res v h =
      one p s db db' (appends now k (decision_event p s name metadata) none) (rw (h, step) refl)
        (refl, v, refl)

  request-Reaches :
      (db db' : Db p s) (now : ℕ) (k : RunKey) (action : String) (t n : ℕ)
      → valid_id k.1 ≡ true
      → Operations.request p s db now k action t ≡ ok (n, db')
      → Reaches p s k.0 db db'
  unfolding Operations.request
  request-Reaches db db' now k action t n v q =
      elim (Result-cases (
        Sqlite.append p s db now k
          (decision_event p s requested_name
            (object (field "action" (string action) (field "expires_at" (number t) no_fields))))
          none)) [
            | inr (e, h) ↦ absurd (ground (arith, h, q))
            | inl ((res, db1), h) ↦
                let e : db1 ≡ db' = ground (arith, h, q) in
                subst (Reaches p s k.0 db) e (decides db db1 now k _ _ res v h)
          ]

  resolve-Reaches :
      (db db' : Db p s) (now : ℕ) (k : RunKey) (target : ℕ) (d : Decision)
      (reviewer principal : Option String) (attested : Bool) (said : Option String) (n : ℕ)
      → valid_id k.1 ≡ true
      → Operations.resolve p s db now k target d reviewer principal attested said ≡ ok (n, db')
      → Reaches p s k.0 db db'
  unfolding Operations.resolve
  resolve-Reaches db db' now k target d reviewer principal attested said n v q =
      elim (Option-cases (find_gate target (project p (events p s db k 0 5000)))) [
        | inl h ↦ absurd (ground (arith, h, q))
        | inr (g, h) ↦ elim (Bool-cases (is_pending g.state)) [
          | inr c ↦ absurd (ground (arith, h, c, q))
          | inl c ↦
              elim (Result-cases (
                Sqlite.append p s db now k
                  (decision_event p s resolved_name
                    (resolution p s target d reviewer principal attested said))
                  none)) [
                    | inr (e, r) ↦ absurd (ground (arith, h, c, r, q))
                    | inl ((res, db1), r) ↦
                        let e : db1 ≡ db' = ground (arith, h, c, r, q) in
                        subst (Reaches p s k.0 db) e (decides db db1 now k _ _ res v r)
                  ]
        ]
      ]

  expire_each-Reaches :
      (db : Db p s) (clock : ℕ → ℕ) (k : RunKey) (n : ℕ) (targets : List ℕ)
      → valid_id k.1 ≡ true
      → Reaches p s k.0 db (expire_each p s db clock k n targets).1
  unfolding expire_each
  expire_each-Reaches db clock k n [] v = nothing p s db
  expire_each-Reaches db clock k n (t ∷ ts) v =
      elim (Result-cases (
        Operations.resolve p s db (clock n) k t expired none none false
          (some "no decision before expiry"))) [
            | inr (e, h) ↦ rw (h, expire_each) (nothing p s db)
            | inl ((m, db1), h) ↦
                rw (h, expire_each)
                  (both p s db db1 _
                    (resolve-Reaches db db1 (clock n) k t expired none none false _ m v h)
                    (expire_each-Reaches db1 clock k (suc n) ts v))
          ]

  read_after-db :
      (st : TlrState s) (srv : Server p s) (k : RunKey) (evs : List (RunEvent p))
      (out : StoreResult ℕ × Db p s)
      → (read_after p s st srv k evs out).1.db ≡ out.1
  unfolding read_after
  read_after-db st srv k evs (err e, db) = refl
  read_after-db st srv k evs (ok n, db) = refl

  expire_then_read-Reaches :
      (st : TlrState s) (clock : ℕ → ℕ) (srv : Server p s) (k : RunKey)
      → valid_id k.1 ≡ true
      → Reaches p s k.0 srv.db (expire_then_read p s st clock srv k).1.db
  unfolding expire_then_read expire_lapsed_in
  expire_then_read-Reaches st clock srv k v =
      let evs = events p s srv.db k 0 5000 in
      let late = lapsed (clock 0) (project p evs) in
      at p s srv.db _ _ (expire_each-Reaches srv.db (λ n. clock (suc n)) k 0 late v)
        (read_after-db st srv k evs (expire_each p s srv.db (λ n. clock (suc n)) k 0 late))

  answer_pending-db :
      (st : TlrState s) (out : StoreResult (List (RunEvent p)) × Server p s)
      → (answer_pending p s st out).1.db ≡ out.1.db
  unfolding answer_pending
  answer_pending-db st (err e, after) = refl
  answer_pending-db st (ok evs, after) = refl

  answer_gate-db :
      (st : TlrState s) (seq : ℕ) (out : StoreResult (List (RunEvent p)) × Server p s)
      → (answer_gate p s st seq out).1.db ≡ out.1.db
  unfolding answer_gate
  answer_gate-db st seq (err e, after) = refl
  answer_gate-db st seq (ok evs, after) = elim (Option-cases (find_gate seq (project p evs))) [
    | inl h ↦ rw (h, answer_gate) refl
    | inr (g, h) ↦ rw (h, answer_gate) refl
  ]

  pub list_approvals-Answered :
      (st : TlrState s) (clock : ℕ → ℕ) (srv : Server p s) (id : String) (headers : Headers)
      → Answered p s st headers false srv (list_approvals p s st clock srv id headers)
  unfolding list_approvals
  list_approvals-Answered st clock srv id headers =
      guarded-Answered p s st headers false id srv _ (λ ns v.
        at p s srv.db _ _ (expire_then_read-Reaches st clock srv (ns, id) v)
          (answer_pending-db st (expire_then_read p s st clock srv (ns, id))))

  pub get_approval-Answered :
      (st : TlrState s) (clock : ℕ → ℕ) (srv : Server p s) (id : String) (seq : ℕ)
      (headers : Headers)
      → Answered p s st headers false srv (get_approval p s st clock srv id seq headers)
  unfolding get_approval
  get_approval-Answered st clock srv id seq headers =
      guarded-Answered p s st headers false id srv _ (λ ns v.
        at p s srv.db _ _ (expire_then_read-Reaches st clock srv (ns, id) v)
          (answer_gate-db st seq (expire_then_read p s st clock srv (ns, id))))

  abbrev counted_gate : TlrMetrics → TlrMetrics
  counted_gate m = record m { gates_opened = incr m.gates_opened }

  pub create_approval-Answered :
      (st : TlrState s) (clock : ℕ → ℕ) (srv : Server p s) (id : String) (headers : Headers)
      (body : Option CreateApproval)
      → Answered p s st headers true srv (create_approval p s st clock srv id headers body)
  unfolding create_approval
  create_approval-Answered st clock srv id headers none =
      guarded-Answered p s st headers true id srv _ (λ ns v. nothing p s srv.db)
  create_approval-Answered st clock srv id headers (some req) =
      guarded-Answered p s st headers true id srv _ (λ ns v.
        elim (Result-cases
          (Operations.request p s srv.db (clock 1) (ns, id) req.action (expiry (clock 0) req))) [
            | inr (e, h) ↦ rw h (nothing p s srv.db)
            | inl ((seq, db), h) ↦
                let wrote =
                  request-Reaches srv.db db (clock 1) (ns, id) req.action (expiry (clock 0) req) seq
                    v h in
                rw h (
                  at p s srv.db db _ wrote (
                    publish_head-db p s (counted p s (record srv { db = db }) counted_gate) (ns, id)
                      seq))
          ])

  resolve_checked-Reaches :
      (st : TlrState s) (clock : ℕ → ℕ) (srv : Server p s) (k : RunKey) (seq : ℕ) (d : Decision)
      (principal : Option String) (req : ResolveApproval)
      → valid_id k.1 ≡ true
      → Reaches p s k.0 srv.db (resolve_checked p s st clock srv k seq d principal req).1.db
  unfolding resolve_checked run
  resolve_checked-Reaches st clock srv k seq d principal req v =
      elim (Result-cases (
        Operations.resolve p s srv.db (clock 0) k seq d req.reviewer principal (is_some principal)
          req.note)) [
            | inr (e, h) ↦ rw (h, resolve_checked) (nothing p s srv.db)
            | inl ((n, db), h) ↦
                let wrote =
                  resolve-Reaches srv.db db (clock 0) k seq d req.reviewer principal
                    (is_some principal) req.note n v h in
                rw (h, resolve_checked)
                  (at p s srv.db db _ wrote (
                    publish_head-db p s (counted p s (record srv { db = db }) (count_decision d)) k
                      n))
          ]

  pub resolve_approval-Answered :
      (st : TlrState s) (clock : ℕ → ℕ) (srv : Server p s) (id : String) (seq : ℕ)
      (headers : Headers) (body : Option ResolveApproval)
      → Answered p s st headers true srv (resolve_approval p s st clock srv id seq headers body)
  unfolding resolve_approval
  resolve_approval-Answered st clock srv id seq headers none =
      guarded-Answered p s st headers true id srv _ (λ ns v. nothing p s srv.db)
  resolve_approval-Answered st clock srv id seq headers (some req) =
      let who = principal_of (tenant_of st (bearer headers)) in
      guarded-Answered p s st headers true id srv _ (λ ns v.
        elim (Option-cases (parse req.decision)) [
          | inl h ↦ rw h (nothing p s srv.db)
          | inr (expired, h) ↦ rw h (nothing p s srv.db)
          | inr (approved, h) ↦
              rw h (resolve_checked-Reaches st clock srv (ns, id) seq approved who req v)
          | inr (rejected, h) ↦
              rw h (resolve_checked-Reaches st clock srv (ns, id) seq rejected who req v)
        ])
