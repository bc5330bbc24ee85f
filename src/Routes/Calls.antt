-- ===== src/Routes/Calls.antt =====
-- crates/tideline-server/src/tlr/routes.rs: what a request does to the store, as calls of the store.
use tideline.Base.{
  ℕ, ltb, ◌%◌, ◌&&◌, ◌≡◌, ◌≢◌, refl, sym, ◌∙◌, ap, subst, inl, inr, String, Bool, true, false,
  Option, none, some, List, [], ◌∷◌, ◌++◌, All, ◌⊎◌, All-append, arith, Option-cases, Bool-cases,
  is_blank, ◌==◌,
}
use tideline.Platform.{Platform}
use tideline.Signing.{Signing}
use tideline.Auth.{Access, granted, denied}
use tideline.Metrics.{TlrMetrics, incr}
use tideline.Proto.Digest.{Hash}
use tideline.Record.Checkpoints.{insert_checkpoint, put_checkpoint}
use tideline.Record.Store
use tideline.Record.Store.{RunKey, NewRun, NewEvent, Message, StoreError, Result-cases}
use tideline.Record.Tables.{Db}
use tideline.Record.Sqlite
use tideline.Record.Sqlite.{events}
use tideline.Record.History.{Call, creates, appends, seals, redacts, checkpoints, step, run}
use tideline.Keys.{sign_head}
use tideline.Proto.Checkpoint.{Checkpoint, sign}
use tideline.Routes.{
  Headers, Response, Server, TlrState, valid_id, authorize, guarded, publish_head, write_checkpoint,
  checkpointed, best_effort, maybe_checkpoint, unauthorized, bad, counted,
}
use tideline.Routes.Handlers.{is_structural, create_run, append_checked, append_event}

module _ (p : Platform) (s : Signing) where
  -- What the routes may ask of the store for the runs of a namespace.
  abbrev pub Permitted : String → Call p s → Type 0
  Permitted ns (creates now ns' new) = (ns' ≡ ns) × (valid_id new.run_id ≡ true)
  Permitted ns (appends now k event idem) =
      (k.0 ≡ ns) × (valid_id k.1 ≡ true) × (is_structural event.kind ≡ false)
  Permitted ns (seals now k) = (k.0 ≡ ns) × (valid_id k.1 ≡ true)
  Permitted ns (redacts now k target fields authority) =
      (k.0 ≡ ns) × (valid_id k.1 ≡ true) × (is_blank authority ≡ false)
  Permitted ns (checkpoints k cp) = (k.0 ≡ ns) × (valid_id k.1 ≡ true) × (cp.run_id ≡ k.1)

  -- A database that permitted calls lead to.
  abbrev pub Reaches : String → Db p s → Db p s → Type 0
  Reaches ns db db' = (cs : List (Call p s)) × (db' ≡ run p s db cs) × All (Permitted ns) cs

  pub run-append :
      (db : Db p s) (cs ds : List (Call p s)) → run p s db (cs ++ ds) ≡ run p s (run p s db cs) ds
  unfolding run
  run-append db [] ds = refl
  run-append db (c ∷ cs) ds = run-append (step p s db c) cs ds

  pub nothing : {ns : String} (db : Db p s) → Reaches ns db db
  unfolding run
  nothing db = ([], refl, tt)

  pub one :
      {ns : String} (db db' : Db p s) (c : Call p s)
      → step p s db c ≡ db'
      → Permitted ns c
      → Reaches ns db db'
  unfolding run
  one db db' c e h = (c ∷ [], sym e, (h, tt))

  pub both : {ns : String} (a b c : Db p s) → Reaches ns a b → Reaches ns b c → Reaches ns a c
  both a b c (cs, e, h) (ds, d, k) =
      (cs ++ ds, d ∙ ap (λ x. run p s x ds) e ∙ sym (run-append a cs ds), All-append _ cs ds h k)

  -- A handler that gives the server's state with its database reached from where it began.
  abbrev pub Acts : {A : Type 0} → String → Server p s → A × Server p s → Type 0
  Acts ns srv out = Reaches ns srv.db out.1.db

  pub List-cases :
      {A : Type 0} (xs : List A) → (xs ≡ []) ⊎ ((y : A) × (ys : List A) × (xs ≡ y ∷ ys))
  List-cases [] = inl refl
  List-cases (x ∷ xs) = inr (x, xs, refl)

  -- Publishing does not write.
  pub publish_head-db :
      (srv : Server p s) (k : RunKey) (seq : ℕ) → (publish_head p s srv k seq).db ≡ srv.db
  unfolding publish_head
  publish_head-db srv k seq = elim (List-cases (events p s srv.db k seq 1)) [
    | inl h ↦ rw (h, publish_head) refl
    | inr (e, es, h) ↦ rw (h, publish_head) refl
  ]

  Access-cases : (a : Access) → (a ≡ denied) ⊎ ((ns : String) × (a ≡ granted ns))
  Access-cases denied = inl refl
  Access-cases (granted ns) = inr (ns, refl)

  -- A handler either goes past the credential and the id, or refuses.
  pub guarded-cases :
      {A : Type 0} (st : TlrState s) (headers : Headers) (write : Bool) (id : String)
      (refuse : Response p s → A) (go : RunKey → A)
      → ((r : Response p s) × (r.status ≢ 200)
          × (guarded p s st headers write id refuse go ≡ refuse r))
        ⊎ ((ns : String) × (authorize st headers write ≡ granted ns)
            × (valid_id id ≡ true)
            × (guarded p s st headers write id refuse go ≡ go (ns, id)))
  unfolding guarded
  guarded-cases st headers write id refuse go = elim (Access-cases (authorize st headers write)) [
    | inl d ↦ inl (unauthorized p s, λ h. ground arith, rw (d, guarded) refl)
    | inr (ns, g) ↦ elim (Bool-cases (valid_id id)) [
      | inl v ↦ inr (ns, g, v, rw (g, v, guarded) refl)
      | inr v ↦ inl (bad p s "invalid run id", λ h. ground arith, rw (g, v, guarded) refl)
    ]
  ]

  -- A request is refused and writes nothing, or it is granted a namespace and makes permitted calls.
  abbrev pub Answered :
      TlrState s → Headers → Bool → Server p s → Response p s × Server p s → Type 0
  Answered st headers write srv out =
      (out.1.db ≡ srv.db)
      ⊎ ((ns : String) × (authorize st headers write ≡ granted ns) × Reaches ns srv.db out.1.db)

  pub guarded-Answered :
      (st : TlrState s) (headers : Headers) (write : Bool) (id : String) (srv : Server p s)
      (go : RunKey → Response p s × Server p s)
      → ((ns : String) → valid_id id ≡ true → Reaches ns srv.db (go (ns, id)).1.db)
      → Answered st headers write srv (guarded p s st headers write id (λ r. (r, srv)) go)
  guarded-Answered st headers write id srv go acts =
      elim (guarded-cases st headers write id (λ r. (r, srv)) go) [
        | inl (r, _, e) ↦ inl (ap (λ o. o.1.db) e)
        | inr (ns, g, v, e) ↦ inr (ns, g, subst (λ o. Reaches ns srv.db o.1.db) (sym e) (acts ns v))
      ]

  pub at : {ns : String} (a b b' : Db p s) → Reaches ns a b → b' ≡ b → Reaches ns a b'
  at {ns} a b b' h e = subst (Reaches ns a) (sym e) h

  checkpointed-cases :
      (srv : Server p s) (k : RunKey) (cp : Checkpoint s) (fault : Option Message)
      → ((e : StoreError) × (checkpointed p s srv cp (put_checkpoint p s fault srv.db k cp)
            ≡ Store.err e))
        ⊎ ((srv' : Server p s) × (checkpointed p s srv cp (put_checkpoint p s fault srv.db k cp)
              ≡ Store.ok srv')
            × (srv'.db ≡ insert_checkpoint p s srv.db k cp))
  unfolding checkpointed put_checkpoint
  checkpointed-cases srv k cp (some m) = inl (Store.backend m, refl)
  checkpointed-cases srv k cp none = inr (_, refl, refl)

  -- A checkpoint fails and leaves the server as it was, or its row is stored.
  pub write_checkpoint-cases :
      (st : TlrState s) (now : ℕ) (srv : Server p s) (k : RunKey) (seq : ℕ) (head : Hash)
      → ((e : StoreError) × (write_checkpoint p s st now srv k seq head ≡ Store.err e))
        ⊎ ((srv' : Server p s) × (write_checkpoint p s st now srv k seq head ≡ Store.ok srv')
            × (srv'.db ≡ insert_checkpoint p s srv.db k (sign_head p s st.keys k.1 seq head now)))
  unfolding write_checkpoint
  write_checkpoint-cases st now srv k seq head =
      checkpointed-cases srv k (sign_head p s st.keys k.1 seq head now) (st.checkpoint_fault seq)

  pub checkpoint-Reaches :
      (st : TlrState s) (now : ℕ) (srv srv' : Server p s) (k : RunKey) (seq : ℕ) (head : Hash)
      → valid_id k.1 ≡ true
      → srv'.db ≡ insert_checkpoint p s srv.db k (sign_head p s st.keys k.1 seq head now)
      → Reaches k.0 srv.db srv'.db
  unfolding step sign_head sign
  checkpoint-Reaches st now srv srv' k seq head v e =
      one srv.db _ (checkpoints k (sign_head p s st.keys k.1 seq head now)) (sym e) (refl, v, refl)

  maybe_checkpoint-Reaches :
      (st : TlrState s) (now : ℕ) (srv : Server p s) (k : RunKey) (seq : ℕ) (head : Hash)
      → valid_id k.1 ≡ true
      → Reaches k.0 srv.db (maybe_checkpoint p s st now srv k seq head).db
  unfolding maybe_checkpoint best_effort
  maybe_checkpoint-Reaches st now srv k seq head v =
      elim (Bool-cases (ltb 0 st.checkpoint_every && (seq % st.checkpoint_every == 0))) [
        | inl c ↦ elim (write_checkpoint-cases st now srv k seq head) [
          | inl (e, q) ↦ rw (c, q, maybe_checkpoint) (nothing srv.db)
          | inr (srv', q, d) ↦
              rw (c, q, maybe_checkpoint) (checkpoint-Reaches st now srv srv' k seq head v d)
        ]
        | inr c ↦ rw (c, maybe_checkpoint) (nothing srv.db)
      ]

  append_checked-Reaches :
      (st : TlrState s) (clock : ℕ → ℕ) (srv : Server p s) (k : RunKey) (event : NewEvent p)
      (idem : Option String)
      → valid_id k.1 ≡ true
      → is_structural event.kind ≡ false
      → Reaches k.0 srv.db (append_checked p s st clock srv k event idem).1.db
  unfolding append_checked step
  append_checked-Reaches st clock srv k event idem v plain =
      elim (Result-cases (Sqlite.append p s srv.db (clock 0) k event idem)) [
        | inr (e, h) ↦ rw (h, append_checked) (nothing srv.db)
        | inl ((res, db), h) ↦
            let made =
              counted p s (record srv { db = db })
                (λ m. record m { events_appended = incr m.events_appended }) in
            let told = publish_head p s made k res.seq in
            let wrote =
              one srv.db db (appends (clock 0) k event idem) (rw (h, step) refl) (refl, v, plain) in
            let done =
              both srv.db told.db _ (at srv.db db told.db wrote (publish_head-db made k res.seq))
                (maybe_checkpoint-Reaches st (clock 1) told k res.seq res.hash v) in
            rw (h, append_checked) done
      ]

  pub append_event-Answered :
      (st : TlrState s) (clock : ℕ → ℕ) (srv : Server p s) (id : String) (headers : Headers)
      (body : Option (NewEvent p))
      → Answered st headers true srv (append_event p s st clock srv id headers body)
  unfolding append_event
  append_event-Answered st clock srv id headers none =
      guarded-Answered st headers true id srv _ (λ ns v. nothing srv.db)
  append_event-Answered st clock srv id headers (some event) =
      guarded-Answered st headers true id srv _ (λ ns v.
        elim (Bool-cases (is_structural event.kind)) [
          | inl c ↦ rw c (nothing srv.db)
          | inr c ↦
              rw c (append_checked-Reaches st clock srv (ns, id) event headers.idempotency_key v c)
        ])

  abbrev created : TlrMetrics → TlrMetrics
  created m = record m { runs_created = incr m.runs_created }

  pub create_run-Answered :
      (st : TlrState s) (clock : ℕ → ℕ) (srv : Server p s) (headers : Headers)
      (body : Option NewRun)
      → Answered st headers true srv (create_run p s st clock srv headers body)
  unfolding create_run step
  create_run-Answered st clock srv headers body = elim (Access-cases (authorize st headers true)) [
    | inl d ↦ inl (rw (d, create_run) refl)
    | inr (ns, g) ↦ elim (Option-cases body) [
      | inl b ↦ inl (rw (g, b, create_run) refl)
      | inr (new, b) ↦ elim (Bool-cases (valid_id new.run_id)) [
        | inr v ↦ inl (rw (g, b, v, create_run) refl)
        | inl v ↦ elim (Result-cases (Sqlite.create_run p s srv.db (clock 0) ns new)) [
          | inr (e, h) ↦ inl (rw (g, b, v, h, create_run) refl)
          | inl ((env, db), h) ↦
              let made = counted p s (record srv { db = db }) created in
              let wrote = one srv.db db (creates (clock 0) ns new) (rw (h, step) refl) (refl, v) in
              inr (
                ns,
                g,
                rw (g, b, v, h, create_run)
                    (at srv.db db _ wrote (publish_head-db made (ns, env.run_id) 0)),
              )
        ]
      ]
    ]
  ]
