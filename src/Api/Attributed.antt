-- ===== src/Api/Attributed.antt =====
-- crates/tideline-server/src/api.rs and events.rs: what each request does to the reports and the owners.
use tideline.Base.{
  ℕ, leb, ◌≡◌, refl, inl, inr, sym, ap, ◌∙◌, subst, String, Bool, true, false, Option, none, some,
  List, [], ◌∷◌, arith, Option-cases, Bool-cases, dec_text, All, All-append, some_cancel, if_some,
  if◌then◌else◌,
}
use tideline.Base.Table
use tideline.Base.Table.{Table}
use tideline.Stream
use tideline.Stream.{Signal, token, gap, error}
use tideline.Manager.{StreamManager, get_or_create, subscriber_count}
use tideline.Events.{
  Tenant, Events, Kind, namespace, send, set_owner, owner, forget, report, report_completed,
  report_errored,
}
use tideline.Routes.{Headers, valid_id}
use tideline.Api.{
  AuthConfig, Env, AppState, Reply, Authz, denied, allowed, KeyVerifier, ns_key, key_of, admitted,
  guarded, report_publish, publish, complete, fail, delete_stream, authorize_write,
}
use tideline.Api.Subscribe.{
  TicketCrates, Located, refused, at, connect, subscribe, subscribe_ws, locate, authed, presents,
  resume,
}
use tideline.Api.Pump.{on_sse, on_ws, report_gap, drop_guard, open_stream}
use tideline.Api.Served.{
  Request, publishes, completes, fails, deletes, subscribes, subscribes_ws, sse_turn, ws_opens,
  ws_turn, leaves, handle,
}

-- An owner's key is the name of its stream in the owner's namespace, and the stream is the owner's in
-- the sense of `P`.
abbrev pub Owned : (Tenant → String → Type 0) → Table String (Tenant × String) → Type 0
Owned P owners =
    (key : String) (t : Tenant) (id : String)
    → Table.get dec_text key owners ≡ some (t, id)
    → (key ≡ ns_key (some (namespace t)) id) × P t id

pub record IsAttributed (P : Tenant → String → Type 0) (ev : Events) : Type 0 where
  pub owned : Owned P ev.owners
  pub reported : All (λ m. P m.tenant m.stream_id) ev.offered

if_both {ℓ κ} :
    {A : Type ℓ} (P : A → Type κ) (b : Bool) (x y : A) → P x → P y → P (if b then x else y)
if_both P true x y h k = h
if_both P false x y h k = k

All-mono {ℓ} :
    {A : Type ℓ} (P Q : A → Type 0) (xs : List A) → ((x : A) → P x → Q x) → All P xs → All Q xs
All-mono P Q [] f h = tt
All-mono P Q (x ∷ xs) f h = (f x h.0, All-mono P Q xs f h.1)

pub IsAttributed-mono :
    (P Q : Tenant → String → Type 0) (ev : Events)
    → ((t : Tenant) (id : String) → P t id → Q t id)
    → IsAttributed P ev
    → IsAttributed Q ev
IsAttributed-mono P Q ev f h = record {
  owned = λ key t id q. let (a, b) = h.owned key t id q in (a, f t id b);
  reported =
      All-mono (λ m. P m.tenant m.stream_id) (λ m. Q m.tenant m.stream_id) ev.offered
        (λ m. f m.tenant m.stream_id) h.reported;
}

module _ (P : Tenant → String → Type 0) where
  send-IsAttributed :
      (ev : Events) (t : Tenant) (id : String) (k : Kind)
      → P t id
      → IsAttributed P ev
      → IsAttributed P (send ev t id k)
  unfolding send
  send-IsAttributed ev t id k v h =
      if_both (IsAttributed P) ev.enabled _ ev
        (record {
          owned = h.owned;
          reported =
              All-append (λ m. P m.tenant m.stream_id) ev.offered
                (record { tenant = t; stream_id = id; kind = k } ∷ []) h.reported (v, tt);
        })
        h

  report-IsAttributed :
      (ev : Events) (key : String) (k : Kind) → IsAttributed P ev → IsAttributed P (report ev key k)
  unfolding owner report
  report-IsAttributed ev key k h = elim (Option-cases (owner ev key)) [
    | inl e ↦ rw (e, report) h
    | inr ((t, id), e) ↦
        let (_, found) = if_some ev.enabled (Table.get dec_text key ev.owners) e in
        rw (e, report) (send-IsAttributed ev t id k (h.owned key t id found).1 h)
  ]

  forget-IsAttributed :
      (ev : Events) (key : String) → IsAttributed P ev → IsAttributed P (forget ev key)
  unfolding forget
  forget-IsAttributed ev key h = record {
    owned = λ j t id q. elim (dec_text key j) [
      | yes e ↦ absurd (ground (arith, Table.get-remove dec_text key j ev.owners, q))
      | no n ↦ h.owned j t id (ground (arith, Table.get-remove dec_text key j ev.owners, q))
    ];
    reported = h.reported;
  }

  set_owner-IsAttributed :
      (ev : Events) (t : Tenant) (id : String)
      → P t id
      → IsAttributed P ev
      → IsAttributed P (set_owner ev (ns_key (some (namespace t)) id) t id)
  unfolding set_owner
  set_owner-IsAttributed ev t id v h =
      if_both (IsAttributed P) ev.enabled _ ev
        (elim (Option-cases (Table.get dec_text (ns_key (some (namespace t)) id) ev.owners)) [
          | inr (o, e) ↦ rw e h
          | inl e ↦ rw e (record { owned = owned'; reported = h.reported })
        ])
        h
    where
      key : String
      key = ns_key (some (namespace t)) id

      owned' : Owned P (Table.insert dec_text key (t, id) ev.owners)
      owned' j u plain q = elim (dec_text key j) [
        | no n ↦
            h.owned j u plain (sym (Table.get-insert_ne dec_text key j (t, id) ev.owners n) ∙ q)
        | yes same ↦
            let q' =
              subst
                (λ k.
                  Table.get dec_text k (Table.insert dec_text key (t, id) ev.owners)
                  ≡ some (u, plain))
                (sym same) q in
            let is : ◌≡◌ {A = Tenant × String} (t, id) (u, plain) =
              some_cancel (sym (Table.get-insert_self dec_text key (t, id) ev.owners) ∙ q') in
            (sym same ∙ ap (λ x. ns_key (some (namespace x.0)) x.1) is, subst (λ x. P x.0 x.1) is v)
      ]

  report_publish-IsAttributed :
      (ev : Events) (tenant : Option Tenant) (id : String) (offset : ℕ)
      → ((t : Tenant) → tenant ≡ some t → P t id)
      → IsAttributed P ev
      → IsAttributed P (report_publish ev tenant id offset)
  unfolding report_publish key_of
  report_publish-IsAttributed ev none id offset v h = h
  report_publish-IsAttributed ev (some t) id offset v h =
      elim (Option-cases (owner ev (ns_key (some (namespace t)) id))) [
        | inr (o, e) ↦ rw (e, report_publish) (send-IsAttributed ev t id _ (v t refl) h)
        | inl e ↦
            rw (e, report_publish)
              (send-IsAttributed _ t id _ (v t refl) (
                send-IsAttributed _ t id _ (v t refl)
                  (set_owner-IsAttributed ev t id (v t refl) h)))
      ]

  -- A handler behind its guard.
  guarded-IsAttributed :
      (auth : AuthConfig) (env : Env) (st : AppState) (id : String) (headers : Headers)
      (go : Option Tenant → AppState → Reply × AppState)
      → IsAttributed P st.events
      → (valid_id id ≡ true
          → (tenant : Option Tenant) (cache : KeyVerifier)
          → (authorize_write auth st.cache env headers).0 ≡ allowed tenant
          → IsAttributed P (go tenant (record st { cache = cache })).1.events)
      → IsAttributed P (guarded auth env st id headers go).1.events
  unfolding guarded admitted
  guarded-IsAttributed auth env st id headers go h acts = elim (Bool-cases (valid_id id)) [
    | inr v ↦ rw v h
    | inl v ↦ rw v (admits (authorize_write auth st.cache env headers) (acts v))
  ]
    where
      admits :
          (a : Authz × KeyVerifier)
          → ((tenant : Option Tenant) (cache : KeyVerifier)
              → a.0 ≡ allowed tenant
              → IsAttributed P (go tenant (record st { cache = cache })).1.events)
          → IsAttributed P (admitted st go a).1.events
      admits (denied, cache) k = h
      admits (allowed tenant, cache) k = k tenant cache refl

  connect-IsAttributed :
      (st : AppState) (opens : StreamManager → String → StreamManager) (transport : String)
      (from : ℕ) (l : Located)
      → IsAttributed P st.events
      → IsAttributed P (connect st opens transport from l).1.events
  unfolding connect
  connect-IsAttributed st opens transport from (refused r) h = h
  connect-IsAttributed st opens transport from (at key) h =
      elim (Bool-cases
        (leb st.backend.cfg.max_subscribers_per_stream (subscriber_count st.backend key))) [
          | inl c ↦ rw c h
          | inr c ↦ rw c (report-IsAttributed st.events key _ h)
        ]

  on_sse-IsAttributed :
      (key : String) (from : ℕ) (st : AppState) (sig : Signal)
      → IsAttributed P st.events
      → IsAttributed P (on_sse key from st sig).events
  unfolding on_sse report_gap
  on_sse-IsAttributed key from st (token t) h = h
  on_sse-IsAttributed key from st gap h = report-IsAttributed st.events key _ h
  on_sse-IsAttributed key from st (error e) h = h
  on_sse-IsAttributed key from st Stream.done h = h

  on_ws-IsAttributed :
      (key : String) (from : ℕ) (st : AppState) (sig : Signal)
      → IsAttributed P st.events
      → IsAttributed P (on_ws key from st sig).events
  unfolding on_ws report_gap
  on_ws-IsAttributed key from st (token t) h = h
  on_ws-IsAttributed key from st gap h = report-IsAttributed st.events key _ h
  on_ws-IsAttributed key from st (error e) h = h
  on_ws-IsAttributed key from st Stream.done h = h

  subscribe-IsAttributed :
      (crates : TicketCrates) (auth : AuthConfig) (secs now : ℕ) (st : AppState) (id : String)
      (from : Option ℕ) (ns ticket : Option String) (headers : Headers) (last : Option ℕ)
      → IsAttributed P st.events
      → IsAttributed P (subscribe crates auth secs now st id from ns ticket headers last).1.events
  unfolding subscribe
  subscribe-IsAttributed crates auth secs now st id from ns ticket headers last h =
      elim (Bool-cases (valid_id id)) [
        | inr v ↦ rw v h
        | inl v ↦ elim (Bool-cases (authed auth.subscribe_token headers)) [
          | inr a ↦ rw (v, a) h
          | inl a ↦
              rw (v, a)
                (connect-IsAttributed st (λ m k. (get_or_create m now k).1) "sse" (resume last from)
                  (locate crates auth secs st.backend ns ticket id) h)
        ]
      ]

  subscribe_ws-IsAttributed :
      (crates : TicketCrates) (auth : AuthConfig) (secs : ℕ) (st : AppState) (id : String)
      (from : Option ℕ) (credential ns ticket : Option String)
      → IsAttributed P st.events
      → IsAttributed P (subscribe_ws crates auth secs st id from credential ns ticket).1.events
  unfolding subscribe_ws
  subscribe_ws-IsAttributed crates auth secs st id from credential ns ticket h =
      elim (Bool-cases (valid_id id)) [
        | inr v ↦ rw v h
        | inl v ↦ elim (Bool-cases (presents auth.subscribe_token credential)) [
          | inr a ↦ rw (v, a) h
          | inl a ↦
              rw (v, a)
                (connect-IsAttributed st (λ m k. m) "ws" (resume none from)
                  (locate crates auth secs st.backend ns ticket id) h)
        ]
      ]

  -- A request keeps the attribution, if `P` holds of the stream and the tenant of a publish that is
  -- accepted.
  pub handle-IsAttributed :
      (crates : TicketCrates) (auth : AuthConfig) (env : Env) (st : AppState) (req : Request)
      → IsAttributed P st.events
      → ((id : String) (private : Bool) (headers : Headers) (body : String) (t : Tenant)
          → req ≡ publishes id private headers body
          → valid_id id ≡ true
          → (authorize_write auth st.cache env headers).0 ≡ allowed (some t)
          → P t id)
      → IsAttributed P (handle crates auth env st req).events
  unfolding handle publish complete fail delete_stream report_completed report_errored drop_guard
      open_stream
  handle-IsAttributed crates auth env st (publishes id private headers body) h grants =
      guarded-IsAttributed auth env st id headers _ h (λ v tenant cache a.
        report_publish-IsAttributed st.events tenant id _
          (λ t e. grants id private headers body t refl v (a ∙ ap allowed e)) h)
  handle-IsAttributed crates auth env st (completes id headers) h grants =
      guarded-IsAttributed auth env st id headers _ h (λ v tenant cache a.
        forget-IsAttributed (report st.events (key_of tenant id) Kind.completed) (key_of tenant id)
          (report-IsAttributed st.events (key_of tenant id) Kind.completed h))
  handle-IsAttributed crates auth env st (fails id headers body) h grants =
      guarded-IsAttributed auth env st id headers _ h (λ v tenant cache a.
        forget-IsAttributed _ (key_of tenant id)
          (report-IsAttributed st.events (key_of tenant id) _ h))
  handle-IsAttributed crates auth env st (deletes id headers) h grants =
      guarded-IsAttributed auth env st id headers _ h (λ v tenant cache a. h)
  handle-IsAttributed crates auth env st (subscribes id from ns ticket headers last) h grants =
      subscribe-IsAttributed crates auth env.seconds env.now st id from ns ticket headers last h
  handle-IsAttributed crates auth env st (subscribes_ws id from credential ns ticket) h grants =
      subscribe_ws-IsAttributed crates auth env.seconds st id from credential ns ticket h
  handle-IsAttributed crates auth env st (sse_turn key from sig) h grants =
      on_sse-IsAttributed key from st sig h
  handle-IsAttributed crates auth env st (ws_opens key) h grants = h
  handle-IsAttributed crates auth env st (ws_turn key from sig) h grants =
      on_ws-IsAttributed key from st sig h
  handle-IsAttributed crates auth env st (leaves key) h grants =
      report-IsAttributed st.events key _ h
