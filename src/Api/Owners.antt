-- ===== src/Api/Owners.antt =====
-- crates/tideline-server/src/api.rs and events.rs: to whom the reports of a stream go.
use tideline.Base.{
  ◌≡◌, refl, sym, ap, ◌∙◌, subst, String, Bool, true, some, List, [], ◌∷◌, ◌++◌, arith,
  append_assoc, append-nil,
}
use tideline.Base.Table
use tideline.Base.Table.{Table}
use tideline.Manager.{ManagerConfig}
use tideline.Events.{Tenant}
use tideline.Routes.{Headers, valid_id}
use tideline.Api.{AuthConfig, Env, AppState, allowed, authorize_write}
use tideline.Api.Subscribe.{TicketCrates}
use tideline.Api.Served.{Request, publishes, handle, serve, started}
use tideline.Api.Attributed.{IsAttributed, IsAttributed-mono, handle-IsAttributed}

module _ (crates : TicketCrates) (auth : AuthConfig) (start : AppState) where
  -- One of the requests published to this stream, and the server, in the state that it had then,
  -- accepted its credential as this tenant's.
  abbrev pub Published : List (Env × Request) → Tenant → String → Type 0
  Published reqs t id =
      (front : List (Env × Request)) × (back : List (Env × Request)) × (env : Env)
      × (private : Bool) × (headers : Headers) × (body : String) × (reqs
          ≡ front ++ (env, publishes id private headers body) ∷ back)
      × (valid_id id ≡ true)
      × ((authorize_write auth (serve crates auth start front).cache env headers).0
          ≡ allowed (some t))

  Published-more :
      (reqs more : List (Env × Request)) (t : Tenant) (id : String)
      → Published reqs t id
      → Published (reqs ++ more) t id
  Published-more reqs more t id (front, back, env, private, headers, body, parts, v, a) = (
    front,
    back ++ more,
    env,
    private,
    headers,
    body,
    ap (λ l. l ++ more) parts
        ∙ append_assoc front ((env, publishes id private headers body) ∷ back) more,
    v,
    a,
  )

  serve-append :
      (st : AppState) (reqs more : List (Env × Request))
      → serve crates auth st (reqs ++ more) ≡ serve crates auth (serve crates auth st reqs) more
  unfolding serve
  serve-append st [] more = refl
  serve-append st ((env, req) ∷ rest) more = serve-append (handle crates auth env st req) rest more

  serve-IsAttributed :
      (before reqs : List (Env × Request))
      → IsAttributed (Published before) (serve crates auth start before).events
      → IsAttributed (Published (before ++ reqs)) (serve crates auth start (before ++ reqs)).events
  unfolding serve
  serve-IsAttributed before [] h =
      subst (λ l. IsAttributed (Published l) (serve crates auth start l).events)
        (sym (append-nil before)) h
  serve-IsAttributed before ((env, req) ∷ rest) h =
      let now = before ++ (env, req) ∷ [] in
      let st = serve crates auth start before in
      let reached : serve crates auth start now ≡ handle crates auth env st req =
        serve-append start before ((env, req) ∷ []) in
      let kept =
        IsAttributed-mono (Published before) (Published now) st.events
          (Published-more before ((env, req) ∷ [])) h in
      let step : IsAttributed (Published now) (handle crates auth env st req).events =
        handle-IsAttributed (Published now) crates auth env st req kept
          (λ id private headers body t e v a.
            (before, [], env, private, headers, body, ap (λ r. before ++ (env, r) ∷ []) e, v, a)) in
      let next : IsAttributed (Published now) (serve crates auth start now).events =
        subst (λ s. IsAttributed (Published now) s.events) (sym reached) step in
      subst (λ l. IsAttributed (Published l) (serve crates auth start l).events)
        (append_assoc before ((env, req) ∷ []) rest) (serve-IsAttributed now rest next)

-- Whatever requests a server has answered since its start, subscriptions over both transports and the
-- turns of readers included: every report is of a tenant and a stream to which one of the requests
-- published with a credential that the server accepted as this tenant's. So is the owner that the
-- server has for a key, and the key is the name of that stream in the tenant's namespace.
pub served-IsAttributed :
    (crates : TicketCrates) (auth : AuthConfig) (cfg : ManagerConfig) (reporting : Bool)
    (reqs : List (Env × Request))
    → IsAttributed
        (Published crates auth (started cfg reporting) reqs)
        (serve crates auth (started cfg reporting) reqs).events
unfolding Table.get serve
served-IsAttributed crates auth cfg reporting reqs =
    serve-IsAttributed crates auth (started cfg reporting) [] reqs
      (record { owned = λ key t id q. absurd (ground arith); reported = tt })
