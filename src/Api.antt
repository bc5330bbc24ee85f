-- ===== src/Api.antt =====
-- crates/tideline-server/src/api.rs: the routes of streams, over the registry in memory.
pub mod Keys
pub mod Verifier
pub mod Served
pub mod Attributed
pub mod Owners
pub mod Subscribe
pub mod Tickets
pub mod Entitled
pub mod Pump
pub mod Transports
use tideline.Base.{
  ℕ, ◌+◌, String, Bool, true, false, Option, none, some, List, [], ◌∷◌, ite, dec_text, ltb, leb,
  if◌then◌else◌, ◌&&◌, ◌||◌, not,
}
use tideline.Base.Table
use tideline.Base.Table.{Table}
use tideline.Proto.Canon.{unwrap_or}
use tideline.Auth.{is_none, matches}
use tideline.Manager
use tideline.Manager.{
  StreamManager, backend_publish, backend_complete, backend_fail, set_private, is_private,
  subscriber_count,
}
use tideline.Events
use tideline.Events.{
  Tenant, Events, namespace, owner, set_owner, send, created, tokens, report, report_completed,
  report_errored, sub_connected,
}
use tideline.Routes.{Headers, bearer, valid_id, join}

pub record AuthConfig : Type 0 where
  pub publish_token : Option String
  pub subscribe_token : Option String
  pub verify_url : Option String
  pub verify_secret : Option String

-- The answer of the control plane, as its body reads.
pub record VerifyResp : Type 0 where
  pub user_id : Option String
  pub org_id : Option String

-- What a question to the control plane comes to: no answer or no success, or success with a body that
-- may not be readable.
pub data Plane : Type 0 where
  refuses : Plane
  confirms : Option VerifyResp → Plane

-- The world while a request runs: the time, the time when the control plane has answered, and its
-- answers. Times are milliseconds, but for `seconds`, the time that a ticket is held against.
pub record Env : Type 0 where
  pub now : ℕ
  pub answered : ℕ
  pub seconds : ℕ
  pub plane : String → Plane

unfoldable pub tenant_in : Option VerifyResp → Tenant
tenant_in none = record { user_id = ""; org_id = none }
tenant_in (some r) = record { user_id = unwrap_or "" r.user_id; org_id = r.org_id }

-- The cache of `KeyVerifier`: a tenant and the end of its time, by the token.
abbrev pub KeyVerifier : Type 0
KeyVerifier = Table String (Tenant × ℕ)

abbrev pub ttl : ℕ
ttl = 60000

unfoldable pub ask : KeyVerifier → Env → String → Option Tenant × KeyVerifier
ask cache env token = elim (env.plane token) [
  | refuses ↦ (none, cache)
  | confirms r ↦
      (some (tenant_in r), Table.insert dec_text token (tenant_in r, env.answered + ttl) cache)
]

unfoldable pub verify : KeyVerifier → Env → String → Option Tenant × KeyVerifier
verify cache env token = elim (Table.get dec_text token cache) [
  | none ↦ ask cache env token
  | some (tenant, exp) ↦ if ltb env.now exp then (some tenant, cache) else ask cache env token
]

pub data Authz : Type 0 where
  denied : Authz
  allowed : Option Tenant → Authz

-- The end of `authorize_write`: open when neither a token nor a URL is configured.
unfoldable pub open_or_denied : AuthConfig → Authz
open_or_denied auth =
    if is_none auth.publish_token && is_none auth.verify_url then allowed none else denied

unfoldable pub authorize_write : AuthConfig → KeyVerifier → Env → Headers → Authz × KeyVerifier
authorize_write auth cache env headers =
    let presented = bearer headers in
    if matches auth.publish_token presented then (allowed none, cache) else elim auth.verify_url [
      | none ↦ (open_or_denied auth, cache)
      | some url ↦ elim presented [
        | none ↦ (open_or_denied auth, cache)
        | some token ↦
            let (tenant, cache') = verify cache env token in
            (elim tenant [ some t ↦ allowed (some t) | none ↦ open_or_denied auth ], cache')
      ]
    ]

unfoldable pub ns_key : Option String → String → String
ns_key none id = id
ns_key (some ns) id = ite (dec_text ns "") id (join ns (join "|" id))

-- `CloudTenants::resolve`
unfoldable pub resolve : AuthConfig → KeyVerifier → Env → String → Option String × KeyVerifier
resolve auth cache env token = elim auth.verify_url [
  | none ↦ (none, cache)
  | some url ↦
      let (tenant, cache') = verify cache env token in
      (elim tenant [ none ↦ none | some t ↦ some (namespace t) ], cache')
]

pub data Reply : Type 0 where
  invalid_stream_id : Reply
  unauthorized : Reply
  published : (offset : ℕ) → Reply
  ok : Reply
  deleted : Reply
  no_such_stream : Reply

pub record AppState : Type 0 where
  pub backend : StreamManager
  pub cache : KeyVerifier
  pub events : Events

unfoldable pub key_of : Option Tenant → String → String
key_of none id = ns_key none id
key_of (some t) id = ns_key (some (namespace t)) id

-- What a handler does behind the outcome of its credential.
unfoldable pub admitted :
    AppState
    → (Option Tenant → AppState → Reply × AppState)
    → Authz × KeyVerifier
    → Reply × AppState
admitted st go (denied, cache) = (unauthorized, record st { cache = cache })
admitted st go (allowed tenant, cache) = go tenant (record st { cache = cache })

-- Every handler that writes: the id, the credential, and then what it does for the tenant.
unfoldable pub guarded :
    AuthConfig
    → Env
    → AppState
    → String
    → Headers
    → (Option Tenant → AppState → Reply × AppState)
    → Reply × AppState
guarded auth env st id headers go =
    if valid_id id
    then admitted st go (authorize_write auth st.cache env headers)
    else (invalid_stream_id, st)

-- The reports of a publish.
unfoldable pub report_publish : Events → Option Tenant → String → ℕ → Events
report_publish ev none id offset = ev
report_publish ev (some t) id offset = elim (owner ev (key_of (some t) id)) [
  | some _ ↦ send ev t id (tokens 1 offset)
  | none ↦ send (send (set_owner ev (key_of (some t) id) t id) t id created) t id (tokens 1 offset)
]

unfoldable pub mark_private : StreamManager → ℕ → String → Bool → StreamManager
mark_private m now key private = if private then set_private m now key else m

-- `private` is whether the query says `1` or `true`.
unfoldable pub publish :
    AuthConfig → Env → AppState → String → Bool → Headers → String → Reply × AppState
publish auth env st id private headers body = guarded auth env st id headers (λ tenant st'.
    let (offset, m) =
      backend_publish (mark_private st'.backend env.now (key_of tenant id) private) env.now
        (key_of tenant id) body in
    (
      published offset,
      record st' { backend = m; events = report_publish st'.events tenant id offset },
    ))

unfoldable pub complete : AuthConfig → Env → AppState → String → Headers → Reply × AppState
complete auth env st id headers = guarded auth env st id headers (λ tenant st'. (
  ok,
  record st' {
    backend = backend_complete st'.backend env.now (key_of tenant id);
    events = report_completed st'.events (key_of tenant id);
  },
))

unfoldable pub or_error : String → String
or_error body = ite (dec_text body "") "error" body

unfoldable pub fail : AuthConfig → Env → AppState → String → Headers → String → Reply × AppState
fail auth env st id headers body = guarded auth env st id headers (λ tenant st'. (
  ok,
  record st' {
    backend = backend_fail st'.backend env.now (key_of tenant id) (or_error body);
    events = report_errored st'.events (key_of tenant id) (or_error body);
  },
))

unfoldable pub delete_stream : AuthConfig → Env → AppState → String → Headers → Reply × AppState
delete_stream auth env st id headers = guarded auth env st id headers (λ tenant st'.
    let (there, m) = Manager.delete st'.backend (key_of tenant id) in
    (if there then deleted else no_such_stream, record st' { backend = m }))
