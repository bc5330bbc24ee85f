-- ===== src/Api/Subscribe.antt =====
-- `verify_ticket`, `subscribe` and `subscribe_ws` of crates/tideline-server/src/api.rs: who may read a stream. Of
-- a subscription this is the request; what the reader is sent is in Stream.
use Prim.Native.Char.{code}
use tideline.Base.{
  ℕ, ◌+◌, ◌%◌, String, Bool, true, Option, none, some, List, ite, as_bytes, dec_bytes, ltb, leb,
  ◌==◌, if◌then◌else◌,
}
use tideline.Base.Bytes.{u64_mod}
use tideline.Base.Json.{Value, index, as_str, as_u64}
use tideline.Auth.{matches}
use tideline.Manager.{StreamManager, get_or_create, is_private, subscriber_count}
use tideline.Events.{report, sub_connected}
use tideline.Routes.{Headers, bearer, valid_id}
use tideline.Api.{AuthConfig, AppState, ns_key}

-- The crates that a ticket is read with: base64 (URL_SAFE_NO_PAD), hmac over SHA-256 and serde_json.
pub record TicketCrates : Type 0 where
  pub decode : String → Option (List ℕ)
  pub hmac : (secret message : List ℕ) → List ℕ
  pub parse : List ℕ → Option Value

-- `split_once('.')`
unfoldable pub split_once : String → Option (String × String)
split_once String.[] = none
split_once (String.◌∷◌ c s) =
    let rest = split_once s in
    if code c == 46
    then some ("", s)
    else elim rest [ none ↦ none | some (front, back) ↦ some (String.◌∷◌ c front, back) ]

-- What a payload grants at the second `now`.
unfoldable pub claims : ℕ → Value → Option (String × String)
claims now v = elim (as_str (index v "ns")) [
  | none ↦ none
  | some ns ↦ elim (as_str (index v "sid")) [
    | none ↦ none
    | some sid ↦ elim (as_u64 (index v "exp")) [
      | none ↦ none
      | some exp ↦ if leb exp now then none else some (ns, sid)
    ]
  ]
]

unfoldable pub read_payload : TicketCrates → ℕ → String → Option (String × String)
read_payload t now payload = elim (t.decode payload) [
  | none ↦ none
  | some raw ↦ elim (t.parse raw) [ none ↦ none | some v ↦ claims now v ]
]

unfoldable pub check_mac : TicketCrates → ℕ → String → String × String → Option (String × String)
check_mac t now secret (payload, sig) = elim (t.decode sig) [
  | none ↦ none
  | some s ↦
      ite (dec_bytes s (t.hmac (as_bytes secret) (as_bytes payload))) (read_payload t now payload)
        none
]

unfoldable pub verify_ticket : TicketCrates → ℕ → String → String → Option (String × String)
verify_ticket t now secret ticket = elim (split_once ticket) [
  | none ↦ none
  | some parts ↦ check_mac t now secret parts
]

pub data SubReply : Type 0 where
  invalid_stream_id : SubReply
  unauthorized : SubReply
  invalid_ticket : SubReply
  private_stream : SubReply
  limit_reached : SubReply
  streams : (key : String) (from : ℕ) → SubReply

-- The key to read, or why there is none.
pub data Located : Type 0 where
  refused : SubReply → Located
  at : (key : String) → Located

unfoldable pub of_ticket : Option (String × String) → Located
of_ticket none = refused invalid_ticket
of_ticket (some (ns, sid)) = at (ns_key (some ns) sid)

-- `secs` is the time in seconds.
unfoldable pub locate :
    TicketCrates → AuthConfig → ℕ → StreamManager → Option String → Option String → String → Located
locate t auth secs m ns none id =
    if is_private m (ns_key ns id) then refused private_stream else at (ns_key ns id)
locate t auth secs m ns (some ticket) id = elim auth.verify_secret [
  | none ↦ refused invalid_ticket
  | some secret ↦ of_ticket (verify_ticket t secs secret ticket)
]

-- The limit of readers, and what a new one does to the state, where `opens` is what it does to the
-- registry. The count goes up when the stream is first polled.
unfoldable pub connect :
    AppState → (StreamManager → String → StreamManager) → String → ℕ → Located → SubReply × AppState
connect st opens transport from (refused r) = (r, st)
connect st opens transport from (at key) =
    if leb st.backend.cfg.max_subscribers_per_stream (subscriber_count st.backend key)
    then (limit_reached, st)
    else (
      streams key from,
      record st {
        backend = opens st.backend key;
        events = report st.events key (sub_connected (ltb 0 from) from transport);
      },
    )

unfoldable pub authed : Option String → Headers → Bool
authed none headers = true
authed (some want) headers = matches (some want) (bearer headers)

-- Where a reader goes on: behind the last event it has, or where it says. `last` is the header
-- `last-event-id`, if it is a number.
unfoldable pub resume : Option ℕ → Option ℕ → ℕ
resume (some last) from = (last + 1) % u64_mod
resume none (some from) = from
resume none none = 0

unfoldable pub subscribe :
    TicketCrates
    → AuthConfig
    → (secs now : ℕ) → AppState
    → String
    → (from : Option ℕ) (ns ticket : Option String) → Headers
    → (last : Option ℕ) → SubReply × AppState
subscribe t auth secs now st id from ns ticket headers last =
    if valid_id id
    then if authed auth.subscribe_token headers
      then connect st (λ m key. (get_or_create m now key).1) "sse" (resume last from)
          (locate t auth secs st.backend ns ticket id)
      else (unauthorized, st)
    else (invalid_stream_id, st)

-- The token of a websocket is in its query. The stream is made behind the upgrade, in `pump_ws`.
unfoldable pub presents : Option String → Option String → Bool
presents none token = true
presents (some want) token = matches (some want) token

unfoldable pub subscribe_ws :
    TicketCrates
    → AuthConfig
    → (secs : ℕ) → AppState
    → String
    → (from : Option ℕ) (token ns ticket : Option String) → SubReply × AppState
subscribe_ws t auth secs st id from token ns ticket =
    if valid_id id
    then if presents auth.subscribe_token token
      then connect st (λ m key. m) "ws" (resume none from)
          (locate t auth secs st.backend ns ticket id)
      else (unauthorized, st)
    else (invalid_stream_id, st)
