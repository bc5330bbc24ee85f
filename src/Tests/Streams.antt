-- ===== src/Tests/Streams.antt =====
-- The watcher of a record, the routes of streams and the verifier of keys at small inputs.
use tideline.Base.{
  ℕ, ◌+◌, ◌==◌, ◌<◌, ◌≡◌, ◌⊎◌, refl, String, true, false, Option, none, some, List, [], ◌∷◌, take,
  drop, as_bytes, utf8, dec_text,
}
use tideline.Base.Table
use tideline.Proto.Canon.{unwrap_or}
use tideline.Stream
use tideline.Base
use tideline.Events
use tideline.Events.{Tenant}
use tideline.Routes
use tideline.Routes.{Headers, bearer, valid_id}
use tideline.Routes.Watch.{Reader}
use tideline.Api
use tideline.Api.{Env, Plane, confirms, VerifyResp, tenant_in, ttl, verify, ns_key, AuthConfig}
use tideline.Api.Keys.{ns_key_cancel}
use tideline.Api.Verifier.{after, Says, Confirmed, verify-Confirmed}
use tideline.Api.Served.{Request, publishes, completes, serve, started}
use tideline.Api.Attributed.{IsAttributed}
use tideline.Api.Owners.{Published, served-IsAttributed}
use tideline.Api.Subscribe
use tideline.Api.Served
use tideline.Api.Pump
use tideline.Api.Subscribe.{TicketCrates, streams, subscribe, subscribe_ws}
use tideline.Api.Entitled.{Carries, Entitled, subscribe-Entitled, subscribe_ws-Entitled}
use tideline.Api.Pump.{text}
use tideline.Base.{length}
use tideline.Api.{AppState}
use tideline.Api.Served.{subscribes, sse_turn}
use tideline.Auth
use tideline.Base.Json
use tideline.Base.Json.{object, field, no_fields, string, number}
use tideline.Manager
use tideline.Manager.{default_config, subscriber_count}
use tideline.Tests.Fixtures.{plain}
use tideline.Tests.Client.{grown}

program : Unit {0}
unfolding Json.find_field Json.index Manager.get Manager.is_private Manager.subscriber_count
    Manager.make_room Manager.add_stream Manager.get_or_create Auth.matches Routes.strip_prefix
    Routes.bearer Events.owner Events.report Subscribe.split_once Subscribe.claims
    Subscribe.read_payload Subscribe.check_mac Subscribe.verify_ticket Subscribe.of_ticket
    Subscribe.locate Subscribe.connect Subscribe.authed Subscribe.resume Subscribe.subscribe
    Base.dec_bytes Base.ℕ_discrete Table.get Table.insert utf8 as_bytes dec_text Routes.id_byte
    Routes.all_id_bytes Routes.valid_id Routes.join Api.tenant_in Api.ask Api.verify Api.ns_key
    after
program = tt

abbrev page_of : Reader plain
page_of i next = some (take 500 (drop next (grown i)))

is_id : valid_id "s1" ≡ true
unfolding program
is_id = refl

ns_key_cancel_example :
    ◌≡◌ {A = String} (unwrap_or "" (some "acme")) (unwrap_or "" (some "acme"))
    × (◌≡◌ {A = String} "s1" "s1")
ns_key_cancel_example = ns_key_cancel (some "acme") (some "acme") "s1" "s1" is_id is_id refl

-- The control plane knows one key.
abbrev answer : Option VerifyResp
answer = some (record { user_id = some "u1"; org_id = some "acme" })

abbrev env : ℕ → Env
env t = record { now = t; answered = t + 5; seconds = t; plane = λ token. confirms answer }

abbrev tenant : Tenant
tenant = record { user_id = "u1"; org_id = some "acme" }

abbrev earlier : List (Env × String)
earlier = (env 100, "k") ∷ []

answered_twice : (verify (after [] earlier) (env 200) "k").0 ≡ some tenant
unfolding program
answered_twice = refl

verify-Confirmed_example :
    Says ((env 200).plane "k") tenant
    ⊎ ((at : ℕ) × ((env 200).now < at + 60000) × Confirmed earlier "k" tenant at)
verify-Confirmed_example = verify-Confirmed earlier (env 200) "k" tenant answered_twice

abbrev cloud : AuthConfig
cloud = record {
  publish_token = none;
  subscribe_token = none;
  verify_url = some "https://cloud/verify";
  verify_secret = none;
}

abbrev with_key : Headers
with_key = record { authorization = some "Bearer k"; idempotency_key = none }

-- Crates that compute: a text is its own bytes, the code of a message is its secret, and every payload grants
-- the stream "s1" of "acme" until the second 100.
abbrev crates : TicketCrates
crates = record {
  decode = λ text. some (as_bytes text);
  hmac = λ secret message. secret;
  parse = λ raw. some (
      object (
        field "ns" (string "acme")
          (field "sid" (string "s1") (field "exp" (number 100) no_fields))));
}

abbrev with_secret : AuthConfig
with_secret = record cloud { verify_secret = some "k"; subscribe_token = some "r" }

abbrev no_credential : Headers
no_credential = record { authorization = none; idempotency_key = none }

abbrev reader : Headers
reader = record { authorization = some "Bearer r"; idempotency_key = none }

abbrev calls : List (Env × Request)
calls =
    (env 100, publishes "s1" false with_key "hello")
    ∷ (env 120, subscribes "s1" none (some "acme") none no_credential none)
    ∷ (env 130, sse_turn "acme|s1" 0 Stream.gap)
    ∷ (env 200, completes "s1" with_key)
    ∷ []

abbrev answered_calls : AppState
answered_calls = serve crates cloud (started default_config true) calls

-- The reports are of the publish, of the reader, of its gap and of the end.
five_reports : length answered_calls.events.offered ≡ 5
unfolding program serve Served.handle Api.complete Api.guarded Api.admitted Api.authorize_write
    Pump.on_sse Pump.report_gap Api.publish Manager.backend_publish Manager.incr_published
    Manager.put_back Api.mark_private Api.key_of Events.namespace Stream.publish
    Stream.with_capacity Stream.trim Stream.touch Stream.complete Stream.is_some Api.report_publish
    Events.send Events.set_owner Events.report_completed Events.forget Auth.is_none
    Manager.backend_complete Manager.with_stream Table.remove
five_reports = refl

served-IsAttributed_example :
    IsAttributed (Published crates cloud (started default_config true) calls) answered_calls.events
served-IsAttributed_example = served-IsAttributed crates cloud default_config true calls

ticket_read :
    (subscribe crates with_secret 50 300
      (started default_config true)
      "s1"
      (some 5)
      none
      (some "p.k")
      reader
      none).0
    ≡ streams "acme|s1" 5
unfolding program
ticket_read = refl

subscribe-Entitled_example :
    Carries (some "r") (bearer reader)
    × Entitled crates with_secret 50
        (started default_config true).backend
        none
        (some "p.k")
        "s1"
        "acme|s1"
    × (subscriber_count (started default_config true).backend "acme|s1" < 50000)
subscribe-Entitled_example =
    subscribe-Entitled crates with_secret 50 300 (started default_config true) "s1" (some 5) none
      (some "p.k") reader none "acme|s1" 5 ticket_read

ws_read :
    (subscribe_ws crates with_secret 50
      (started default_config true)
      "s1"
      (some 5)
      (some "r")
      none
      (some "p.k")).0
    ≡ streams "acme|s1" 5
unfolding program subscribe_ws Subscribe.presents
ws_read = refl

subscribe_ws-Entitled_example :
    Carries (some "r") (some "r")
    × Entitled crates with_secret 50
        (started default_config true).backend
        none
        (some "p.k")
        "s1"
        "acme|s1"
    × (subscriber_count (started default_config true).backend "acme|s1" < 50000)
subscribe_ws-Entitled_example =
    subscribe_ws-Entitled crates with_secret 50 (started default_config true) "s1" (some 5)
      (some "r") none (some "p.k") "acme|s1" 5 ws_read

-- A stream of which the first token was evicted, and which fails while it is read.
abbrev half : Stream.Snapshot
half = record {
  tokens = record { offset = 1; text = "b" } ∷ [];
  complete = false;
  error = none;
  total = 2;
  gap = true;
}

abbrev received : List Stream.Received
received =
    Stream.got (Stream.token (record { offset = 2; text = "c" }))
    ∷ Stream.got (Stream.error "lost")
    ∷ []

abbrev watched : List Stream.Signal
watched = Stream.read_stream half received

abbrev fresh : AppState
fresh = started default_config true
