-- ===== src/Api/Served.antt =====
-- The router of crates/tideline-server/src/api.rs: the requests on streams, one after the other, and between
-- them the turns of the readers that are connected.
use tideline.Base.{ℕ, String, Bool, Option, List, [], ◌∷◌}
use tideline.Manager.{ManagerConfig, with_config}
use tideline.Stream.{Signal}
use tideline.Events
use tideline.Routes.{Headers}
use tideline.Api.{AuthConfig, Env, AppState, publish, complete, fail, delete_stream}
use tideline.Api.Subscribe.{TicketCrates, subscribe, subscribe_ws}
use tideline.Api.Pump.{on_sse, on_ws, drop_guard, open_stream}

-- The requests on streams. A reader's turns may come at any time, and here under any key: a signal that
-- it is sent, the stream that a WebSocket opens behind its upgrade, and its end.
pub data Request : Type 0 where
  publishes : String → Bool → Headers → String → Request
  completes : String → Headers → Request
  fails : String → Headers → String → Request
  deletes : String → Headers → Request
  subscribes :
      String
      → (from : Option ℕ) → (ns ticket : Option String) → Headers
      → (last : Option ℕ) → Request
  subscribes_ws : String → (from : Option ℕ) → (token ns ticket : Option String) → Request
  sse_turn : (key : String) → (from : ℕ) → Signal → Request
  ws_opens : (key : String) → Request
  ws_turn : (key : String) → (from : ℕ) → Signal → Request
  leaves : (key : String) → Request

module _ (crates : TicketCrates) (auth : AuthConfig) where
  unfoldable pub handle : Env → AppState → Request → AppState
  handle env st (publishes id private headers body) =
      (publish auth env st id private headers body).1
  handle env st (completes id headers) = (complete auth env st id headers).1
  handle env st (fails id headers body) = (fail auth env st id headers body).1
  handle env st (deletes id headers) = (delete_stream auth env st id headers).1
  handle env st (subscribes id from ns ticket headers last) =
      (subscribe crates auth env.seconds env.now st id from ns ticket headers last).1
  handle env st (subscribes_ws id from token ns ticket) =
      (subscribe_ws crates auth env.seconds st id from token ns ticket).1
  handle env st (sse_turn key from sig) = on_sse key from st sig
  handle env st (ws_opens key) = open_stream env.now key st
  handle env st (ws_turn key from sig) = on_ws key from st sig
  handle env st (leaves key) = drop_guard key st

  unfoldable pub serve : AppState → List (Env × Request) → AppState
  serve st [] = st
  serve st ((env, req) ∷ rest) = serve (handle env st req) rest

-- The state with which the server starts.
abbrev pub started : ManagerConfig → Bool → AppState
started cfg reporting = record {
  backend = with_config cfg;
  cache = [];
  events = Events.new reporting;
}
