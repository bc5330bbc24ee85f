-- ===== src/Api/Pump.antt =====
-- `subscribe` and `pump_ws` of crates/tideline-server/src/api.rs: what a reader is sent, over each transport, of the
-- signals of its stream. The reader takes every frame; one that leaves early is not followed.
use tideline.Base.{ℕ, String, Bool, true, false, List, [], ◌∷◌, if◌then◌else◌}
use tideline.Base.Json.{Value, object, field, no_fields, string, number}
use tideline.Manager.{incr_gaps, get_or_create}
use tideline.Stream
use tideline.Stream.{Token, Signal, token, gap, error}
use tideline.Events
use tideline.Events.{report, sub_disconnected}
use tideline.Api.{AppState}

-- A server-sent event.
pub data Frame : Type 0 where
  event : (id : ℕ) (text : String) → Frame
  gap_event : Frame
  stream_error : String → Frame
  done_event : Frame

unfoldable pub sse_frame : Signal → Frame
sse_frame (token t) = event t.offset t.text
sse_frame gap = gap_event
sse_frame (error e) = stream_error e
sse_frame Stream.done = done_event

unfoldable pub report_gap : String → ℕ → AppState → AppState
report_gap key from st = record st { events = report st.events key (Events.gap from) }

unfoldable pub on_sse : String → ℕ → AppState → Signal → AppState
on_sse key from st (token t) = st
on_sse key from st gap = report_gap key from (record st { backend = incr_gaps st.backend })
on_sse key from st (error e) = st
on_sse key from st Stream.done = st

-- The guard of a subscription, when it is dropped.
unfoldable pub drop_guard : String → AppState → AppState
drop_guard key st = record st { events = report st.events key sub_disconnected }

unfoldable pub serve_sse : String → ℕ → AppState → List Signal → List Frame × AppState
serve_sse key from st [] = ([], drop_guard key st)
serve_sse key from st (sig ∷ sigs) =
    let rest = serve_sse key from (on_sse key from st sig) sigs in (sse_frame sig ∷ rest.0, rest.1)

-- The text of a frame, and whether it is the last one.
unfoldable pub encode_ws : Signal → Value × Bool
encode_ws (token t) = (
  object (
      field "type" (string "token")
        (field "offset" (number t.offset) (field "data" (string t.text) no_fields))),
  false,
)
encode_ws gap = (object (field "type" (string "gap") no_fields), false)
encode_ws (error e) =
    (object (field "type" (string "error") (field "message" (string e) no_fields)), true)
encode_ws Stream.done = (object (field "type" (string "done") no_fields), true)

pub data Message : Type 0 where
  text : Value → Message
  close : Message

unfoldable pub on_ws : String → ℕ → AppState → Signal → AppState
on_ws key from st (token t) = st
on_ws key from st gap = report_gap key from st
on_ws key from st (error e) = st
on_ws key from st Stream.done = st

-- The loop of `pump_ws`.
unfoldable pub pump_from : String → ℕ → AppState → List Signal → List Message × AppState
pump_from key from st [] = (close ∷ [], drop_guard key st)
pump_from key from st (sig ∷ sigs) =
    let rest = pump_from key from (on_ws key from st sig) sigs in
    if (encode_ws sig).1
    then (text (encode_ws sig).0 ∷ close ∷ [], drop_guard key (on_ws key from st sig))
    else (text (encode_ws sig).0 ∷ rest.0, rest.1)

-- `subscribe` of the backend, which makes the stream if it is not there.
unfoldable pub open_stream : ℕ → String → AppState → AppState
open_stream now key st = record st { backend = (get_or_create st.backend now key).1 }

unfoldable pub pump_ws : ℕ → String → ℕ → AppState → List Signal → List Message × AppState
pump_ws now key from st sigs = pump_from key from (open_stream now key st) sigs
