-- ===== src/Api/Transports.antt =====
-- `subscribe` and `pump_ws` of crates/tideline-server/src/api.rs: the two transports beside each other.
use tideline.Base.{◌≡◌, ◌⊎◌, Option, none, some, List, [], ◌∷◌, ◌++◌}
use tideline.Base.{ite, dec_text}
use tideline.Base.Json.{Value, index, as_str, as_u64}
use tideline.Stream
use tideline.Stream.{Signal, token, gap, error}
use tideline.Events
use tideline.Events.{Events}
use tideline.Api.Pump.{Frame, event, gap_event, stream_error, done_event, encode_ws, Message, text}

-- The signals up to the first that ends a stream.
abbrev until_terminal : List Signal → List Signal
until_terminal [] = []
until_terminal (token t ∷ sigs) = token t ∷ until_terminal sigs
until_terminal (gap ∷ sigs) = gap ∷ until_terminal sigs
until_terminal (error e ∷ sigs) = error e ∷ []
until_terminal (Stream.done ∷ sigs) = Stream.done ∷ []

-- Nothing follows such a signal but `done`.
abbrev EndsOnce : List Signal → Type 0
EndsOnce sigs =
    (sigs ≡ until_terminal sigs ++ []) ⊎ (sigs ≡ until_terminal sigs ++ Stream.done ∷ [])

abbrev rest_of : List Signal → List Signal
rest_of [] = []
rest_of (sig ∷ sigs) = sigs

-- The message of a signal.
abbrev pub shown : Signal → Message
shown sig = text (encode_ws sig).0

-- What a reader makes of a server-sent event.
abbrev pub read_frame : Frame → Signal
read_frame (event id t) = token (record { offset = id; text = t })
read_frame gap_event = gap
read_frame (stream_error e) = error e
read_frame done_event = Stream.done

-- What a reader makes of the text of a WebSocket frame, by its fields.
unfoldable pub read_value : Value → Option Signal
read_value v = elim (as_str (index v "type")) [
  | none ↦ none
  | some type ↦
      ite (dec_text type "token")
        (elim (as_u64 (index v "offset")) [
          | none ↦ none
          | some n ↦ elim (as_str (index v "data")) [
            | none ↦ none
            | some t ↦ some (token (record { offset = n; text = t }))
          ]
        ])
        (ite (dec_text type "gap") (some gap) (
          ite (dec_text type "error")
            (elim (as_str (index v "message")) [ none ↦ none | some e ↦ some (error e) ])
            (ite (dec_text type "done") (some Stream.done) none)))
]
