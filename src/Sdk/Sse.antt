-- ===== src/Sdk/Sse.antt =====
-- `sse_events` of crates/tideline-sdk/src/run.rs: events out of the bytes of a server-sent stream. A
-- text is its code points; serde_json's reading of an event's text is a parameter.
use tideline.Base.{
  ℕ, zero, suc, ◌+◌, ◌*◌, ◌-◌, ◌%◌, Bool, true, false, Option, none, some, List, [], ◌∷◌, ◌++◌,
  length, take, drop, ltb, leb, ◌==◌, if◌then◌else◌, ◌&&◌, ◌||◌, is_whitespace,
}
use tideline.Sdk.{transport, protocol, Fetched, ok, err}

-- `std::str::from_utf8`, byte by byte: how many bytes the character still takes, within which
-- bounds the next one lies, and the bits so far.
pub record Utf8 : Type 0 where
  pub left : ℕ
  pub lo : ℕ
  pub hi : ℕ
  pub bits : ℕ

abbrev pub between : Utf8
between = record { left = 0; lo = 0x80; hi = 0xbf; bits = 0 }

unfoldable pub lead : ℕ → Option (Utf8 × List ℕ)
lead b =
    if ltb b 0x80
    then some (between, b ∷ [])
    else if ltb b 0xc2
    then none
    else if ltb b 0xe0
    then some (record { left = 1; lo = 0x80; hi = 0xbf; bits = b % 32 }, [])
    else if ltb b 0xf0
    then some (
      record {
        left = 2;
        lo = if b == 0xe0 then 0xa0 else 0x80;
        hi = if b == 0xed then 0x9f else 0xbf;
        bits = b % 16;
      },
      [],
    )
    else if ltb b 0xf5
    then some (
      record {
        left = 3;
        lo = if b == 0xf0 then 0x90 else 0x80;
        hi = if b == 0xf4 then 0x8f else 0xbf;
        bits = b % 8;
      },
      [],
    )
    else none

unfoldable pub utf8_step : Utf8 → ℕ → Option (Utf8 × List ℕ)
utf8_step st b =
    if st.left == 0
    then lead b
    else if leb st.lo b && leb b st.hi
    then (if st.left == 1
        then some (between, (st.bits * 64 + b % 64) ∷ [])
        else some
            (record { left = st.left - 1; lo = 0x80; hi = 0xbf; bits = st.bits * 64 + b % 64 }, []))
    else none

unfoldable pub utf8_from : Utf8 → List ℕ → Option (List ℕ)
utf8_from st [] = if st.left == 0 then some [] else none
utf8_from st (b ∷ bs) = elim (utf8_step st b) [
  | none ↦ none
  | some (st', out) ↦ elim (utf8_from st' bs) [ none ↦ none | some text ↦ some (out ++ text) ]
]

unfoldable pub from_utf8 : List ℕ → Option (List ℕ)
from_utf8 bytes = utf8_from between bytes

unfoldable pub trim_start : List ℕ → List ℕ
trim_start [] = []
trim_start (c ∷ cs) = elim (is_whitespace c) [ true ↦ trim_start cs | false ↦ c ∷ cs ]

unfoldable pub trim_end : List ℕ → List ℕ
trim_end [] = []
trim_end (c ∷ cs) = elim (trim_end cs) [
  | [] ↦ if is_whitespace c then [] else c ∷ []
  | d ∷ ds ↦ c ∷ d ∷ ds
]

unfoldable pub trim : List ℕ → List ℕ
trim cs = trim_end (trim_start cs)

unfoldable pub strip_prefix : List ℕ → List ℕ → Option (List ℕ)
strip_prefix [] cs = some cs
strip_prefix (a ∷ more) [] = none
strip_prefix (a ∷ more) (c ∷ cs) = elim (a == c) [ true ↦ strip_prefix more cs | false ↦ none ]

unfoldable pub strip_cr : List ℕ → List ℕ
strip_cr [] = []
strip_cr (c ∷ []) = if c == 13 then [] else c ∷ []
strip_cr (c ∷ d ∷ cs) = c ∷ strip_cr (d ∷ cs)

-- `str::lines`, with the characters of the line that has begun.
unfoldable pub lines_from : List ℕ → List ℕ → List (List ℕ)
lines_from [] [] = []
lines_from (b ∷ bs) [] = (b ∷ bs) ∷ []
lines_from line (c ∷ cs) = elim (c == 10) [
  | true ↦ strip_cr line ∷ lines_from [] cs
  | false ↦ lines_from (line ++ c ∷ []) cs
]

unfoldable pub same_text : List ℕ → List ℕ → Bool
same_text [] [] = true
same_text [] (c ∷ cs) = false
same_text (a ∷ more) [] = false
same_text (a ∷ more) (c ∷ cs) = (a == c) && same_text more cs

-- "data:" and "event:"
abbrev pub data_field : List ℕ
data_field = 100 ∷ 97 ∷ 116 ∷ 97 ∷ 58 ∷ []

abbrev pub event_field : List ℕ
event_field = 101 ∷ 118 ∷ 101 ∷ 110 ∷ 116 ∷ 58 ∷ []

-- "done" and "stream_error"
abbrev pub done_name : List ℕ
done_name = 100 ∷ 111 ∷ 110 ∷ 101 ∷ []

abbrev pub stream_error_name : List ℕ
stream_error_name = 115 ∷ 116 ∷ 114 ∷ 101 ∷ 97 ∷ 109 ∷ 95 ∷ 101 ∷ 114 ∷ 114 ∷ 111 ∷ 114 ∷ []

unfoldable pub is_terminal : List ℕ → Bool
is_terminal name = same_text (trim name) done_name || same_text (trim name) stream_error_name

-- The loop over the lines of a frame: the text of its data, and whether it ends the stream.
unfoldable pub read_line : List ℕ × Bool → List ℕ → List ℕ × Bool
read_line (text, terminal) line = elim (strip_prefix data_field line) [
  | some rest ↦ (text ++ trim_start rest, terminal)
  | none ↦ elim (strip_prefix event_field line) [
    | some name ↦ (text, is_terminal name)
    | none ↦ (text, terminal)
  ]
]

unfoldable pub read_lines : List ℕ × Bool → List (List ℕ) → List ℕ × Bool
read_lines st [] = st
read_lines st (line ∷ rest) = read_lines (read_line st line) rest

unfoldable pub find_frame_end : List ℕ → Option ℕ
find_frame_end [] = none
find_frame_end (x ∷ []) = none
find_frame_end (x ∷ y ∷ rest) =
    let behind = find_frame_end (y ∷ rest) in
    if (x == 10) && (y == 10) then some 0 else elim behind [ none ↦ none | some n ↦ some (suc n) ]

module _ {ℓ} {E : Type ℓ} (parse : List ℕ → Option E) where
  -- What one whole frame gives.
  unfoldable pub of_frame : List ℕ → List (Fetched E)
  of_frame frame = elim (from_utf8 frame) [
    | none ↦ err (protocol "frame is not valid UTF-8") ∷ []
    | some text ↦
        let (payload, terminal) = read_lines ([], false) (lines_from [] text) in
        if terminal || (length payload == 0) then [] else elim (parse payload) [
          | none ↦ err (protocol "bad event frame") ∷ []
          | some e ↦ ok e ∷ []
        ]
  ]

  -- The loop that takes the whole frames off the buffer.
  unfoldable pub drain : ℕ → List ℕ → List (Fetched E) × List ℕ
  drain zero buf = ([], buf)
  drain (suc n) buf = elim (find_frame_end buf) [
    | none ↦ ([], buf)
    | some end ↦
        let (out, rest) = drain n (drop (end + 2) buf) in (of_frame (take end buf) ++ out, rest)
  ]

  -- A frame takes two bytes at least, so that the buffer's length is fuel enough.
  unfoldable pub feed : List ℕ → List ℕ → List (Fetched E) × List ℕ
  feed buf chunk = drain (length (buf ++ chunk)) (buf ++ chunk)

  -- The stream of what the chunks give; a chunk that failed is `none`.
  unfoldable pub sse_events : List ℕ → List (Option (List ℕ)) → List (Fetched E)
  sse_events buf [] = []
  sse_events buf (none ∷ chunks) = err transport ∷ sse_events buf chunks
  sse_events buf (some chunk ∷ chunks) =
      let (out, rest) = feed buf chunk in out ++ sse_events rest chunks
