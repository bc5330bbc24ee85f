-- ===== src/Stream.antt =====
-- crates/tideline-server/src/token.rs and stream.rs: one live stream, its bounded buffer, and what a
-- reader is sent. A method that takes the lock is one step; the clock is read into `now`.
pub mod Buffer
pub mod Replay
pub mod Terminal
use tideline.Base.{
  ℕ, suc, ◌+◌, String, Bool, true, false, Option, none, some, List, [], ◌∷◌, ◌++◌, map, length, max,
  if◌then◌else◌, ◌&&◌, ◌||◌, not, leb, ltb,
}

pub record Token : Type 0 where
  pub offset : ℕ
  pub text : String

-- `gap` is never sent on the channel: a reader is told of it at most once, at the start.
pub data Signal : Type 0 where
  token : Token → Signal
  gap : Signal
  error : String → Signal
  done : Signal

pub record Inner : Type 0 where
  pub tokens : List Token
  pub next_offset : ℕ
  pub complete : Bool
  pub error : Option String
  pub completed_at : Option ℕ
  pub last_activity : ℕ
  pub max_buffer : ℕ

-- `sent` holds the signals that went into the broadcast channel `tx`, the first one first.
pub record Stream : Type 0 where
  pub inner : Inner
  pub sent : List Signal
  pub subscribers : ℕ
  pub created_at : ℕ
  pub private : Bool

pub record Snapshot : Type 0 where
  pub tokens : List Token
  pub complete : Bool
  pub error : Option String
  pub total : ℕ
  pub gap : Bool

unfoldable pub is_some {ℓ} : {A : Type ℓ} → Option A → Bool
is_some none = false
is_some (some _) = true

unfoldable pub with_capacity : ℕ → ℕ → Stream
with_capacity now max_buffer = record {
  inner = record {
    tokens = [];
    next_offset = 0;
    complete = false;
    error = none;
    completed_at = none;
    last_activity = now;
    max_buffer = max max_buffer 1;
  };
  sent = [];
  subscribers = 0;
  created_at = now;
  private = false;
}

-- `while tokens.len() > max { tokens.pop_front() }`
unfoldable pub trim : ℕ → List Token → List Token
trim max [] = []
trim max (t ∷ ts) = let rest = trim max ts in if ltb max (length (t ∷ ts)) then rest else t ∷ ts

unfoldable pub publish : Stream → ℕ → String → ℕ × Stream
publish s now text =
    let t : Token = record { offset = s.inner.next_offset; text = text } in
    (
      s.inner.next_offset,
      record s {
        inner = record s.inner {
          last_activity = now;
          next_offset = s.inner.next_offset + 1;
          tokens = trim s.inner.max_buffer (s.inner.tokens ++ t ∷ []);
        };
        sent = s.sent ++ token t ∷ [];
      },
    )

unfoldable pub is_terminal : Stream → Bool
is_terminal s = s.inner.complete || is_some s.inner.error

unfoldable pub touch : Stream → ℕ → Stream
touch s now = record s { inner = record s.inner { last_activity = now } }

unfoldable pub complete : Stream → ℕ → Stream
complete s now =
    if not s.inner.complete && not (is_some s.inner.error)
    then record s {
      inner = record s.inner { last_activity = now; complete = true; completed_at = some now };
      sent = s.sent ++ done ∷ [];
    }
    else record s { inner = record s.inner { last_activity = now } }

unfoldable pub fail : Stream → ℕ → String → Stream
fail s now message =
    if not s.inner.complete && not (is_some s.inner.error)
    then record s {
      inner = record s.inner { last_activity = now; error = some message; completed_at = some now };
      sent = s.sent ++ error message ∷ [];
    }
    else record s { inner = record s.inner { last_activity = now } }

unfoldable pub earliest_retained : Inner → ℕ
earliest_retained inner = elim inner.tokens [ [] ↦ inner.next_offset | t ∷ _ ↦ t.offset ]

unfoldable pub filter_from : ℕ → List Token → List Token
filter_from eff [] = []
filter_from eff (t ∷ ts) =
    let rest = filter_from eff ts in if leb eff t.offset then t ∷ rest else rest

unfoldable pub snapshot_from : Stream → ℕ → Snapshot
snapshot_from s from = record {
  tokens = filter_from (max from (earliest_retained s.inner)) s.inner.tokens;
  complete = s.inner.complete;
  error = s.inner.error;
  total = s.inner.next_offset;
  gap = ltb from (earliest_retained s.inner);
}

-- What `rx.recv()` gives: a signal, or an error.
pub data Received : Type 0 where
  got : Signal → Received
  lagged : Received
  closed : Received

-- The loop over the channel, as what it yields.
unfoldable pub live : ℕ → List Received → List Signal
live total [] = []
live total (got (token t) ∷ rx) =
    let rest = live total rx in if leb total t.offset then token t ∷ rest else rest
live total (got (error e) ∷ rx) = error e ∷ done ∷ []
live total (got done ∷ rx) = done ∷ []
live total (got gap ∷ rx) = live total rx
live total (lagged ∷ rx) = []
live total (closed ∷ rx) = []

unfoldable pub ending : Option String → Bool → List Signal → List Signal
ending (some e) complete rest = error e ∷ done ∷ []
ending none true rest = done ∷ []
ending none false rest = rest

-- What a reader is sent: the snapshot, and then the channel, which it subscribed to before.
unfoldable pub read_stream : Snapshot → List Received → List Signal
read_stream snap rx =
    (if snap.gap then gap ∷ [] else [])
    ++ (map token snap.tokens ++ ending snap.error snap.complete (live snap.total rx))
