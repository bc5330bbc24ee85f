-- ===== src/Manager.antt =====
-- crates/tideline-server/src/manager.rs: the registry of streams, with the in-memory backend of
-- backend.rs over it. A stream is reached through its id; a reader that holds one which has left the
-- registry is not followed here. The registry's order stands for the order in which the map is walked.
pub mod Capacity
use tideline.Base.{
  ℕ, ◌+◌, ◌-◌, ◌%◌, String, Bool, true, false, Option, none, some, List, [], ◌∷◌, length,
  if◌then◌else◌, ltb, leb, dec_text, ◌||◌,
}
use tideline.Base.Bytes.{u64_mod}
use tideline.Base.Table
use tideline.Base.Table.{Table}
use tideline.Proto.Canon.{unwrap_or}
use tideline.Stream
use tideline.Stream.{Stream, with_capacity, touch, publish}

pub record ManagerConfig : Type 0 where
  pub max_streams : ℕ
  pub idle_ttl : ℕ
  pub completed_ttl : ℕ
  pub max_buffer : ℕ
  pub max_subscribers_per_stream : ℕ

-- `ManagerConfig::default()`, its durations in milliseconds.
abbrev pub default_config : ManagerConfig
default_config = record {
  max_streams = 50000;
  idle_ttl = 1800000;
  completed_ttl = 300000;
  max_buffer = 65536;
  max_subscribers_per_stream = 50000;
}

pub record Metrics : Type 0 where
  pub streams_created : ℕ
  pub tokens_published : ℕ
  pub gaps_served : ℕ
  pub reaped : ℕ

pub record StreamManager : Type 0 where
  pub streams : Table String Stream
  pub cfg : ManagerConfig
  pub metrics : Metrics

abbrev pub with_config : ManagerConfig → StreamManager
with_config cfg = record {
  streams = [];
  cfg = cfg;
  metrics = record { streams_created = 0; tokens_published = 0; gaps_served = 0; reaped = 0 };
}

-- `min_by_key(last_activity)`: of equals, the first.
unfoldable pub older : String × Stream → Option (String × Stream) → String × Stream
older e none = e
older e (some f) = if leb e.1.inner.last_activity f.1.inner.last_activity then e else f

unfoldable pub oldest : Table String Stream → Option (String × Stream)
oldest [] = none
oldest (e ∷ es) = some (older e (oldest es))

unfoldable pub evict_lru : StreamManager → StreamManager
evict_lru m = elim (oldest m.streams) [
  | none ↦ m
  | some e ↦ record m {
    streams = Table.remove dec_text e.0 m.streams;
    metrics = record m.metrics { reaped = (m.metrics.reaped + 1) % u64_mod };
  }
]

unfoldable pub make_room : StreamManager → StreamManager
make_room m = if leb m.cfg.max_streams (length m.streams) then evict_lru m else m

unfoldable pub add_stream : StreamManager → ℕ → String → StreamManager
add_stream m now id = record m {
  streams = Table.insert dec_text id (with_capacity now m.cfg.max_buffer) m.streams;
  metrics = record m.metrics { streams_created = (m.metrics.streams_created + 1) % u64_mod };
}

unfoldable pub get : StreamManager → String → Option Stream
get m id = Table.get dec_text id m.streams

-- The stream is touched where it stands.
unfoldable pub put_back : StreamManager → String → Stream → StreamManager
put_back m id s = record m { streams = Table.insert dec_text id s m.streams }

unfoldable pub get_or_create : StreamManager → ℕ → String → Stream × StreamManager
get_or_create m now id = elim (get m id) [
  | some s ↦ (touch s now, put_back m id (touch s now))
  | none ↦ (with_capacity now m.cfg.max_buffer, add_stream (make_room m) now id)
]

unfoldable pub delete : StreamManager → String → Bool × StreamManager
delete m id = (Stream.is_some (get m id), record m { streams = Table.remove dec_text id m.streams })

-- Idle past `idle_ttl`, or terminal past `completed_ttl`; `duration_since` stops at zero.
unfoldable pub past : ℕ → ℕ → Option ℕ → Bool
past now ttl none = false
past now ttl (some t) = ltb ttl (now - t)

unfoldable pub is_dead : ManagerConfig → ℕ → Stream → Bool
is_dead cfg now s =
    ltb cfg.idle_ttl (now - s.inner.last_activity)
    || past now cfg.completed_ttl s.inner.completed_at

unfoldable pub dead_ids : ManagerConfig → ℕ → Table String Stream → List String
dead_ids cfg now [] = []
dead_ids cfg now ((id, s) ∷ rest) =
    let ids = dead_ids cfg now rest in if is_dead cfg now s then id ∷ ids else ids

unfoldable pub remove_all : List String → Table String Stream → Table String Stream
remove_all [] streams = streams
remove_all (id ∷ ids) streams = remove_all ids (Table.remove dec_text id streams)

unfoldable pub reap : StreamManager → ℕ → ℕ × StreamManager
reap m now =
    let dead = dead_ids m.cfg now m.streams in
    (
      length dead,
      record m {
        streams = remove_all dead m.streams;
        metrics = record m.metrics { reaped = (m.metrics.reaped + length dead) % u64_mod };
      },
    )

unfoldable pub incr_published : StreamManager → StreamManager
incr_published m = record m {
  metrics = record m.metrics { tokens_published = m.metrics.tokens_published + 1 };
}

unfoldable pub incr_gaps : StreamManager → StreamManager
incr_gaps m = record m {
  metrics = record m.metrics { gaps_served = (m.metrics.gaps_served + 1) % u64_mod };
}

pub record MetricsSnapshot : Type 0 where
  pub active_streams : ℕ
  pub active_subscribers : ℕ
  pub buffered_tokens : ℕ
  pub streams_created : ℕ
  pub tokens_published : ℕ
  pub gaps_served : ℕ
  pub reaped : ℕ

unfoldable pub count_subscribers : Table String Stream → ℕ
count_subscribers [] = 0
count_subscribers ((id, s) ∷ rest) = s.subscribers + count_subscribers rest

unfoldable pub count_buffered : Table String Stream → ℕ
count_buffered [] = 0
count_buffered ((id, s) ∷ rest) = length s.inner.tokens + count_buffered rest

unfoldable pub metrics_snapshot : StreamManager → MetricsSnapshot
metrics_snapshot m = record {
  active_streams = length m.streams;
  active_subscribers = count_subscribers m.streams;
  buffered_tokens = count_buffered m.streams;
  streams_created = m.metrics.streams_created;
  tokens_published = m.metrics.tokens_published;
  gaps_served = m.metrics.gaps_served;
  reaped = m.metrics.reaped;
}

unfoldable pub subscriber_count : StreamManager → String → ℕ
subscriber_count m id = elim (get m id) [ some s ↦ s.subscribers | none ↦ 0 ]

-- `MemoryBackend`: an operation on the stream of an id, which is made if it is not there.
unfoldable pub with_stream : StreamManager → ℕ → String → (Stream → Stream) → StreamManager
with_stream m now id f = let (s, m') = get_or_create m now id in put_back m' id (f s)

unfoldable pub backend_publish : StreamManager → ℕ → String → String → ℕ × StreamManager
backend_publish m now id text =
    let (s, m') = get_or_create m now id in
    let (offset, s') = publish s now text in (offset, incr_published (put_back m' id s'))

unfoldable pub backend_complete : StreamManager → ℕ → String → StreamManager
backend_complete m now id = with_stream m now id (λ s. Stream.complete s now)

unfoldable pub backend_fail : StreamManager → ℕ → String → String → StreamManager
backend_fail m now id message = with_stream m now id (λ s. Stream.fail s now message)

unfoldable pub set_private : StreamManager → ℕ → String → StreamManager
set_private m now id = with_stream m now id (λ s. record s { private = true })

unfoldable pub is_private : StreamManager → String → Bool
is_private m id = elim (get m id) [ some s ↦ s.private | none ↦ false ]
