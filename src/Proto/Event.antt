-- ===== src/Proto/Event.antt =====
-- crates/tideline-proto/src/event.rs: one event of a record.
use tideline.Base.{ℕ, String, Option, none, List, as_bytes}
use tideline.Base.Table.{Table}
use tideline.Platform.{Platform}
use tideline.Proto.Kind.{EventKind, message}
use tideline.Proto.Digest.{Hash, zero_hash}
use tideline.Proto.Canon.{EventCore, map_option}

module _ (p : Platform) where
  pub record RunEvent : Type 0 where
    pub seq : ℕ
    pub ts : ℕ
    pub kind : EventKind
    pub role : Option String
    pub name : Option String
    pub content : Option String
    pub metadata : Option p.RawValue
    pub redacted : Option (Table String Hash)
    pub prev_hash : Hash
    pub hash : Hash

  unfoldable pub metadata_raw : RunEvent → Option (List ℕ)
  metadata_raw e = map_option p.raw_bytes e.metadata

  unfoldable pub core : RunEvent → EventCore
  core e = record {
    seq = e.seq;
    ts = e.ts;
    kind = e.kind;
    role = map_option as_bytes e.role;
    name = map_option as_bytes e.name;
    content = map_option as_bytes e.content;
    metadata_raw = metadata_raw e;
    redacted = e.redacted;
  }

  -- `RunEvent::default()`
  abbrev pub default_event : RunEvent
  default_event = record {
    seq = 0;
    ts = 0;
    kind = message;
    role = none;
    name = none;
    content = none;
    metadata = none;
    redacted = none;
    prev_hash = zero_hash;
    hash = zero_hash;
  }
