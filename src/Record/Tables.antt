-- ===== src/Record/Tables.antt =====
-- crates/tideline-server/src/tlr/sqlite.rs: the tables and the statements on them. A table is a map
-- by its primary key, and a statement is what its SQL says of the map.
use tideline.Base.{
  ℕ, String, Bool, ite, Option, none, some, List, [], ◌∷◌, ℕ_discrete, if◌then◌else◌, ◌==◌, ◌||◌,
  false,
}
use tideline.Base.Bytes.{le_i64}
use tideline.Base.Json.{
  Value, Items, Fields, number, string, array, object, no_items, item, no_fields, field,
}
use tideline.Base.Table.{Table}
use tideline.Platform.{Platform}
use tideline.Signing.{Signing}
use tideline.Proto.Kind
use tideline.Proto.Kind.{EventKind, run_started, message, redaction, run_finished}
use tideline.Proto.Digest.{Hash}
use tideline.Proto.Canon.{unwrap_or}
use tideline.Proto.Event.{RunEvent}
use tideline.Proto.Checkpoint.{Checkpoint}
use tideline.Record.Store.{RunKey, dec_key, Agent, RunEnvelope, NewRun, AppendResult}

-- A row of `tlr_runs`, behind its key.
pub record RunRow : Type 0 where
  pub started_ts : ℕ
  pub ended_ts : Option ℕ
  pub agent : Agent
  pub subject_ref : Option String
  pub labels : Table String String
  pub head_seq : ℕ
  pub head_hash : Hash

-- A row of `tlr_events`, behind the columns `ns` and `run_id`. `kind` is the wire string.
pub record EventRow (p : Platform) : Type 0 where
  pub seq : ℕ
  pub ts : ℕ
  pub kind : String
  pub role : Option String
  pub name : Option String
  pub content : Option String
  pub metadata : Option p.RawValue
  pub redacted : Option (Table String Hash)
  pub prev_hash : Hash
  pub hash : Hash

-- The four tables. Events stand in the order of their insertion.
pub record Db (p : Platform) (s : Signing) : Type 0 where
  pub runs : Table RunKey RunRow
  pub events : RunKey → List (EventRow p)
  pub idem : RunKey → Table String AppendResult
  pub checkpoints : RunKey → Table ℕ (Checkpoint s)

-- A map with the value at one key replaced.
unfoldable pub update {ℓ} : {V : Type ℓ} → (RunKey → V) → RunKey → V → RunKey → V
update m k v j = ite (dec_key k j) v (m j)

-- The envelope as the metadata of `run_started`.
labels_value : Table String String → Fields
labels_value [] = no_fields
labels_value ((k, v) ∷ m) = field k (string v) (labels_value m)

with_subject : Option String → Fields → Fields
with_subject none fs = fs
with_subject (some s) fs = field "subject_ref" (string s) fs

agent_value : Agent → Value
agent_value a = object (field "name" (string a.name) (field "version" (string a.version) no_fields))

unfoldable pub envelope_meta : NewRun → Value
unfolding with_subject agent_value labels_value
envelope_meta new = object (
    field "run_id" (string new.run_id) (
      field "agent" (agent_value new.agent) (
        with_subject new.subject_ref
          (field "labels" (object (labels_value new.labels)) no_fields))))

texts : List String → Items
texts [] = no_items
texts (s ∷ ss) = item (string s) (texts ss)

unfoldable pub redaction_meta : ℕ → List String → String → Value
unfolding texts
redaction_meta target fields authority = object (
    field "target_seq" (number target)
      (field "fields" (array (texts fields)) (field "authority" (string authority) no_fields)))

abbrev pub to_envelope : RunKey → RunRow → RunEnvelope
to_envelope k r = record {
  run_id = k.1;
  started_ts = r.started_ts;
  ended_ts = r.ended_ts;
  agent = r.agent;
  subject_ref = r.subject_ref;
  labels = r.labels;
  head_seq = r.head_seq;
  head_hash = r.head_hash;
}

module _ (p : Platform) where
  unfoldable pub row_to_event : EventRow p → RunEvent p
  row_to_event r = record {
    seq = r.seq;
    ts = r.ts;
    kind = unwrap_or message (Kind.parse r.kind);
    role = r.role;
    name = r.name;
    content = r.content;
    metadata = r.metadata;
    redacted = r.redacted;
    prev_hash = r.prev_hash;
    hash = r.hash;
  }

  unfoldable pub has_seq : ℕ → List (EventRow p) → Bool
  has_seq n [] = false
  has_seq n (r ∷ rs) = r.seq == n || has_seq n rs

  -- `ORDER BY seq`
  unfoldable pub insert_by_seq : EventRow p → List (EventRow p) → List (EventRow p)
  insert_by_seq r [] = r ∷ []
  insert_by_seq r (q ∷ qs) = if le_i64 r.seq q.seq then r ∷ q ∷ qs else q ∷ insert_by_seq r qs

  unfoldable pub order_by_seq : List (EventRow p) → List (EventRow p)
  order_by_seq [] = []
  order_by_seq (r ∷ rs) = insert_by_seq r (order_by_seq rs)

  -- `WHERE seq >= from`
  unfoldable pub where_from : ℕ → List (EventRow p) → List (EventRow p)
  where_from from [] = []
  where_from from (r ∷ rs) =
      let rest = where_from from rs in if le_i64 from r.seq then r ∷ rest else rest

  -- `WHERE seq = target`
  unfoldable pub find_row : ℕ → List (EventRow p) → Option (EventRow p)
  find_row target [] = none
  find_row target (r ∷ rs) = ite (ℕ_discrete r.seq target) (some r) (find_row target rs)

  -- `UPDATE .. WHERE seq = target`, which the primary key makes one row.
  unfoldable pub replace_row : ℕ → EventRow p → List (EventRow p) → List (EventRow p)
  replace_row target new [] = []
  replace_row target new (r ∷ rs) =
      ite (ℕ_discrete r.seq target) (new ∷ rs) (r ∷ replace_row target new rs)
