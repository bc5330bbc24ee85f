-- ===== src/Routes.antt =====
-- crates/tideline-server/src/tlr/routes.rs: what the routes of the record share. serde_json's reading of
-- a body is the caller's, so that a handler has the body as the value that was read, or none.
pub mod Handlers
pub mod Gates
pub mod Served
pub mod Calls
pub mod EndCalls
pub mod GateCalls
pub mod Refines
pub mod Sealing
pub mod Shape
pub mod Watch
pub mod Watching
use tideline.Base.{
  ℕ, zero, suc, ◌+◌, ◌%◌, String, Bool, true, false, Option, none, some, List, [], ◌∷◌, ◌++◌, ite,
  length, ltb, leb, as_bytes, dec_text, ◌==◌, if◌then◌else◌, ◌&&◌, ◌||◌, not,
}
use Prim.Native.Char.{code}
use tideline.Platform.{Platform}
use tideline.Signing.{Signing}
use tideline.Auth.{AuthMode, Access, granted, denied, resolve_read, resolve_write}
use tideline.Keys.{SigningKeyring, sign_head}
use tideline.Metrics.{TlrMetrics, incr}
use tideline.Proto.Digest.{Hash}
use tideline.Proto.Event.{RunEvent}
use tideline.Proto.Checkpoint.{Checkpoint}
use tideline.Record.Store
use tideline.Record.Store.{
  RunKey, RunEnvelope, AppendResult, StoreResult, Message, StoreError, not_found, conflict, invalid,
  backend,
}
use tideline.Record.Tables.{Db}
use tideline.Record.Sqlite.{events}
use tideline.Record.Checkpoints.{put_checkpoint}
use tideline.Approvals
use tideline.Approvals.{Decision}

-- What the headers of a request say, where they are text.
pub record Headers : Type 0 where
  pub authorization : Option String
  pub idempotency_key : Option String

pub data Body (p : Platform) (s : Signing) : Type 0 where
  plain : String → Body p s
  said : Message → Body p s
  envelope : RunEnvelope → Body p s
  written : AppendResult → Body p s
  record_of : List (RunEvent p) → Body p s
  checkpoint : Checkpoint s → Body p s
  repaired : (seq : ℕ) (hash : Hash) → Body p s
  opened_gate : (seq expires_at : ℕ) → Body p s
  gates : List Approvals.Gate → Body p s
  gate : Approvals.Gate → Body p s
  resolved_gate : (seq target_seq : ℕ) (decision : Decision) (attested : Bool) → Body p s

pub record Response (p : Platform) (s : Signing) : Type 0 where
  pub status : ℕ
  pub body : Body p s

-- `TlrState`, without the store and the backend, which are the state. `tenants` is what the control
-- plane says of a token while a request runs.
pub record TlrState (s : Signing) : Type 0 where
  pub keys : SigningKeyring s
  pub mode : AuthMode
  pub tenants : String → Option String
  pub checkpoint_every : ℕ
  -- What the database says when it cannot write a checkpoint at a place.
  pub checkpoint_fault : ℕ → Option Message

-- A call of the streaming backend. The frame of an event is kept as the event that it prints.
pub data Frame (p : Platform) : Type 0 where
  publishes : String → RunEvent p → Frame p
  completes : String → Frame p

pub record Server (p : Platform) (s : Signing) : Type 0 where
  pub db : Db p s
  pub metrics : TlrMetrics
  pub spine : List (Frame p)

-- ASCII letters and digits, and `-`, `_`, `.`, `:`.
unfoldable pub id_byte : ℕ → Bool
id_byte b =
    (leb 48 b && leb b 57)
    || (leb 65 b && leb b 90)
    || (leb 97 b && leb b 122)
    || (b == 45)
    || (b == 95)
    || (b == 46)
    || (b == 58)

unfoldable pub all_id_bytes : List ℕ → Bool
all_id_bytes [] = true
all_id_bytes (b ∷ bs) = id_byte b && all_id_bytes bs

unfoldable pub valid_id : String → Bool
valid_id id =
    not (length (as_bytes id) == 0) && leb (length (as_bytes id)) 128 && all_id_bytes (as_bytes id)

unfoldable pub strip_prefix : String → String → Option String
strip_prefix String.[] h = some h
strip_prefix (String.◌∷◌ c cs) String.[] = none
strip_prefix (String.◌∷◌ c cs) (String.◌∷◌ d ds) =
    let rest = strip_prefix cs ds in if code c == code d then rest else none

unfoldable pub bearer : Headers → Option String
bearer headers = elim headers.authorization [
  | none ↦ none
  | some h ↦ elim (strip_prefix "Bearer " h) [ none ↦ some h | some token ↦ some token ]
]

-- The tenant that a presented token is of, when the server asks the control plane.
unfoldable pub tenant_of : {s : Signing} → TlrState s → Option String → Option String
tenant_of st none = none
tenant_of st (some token) = if st.mode.cloud_verify then st.tenants token else none

unfoldable pub authorize : {s : Signing} → TlrState s → Headers → Bool → Access
authorize st headers write =
    let presented = bearer headers in
    let tenant = tenant_of st presented in
    if write
    then elim tenant [ some ns ↦ granted ns | none ↦ resolve_write st.mode presented ]
    else resolve_read st.mode presented tenant

module _ (p : Platform) (s : Signing) where
  abbrev pub answer : ℕ → Body p s → Response p s
  answer code body = record { status = code; body = body }

  unfoldable pub err : StoreError → Response p s
  err not_found = answer 404 (plain "not found")
  err (conflict m) = answer 409 (said m)
  err (invalid m) = answer 400 (said m)
  err (backend m) = answer 500 (plain "storage failure")

  abbrev pub bad : String → Response p s
  bad msg = answer 400 (plain msg)

  abbrev pub unauthorized : Response p s
  unauthorized = answer 401 (plain "unauthorized")

  -- What every handler of a run begins with: the credential, and then the id in the path.
  unfoldable pub guarded {ℓ} :
      {A : Type ℓ} → TlrState s → Headers → Bool → String → (Response p s → A) → (RunKey → A) → A
  guarded st headers write id refuse go = elim (authorize st headers write) [
    | denied ↦ refuse unauthorized
    | granted ns ↦ if valid_id id then go (ns, id) else refuse (bad "invalid run id")
  ]

  abbrev pub counted : Server p s → (TlrMetrics → TlrMetrics) → Server p s
  counted srv change = record srv { metrics = change srv.metrics }

  abbrev pub sends : Server p s → Frame p → Server p s
  sends srv frame = record srv { spine = srv.spine ++ frame ∷ [] }

-- String concatenation of the names below.
unfoldable pub join : String → String → String
join String.[] t = t
join (String.◌∷◌ c cs) t = String.◌∷◌ c (join cs t)

unfoldable pub stream_name : RunKey → String
stream_name (ns, run_id) =
    ite (dec_text ns "") (join "tlr." run_id) (join "tlr." (join ns (join "." run_id)))

module _ (p : Platform) (s : Signing) where
  unfoldable pub publish_head : Server p s → RunKey → ℕ → Server p s
  publish_head srv k seq = elim (events p s srv.db k seq 1) [
    | [] ↦ srv
    | event ∷ _ ↦ sends p s srv (publishes (stream_name k) event)
  ]

  -- The store's part of it does not fail.
  -- What is counted once a checkpoint is stored.
  unfoldable pub checkpointed :
      Server p s → Checkpoint s → StoreResult (Db p s) → StoreResult (Server p s)
  checkpointed srv cp (Store.err e) = Store.err e
  checkpointed srv cp (Store.ok db) = Store.ok (record srv {
    db = db;
    metrics = record srv.metrics {
      checkpoints_written = incr srv.metrics.checkpoints_written;
      last_checkpoint_ms = cp.ts;
    };
  })

  unfoldable pub write_checkpoint :
      TlrState s → ℕ → Server p s → RunKey → ℕ → Hash → StoreResult (Server p s)
  write_checkpoint st now srv k seq head =
      let cp = sign_head p s st.keys k.1 seq head now in
      checkpointed srv cp (put_checkpoint p s (st.checkpoint_fault seq) srv.db k cp)

  -- A periodic checkpoint that fails is only logged.
  unfoldable pub best_effort : Server p s → StoreResult (Server p s) → Server p s
  best_effort srv (Store.err e) = srv
  best_effort srv (Store.ok srv') = srv'

  unfoldable pub maybe_checkpoint : TlrState s → ℕ → Server p s → RunKey → ℕ → Hash → Server p s
  maybe_checkpoint st now srv k seq head =
      if ltb 0 st.checkpoint_every && (seq % st.checkpoint_every == 0)
      then best_effort srv (write_checkpoint st now srv k seq head)
      else srv
