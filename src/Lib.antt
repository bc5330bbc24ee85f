-- ===== src/Lib.antt =====
-- Tideline: a server for live token streams and for tamper-evident records of agent runs (TLR/1). This
-- library models the protocol crate, the record store, the approval gates, the access rules, the
-- routes of the record, the routes of streams, the live streams, the client and the command line
-- verifier, as functions on explicit state.
--
-- Parts of the program and where they are modelled (paths from the repository's root):
--
-- - crates/tideline-proto, the protocol. Proto/Kind (kind.rs), Proto/Digest (hash.rs), Proto/Canon
--   (canon.rs), Proto/Event (event.rs), Proto/Chain (chain.rs: `verify_chain`), Proto/Checkpoint
--   (checkpoint.rs: `sign`, `verify`). Proto/Canon/Layout is about the layout of the hashed bytes,
--   Proto/Chain/Linked the specification of a sound record apart from the verifier,
--   Proto/Chain/Verify, Faults and Tamper what the verifier accepts, what it names and what the head
--   binds.
-- - crates/tideline-server/src/tlr/store.rs and sqlite.rs, the store. Record/Store has the types,
--   Record/Tables the four tables and what the SQL statements say of them, Record/Sqlite the methods
--   `create_run`, `append`, `events`, `seal` with the helpers `head_of`, `write_event`,
--   `append_in_tx`, Record/Redact `redact`, Record/Checkpoints `put_checkpoint` and
--   `latest_checkpoint`. Record/History runs any sequence of calls from the empty database.
--   Record/Invariant states the invariant and Record/Sound takes it through each call; Record/Moves
--   gives the calls as a step relation, which Record/Kept and Record/Growing use; Record/Paging is
--   about reading.
-- - crates/tideline-server/src/tlr/approvals.rs, the gates, on top of the store's `events` and
--   `append`: Approvals (`project`), Approvals/Operations (`request`, `resolve`, `expire_lapsed`),
--   Approvals/Gates, Approvals/Written.
-- - crates/tideline-server/src/tlr/auth.rs: Auth, and Auth/Grants.
-- - crates/tideline-server/src/token.rs and stream.rs: Stream, Stream/Buffer, Stream/Replay,
--   Stream/Terminal.
-- - crates/tideline-server/src/manager.rs and backend.rs: Manager, Manager/Capacity.
-- - crates/tideline-server/src/tlr/routes.rs, the handlers over the store, the gates, the keys and the
--   counters: Routes (credentials, ids, publishing, checkpoints), Routes/Handlers, Routes/Gates,
--   Routes/Served (requests one after the other), Routes/Calls, EndCalls and GateCalls (a request as
--   calls of the store), Routes/Refines, Routes/Sealing, Routes/Shape; Routes/Watch is the stream of
--   `watch` and Routes/Watching what a watcher gets. Keys is keys.rs, Metrics is metrics.rs.
-- - crates/tideline-server/src/api.rs and events.rs, the routes of plain streams over the registry:
--   Api (`KeyVerifier`, `authorize_write`, `ns_key`, the handlers that write), Api/Served (requests
--   and the turns of readers, one after the other), Api/Subscribe (`verify_ticket`, `subscribe`,
--   `subscribe_ws`), Api/Pump (what a reader is sent over each transport), Api/Verifier, Api/Keys,
--   Api/Attributed, Api/Owners, Api/Tickets, Api/Entitled, Api/Transports; Events (`Events`,
--   `to_json`).
-- - crates/tideline-sdk/src: Sdk (error.rs, client.rs, run.rs), Sdk/Paging and Sdk/Whole
--   (`events_paged` alone and against the store), Sdk/Waiting (`await_gate`), Sdk/Sse and Sdk/Chunks
--   (`sse_events`).
-- - crates/tideline-cli/src/main.rs: Cli (`verify`), Cli/Attested, Cli/Verdict, Cli/History.
--
-- How the state corresponds. A transaction is a function from a database to a result with the database
-- that it leaves; a transaction that fails is rolled back, so an error carries no database. The four
-- tables are maps by their primary keys; the rows of `tlr_events` stand in the order of their
-- insertion. A statement is what its SQL says of these maps; `ORDER BY seq` and `seq >= ?` compare the
-- columns as signed 64-bit numbers, as SQLite does. An INSERT on a key that is there fails. The blob
-- columns hold 32 bytes, as the program writes them, and the two JSON columns `labels` and `redacted`
-- hold the maps that are printed there. The clock is an argument, `now`. An error's text is kept as
-- what it says. A place `seq + 1` is not wrapped: no run reaches 2^63 events. Numbers in hashed bytes
-- are written big-endian modulo 2^64. A stream's lock makes each method one step, and `sent` holds
-- what went into its broadcast channel.
--
-- Outside the repository, and so parameters: `Platform` (SHA-256, serde_json's `RawValue`, printer and
-- parser) and `Signing` (ed25519, base64), and `TicketCrates` (base64 of URLs, HMAC, serde_json on a
-- ticket), the first two with the documented behaviour that proofs use in `IsPlatform` and
-- `IsSigning`. Nothing assumes that SHA-256 has no collisions: the statements that depend on it give a
-- collision as the alternative.
--
-- A handler takes the state of the server (the database, the counters, the calls of the streaming
-- backend in their order) and gives a response with the state it leaves; the clock is a function of
-- how often it was read, a request's body is what serde_json read of it, and the control plane is a
-- function from a token to a tenant. A checkpoint may fail to be written, as the state of the server
-- says (`checkpoint_fault`); the other statements fail as their keys say, and leave the database as it
-- was.
--
-- Recursion is structural but for four loops, which run on fuel: `events_paged` and `await_gate` of
-- the client and the reads of `watch`, whose theorems say how much is enough, and the loop that takes
-- frames off the buffer of `sse_events`, which has the length of the buffer, of which a frame takes
-- two bytes at least. The loop of a stream's reader and the outer loop of `watch` run over the signals
-- that they receive.
--
-- Not modelled: `list_runs` and the schema migration of the store; what a reader of a plain stream
-- that leaves early has been sent; the task that sends reports on; the Redis backend; the start of the
-- server; `export` and `tail` of the command line tool; the builders of requests in the client; the
-- client libraries in other languages.
pub mod Base
pub mod Platform
pub mod Signing
pub mod Proto
pub mod Record
pub mod Auth
pub mod Stream
pub mod Manager
pub mod Approvals
pub mod Cli
pub mod Sdk
pub mod Keys
pub mod Metrics
pub mod Routes
pub mod Events
pub mod Api
pub mod Tests
