-- ===== src/Record.antt =====
-- The record store of crates/tideline-server/src/tlr: store.rs and sqlite.rs.
pub mod Store
pub mod Tables
pub mod Sqlite
pub mod Redact
pub mod Invariant
pub mod Sound
pub mod Checkpoints
pub mod History
pub mod Moves
pub mod Kept
pub mod Growing
pub mod Paging
