-- ===== src/Proto.antt =====
-- crates/tideline-proto: the protocol TLR/1, a hash-chained record of events.
pub mod Kind
pub mod Digest
pub mod Canon
pub mod Event
pub mod Chain
pub mod Checkpoint
