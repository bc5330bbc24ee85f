-- ===== src/Tests.antt =====
-- Small runs of the program, and each property at one of them.
pub mod Fixtures
mod Records
mod Chains
mod Live
mod Tools
mod Client
mod Served
mod Streams
