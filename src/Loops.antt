-- ===== src/Loops.antt =====
-- The small examples that watch the notifications: the minimal one (minimal/src/main.rs), the one
-- beside the discovery (discv5/src/exex/mod.rs), and the two that keep the state in memory
-- (in-memory-state/src/main.rs, oracle/src/exex.rs).
pub mod Minimal
pub mod DiscoveryNetwork
pub mod Discovery
pub mod InMemory
mod Tests
