-- ===== src/Backfill.antt =====
-- The backfill example (backfill/src/main.rs, backfill/src/rpc.rs): jobs that are started and
-- cancelled over RPC, at most a limit of them at a time.
pub mod Tasks
pub mod Exex
pub mod Chains
pub mod Args
pub mod Rpc
mod Tests
