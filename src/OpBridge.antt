-- ===== src/OpBridge.antt =====
-- The bridge example (op-bridge/src/main.rs): deposits and withdrawals of the bridge contracts
-- as rows of two tables.
pub mod Tables
pub mod Handler
