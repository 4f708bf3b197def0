-- ===== src/Rollup.antt =====
-- The rollup example (rollup/src): the accounts of its database, the deposits, and the execution
-- of transactions.
pub mod Accounts
pub mod Database
pub mod Deposits
pub mod Execution
pub mod Extension
mod Tests
