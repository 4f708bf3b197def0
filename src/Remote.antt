-- ===== src/Remote.antt =====
-- The remote example (remote/src/codec.rs, remote/proto/exex.proto): notifications as protobuf
-- messages and back.
pub mod Alloy
pub mod Error
pub mod Proto
pub mod Types
pub mod StateTypes
pub mod Fields
pub mod Headers
pub mod Transactions
pub mod State
pub mod Receipts
pub mod Chains
pub mod Notifications
pub mod Service
mod Samples
mod Tests
