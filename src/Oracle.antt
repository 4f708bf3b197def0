-- ===== src/Oracle.antt =====
-- The oracle example (oracle/src): its extension, its protocol and its data feed.
pub mod Exex
pub mod Messages
pub mod Connection
pub mod Feeder
pub mod Gossip
pub mod Feeds
pub mod Handler
pub mod Samples
mod Tests
