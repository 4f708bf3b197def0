-- ===== src/Lib.antt =====
-- The execution extensions (ExEx) of this repository: programs that a reth node feeds with
-- notifications of committed, reorged and reverted chains. Each is a loop over the notifications
-- that keeps some state of its own, and sends the node the height up to which it is done.
--
-- Parts and files, with paths from the repository's root:
--   Common: tests, lists, results with an error, maps, words of bytes, `Poll`.
--   ExEx: the notifications and chains that the extensions take from reth, with the methods
--   `committed_chain` and `reverted_chain` as a record of parameters with their documented
--   answers; ExEx.Decode has the flattening of a chain into the events of some contracts.
--   Remote (remote/src/codec.rs, remote/proto/exex.proto): each `From` and `TryFrom` of the codec
--   is a function `x_to_proto` or `x_from_proto` that returns a `Result`; the errors of
--   Remote.Error are those of the source, and `panic` where the source unwraps. Remote.Alloy has
--   the parameters: fixed byte arrays, 256-bit integers and bytecode. Maps are lists of entries.
--   Remote.Service is the server's extension and subscription (remote/bin/exex.rs) and the client
--   (remote/bin/consumer.rs).
--   OpBridge (op-bridge/src/main.rs): OpBridge.Tables has the two tables and the SQL statements,
--   OpBridge.Handler the loop over the notifications, with one function to each of its loops.
--   Backfill (backfill/src/main.rs, backfill/src/rpc.rs): Backfill.Exex has the state of
--   `BackfillExEx`, of its tasks and of its queue, and one function to each of `start_backfill`,
--   `cancel_backfill`, `handle_backfill_message` and the branches of a task's `select!`;
--   Backfill.Exex.Steps is the relation of their interleavings. Backfill.Chains has the processing
--   of chains and the answers of RPC calls, Backfill.Rpc those calls, and Backfill.Args the
--   backfill that the command line asks for.
--   Loops: the loops of minimal/src/main.rs (Loops.Minimal), of discv5/src/exex/mod.rs
--   (Loops.Discovery) with its discovery (discv5/src/network/mod.rs,
--   Loops.DiscoveryNetwork) and of in-memory-state/src/main.rs (Loops.InMemory).
--   Oracle: the extension of the oracle (oracle/src/exex.rs, Oracle.Exex), the messages of its
--   protocol (oracle/src/network/proto/mod.rs, Oracle.Messages), the poll of a connection
--   (oracle/src/network/proto/connection.rs, Oracle.Connection), the handler that makes connections
--   (Oracle.Handler), the data feed with its retries (oracle/src/offchain_data/binance,
--   Oracle.Feeder) and its streams (oracle/src/offchain_data/mod.rs, Oracle.Feeds), and the polls of
--   the oracle, of its network and of its discovery (oracle/src/oracle.rs,
--   oracle/src/network/mod.rs, oracle/src/network/discovery.rs, all in Oracle.Gossip).
--   Rollup: Rollup.Accounts and Rollup.Database have the six tables of rollup/src/db.rs and its
--   small functions; Rollup.Database.Insert is `insert_block_with_bundle`, Rollup.Database.Revert
--   `revert_tip_block`, and Rollup.Database.Reader the interface to revm; Rollup.Database.Wiped
--   is about the storage of a wiped account. Rollup.Execution has the functions of
--   rollup/src/execution.rs: `execute_transactions` in the module itself,
--   `decode_transactions` in its child Transactions, `execute_block` and `construct_header` in its
--   child Blocks. Rollup.Deposits and Rollup.Extension are rollup/src/main.rs: the deposits, and
--   `start`, `commit` and `revert`, with one function to each arm of their loops.
-- Parts share the notifications only; the remote server and client also share the codec, and the
-- rollup's extension calls its execution, which reads its database.
--
-- Bounds: the decimal text of a number n has the fuel n + 1, which is enough, for its value is n.
-- No other function has fuel, for each follows the list of what its stream yields; a poll in a
-- loop that the list does not end is one that goes on. The retries of the data feed are the ten of
-- the source. The counter of backfill jobs wraps at 2^64, which takes as many steps. The integers
-- of a transaction that are written as bytes are bounded by their widths.
--
-- Not modelled: logging; the sending of events to the node, which fails only when the node is
-- gone; the failures of SQLite itself; the set-up of nodes, servers and databases in the main
-- functions; the start of the discovery in discv5/src/network, which wraps a library; the set-up
-- of the network of oracle/src and of its data feed; the JSON of
-- oracle/src/offchain_data/binance/ticker.rs.
pub mod Common
pub mod Remote
pub mod ExEx
pub mod OpBridge
pub mod Backfill
pub mod Loops
pub mod Oracle
pub mod Rollup
