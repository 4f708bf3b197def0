-- ===== src/ExEx/Decode.antt =====
-- The flattening of a chain into the events of the expected contracts: `decode_chain_into_events`
-- of op-bridge/src/main.rs and `decode_chain_into_rollup_events` of rollup/src/main.rs.
use Prim.Native.Nat.{ℕ}
use mathlib.Core.Bool.{Bool}
use mathlib.Core.Option
use mathlib.Core.Option.{Option, none, some}
use mathlib.Core.List.{List, map, flat_map, filter_map, zip}
use reth_exex_examples.Common.{filter}
use reth_exex_examples.ExEx.{Log, Receipt, Block, Chain}

module _ {Tx : Type 0} where
  -- The transactions of a block beside their receipts.
  with_receipts : Block Tx × List Receipt → List (Block Tx × Tx × Receipt)
  with_receipts (block, receipts) =
      map (λ (tx, receipt). (block, tx, receipt)) (zip block.transactions receipts)

  -- The logs of a receipt that stand at an expected address.
  expected_logs : (ℕ → Bool) → Block Tx × Tx × Receipt → List (Block Tx × Tx × Log)
  expected_logs expected (block, tx, receipt) =
      map (λ log. (block, tx, log)) (filter (λ log. expected log.address) receipt.logs)

  module _ {Event : Type 0} where
    -- A log that does not decode is dropped.
    decoded_log : (Log → Option Event) → Block Tx × Tx × Log → Option (Block Tx × Tx × Log × Event)
    decoded_log decode_raw_log (block, tx, log) =
        Option.map (λ event. (block, tx, log, event)) (decode_raw_log log)

    unfoldable pub decode_chain :
        (ℕ → Bool) → (Log → Option Event) → Chain Tx → List (Block Tx × Tx × Log × Event)
    unfolding with_receipts expected_logs decoded_log flat_map filter_map
    decode_chain expected decode_raw_log chain =
        filter_map (decoded_log decode_raw_log)
          (flat_map (expected_logs expected) (flat_map with_receipts chain.blocks_and_receipts))
