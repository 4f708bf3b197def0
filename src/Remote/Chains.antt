-- ===== src/Remote/Chains.antt =====
-- Blocks, execution outcomes and chains to messages and back (remote/src/codec.rs).
pub mod Kept
pub mod RoundTrip
use Prim.Native.Nat.{ℕ, ◌<◌}
use mathlib.Core.Path.{◌≡◌}
use mathlib.Core.Bool.{false}
use mathlib.Core.Option.{none, some}
use mathlib.Core.List.{List, [], ◌∷◌, map}
use reth_exex_examples.Common.Maps.{collect_map}
use reth_exex_examples.Common.Results.{Result, ok, ◌>>=◌, ok_or, try_map}
use reth_exex_examples.Remote.Alloy.{Alloy}
use reth_exex_examples.Remote.Error.{
  Error, no_sealed_header, no_header, no_execution_outcome, no_bundle,
}
use reth_exex_examples.Remote.Fields.{fixed_from_bytes}
use reth_exex_examples.Remote.Headers.{header_to_proto, header_from_proto}
use reth_exex_examples.Remote.Proto
use reth_exex_examples.Remote.Receipts.{receipt_to_proto, receipt_from_proto}
use reth_exex_examples.Remote.State.Bundles.{
  bundle_account_to_proto, bundle_account_from_proto, contract_to_proto, contract_from_proto,
}
use reth_exex_examples.Remote.State.Reverts.{revert_to_proto, revert_from_proto}
use reth_exex_examples.Remote.StateTypes
use reth_exex_examples.Remote.StateTypes.{
  RecoveredBlock, ExecutionOutcome, BundleState, Chain, AccountRevert, Receipt,
}
use reth_exex_examples.Remote.Transactions.Read.{transaction_from_proto}
use reth_exex_examples.Remote.Transactions.Write.{transaction_to_proto}
use reth_exex_examples.Remote.Types.{Address}

module _ (A : Alloy) where
  -- The numbers of the blocks rise from each to the next.
  abbrev pub HasAscendingNumbers : List (RecoveredBlock A) → Type 0
  HasAscendingNumbers [] = Unit
  HasAscendingNumbers (b ∷ []) = Unit
  HasAscendingNumbers (b ∷ c ∷ l) =
      (b.header.number < c.header.number) × HasAscendingNumbers (c ∷ l)

  -- `Chain::new` with no trie data: it keys the blocks by their numbers, so blocks whose numbers
  -- rise stay as they are.
  pub record ChainNew : Type 0 where
    pub new : List (RecoveredBlock A) → ExecutionOutcome A → Chain A
    pub new_ascending :
        (blocks : List (RecoveredBlock A)) (outcome : ExecutionOutcome A)
        → HasAscendingNumbers blocks
        → new blocks outcome
          ≡ record { blocks = blocks; execution_outcome = outcome; with_trie = false }

  block_to_proto : RecoveredBlock A → Result Error Proto.Block
  block_to_proto block = do
    body ← try_map (λ tx. ok (transaction_to_proto A tx)) block.transactions
    ok (record {
      header = some (record {
        hash = A.b256.to_vec block.hash;
        header = some (header_to_proto A block.header);
      });
      body = body;
      ommers = map (header_to_proto A) block.ommers;
      senders = map A.address.to_vec block.senders;
    })

  -- The block is sealed with the hash of the message; withdrawals are left at their default.
  block_from_proto : Proto.Block → Result Error (RecoveredBlock A)
  block_from_proto block = do
    sealed_header ← ok_or block.header no_sealed_header
    header ← ok_or sealed_header.header no_header
    header ← header_from_proto A header
    hash ← fixed_from_bytes A.b256 sealed_header.hash
    transactions ← try_map (transaction_from_proto A) block.body
    ommers ← try_map (header_from_proto A) block.ommers
    senders ← try_map (fixed_from_bytes A.address) block.senders
    ok (record {
      hash = hash;
      header = header;
      transactions = transactions;
      ommers = ommers;
      withdrawals = none;
      senders = senders;
    })

  block_reverts_to_proto : List (Address A × AccountRevert A) → Result Error Proto.BlockReverts
  block_reverts_to_proto block_reverts = do
    reverts ← try_map (revert_to_proto A) block_reverts
    ok (record { reverts = reverts })

  block_reverts_from_proto : Proto.BlockReverts → Result Error (List (Address A × AccountRevert A))
  block_reverts_from_proto block_reverts = try_map (revert_from_proto A) block_reverts.reverts

  block_receipts_to_proto : List (Receipt A) → Result Error Proto.BlockReceipts
  block_receipts_to_proto block_receipts = do
    receipts ← try_map (receipt_to_proto A) block_receipts
    ok (record { receipts = receipts })

  block_receipts_from_proto : Proto.BlockReceipts → Result Error (List (Receipt A))
  block_receipts_from_proto block_receipts = try_map (receipt_from_proto A) block_receipts.receipts

  -- `state_size as u64` keeps a `usize` of 64 bits.
  bundle_to_proto : BundleState A → Result Error Proto.BundleState
  unfolding block_reverts_to_proto
  bundle_to_proto bundle = do
    state ← try_map (bundle_account_to_proto A) bundle.state
    contracts ← try_map (contract_to_proto A) bundle.contracts
    reverts ← try_map block_reverts_to_proto bundle.reverts
    ok (record {
      state = state;
      contracts = contracts;
      reverts = reverts;
      state_size = bundle.state_size;
      reverts_size = bundle.reverts_size;
    })

  bundle_from_proto : Proto.BundleState → Result Error (BundleState A)
  unfolding block_reverts_from_proto
  bundle_from_proto bundle = do
    state ← try_map (bundle_account_from_proto A) bundle.state
    contracts ← try_map (contract_from_proto A) bundle.contracts
    reverts ← try_map block_reverts_from_proto bundle.reverts
    ok (record {
      state = collect_map A.address.dec_eq state;
      contracts = collect_map A.b256.dec_eq contracts;
      reverts = reverts;
      state_size = bundle.state_size;
      reverts_size = bundle.reverts_size;
    })

  pub chain_to_proto : Chain A → Result Error Proto.Chain
  unfolding block_to_proto bundle_to_proto block_receipts_to_proto
  chain_to_proto chain = do
    blocks ← try_map block_to_proto chain.blocks
    bundle ← bundle_to_proto chain.execution_outcome.bundle
    receipts ← try_map block_receipts_to_proto chain.execution_outcome.receipts
    ok (record {
      blocks = blocks;
      execution_outcome = some (record {
        bundle = some bundle;
        receipts = receipts;
        first_block = chain.execution_outcome.first_block;
      });
    })

  module _ (api : ChainNew) where
    pub chain_from_proto : Proto.Chain → Result Error (Chain A)
    unfolding block_from_proto bundle_from_proto block_receipts_from_proto
    chain_from_proto chain = do
      execution_outcome ← ok_or chain.execution_outcome no_execution_outcome
      bundle ← ok_or execution_outcome.bundle no_bundle
      blocks ← try_map block_from_proto chain.blocks
      bundle ← bundle_from_proto bundle
      receipts ← try_map block_receipts_from_proto execution_outcome.receipts
      ok (
          api.new blocks (record {
            bundle = bundle;
            receipts = receipts;
            first_block = execution_outcome.first_block;
            requests = [];
          }))
