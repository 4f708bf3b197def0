-- ===== src/Remote/Chains/Kept.antt =====
-- What a message can carry of a chain, and which chains it can carry (remote/src/codec.rs).
use mathlib.Core.Bool.{false}
use mathlib.Core.Option.{none}
use mathlib.Core.List.{List, [], map}
use reth_exex_examples.Common.{All}
use reth_exex_examples.Common.Maps.{HasDistinctKeys, map_values}
use reth_exex_examples.Remote.Alloy.{Alloy}
use reth_exex_examples.Remote.Chains.{HasAscendingNumbers}
use reth_exex_examples.Remote.Headers.{header_kept}
use reth_exex_examples.Remote.State.Bundles.{bundle_account_kept}
use reth_exex_examples.Remote.State.Reverts.{revert_kept}
use reth_exex_examples.Remote.StateTypes.{
  RecoveredBlock, ExecutionOutcome, BundleState, Chain, AccountRevert,
}
use reth_exex_examples.Remote.Transactions.RoundTrip.{Fits}
use reth_exex_examples.Remote.Types.{Address}

module _ (A : Alloy) where
  abbrev pub block_kept : RecoveredBlock A → RecoveredBlock A
  block_kept block = record block {
    header = header_kept A block.header;
    ommers = map (header_kept A) block.ommers;
    withdrawals = none;
  }

  abbrev pub block_reverts_kept :
      List (Address A × AccountRevert A) → List (Address A × AccountRevert A)
  block_reverts_kept = map (λ e. (e.0, revert_kept A e.1))

  abbrev pub bundle_kept : BundleState A → BundleState A
  bundle_kept bundle = record bundle {
    state = map_values (bundle_account_kept A) bundle.state;
    reverts = map block_reverts_kept bundle.reverts;
  }

  abbrev pub outcome_kept : ExecutionOutcome A → ExecutionOutcome A
  outcome_kept outcome = record outcome { bundle = bundle_kept outcome.bundle; requests = [] }

  -- A message carries all of a chain but the requests, the trie data, the withdrawals of blocks,
  -- the `requests_hash` of headers and the `account_id` of accounts.
  abbrev pub chain_kept : Chain A → Chain A
  chain_kept chain = record {
    blocks = map block_kept chain.blocks;
    execution_outcome = outcome_kept chain.execution_outcome;
    with_trie = false;
  }

  -- The values are ones that Rust's types hold: the blocks are ordered by number, the integers
  -- fit, and each map has an entry to a key.
  pub record IsValidChain (chain : Chain A) : Type 0 where
    pub ascending : HasAscendingNumbers A chain.blocks
    pub fits : All (λ block. All (λ tx. Fits A tx.transaction) block.transactions) chain.blocks
    pub state_map : HasDistinctKeys chain.execution_outcome.bundle.state
    pub contracts_map : HasDistinctKeys chain.execution_outcome.bundle.contracts
    pub storage_maps : All (λ e. HasDistinctKeys e.1.storage) chain.execution_outcome.bundle.state
    pub revert_maps :
        All (All (λ e. HasDistinctKeys e.1.storage)) chain.execution_outcome.bundle.reverts
