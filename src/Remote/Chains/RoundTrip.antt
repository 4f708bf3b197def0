-- ===== src/Remote/Chains/RoundTrip.antt =====
-- A chain that is written as a message and read back (remote/src/codec.rs).
use mathlib.Core.Path.{◌≡◌, refl, ◌∙◌, ap}
use mathlib.Core.List.{List, [], ◌∷◌, map}
use reth_exex_examples.Common.{All, map_self}
use reth_exex_examples.Common.Maps.{
  HasDistinctKeys, map_values, map_values-HasDistinctKeys, collect_map_distinct,
}
use reth_exex_examples.Common.Results.{ok, ◌>>=◌, try_map, try_map-ReadsBack, >>=-eq-ok}
use reth_exex_examples.Remote.Alloy.{Alloy}
use reth_exex_examples.Remote.Chains.{
  HasAscendingNumbers, ChainNew, block_to_proto, block_from_proto, block_reverts_to_proto,
  block_reverts_from_proto, block_receipts_to_proto, block_receipts_from_proto, bundle_to_proto,
  bundle_from_proto, chain_to_proto, chain_from_proto,
}
use reth_exex_examples.Remote.Chains.Kept.{
  block_kept, block_reverts_kept, bundle_kept, outcome_kept, chain_kept, IsValidChain,
}
use reth_exex_examples.Remote.Fields.{fields_back}
use reth_exex_examples.Remote.Headers.{
  header_to_proto, header_from_proto, header_kept, header_from_proto-header_to_proto,
}
use reth_exex_examples.Remote.Receipts.{receipt_to_proto, receipt_from_proto, receipt_back}
use reth_exex_examples.Remote.State.Bundles.{
  bundle_account_to_proto, bundle_account_from_proto, bundle_account_kept, bundle_account_back,
  contract_to_proto, contract_from_proto, contract_back,
}
use reth_exex_examples.Remote.State.Reverts.{
  revert_to_proto, revert_from_proto, revert_kept, revert_back,
}
use reth_exex_examples.Remote.StateTypes.{
  RecoveredBlock, BundleState, Chain, AccountRevert, Receipt,
}
use reth_exex_examples.Remote.Transactions.Read.{transaction_from_proto}
use reth_exex_examples.Remote.Transactions.RoundTrip.{
  Fits, transaction_from_proto-transaction_to_proto,
}
use reth_exex_examples.Remote.Transactions.Write.{transaction_to_proto}
use reth_exex_examples.Remote.Types.{Address, B256, TransactionSigned, Header}

module _ (A : Alloy) where
  body_back :
      (l : List (TransactionSigned A))
      → All (λ tx. Fits A tx.transaction) l
      → (try_map (λ tx. ok (transaction_to_proto A tx)) l >>= try_map (transaction_from_proto A))
        ≡ ok l
  body_back l h =
      try_map-ReadsBack (λ tx. Fits A tx.transaction) (λ tx. ok (transaction_to_proto A tx))
        (transaction_from_proto A) (λ tx. tx) (transaction_from_proto-transaction_to_proto A) l h
      ∙ ap ok (map_self l)

  ommers_back :
      (l : List (Header A))
      → try_map (header_from_proto A) (map (header_to_proto A) l) ≡ ok (map (header_kept A) l)
  unfolding try_map
  ommers_back [] = refl
  ommers_back (header ∷ l) = rw (header_from_proto-header_to_proto A header, ommers_back l)

  block_back :
      (block : RecoveredBlock A)
      → All (λ tx. Fits A tx.transaction) block.transactions
      → (block_to_proto A block >>= block_from_proto A) ≡ ok (block_kept A block)
  unfolding block_to_proto block_from_proto
  block_back block h =
      let (body, w, r) =
        >>=-eq-ok (try_map (λ tx. ok (transaction_to_proto A tx)) block.transactions)
          (try_map (transaction_from_proto A)) (body_back block.transactions h) in
      simp (w, header_from_proto-header_to_proto, fields_back, r, ommers_back)

  block_reverts_back :
      (l : List (Address A × AccountRevert A))
      → All (λ e. HasDistinctKeys e.1.storage) l
      → (block_reverts_to_proto A l >>= block_reverts_from_proto A) ≡ ok (block_reverts_kept A l)
  unfolding block_reverts_to_proto block_reverts_from_proto
  block_reverts_back l h =
      let (reverts, w, r) =
        >>=-eq-ok (try_map (revert_to_proto A) l) (try_map (revert_from_proto A)) (
          try_map-ReadsBack (λ e. HasDistinctKeys e.1.storage) (revert_to_proto A)
            (revert_from_proto A) (λ e. (e.0, revert_kept A e.1)) (revert_back A) l h) in
      rw w r

  receipts_back :
      (l : List (Receipt A))
      → All (λ _. Unit {0}) l
      → (try_map (receipt_to_proto A) l >>= try_map (receipt_from_proto A)) ≡ ok l
  receipts_back l h =
      try_map-ReadsBack (λ _. Unit {0}) (receipt_to_proto A) (receipt_from_proto A) (λ r. r)
        (λ receipt _. receipt_back A receipt) l h
      ∙ ap ok (map_self l)

  All-unit {ℓ} : {B : Type ℓ} (l : List B) → All (λ _. Unit {0}) l
  All-unit [] = tt
  All-unit (x ∷ l) = (tt, All-unit l)

  block_receipts_back :
      (l : List (Receipt A)) → (block_receipts_to_proto A l >>= block_receipts_from_proto A) ≡ ok l
  unfolding block_receipts_to_proto block_receipts_from_proto
  block_receipts_back l =
      let (receipts, w, r) =
        >>=-eq-ok (try_map (receipt_to_proto A) l) (try_map (receipt_from_proto A))
          (receipts_back l (All-unit l)) in
      rw w r

  outcome_receipts_back :
      (l : List (List (Receipt A)))
      → (try_map (block_receipts_to_proto A) l >>= try_map (block_receipts_from_proto A)) ≡ ok l
  outcome_receipts_back l =
      try_map-ReadsBack (λ _. Unit {0}) (block_receipts_to_proto A) (block_receipts_from_proto A)
        (λ r. r) (λ receipts _. block_receipts_back receipts) l (All-unit l)
      ∙ ap ok (map_self l)

  contracts_back :
      (l : List (B256 A × A.Bytecode))
      → (try_map (contract_to_proto A) l >>= try_map (contract_from_proto A)) ≡ ok l
  contracts_back l =
      try_map-ReadsBack (λ _. Unit {0}) (contract_to_proto A) (contract_from_proto A) (λ e. e)
        (λ e _. contract_back A e) l (All-unit l)
      ∙ ap ok (map_self l)

  bundle_back :
      (bundle : BundleState A)
      → HasDistinctKeys bundle.state
      → HasDistinctKeys bundle.contracts
      → All (λ e. HasDistinctKeys e.1.storage) bundle.state
      → All (All (λ e. HasDistinctKeys e.1.storage)) bundle.reverts
      → (bundle_to_proto A bundle >>= bundle_from_proto A) ≡ ok (bundle_kept A bundle)
  unfolding bundle_to_proto bundle_from_proto
  bundle_back bundle hs hc hm hr =
      let (state, ws, rs) =
        >>=-eq-ok (try_map (bundle_account_to_proto A) bundle.state)
          (try_map (bundle_account_from_proto A))
          (try_map-ReadsBack (λ e. HasDistinctKeys e.1.storage) (bundle_account_to_proto A)
            (bundle_account_from_proto A) (λ e. (e.0, bundle_account_kept A e.1))
            (bundle_account_back A) bundle.state hm) in
      let (contracts, wc, rc) =
        >>=-eq-ok (try_map (contract_to_proto A) bundle.contracts) (try_map (contract_from_proto A))
          (contracts_back bundle.contracts) in
      let (reverts, wr, rr) =
        >>=-eq-ok (try_map (block_reverts_to_proto A) bundle.reverts)
          (try_map (block_reverts_from_proto A))
          (try_map-ReadsBack (All (λ e. HasDistinctKeys e.1.storage)) (block_reverts_to_proto A)
            (block_reverts_from_proto A) (block_reverts_kept A) block_reverts_back bundle.reverts
            hr) in
      let state_map =
        collect_map_distinct A.address.dec_eq (map_values (bundle_account_kept A) bundle.state)
          (map_values-HasDistinctKeys (bundle_account_kept A) bundle.state hs) in
      simp
        (ws, wc, wr, rs, rc, rr, state_map, collect_map_distinct A.b256.dec_eq bundle.contracts hc)

  kept-HasAscendingNumbers :
      (l : List (RecoveredBlock A))
      → HasAscendingNumbers A l
      → HasAscendingNumbers A (map (block_kept A) l)
  kept-HasAscendingNumbers [] h = tt
  kept-HasAscendingNumbers (b ∷ []) h = tt
  kept-HasAscendingNumbers (b ∷ c ∷ l) h = (h.0, kept-HasAscendingNumbers (c ∷ l) h.1)

  module _ (api : ChainNew A) where
    pub chain_back :
        (chain : Chain A)
        → IsValidChain A chain
        → (chain_to_proto A chain >>= chain_from_proto A api) ≡ ok (chain_kept A chain)
    unfolding chain_to_proto chain_from_proto
    chain_back chain v =
        let (blocks, wb, rb) =
          >>=-eq-ok (try_map (block_to_proto A) chain.blocks) (try_map (block_from_proto A)) (
            try_map-ReadsBack (λ block. All (λ tx. Fits A tx.transaction) block.transactions)
              (block_to_proto A) (block_from_proto A) (block_kept A) block_back chain.blocks
              v.fits) in
        let (bundle, wu, ru) =
          >>=-eq-ok (bundle_to_proto A chain.execution_outcome.bundle) (bundle_from_proto A) (
            bundle_back chain.execution_outcome.bundle v.state_map v.contracts_map v.storage_maps
              v.revert_maps) in
        let (receipts, wr, rr) =
          >>=-eq-ok (try_map (block_receipts_to_proto A) chain.execution_outcome.receipts)
            (try_map (block_receipts_from_proto A))
            (outcome_receipts_back chain.execution_outcome.receipts) in
        let made =
          api.new_ascending (map (block_kept A) chain.blocks)
            (outcome_kept A chain.execution_outcome)
            (kept-HasAscendingNumbers chain.blocks v.ascending) in
        simp (wb, wu, wr, rb, ru, rr) (ap ok made)
