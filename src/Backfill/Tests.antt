-- ===== src/Backfill/Tests.antt =====
-- Tests and witnesses for the chains of backfill/src/main.rs.
use Prim.Native.Nat.{ℕ, ◌+◌}
use mathlib.Core.Path.{◌≡◌, refl}
use mathlib.Core.Option.{none, some}
use mathlib.Core.List.{[], ◌∷◌, ◌++◌, map}
use reth_exex_examples.Backfill.Args.{
  ArgsError, Node, backfill_for_args, backfill_for_args-processed,
}
use reth_exex_examples.Backfill.Chains.{Chain, process_committed_chain}
use reth_exex_examples.Common.Results.{ok, err}

abbrev chain_at : ℕ → Chain
chain_at first = record { tip = (8, 80); first_block = first; transaction_counts = 3 ∷ 5 ∷ [] }

-- A chain at each end of the range, and then a failure with error 4.
abbrev node : Node ℕ
node = record {
  BlockId = ℕ;
  latest = 0;
  block_number_for_id = λ id. ok (some (id + 9));
  backfill =
      λ first last. map ok (chain_at first ∷ chain_at last ∷ []) ++ err 4 ∷ ok (chain_at 0) ∷ [];
}

backfill_for_args_example :
    (backfill_for_args node (record { from_block = some 7; to_block = some 2 }) ≡ (
      map process_committed_chain (chain_at 7 ∷ chain_at 11 ∷ []),
      err (ArgsError.failed_to_backfill 4),
    ))
    × (backfill_for_args node (record { from_block = none; to_block = some 2 })
        ≡ backfill_for_args node (record { from_block = some 1; to_block = some 2 }))
    × (backfill_for_args node (record { from_block = some 7; to_block = none })
        ≡ backfill_for_args node (record { from_block = some 7; to_block = some node.latest }))
    × (backfill_for_args node (record { from_block = none; to_block = none }) ≡ ([], ok tt))
backfill_for_args_example =
    backfill_for_args-processed node 7 2 11 (chain_at 7 ∷ chain_at 11 ∷ [])
      (some (4, ok (chain_at 0) ∷ [])) refl refl
