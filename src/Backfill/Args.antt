-- ===== src/Backfill/Args.antt =====
-- The backfill that the command line asks for (the closure in the main function of
-- backfill/src/main.rs), before the extension starts. The provider of the node and the factory of
-- jobs are parameters.
use Prim.Native.Nat.{ℕ}
use mathlib.Core.Path.{◌≡◌, refl}
use mathlib.Core.Bool.{Bool, true, false}
use mathlib.Core.Option.{Option, none, some}
use mathlib.Core.List.{List, [], ◌∷◌, ◌++◌, map, append-nil}
use reth_exex_examples.Common.{if◌then◌else◌}
use reth_exex_examples.Common.Results.{Result, ok, err}
use reth_exex_examples.Backfill.Chains.{
  Chain, Processed, process_committed_chain, backfill_with_job, backfill_with_job-append,
}

-- `BackfillArgsExt`
pub record BackfillArgs (BlockId : Type 0) : Type 0 where
  pub from_block : Option ℕ
  pub to_block : Option BlockId

pub data ArgsError (E : Type 0) : Type 0 where
  provider : E → ArgsError E
  end_not_found : ArgsError E
  failed_to_backfill : E → ArgsError E

-- The node: `BlockNumberOrTag::Latest`, `block_number_for_id`, and the stream of the job over an
-- inclusive range.
pub record Node (E : Type 0) : Type 1 where
  pub BlockId : Type 0
  pub latest : BlockId
  pub block_number_for_id : BlockId → Result E (Option ℕ)
  pub backfill : ℕ → ℕ → List (Result E Chain)

unfoldable is_some : {A : Type 0} → Option A → Bool
is_some none = false
is_some (some a) = true

unfoldable or : {A : Type 0} → Option A → Option A → Option A
or none second = second
or (some a) second = some a

unfoldable unwrap_or_one : Option ℕ → ℕ
unwrap_or_one none = 1
unwrap_or_one (some n) = n

module _ {E : Type 0} where
  -- `map_err` on the end of the job, under `?`.
  unfoldable after_job :
      List Processed × Result E (Unit {0}) → List Processed × Result (ArgsError E) (Unit {0})
  after_job (processed, ok unit) = (processed, ok unit)
  after_job (processed, err e) = (processed, err (ArgsError.failed_to_backfill e))

  module _ (node : Node E) where
    -- Without an end, but with a start, the end is the latest block.
    unfoldable pub end_of_range : BackfillArgs node.BlockId → Option node.BlockId
    unfolding is_some or
    end_of_range args =
        or args.to_block (if is_some args.from_block then some node.latest else none)

    unfoldable backfill_to :
        Option ℕ → Result E (Option ℕ) → List Processed × Result (ArgsError E) (Unit {0})
    unfolding after_job unwrap_or_one
    backfill_to from_block (err e) = ([], err (ArgsError.provider e))
    backfill_to from_block (ok none) = ([], err ArgsError.end_not_found)
    backfill_to from_block (ok (some to_block)) =
        after_job (backfill_with_job (node.backfill (unwrap_or_one from_block) to_block))

    -- What is processed, and whether the extension is started behind it.
    unfoldable pub backfill_for_args :
        BackfillArgs node.BlockId → List Processed × Result (ArgsError E) (Unit {0})
    unfolding end_of_range backfill_to
    backfill_for_args args = elim (end_of_range args) [
      | none ↦ ([], ok tt)
      | some to_block ↦ backfill_to args.from_block (node.block_number_for_id to_block)
    ]

    -- How a stream goes on after its chains: it ends, or yields an error.
    abbrev pub Ending : Type 0
    Ending = Option (E × List (Result E Chain))

    abbrev pub tail_of : Ending → List (Result E Chain)
    tail_of none = []
    tail_of (some (e, rest)) = err e ∷ rest

    abbrev pub answer_of : Ending → Result (ArgsError E) (Unit {0})
    answer_of none = ok tt
    answer_of (some (e, rest)) = err (ArgsError.failed_to_backfill e)

    after_job-processed :
        (chains : List Chain) (ending : Ending)
        → after_job (backfill_with_job (map ok chains ++ tail_of ending))
          ≡ (map process_committed_chain chains, answer_of ending)
    unfolding after_job backfill_with_job
    after_job-processed chains none =
        rw
          (
            backfill_with_job-append {E = E} chains [],
            append-nil (map process_committed_chain chains),
          )
          refl
    after_job-processed chains (some (e, rest)) =
        rw
          (
            backfill_with_job-append chains (err e ∷ rest),
            append-nil (map process_committed_chain chains),
          )
          refl

    -- If the end of the range is a block that the provider finds, and the stream of the job over
    -- the range yields some chains and then ends or fails, then exactly those chains are processed,
    -- in their order, and the extension is started, or else the failure is the answer. Without a
    -- start the range starts at block 1; with a start and no end, the end is the latest block; with
    -- neither, nothing is processed and the extension is started.
    pub backfill_for_args-processed :
        (start : ℕ) (to_block : node.BlockId) (number : ℕ) (chains : List Chain) (ending : Ending)
        → node.block_number_for_id to_block ≡ ok (some number)
        → node.backfill start number ≡ map ok chains ++ tail_of ending
        → (backfill_for_args (record { from_block = some start; to_block = some to_block })
            ≡ (map process_committed_chain chains, answer_of ending))
          × (backfill_for_args (record { from_block = none; to_block = some to_block })
              ≡ backfill_for_args (record { from_block = some 1; to_block = some to_block }))
          × (backfill_for_args (record { from_block = some start; to_block = none })
              ≡ backfill_for_args (record { from_block = some start; to_block = some node.latest }))
          × (backfill_for_args (record { from_block = none; to_block = none }) ≡ ([], ok tt))
    unfolding backfill_for_args end_of_range backfill_to is_some or unwrap_or_one
    backfill_for_args-processed start to_block number chains ending found stream = (
      rw (found, backfill_to, stream) (after_job-processed chains ending),
      rw (found, backfill_to) refl,
      refl,
      refl,
    )
