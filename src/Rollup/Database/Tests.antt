-- ===== src/Rollup/Database/Tests.antt =====
-- Tests and witnesses for the database of rollup/src/db.rs.
use Prim.Native.Nat.{ℕ}
use mathlib.Core.Path.{◌≡◌, refl}
use mathlib.Core.Logic.{◌≢◌, ◌⊎◌}
use mathlib.Core.Option.{none, some}
use mathlib.Core.List.{[], ◌∷◌}
use native.Mathlib.Omega.{arith}
use native.Mathlib.Decide.{ℕ_discrete}
use reth_exex_examples.Common.Maps.{map_get, map_remove}
use reth_exex_examples.Common.Results.{ok, err}
use reth_exex_examples.Rollup.Database.{
  DbError, Tables, tip_number, get_block, greatest, later, select,
}
use reth_exex_examples.Rollup.Database.Wiped.{wiped_change, wiped_revert, revert_tip_block-wiped}
use reth_exex_examples.Rollup.Database.Bundles.{Changeset, Reverts}
use reth_exex_examples.Common.Words.{Bytes}
use reth_exex_examples.Rollup.Database.Revert.Restore.{value_at}
use reth_exex_examples.Rollup.Database.Texts.{to_decimal, decimal_onto, text_ltb}
use reth_exex_examples.Rollup.Database.Insert.{insert_block_with_bundle}
use reth_exex_examples.Rollup.Database.Revert.{revert_tip_block}
use reth_exex_examples.Rollup.Database.RoundTrip.Views.{SameView}
use reth_exex_examples.Rollup.Database.RoundTrip.Undo.{revert_tip_block-insert_block_with_bundle}
use reth_exex_examples.Rollup.Database.Samples.{reth, tables, changeset, reverts, undo}
use reth_exex_examples.Rollup.Database.Insert.Outcomes.{
  InsertOutcome, insert_block_with_bundle-cases,
}
use reth_exex_examples.Rollup.Database.Revert.Outcomes.{
  revert_tip_block-cases, revert_tip_block-after_nine,
}

round_trip_example :
    (after : Tables ℕ) × (restored : Tables ℕ) × (insert_block_with_bundle reth 4
        (changeset, reverts)
        tables
      ≡ (after, ok tt))
    × (get_block 4 after ≡ some 4)
    × (revert_tip_block 4 after ≡ (restored, ok tt))
    × SameView restored tables
unfolding to_decimal decimal_onto text_ltb
round_trip_example =
    revert_tip_block-insert_block_with_bundle reth 4 (changeset, reverts) tables (refl, tt) undo

insert_cases_example : InsertOutcome reth 4 (changeset, reverts) tables
insert_cases_example = insert_block_with_bundle-cases reth 4 (changeset, reverts) tables

revert_cases_example :
    ((tip_number tables.block ≡ none)
      × (revert_tip_block 3 tables ≡ (tables, err DbError.query_returned_no_rows)))
    ⊎ ((tip : ℕ) × (tip_number tables.block ≡ some tip)
        × (◌≢◌ {A = ℕ} 3 tip)
        × (revert_tip_block 3 tables ≡ (tables, err (DbError.not_tip 3 tip))))
    ⊎ ((after : Tables ℕ) × (tip_number tables.block ≡ some 3)
        × (revert_tip_block 3 tables ≡ (after, ok tt))
        × (after.block ≡ map_remove ℕ_discrete 3 tables.block))
revert_cases_example = revert_tip_block-cases 3 tables

abbrev to_ten : Tables ℕ
to_ten = record tables { block = (9, 9) ∷ (10, 10) ∷ [] }

after_nine_example :
    (tip : ℕ) × (revert_tip_block 10 to_ten ≡ (to_ten, err (DbError.not_tip 10 tip)))
unfolding get_block map_get ℕ_discrete
after_nine_example = revert_tip_block-after_nine 10 to_ten 9 (omega arith) (omega arith) refl

-- Block 9 is taken for the tip although block 10 is there.
tip_of_ten : tip_number to_ten.block ≡ some 9
unfolding tip_number greatest later to_decimal decimal_onto text_ltb
tip_of_ten = refl

abbrev wipe : Changeset Bytes × Reverts
wipe = (
  record { accounts = []; storage = wiped_change 5 ∷ []; contracts = [] },
  record { accounts = []; storage = (wiped_revert 5 ∷ []) ∷ [] },
)

-- The slot that holds ten is wiped by block 4, and stays so after its revert.
wiped_example :
    (after : Tables ℕ) × (restored : Tables ℕ) × (insert_block_with_bundle reth 4 wipe tables
      ≡ (after, ok tt))
    × (revert_tip_block 4 after ≡ (restored, ok tt))
    × ((key : ℕ) → value_at (5, key) restored.storage ≡ 0)
unfolding to_decimal decimal_onto text_ltb select
wiped_example =
    revert_tip_block-wiped reth 4 wipe tables 5 [] [] [] (refl, tt) refl refl (omega arith)
