-- ===== src/Rollup/Database/Samples.antt =====
-- Tables, and a block with its bundle, for the tests of the rollup (rollup/src/db.rs).
use Prim.Native.Nat.{ℕ}
use mathlib.Core.Path.{◌≡◌, refl}
use mathlib.Core.Bool.{false}
use mathlib.Core.Option.{none, some}
use mathlib.Core.List.{[], ◌∷◌}
use native.Mathlib.Omega.{arith}
use native.Mathlib.Decide.{ℕ_discrete}
use reth_exex_examples.Common.Maps.{map_get}
use reth_exex_examples.Common.Words.{Bytes}
use reth_exex_examples.Rollup.Accounts.{AccountInfo, get_account}
use reth_exex_examples.Rollup.Database.{RevertToSlot, Tables, get_storage, slot_discrete}
use reth_exex_examples.Rollup.Database.Bundles.{Changeset, Reverts, Reth}
use reth_exex_examples.Rollup.Database.Revert.{slot_value}
use reth_exex_examples.Rollup.Database.Revert.Restore.{value_at}
use reth_exex_examples.Rollup.Database.RoundTrip.{IsUndo}

-- A block is its number, a bundle its plain form, and a bytecode its bytes.
abbrev pub reth : Reth
reth = record {
  Block = ℕ;
  Bundle = Changeset Bytes × Reverts;
  Bytecode = Bytes;
  number = λ block. block;
  to_plain_state_and_reverts = λ bundle. bundle;
  bytecode = λ code. code;
  new_raw = λ bytes. bytes;
  default_bytecode = [];
}

abbrev pub account_with : ℕ → AccountInfo
account_with balance = record { balance = balance; nonce = 1; code_hash = 70 }

abbrev pub tables : Tables ℕ
tables = record {
  block = (3, 3) ∷ [];
  account = (5, account_with 7) ∷ [];
  account_revert = [];
  storage = ((5, 1), 10) ∷ [];
  storage_revert = [];
  bytecode = [];
}

abbrev pub changeset : Changeset Bytes
changeset = record {
  accounts = (5, some (account_with 9)) ∷ (6, some (account_with 1)) ∷ [];
  storage = record { address = 5; wipe_storage = false; slots = (1, 11) ∷ (2, 12) ∷ [] } ∷ [];
  contracts = (70, 96 ∷ []) ∷ [];
}

abbrev pub reverts : Reverts
reverts = record {
  accounts = ((5, some (account_with 7)) ∷ (6, none) ∷ []) ∷ [];
  storage =
      (record {
        address = 5;
        wiped = false;
        storage_revert = (1, RevertToSlot.value 10) ∷ (2, RevertToSlot.destroyed) ∷ [];
      }
        ∷ [])
      ∷ [];
}

pub undo : IsUndo {Bytecode = Bytes} 4 changeset reverts tables
unfolding map_get get_account ℕ_discrete slot_value value_at get_storage slot_discrete
undo = record {
  one_account_list = omega arith;
  one_storage_list = omega arith;
  keeps_storage = (refl, tt);
  reverts_no_wipe = (refl, tt);
  old_accounts = (refl, (refl, tt));
  all_accounts = λ x h. ground arith;
  old_slots = ((refl, (refl, tt)), tt);
  all_slots = λ slot h. (λ e. keys slot.1 (h.0 e), tt);
  stale_accounts = tt;
  stale_slots = tt;
}
  where
    keys :
        (k : ℕ)
        → map_get ℕ_discrete k ((1, RevertToSlot.value 10) ∷ (2, RevertToSlot.destroyed) ∷ [])
          ≡ none
        → map_get {V = ℕ} ℕ_discrete k ((1, 11) ∷ (2, 12) ∷ []) ≡ none
    keys k h = ground arith
