-- ===== src/Rollup/Accounts.antt =====
-- The table of accounts of rollup/src/db.rs. A statement on it does not fail.
use Prim.Native.Nat.{ℕ}
use mathlib.Core.Option.{Option}
use mathlib.Core.List.{List}
use native.Mathlib.Decide.{ℕ_discrete}
use reth_exex_examples.Common.Maps.{map_get, map_insert}
use reth_exex_examples.Common.Results.{Result, ok, ◌>>=◌}

-- What revm's `AccountInfo` has of an account.
pub record AccountInfo : Type 0 where
  pub balance : ℕ
  pub nonce : ℕ
  pub code_hash : ℕ

-- The rows of the table by their addresses.
abbrev pub Accounts : Type 0
Accounts = List (ℕ × AccountInfo)

unfoldable pub get_account : ℕ → Accounts → Option AccountInfo
get_account address accounts = map_get ℕ_discrete address accounts

-- The closure is given the account if it exists; its error leaves the table as it was.
unfoldable pub upsert_account :
    {E : Type 0} → ℕ → (Option AccountInfo → Result E AccountInfo) → Accounts → Result E Accounts
upsert_account address f accounts = do
  account ← f (get_account address accounts)
  ok (map_insert ℕ_discrete address account accounts)
