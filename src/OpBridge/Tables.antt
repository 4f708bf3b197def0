-- ===== src/OpBridge/Tables.antt =====
-- The tables `deposits` and `withdrawals` of op-bridge/src/main.rs, under its SQL statements. Their
-- columns `id` are left out: no statement reads them. A statement fails on the constraint
-- `tx_hash TEXT NOT NULL UNIQUE` only.
pub mod Laws
use Prim.Native.Nat.{ℕ, ◌-◌, ◌+◌}
use mathlib.Core.Path.{◌≡◌, refl}
use mathlib.Core.Bool.{Bool, true, false, not, ◌||◌}
use mathlib.Core.List.{List, [], ◌∷◌, ◌++◌}
use reth_exex_examples.Common.{◌==◌, if◌then◌else◌, length, filter}
use reth_exex_examples.Common.Results.{Result, ok, err}

pub data SqlError : Type 0 where
  unique_violation : SqlError

pub record Row : Type 0 where
  pub block_number : ℕ
  pub tx_hash : ℕ
  pub contract_address : ℕ
  pub from : ℕ
  pub to : ℕ
  pub amount : ℕ

pub record Database : Type 0 where
  pub deposits : List Row
  pub withdrawals : List Row

unfoldable pub has_hash : ℕ → List Row → Bool
has_hash hash [] = false
has_hash hash (row ∷ rows) = (row.tx_hash == hash) || has_hash hash rows

-- `INSERT INTO … VALUES (…)`.
unfoldable pub insert_row : Row → List Row → Result SqlError (List Row)
insert_row row rows =
    if has_hash row.tx_hash rows then err unique_violation else ok (rows ++ row ∷ [])

-- `DELETE FROM … WHERE tx_hash = ?`.
unfoldable pub delete_rows : ℕ → List Row → List Row
delete_rows hash rows = filter (λ row. not (row.tx_hash == hash)) rows

-- The number of rows that the deletion removes.
unfoldable pub deleted_rows : ℕ → List Row → ℕ
deleted_rows hash rows = length (filter (λ row. row.tx_hash == hash) rows)
