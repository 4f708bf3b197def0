-- ===== src/OpBridge/Tables/Laws.antt =====
-- Laws of the statements on the tables of op-bridge/src/main.rs.
use Prim.Native.Nat.{ℕ}
use mathlib.Core.Path.{◌≡◌, refl}
use mathlib.Core.Logic.{◌⊎◌, inl, inr}
use mathlib.Core.Bool.{true, false, ◌||◌}
use mathlib.Core.List.{List, [], ◌∷◌, ◌++◌}
use native.Mathlib.Omega.{arith}
use reth_exex_examples.Common.{◌==◌, Bool-cases}
use reth_exex_examples.Common.Results.{ok, err}
use reth_exex_examples.OpBridge.Tables.{unique_violation, Row, has_hash, insert_row, delete_rows}

pub has_hash-append :
    (h : ℕ) (xs ys : List Row) → has_hash h (xs ++ ys) ≡ (has_hash h xs || has_hash h ys)
unfolding has_hash
has_hash-append h [] ys = refl
has_hash-append h (x ∷ xs) ys = ground (arith, has_hash-append h xs ys)

pub delete_rows_comm :
    (h k : ℕ) (rows : List Row)
    → delete_rows h (delete_rows k rows) ≡ delete_rows k (delete_rows h rows)
unfolding delete_rows
delete_rows_comm h k [] = refl
delete_rows_comm h k (x ∷ rows) = ground (arith, delete_rows_comm h k rows)

delete_rows_last :
    (row : Row) (rows : List Row)
    → has_hash row.tx_hash rows ≡ false
    → delete_rows row.tx_hash (rows ++ row ∷ []) ≡ rows
unfolding has_hash delete_rows
delete_rows_last row [] f = ground arith
delete_rows_last row (x ∷ rows) f = ground (arith, delete_rows_last row rows)

-- Deleting by a hash takes away the one row that was inserted with it.
pub delete_rows-insert_row :
    (row : Row) (rows : List Row) {rows' : List Row}
    → insert_row row rows ≡ ok rows'
    → delete_rows row.tx_hash rows' ≡ rows
unfolding insert_row
delete_rows-insert_row row rows e = ground (arith, delete_rows_last row rows)

pub insert_row-append :
    (row : Row) (rows : List Row) {rows' : List Row}
    → insert_row row rows ≡ ok rows'
    → rows' ≡ rows ++ row ∷ []
unfolding insert_row
insert_row-append row rows e = ground arith

pub insert_row_err :
    (row : Row) (rows : List Row)
    → has_hash row.tx_hash rows ≡ true
    → insert_row row rows ≡ err unique_violation
unfolding insert_row
insert_row_err row rows h = rw h

pub insert_row-has_hash :
    (h : ℕ) (row : Row) (rows : List Row) {rows' : List Row}
    → insert_row row rows ≡ ok rows'
    → has_hash h rows' ≡ (has_hash h rows || (row.tx_hash == h))
unfolding insert_row has_hash
insert_row-has_hash h row rows e = ground (arith, has_hash-append h rows (row ∷ []))

pub insert_row-cases :
    (row : Row) (rows : List Row)
    → ((rows' : List Row) × (insert_row row rows ≡ ok rows'))
      ⊎ (insert_row row rows ≡ err unique_violation)
unfolding insert_row
insert_row-cases row rows = elim (Bool-cases (has_hash row.tx_hash rows)) [
  | inl known ↦ inr (rw known)
  | inr fresh ↦ inl (rows ++ row ∷ [], rw fresh)
]
