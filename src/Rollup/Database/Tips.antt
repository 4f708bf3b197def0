-- ===== src/Rollup/Database/Tips.antt =====
-- The tip among the rows of the table of blocks (rollup/src/db.rs): the number whose text sorts
-- last.
use Prim.Native.Nat.{ℕ}
use mathlib.Core.Path.{◌≡◌, refl}
use mathlib.Core.Logic.{◌≢◌, inl, inr}
use mathlib.Core.Bool.{true, false}
use mathlib.Core.Option.{none, some}
use mathlib.Core.List.{List, [], ◌∷◌}
use native.Mathlib.Omega.{arith}
use native.Mathlib.Decide.{ℕ_discrete}
use reth_exex_examples.Common.{All, Bool-cases}
use reth_exex_examples.Common.Maps.{map_get, map_insert, map_remove}
use reth_exex_examples.Rollup.Database.{later, greatest, tip_number}
use reth_exex_examples.Rollup.Database.Texts.{
  to_decimal, text_ltb, text_ltb_irrefl, text_ltb_asym, not-text_ltb_trans,
}

ne_of_before : (m n : ℕ) → text_ltb (to_decimal m) (to_decimal n) ≡ true → m ≢ n
ne_of_before m n h = λ p. cc (text_ltb_irrefl (to_decimal n), rw p at h)

later_before :
    (best m n : ℕ)
    → text_ltb (to_decimal best) (to_decimal n) ≡ true
    → text_ltb (to_decimal m) (to_decimal n) ≡ true
    → text_ltb (to_decimal (later best m)) (to_decimal n) ≡ true
unfolding later
later_before best m n h k = elim (Bool-cases (text_ltb (to_decimal best) (to_decimal m))) [
  | inl less ↦ rw less k
  | inr not_less ↦ rw not_less h
]

later-ge :
    (best m : ℕ)
    → (text_ltb (to_decimal (later best m)) (to_decimal best) ≡ false)
      × (text_ltb (to_decimal (later best m)) (to_decimal m) ≡ false)
unfolding later
later-ge best m = elim (Bool-cases (text_ltb (to_decimal best) (to_decimal m))) [
  | inl less ↦
      rw less (text_ltb_asym (to_decimal best) (to_decimal m) less, text_ltb_irrefl (to_decimal m))
  | inr not_less ↦ rw not_less (text_ltb_irrefl (to_decimal best), not_less)
]

module _ {Block : Type 0} where
  -- The text of the number sorts after those of all rows.
  abbrev pub SortsLast : ℕ → List (ℕ × Block) → Type 0
  SortsLast n rows = All (λ row. text_ltb (to_decimal row.0) (to_decimal n) ≡ true) rows

  pub SortsLast-missing :
      (n : ℕ) (rows : List (ℕ × Block)) → SortsLast n rows → map_get ℕ_discrete n rows ≡ none
  unfolding map_get
  SortsLast-missing n [] h = refl
  SortsLast-missing n (row ∷ rows) h =
      ground (arith, SortsLast-missing n rows h.1, ne_of_before row.0 n h.0)

  map_insert_skip :
      (n : ℕ) (block : Block) (row : ℕ × Block) (rows : List (ℕ × Block))
      → row.0 ≢ n
      → map_insert ℕ_discrete n block (row ∷ rows) ≡ row ∷ map_insert ℕ_discrete n block rows
  unfolding map_insert
  map_insert_skip n block row rows other = ground arith

  greatest-map_insert :
      (n best : ℕ) (block : Block) (rows : List (ℕ × Block))
      → text_ltb (to_decimal best) (to_decimal n) ≡ true
      → SortsLast n rows
      → greatest best (map_insert ℕ_discrete n block rows) ≡ n
  unfolding greatest map_insert
  greatest-map_insert n best block [] b h = rw (later, b) refl
  greatest-map_insert n best block (row ∷ rows) b h =
      rw (map_insert_skip n block row rows (ne_of_before row.0 n h.0), greatest)
        (greatest-map_insert n (later best row.0) block rows (later_before best row.0 n b h.0) h.1)

  -- A block whose number sorts last is the tip once it is inserted.
  pub tip_number-map_insert :
      (n : ℕ) (block : Block) (rows : List (ℕ × Block))
      → SortsLast n rows
      → tip_number (map_insert ℕ_discrete n block rows) ≡ some n
  unfolding tip_number greatest map_insert
  tip_number-map_insert n block [] h = refl
  tip_number-map_insert n block (row ∷ rows) h =
      ground (arith, ne_of_before row.0 n h.0, greatest-map_insert n row.0 block rows h.0 h.1)

  map_remove_missing :
      (n : ℕ) (rows : List (ℕ × Block))
      → map_get ℕ_discrete n rows ≡ none
      → map_remove ℕ_discrete n rows ≡ rows
  unfolding map_get map_remove
  map_remove_missing n [] h = refl
  map_remove_missing n (row ∷ rows) h = ground (arith, map_remove_missing n rows)

  pub map_remove-map_insert :
      (n : ℕ) (block : Block) (rows : List (ℕ × Block))
      → map_get ℕ_discrete n rows ≡ none
      → map_remove ℕ_discrete n (map_insert ℕ_discrete n block rows) ≡ rows
  unfolding map_get map_remove map_insert
  map_remove-map_insert n block [] h = ground arith
  map_remove-map_insert n block (row ∷ rows) h = ground (arith, map_remove-map_insert n block rows)

  greatest-ge :
      (best : ℕ) (rows : List (ℕ × Block)) (tip : ℕ)
      → greatest best rows ≡ tip
      → (text_ltb (to_decimal tip) (to_decimal best) ≡ false)
        × All (λ row. text_ltb (to_decimal tip) (to_decimal row.0) ≡ false) rows
  unfolding greatest
  greatest-ge best [] tip e = (rw (← e) (text_ltb_irrefl (to_decimal best)), tt)
  greatest-ge best (row ∷ rows) tip e =
      let (above, all) = greatest-ge (later best row.0) rows tip e in
      let (left, right) = later-ge best row.0 in
      (
        not-text_ltb_trans _ _ (to_decimal best) above left,
        (not-text_ltb_trans _ _ (to_decimal row.0) above right, all),
      )

  -- No row of the table sorts after the tip.
  pub tip_number-ge :
      (rows : List (ℕ × Block)) (tip : ℕ)
      → tip_number rows ≡ some tip
      → All (λ row. text_ltb (to_decimal tip) (to_decimal row.0) ≡ false) rows
  unfolding tip_number
  tip_number-ge [] tip h = tt
  tip_number-ge (row ∷ rows) tip h = greatest-ge row.0 rows tip (cc h)
