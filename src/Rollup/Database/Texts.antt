-- ===== src/Rollup/Database/Texts.antt =====
-- The texts of numbers in the columns of rollup/src/db.rs: `to_string` in base ten, and the order
-- in which SQLite sorts a column of type TEXT.
use Prim.Native.Nat.{ℕ, zero, suc, ◌+◌, ◌*◌, ◌/◌, ◌%◌, ◌≤◌, ◌<◌}
use mathlib.Core.Path.{◌≡◌, refl}
use mathlib.Core.Bool.{Bool, true, false}
use mathlib.Core.List.{List, [], ◌∷◌}
use native.Mathlib.Omega.{arith}
use reth_exex_examples.Common.{ltb, ◌==◌, if◌then◌else◌}

-- The digits before those in hand; the fuel is more than the number.
unfoldable pub decimal_onto : ℕ → ℕ → List ℕ → List ℕ
decimal_onto zero n digits = digits
decimal_onto (suc fuel) n digits =
    let rest = decimal_onto fuel (n / 10) ((n % 10) ∷ digits) in
    if ltb n 10 then n ∷ digits else rest

-- `to_string`, the highest digit first.
unfoldable pub to_decimal : ℕ → List ℕ
unfolding decimal_onto
to_decimal n = decimal_onto (suc n) n []

-- The number that digits continue.
pub value_onto : ℕ → List ℕ → ℕ
value_onto n [] = n
value_onto n (digit ∷ digits) = value_onto (n * 10 + digit) digits

value_onto-decimal_onto :
    (fuel n : ℕ) (digits : List ℕ)
    → n < fuel
    → value_onto 0 (decimal_onto fuel n digits) ≡ value_onto n digits
unfolding decimal_onto value_onto
value_onto-decimal_onto zero n digits h = absurd (omega arith)
value_onto-decimal_onto (suc fuel) n digits h =
    ground (arith, value_onto-decimal_onto fuel (n / 10) ((n % 10) ∷ digits))

-- The text of a number has its value: the fuel is enough, and two numbers have two texts.
pub value-to_decimal : (n : ℕ) → value_onto 0 (to_decimal n) ≡ n
unfolding to_decimal value_onto
value-to_decimal n = value_onto-decimal_onto (suc n) n [] (omega arith)

-- A text comes before another, byte by byte.
unfoldable pub text_ltb : List ℕ → List ℕ → Bool
text_ltb [] [] = false
text_ltb [] (y ∷ ys) = true
text_ltb (x ∷ xs) [] = false
text_ltb (x ∷ xs) (y ∷ ys) = if x == y then text_ltb xs ys else ltb x y

pub text_ltb_irrefl : (xs : List ℕ) → text_ltb xs xs ≡ false
unfolding text_ltb
text_ltb_irrefl [] = refl
text_ltb_irrefl (x ∷ xs) = ground (arith, text_ltb_irrefl xs)

pub not-text_ltb_trans :
    (xs ys zs : List ℕ) → text_ltb xs ys ≡ false → text_ltb ys zs ≡ false → text_ltb xs zs ≡ false
unfolding text_ltb
not-text_ltb_trans [] [] zs h k = k
not-text_ltb_trans [] (y ∷ ys) zs h k = absurd (cc h)
not-text_ltb_trans (x ∷ xs) ys [] h k = refl
not-text_ltb_trans (x ∷ xs) [] (z ∷ zs) h k = absurd (cc k)
not-text_ltb_trans (x ∷ xs) (y ∷ ys) (z ∷ zs) h k = ground (arith, not-text_ltb_trans xs ys zs)

pub text_ltb_asym : (xs ys : List ℕ) → text_ltb xs ys ≡ true → text_ltb ys xs ≡ false
unfolding text_ltb
text_ltb_asym [] [] h = refl
text_ltb_asym [] (y ∷ ys) h = refl
text_ltb_asym (x ∷ xs) [] h = absurd (cc h)
text_ltb_asym (x ∷ xs) (y ∷ ys) h = ground (arith, text_ltb_asym xs ys)

two_digits :
    (fuel n : ℕ) → 2 ≤ fuel → 10 ≤ n → n < 100 → decimal_onto fuel n [] ≡ (n / 10) ∷ (n % 10) ∷ []
unfolding decimal_onto
two_digits zero n f h k = absurd (omega arith)
two_digits (suc zero) n f h k = absurd (omega arith)
two_digits (suc (suc fuel)) n f h k = ground arith

-- The text of a number of two digits.
pub to_decimal_two : (n : ℕ) → 10 ≤ n → n < 100 → to_decimal n ≡ (n / 10) ∷ (n % 10) ∷ []
unfolding to_decimal
to_decimal_two n h k = two_digits (suc n) n (omega arith) h k
