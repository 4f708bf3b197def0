-- ===== src/Common/Words.antt =====
-- Fixed-width unsigned integers as their little-endian bytes: the standard library's
-- `to_le_bytes`, `from_le_bytes` and the conversion of a slice into an array.
use Prim.Native.Nat.{ℕ, zero, suc, ◌+◌, ◌*◌, ◌/◌, ◌%◌, ◌^◌, ◌<◌}
use mathlib.Core.Path.{◌≡◌, refl, ap}
use mathlib.Core.Logic.{◌≢◌}
use mathlib.Core.Option.{Option, none, some}
use mathlib.Core.List.{List, [], ◌∷◌}
use native.Mathlib.Omega.{arith}
use reth_exex_examples.Common.Lists.{length}
use reth_exex_examples.Common.Tests.{◌==◌, if◌then◌else◌}

abbrev pub Bytes : Type 0
Bytes = List ℕ

-- The lowest `w` bytes of a number, the lowest first.
unfoldable pub to_le_bytes : ℕ → ℕ → Bytes
to_le_bytes zero n = []
to_le_bytes (suc w) n = (n % 256) ∷ to_le_bytes w (n / 256)

unfoldable pub from_le_bytes : Bytes → ℕ
from_le_bytes [] = 0
from_le_bytes (b ∷ bs) = b + 256 * from_le_bytes bs

-- `slice.try_into()` for an array of `w` bytes: the lengths must agree.
unfoldable pub array_try_into : ℕ → Bytes → Option Bytes
array_try_into w bs = if length bs == w then some bs else none

pub length-to_le_bytes : (w n : ℕ) → length (to_le_bytes w n) ≡ w
unfolding to_le_bytes
length-to_le_bytes zero n = refl
length-to_le_bytes (suc w) n = ap suc (length-to_le_bytes w (n / 256))

pub from_le_bytes-to_le_bytes : (w n : ℕ) → n < 256 ^ w → from_le_bytes (to_le_bytes w n) ≡ n
unfolding to_le_bytes from_le_bytes
from_le_bytes-to_le_bytes zero n h = omega arith
from_le_bytes-to_le_bytes (suc w) n h =
    omega (arith, from_le_bytes-to_le_bytes w (n / 256) (omega arith))

pub array_try_into-to_le_bytes :
    (w n : ℕ) → array_try_into w (to_le_bytes w n) ≡ some (to_le_bytes w n)
unfolding array_try_into
array_try_into-to_le_bytes w n = ground (arith, length-to_le_bytes w n)

pub array_try_into_some : (w : ℕ) (bs : Bytes) → length bs ≡ w → array_try_into w bs ≡ some bs
unfolding array_try_into
array_try_into_some w bs h = ground arith

pub array_try_into-none : (w : ℕ) (bs : Bytes) → length bs ≢ w → array_try_into w bs ≡ none
unfolding array_try_into
array_try_into-none w bs h = ground arith
