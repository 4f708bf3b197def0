-- ===== src/Remote/Fields.antt =====
-- The conversions of single fields in remote/src/codec.rs, and reading each back.
use Prim.Native.Nat.{ℕ, ◌^◌, ◌<◌}
use mathlib.Core.Path.{◌≡◌, refl}
use mathlib.Core.Logic.{◌≢◌}
use mathlib.Core.Option
use mathlib.Core.Option.{Option, none, some}
use mathlib.Core.List.{List, [], ◌∷◌, map}
use reth_exex_examples.Common.{length}
use reth_exex_examples.Common.Results.{Result, ok, err, ◌>>=◌, ok_or, try_map, try_map_option}
use reth_exex_examples.Common.Words.{
  Bytes, to_le_bytes, from_le_bytes, array_try_into, array_try_into-to_le_bytes,
  array_try_into-none, array_try_into_some, from_le_bytes-to_le_bytes,
}
use reth_exex_examples.Remote.Alloy.{Alloy, FixedBytes}
use reth_exex_examples.Remote.Error.{Error, slice_length, failed_to_parse}
use reth_exex_examples.Remote.Types.{U256}

-- `u64::from_le_bytes(x.as_slice().try_into()?)`, at a width of `w` bytes.
unfoldable pub uint_from_bytes : ℕ → Bytes → Result Error ℕ
uint_from_bytes w bs = do a ← ok_or (array_try_into w bs) slice_length; ok (from_le_bytes a)

pub uint_from_bytes-to_le_bytes :
    (w n : ℕ) → n < 256 ^ w → uint_from_bytes w (to_le_bytes w n) ≡ ok n
unfolding uint_from_bytes
uint_from_bytes-to_le_bytes w n h =
    rw (array_try_into-to_le_bytes w n, from_le_bytes-to_le_bytes w n h)

pub uint_from_bytes_err :
    (w : ℕ) (bs : Bytes) → length bs ≢ w → uint_from_bytes w bs ≡ err slice_length
unfolding uint_from_bytes
uint_from_bytes_err w bs h = rw (array_try_into-none w bs h)

module _ {n : ℕ} (F : FixedBytes n) where
  -- `B256::try_from(x.as_slice())?` and the like.
  unfoldable pub fixed_from_bytes : Bytes → Result Error F.Carrier
  fixed_from_bytes bs = ok_or (F.try_from bs) slice_length

  pub fixed_from_bytes-to_vec : (a : F.Carrier) → fixed_from_bytes (F.to_vec a) ≡ ok a
  unfolding fixed_from_bytes
  fixed_from_bytes-to_vec a = rw (F.try_from-to_vec a)

  pub fixed_from_bytes_err : (bs : Bytes) → length bs ≢ n → fixed_from_bytes bs ≡ err slice_length
  unfolding fixed_from_bytes
  fixed_from_bytes_err bs h = rw (F.try_from_none bs h)

  pub fixed_option_back :
      (o : Option F.Carrier) → try_map_option fixed_from_bytes (Option.map F.to_vec o) ≡ ok o
  unfolding try_map_option
  fixed_option_back none = refl
  fixed_option_back (some a) = rw (fixed_from_bytes-to_vec a)

  pub fixed_list_back : (l : List F.Carrier) → try_map fixed_from_bytes (map F.to_vec l) ≡ ok l
  unfolding try_map
  fixed_list_back [] = refl
  fixed_list_back (a ∷ l) = rw (fixed_from_bytes-to_vec a, fixed_list_back l)

module _ (A : Alloy) where
  -- `U256::try_from_le_slice(x).ok_or_eyre("failed to parse …")?`
  unfoldable pub u256_from_bytes : Bytes → Result Error (U256 A)
  u256_from_bytes bs = ok_or (A.u256.try_from_le_slice bs) failed_to_parse

  pub u256_from_bytes-to_le_bytes_vec :
      (a : U256 A) → u256_from_bytes (A.u256.to_le_bytes_vec a) ≡ ok a
  unfolding u256_from_bytes
  u256_from_bytes-to_le_bytes_vec a = rw (A.u256.try_from_le_slice-to_le_bytes_vec a)

  pub u256_array_back :
      (a : U256 A) → array_try_into 32 (A.u256.to_le_bytes_vec a) ≡ some (A.u256.to_le_bytes_vec a)
  u256_array_back a = array_try_into_some 32 _ (A.u256.length-to_le_bytes_vec a)

pub ruleset fields_back =
    (fixed_from_bytes-to_vec, fixed_option_back, fixed_list_back, u256_from_bytes-to_le_bytes_vec)
