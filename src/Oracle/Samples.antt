-- ===== src/Oracle/Samples.antt =====
-- An RLP and signatures for the tests of oracle/src.
use Prim.Native.Nat.{ℕ, zero, suc}
use mathlib.Core.Path.{◌≡◌, refl}
use mathlib.Core.Option
use mathlib.Core.Option.{Option, none, some}
use mathlib.Core.List.{List, [], ◌∷◌, ◌++◌}
use reth_exex_examples.Common.{length}
use reth_exex_examples.Common.Words.{Bytes}
use reth_exex_examples.Oracle.Connection.{Signing}
use reth_exex_examples.Oracle.Messages.{SignedTicker, Rlp}

-- A list behind its length.
abbrev pub split : ℕ → Bytes → Option (Bytes × Bytes)
split zero bs = some ([], bs)
split (suc n) [] = none
split (suc n) (b ∷ bs) = Option.map (λ (front, rest). (b ∷ front, rest)) (split n bs)

pub split-append : (xs ys : Bytes) → split (length xs) (xs ++ ys) ≡ some (xs, ys)
split-append [] ys = refl
split-append (x ∷ xs) ys = rw (split-append xs ys) refl

abbrev pub decode_list : Bytes → Option (List ℕ × Bytes)
decode_list [] = none
decode_list (n ∷ bs) = split n bs

abbrev pub decode_ticker : Bytes → Option (SignedTicker ℕ × Bytes)
decode_ticker (ticker ∷ signer ∷ id ∷ bs) =
    Option.map
      (λ (signature, rest).
        (record { ticker = ticker; signature = signature; signer = signer; id = id }, rest))
      (decode_list bs)
decode_ticker _ = none

unfoldable pub rlp : Rlp ℕ
rlp = record {
  encode_signed = λ s. s.ticker ∷ s.signer ∷ s.id ∷ length s.signature ∷ s.signature;
  decode_signed = decode_ticker;
  decode_signed-encode_signed = λ s rest. rw (split-append s.signature rest) refl;
  encode_addresses = λ l. length l ∷ l;
  decode_addresses = decode_list;
  decode_addresses-encode_addresses = split-append;
}

-- A signature is the byte of its signer.
abbrev pub first_byte : Bytes → Option ℕ
first_byte [] = none
first_byte (b ∷ bs) = some b

abbrev pub signing : Signing ℕ
signing = record {
  Signature = ℕ;
  parse_signature = first_byte;
  recover_address = λ signature ticker. some signature;
}
