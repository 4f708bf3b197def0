-- ===== src/Remote/Alloy.antt =====
-- What remote/src/codec.rs takes from alloy and revm, as parameters: fixed byte arrays, 256-bit
-- integers and bytecode, with the documented behaviour of the conversions that it calls.
use Prim.Native.Nat.{ℕ}
use mathlib.Core.Path.{◌≡◌}
use mathlib.Core.Logic.{◌≢◌}
use mathlib.Core.Option.{Option, none, some}
use mathlib.Core.List.{◌∷◌}
use reth_exex_examples.Common.{length}
use reth_exex_examples.Common.Words.{Bytes}

-- `FixedBytes<N>` and its wrappers. `try_from` on a slice succeeds exactly on length `n`.
pub record FixedBytes (n : ℕ) : Type 1 where
  pub Carrier : Type 0
  pub dec_eq : Discrete Carrier
  pub to_vec : Carrier → Bytes
  pub try_from : Bytes → Option Carrier
  pub try_from-to_vec : (a : Carrier) → try_from (to_vec a) ≡ some a
  pub try_from_none : (bs : Bytes) → length bs ≢ n → try_from bs ≡ none

-- `Uint<256, 4>`. `try_from_le_slice` reads a value back from its 32 bytes, and fails where the
-- value has more than 256 bits; `from_le_bytes` wants the 32 bytes.
pub record Uint256 : Type 1 where
  pub Carrier : Type 0
  pub dec_eq : Discrete Carrier
  pub to_le_bytes_vec : Carrier → Bytes
  pub try_from_le_slice : Bytes → Option Carrier
  pub from_le_bytes : Bytes → Carrier
  pub length-to_le_bytes_vec : (a : Carrier) → length (to_le_bytes_vec a) ≡ 32
  pub try_from_le_slice-to_le_bytes_vec :
      (a : Carrier) → try_from_le_slice (to_le_bytes_vec a) ≡ some a
  pub from_le_bytes-to_le_bytes_vec : (a : Carrier) → from_le_bytes (to_le_bytes_vec a) ≡ a

pub data BytecodeKind : Type 0 where
  legacy_analyzed eip7702 : BytecodeKind

pub record Alloy : Type 1 where
  pub address : FixedBytes 20
  pub b256 : FixedBytes 32
  pub b64 : FixedBytes 8
  pub bloom : FixedBytes 256
  pub u256 : Uint256
  pub JumpTable : Type 0
  pub as_slice : JumpTable → Bytes
  pub table_len : JumpTable → ℕ
  -- None where it panics, on a slice that is too short for the length.
  pub from_slice : Bytes → ℕ → Option JumpTable
  pub Bytecode : Type 0
  pub bytecode_kind : Bytecode → BytecodeKind
  pub bytecode_bytes : Bytecode → Bytes
  pub original_bytes : Bytecode → Bytes
  pub legacy_jump_table : Bytecode → Option JumpTable
  pub eip7702_address : Bytecode → Option address.Carrier
  -- None where it panics, on lengths that do not fit one another.
  pub new_analyzed : Bytes → ℕ → JumpTable → Option Bytecode
  pub new_eip7702 : address.Carrier → Bytecode
  -- A jump table is its bytes and its length in bits.
  pub from_slice-as_slice : (t : JumpTable) → from_slice (as_slice t) (table_len t) ≡ some t
  -- Analysed legacy code has a jump table, and is made of its padded bytes, the length of the
  -- original and that table.
  pub legacy_parts :
      (b : Bytecode)
      → bytecode_kind b ≡ BytecodeKind.legacy_analyzed
      → (t : JumpTable) × (legacy_jump_table b ≡ some t)
        × (new_analyzed (bytecode_bytes b) (length (original_bytes b)) t ≡ some b)
  -- A delegation has an address, which makes it, and its raw bytes begin with two bytes of magic
  -- and one of version.
  pub eip7702_parts :
      (b : Bytecode)
      → bytecode_kind b ≡ BytecodeKind.eip7702
      → (a : address.Carrier) × (eip7702_address b ≡ some a) × (new_eip7702 a ≡ b)
  pub eip7702_raw :
      (b : Bytecode)
      → bytecode_kind b ≡ BytecodeKind.eip7702
      → (x y v : ℕ) × (rest : Bytes) × (original_bytes b ≡ x ∷ y ∷ v ∷ rest)
