-- ===== src/Remote/State.antt =====
-- Accounts and their code to messages and back (remote/src/codec.rs). The children do the bundle
-- state and its reverts.
pub mod Bundles
pub mod Reverts
use Prim.Native.Nat.{ℕ}
use mathlib.Core.Path.{◌≡◌, refl}
use mathlib.Core.Option.{Option, none, some}
use reth_exex_examples.Common.{◌==◌, if◌then◌else◌, length, get_elem?}
use reth_exex_examples.Common.Results.{
  Result, ok, err, ◌>>=◌, ok_or, try_map_option, try_map_option_back, >>=-eq-ok, option_map_id,
}
use reth_exex_examples.Remote.Alloy.{Alloy, BytecodeKind}
use reth_exex_examples.Remote.Error.{Error, panic, no_bytecode, unknown_enum_value}
use reth_exex_examples.Remote.Fields.{fixed_from_bytes, u256_from_bytes, fields_back}
use reth_exex_examples.Remote.Proto
use reth_exex_examples.Remote.StateTypes
use reth_exex_examples.Remote.StateTypes.{AccountStatus}

-- The number of the enum's value in exex.proto.
pub account_status_to_proto : AccountStatus → ℕ
account_status_to_proto AccountStatus.loaded_not_existing = 0
account_status_to_proto AccountStatus.loaded = 1
account_status_to_proto AccountStatus.loaded_empty_eip161 = 2
account_status_to_proto AccountStatus.in_memory_change = 3
account_status_to_proto AccountStatus.changed = 4
account_status_to_proto AccountStatus.destroyed = 5
account_status_to_proto AccountStatus.destroyed_changed = 6
account_status_to_proto AccountStatus.destroyed_again = 7

-- prost's `TryFrom<i32>`, then the match on the value.
pub account_status_from_proto : ℕ → Result Error AccountStatus
account_status_from_proto n =
    if n == 0
    then ok AccountStatus.loaded_not_existing
    else if n == 1
    then ok AccountStatus.loaded
    else if n == 2
    then ok AccountStatus.loaded_empty_eip161
    else if n == 3
    then ok AccountStatus.in_memory_change
    else if n == 4
    then ok AccountStatus.changed
    else if n == 5
    then ok AccountStatus.destroyed
    else if n == 6
    then ok AccountStatus.destroyed_changed
    else if n == 7
    then ok AccountStatus.destroyed_again
    else err (unknown_enum_value n)

pub account_status_back :
    (s : AccountStatus) → account_status_from_proto (account_status_to_proto s) ≡ ok s
unfolding account_status_to_proto account_status_from_proto
account_status_back AccountStatus.loaded_not_existing = refl
account_status_back AccountStatus.loaded = refl
account_status_back AccountStatus.loaded_empty_eip161 = refl
account_status_back AccountStatus.in_memory_change = refl
account_status_back AccountStatus.changed = refl
account_status_back AccountStatus.destroyed = refl
account_status_back AccountStatus.destroyed_changed = refl
account_status_back AccountStatus.destroyed_again = refl

module _ (A : Alloy) where
  -- The `unwrap`s on the parts that belong to the kind are a panic where the part is missing.
  bytecode_variant_to_proto : BytecodeKind → A.Bytecode → Result Error Proto.BytecodeVariant
  bytecode_variant_to_proto BytecodeKind.legacy_analyzed bytecode = do
    jump_table ← ok_or (A.legacy_jump_table bytecode) panic
    ok (
        Proto.BytecodeVariant.legacy_analyzed (record {
          bytecode = A.bytecode_bytes bytecode;
          original_len = length (A.original_bytes bytecode);
          jump_table = A.as_slice jump_table;
          jump_table_len = A.table_len jump_table;
        }))
  bytecode_variant_to_proto BytecodeKind.eip7702 bytecode = do
    delegated_address ← ok_or (A.eip7702_address bytecode) panic
    version ← ok_or (get_elem? (A.original_bytes bytecode) 2) panic
    ok (
        Proto.BytecodeVariant.eip7702 (record {
          delegated_address = A.address.to_vec delegated_address;
          version = version;
          raw = A.original_bytes bytecode;
        }))

  pub bytecode_to_proto : A.Bytecode → Result Error Proto.Bytecode
  bytecode_to_proto bytecode = do
    variant ← bytecode_variant_to_proto (A.bytecode_kind bytecode) bytecode
    ok (record { bytecode = some variant })

  -- Lengths that do not fit one another are a panic.
  bytecode_variant_from_proto : Proto.BytecodeVariant → Result Error A.Bytecode
  bytecode_variant_from_proto (Proto.BytecodeVariant.legacy_analyzed legacy) = do
    jump_table ← ok_or (A.from_slice legacy.jump_table legacy.jump_table_len) panic
    ok_or (A.new_analyzed legacy.bytecode legacy.original_len jump_table) panic
  bytecode_variant_from_proto (Proto.BytecodeVariant.eip7702 eip7702) = do
    delegated_address ← fixed_from_bytes A.address eip7702.delegated_address
    ok (A.new_eip7702 delegated_address)

  pub bytecode_from_proto : Proto.Bytecode → Result Error A.Bytecode
  bytecode_from_proto bytecode = do
    variant ← ok_or bytecode.bytecode no_bytecode
    bytecode_variant_from_proto variant

  bytecode_back_of_kind :
      (kind : BytecodeKind) (bytecode : A.Bytecode)
      → A.bytecode_kind bytecode ≡ kind
      → (bytecode_variant_to_proto kind bytecode >>= bytecode_variant_from_proto) ≡ ok bytecode
  unfolding bytecode_variant_to_proto bytecode_variant_from_proto
  bytecode_back_of_kind BytecodeKind.legacy_analyzed bytecode e =
      let (table, found, made) = A.legacy_parts bytecode e in
      simp (found, A.from_slice-as_slice, made)
  bytecode_back_of_kind BytecodeKind.eip7702 bytecode e =
      let (address, found, made) = A.eip7702_parts bytecode e in
      let (x, y, v, rest, raw) = A.eip7702_raw bytecode e in simp (found, raw, fields_back, made)

  -- Code of either kind is written without a panic and read back unchanged.
  pub bytecode_back :
      (bytecode : A.Bytecode) → (bytecode_to_proto bytecode >>= bytecode_from_proto) ≡ ok bytecode
  unfolding bytecode_to_proto bytecode_from_proto
  bytecode_back bytecode =
      let (variant, written_as, read_as) =
        >>=-eq-ok (bytecode_variant_to_proto (A.bytecode_kind bytecode) bytecode)
          bytecode_variant_from_proto
          (bytecode_back_of_kind (A.bytecode_kind bytecode) bytecode refl) in
      rw written_as read_as

  pub account_info_to_proto : StateTypes.AccountInfo A → Result Error Proto.AccountInfo
  account_info_to_proto account_info = do
    code ← try_map_option bytecode_to_proto account_info.code
    ok (record {
      balance = A.u256.to_le_bytes_vec account_info.balance;
      nonce = account_info.nonce;
      code_hash = A.b256.to_vec account_info.code_hash;
      code = code;
    })

  pub account_info_from_proto : Proto.AccountInfo → Result Error (StateTypes.AccountInfo A)
  account_info_from_proto account_info = do
    balance ← u256_from_bytes A account_info.balance
    code_hash ← fixed_from_bytes A.b256 account_info.code_hash
    code ← try_map_option bytecode_from_proto account_info.code
    ok (record {
      account_id = none;
      balance = balance;
      nonce = account_info.nonce;
      code_hash = code_hash;
      code = code;
    })

  -- What an account keeps on the way: all but `account_id`.
  abbrev pub account_info_kept : StateTypes.AccountInfo A → StateTypes.AccountInfo A
  account_info_kept account_info = record account_info { account_id = none }

  -- An account that is written is read back unchanged but for its `account_id`, which is lost.
  pub account_info_back :
      (account_info : StateTypes.AccountInfo A)
      → (account_info_to_proto account_info >>= account_info_from_proto)
        ≡ ok (account_info_kept account_info)
  unfolding account_info_to_proto account_info_from_proto
  account_info_back account_info =
      let (code, written_as, read_as) =
        >>=-eq-ok (try_map_option bytecode_to_proto account_info.code)
          (try_map_option bytecode_from_proto)
          (try_map_option_back bytecode_to_proto bytecode_from_proto (λ b. b) bytecode_back
            account_info.code) in
      simp (written_as, fields_back, read_as, option_map_id account_info.code)
