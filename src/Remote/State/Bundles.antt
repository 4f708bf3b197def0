-- ===== src/Remote/State/Bundles.antt =====
-- The bundle's accounts and contracts to messages and back (remote/src/codec.rs).
use mathlib.Core.Path.{◌≡◌, refl}
use mathlib.Core.Option
use mathlib.Core.Option.{Option, none, some}
use mathlib.Core.List.{List, [], ◌∷◌, map}
use reth_exex_examples.Common.Maps.{collect_map, collect_map_distinct, HasDistinctKeys}
use reth_exex_examples.Common.Results.{
  Result, ok, ◌>>=◌, ok_or, try_map, try_map_option, try_map_option_back, >>=-eq-ok,
}
use reth_exex_examples.Remote.Alloy.{Alloy}
use reth_exex_examples.Remote.Error.{Error, no_bytecode}
use reth_exex_examples.Remote.Fields.{fixed_from_bytes, u256_from_bytes, fields_back}
use reth_exex_examples.Remote.Proto
use reth_exex_examples.Remote.State.{
  account_info_to_proto, account_info_from_proto, account_info_kept, account_info_back,
  account_status_to_proto, account_status_from_proto, account_status_back, bytecode_to_proto,
  bytecode_from_proto, bytecode_back,
}
use reth_exex_examples.Remote.StateTypes
use reth_exex_examples.Remote.Types.{Address, B256, U256}

module _ (A : Alloy) where
  storage_slot_to_proto : U256 A × StateTypes.StorageSlot A → Proto.StorageSlot
  storage_slot_to_proto (key, slot) = record {
    key = A.u256.to_le_bytes_vec key;
    previous_or_original_value = A.u256.to_le_bytes_vec slot.previous_or_original_value;
    present_value = A.u256.to_le_bytes_vec slot.present_value;
  }

  storage_slot_from_proto : Proto.StorageSlot → Result Error (U256 A × StateTypes.StorageSlot A)
  storage_slot_from_proto slot = do
    key ← u256_from_bytes A slot.key
    previous_or_original_value ← u256_from_bytes A slot.previous_or_original_value
    present_value ← u256_from_bytes A slot.present_value
    ok (
      key,
      record {
        previous_or_original_value = previous_or_original_value;
        present_value = present_value;
      },
    )

  pub bundle_account_to_proto :
      Address A × StateTypes.BundleAccount A → Result Error Proto.BundleAccount
  unfolding storage_slot_to_proto
  bundle_account_to_proto (address, account) = do
    info ← try_map_option (account_info_to_proto A) account.info
    original_info ← try_map_option (account_info_to_proto A) account.original_info
    ok (record {
      address = A.address.to_vec address;
      info = info;
      original_info = original_info;
      storage = map storage_slot_to_proto account.storage;
      status = account_status_to_proto account.status;
    })

  pub bundle_account_from_proto :
      Proto.BundleAccount → Result Error (Address A × StateTypes.BundleAccount A)
  unfolding storage_slot_from_proto
  bundle_account_from_proto account = do
    address ← fixed_from_bytes A.address account.address
    info ← try_map_option (account_info_from_proto A) account.info
    original_info ← try_map_option (account_info_from_proto A) account.original_info
    storage ← try_map storage_slot_from_proto account.storage
    status ← account_status_from_proto account.status
    ok (
      address,
      record {
        info = info;
        original_info = original_info;
        storage = collect_map A.u256.dec_eq storage;
        status = status;
      },
    )

  pub contract_to_proto : B256 A × A.Bytecode → Result Error Proto.ContractBytecode
  contract_to_proto (hash, bytecode) = do
    code ← bytecode_to_proto A bytecode
    ok (record { hash = A.b256.to_vec hash; bytecode = some code })

  pub contract_from_proto : Proto.ContractBytecode → Result Error (B256 A × A.Bytecode)
  contract_from_proto contract = do
    hash ← fixed_from_bytes A.b256 contract.hash
    code ← ok_or contract.bytecode no_bytecode
    bytecode ← bytecode_from_proto A code
    ok (hash, bytecode)

  slots_back :
      (l : List (U256 A × StateTypes.StorageSlot A))
      → try_map storage_slot_from_proto (map storage_slot_to_proto l) ≡ ok l
  unfolding try_map storage_slot_from_proto storage_slot_to_proto
  slots_back [] = refl
  slots_back (e ∷ l) = simp (fields_back, slots_back l)

  -- What an account of the bundle keeps: all but the `account_id` of its two states.
  abbrev pub bundle_account_kept : StateTypes.BundleAccount A → StateTypes.BundleAccount A
  bundle_account_kept account = record account {
    info = Option.map (account_info_kept A) account.info;
    original_info = Option.map (account_info_kept A) account.original_info;
  }

  info_back :
      (o : Option (StateTypes.AccountInfo A))
      → (try_map_option (account_info_to_proto A) o >>= try_map_option (account_info_from_proto A))
        ≡ ok (Option.map (account_info_kept A) o)
  info_back o =
      try_map_option_back (account_info_to_proto A) (account_info_from_proto A)
        (account_info_kept A) (account_info_back A) o

  pub bundle_account_back :
      (e : Address A × StateTypes.BundleAccount A)
      → HasDistinctKeys e.1.storage
      → (bundle_account_to_proto e >>= bundle_account_from_proto)
        ≡ ok (e.0, bundle_account_kept e.1)
  unfolding bundle_account_to_proto bundle_account_from_proto
  bundle_account_back (address, account) h =
      let (info, w, r) =
        >>=-eq-ok (try_map_option (account_info_to_proto A) account.info)
          (try_map_option (account_info_from_proto A)) (info_back account.info) in
      let (original, w', r') =
        >>=-eq-ok (try_map_option (account_info_to_proto A) account.original_info)
          (try_map_option (account_info_from_proto A)) (info_back account.original_info) in
      simp (
        w,
        w',
        fields_back,
        r,
        r',
        slots_back,
        account_status_back,
        collect_map_distinct A.u256.dec_eq account.storage h,
      )

  pub contract_back :
      (e : B256 A × A.Bytecode) → (contract_to_proto e >>= contract_from_proto) ≡ ok e
  unfolding contract_to_proto contract_from_proto
  contract_back (hash, bytecode) =
      let (code, w, r) =
        >>=-eq-ok (bytecode_to_proto A bytecode) (bytecode_from_proto A)
          (bytecode_back A bytecode) in
      simp (w, fields_back, r)
