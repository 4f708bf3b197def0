-- ===== src/Remote/State/Reverts.antt =====
-- The bundle's reverts to messages and back (remote/src/codec.rs).
use mathlib.Core.Path.{◌≡◌, refl}
use mathlib.Core.Option.{some}
use mathlib.Core.List.{List, [], ◌∷◌}
use reth_exex_examples.Common.Maps.{collect_map, collect_map_distinct, HasDistinctKeys}
use reth_exex_examples.Common.Results.{Result, ok, ◌>>=◌, ok_or, try_map, >>=-eq-ok}
use reth_exex_examples.Remote.Alloy.{Alloy}
use reth_exex_examples.Remote.Error.{
  Error, no_revert_account, no_revert_account_revert, no_slot_revert,
}
use reth_exex_examples.Remote.Fields.{fixed_from_bytes, u256_from_bytes, fields_back}
use reth_exex_examples.Remote.Proto
use reth_exex_examples.Remote.State.{
  account_info_to_proto, account_info_from_proto, account_info_kept, account_info_back,
  account_status_to_proto, account_status_from_proto, account_status_back,
}
use reth_exex_examples.Remote.StateTypes
use reth_exex_examples.Remote.Types.{Address, U256}

module _ (A : Alloy) where
  account_revert_to_proto : StateTypes.AccountInfoRevert A → Result Error Proto.AccountRevertVariant
  account_revert_to_proto StateTypes.AccountInfoRevert.do_nothing =
      ok Proto.AccountRevertVariant.do_nothing
  account_revert_to_proto StateTypes.AccountInfoRevert.delete_it =
      ok Proto.AccountRevertVariant.delete_it
  account_revert_to_proto (StateTypes.AccountInfoRevert.revert_to account_info) = do
    account_info ← account_info_to_proto A account_info
    ok (Proto.AccountRevertVariant.revert_to account_info)

  account_revert_from_proto :
      Proto.AccountRevertVariant → Result Error (StateTypes.AccountInfoRevert A)
  account_revert_from_proto Proto.AccountRevertVariant.do_nothing =
      ok StateTypes.AccountInfoRevert.do_nothing
  account_revert_from_proto Proto.AccountRevertVariant.delete_it =
      ok StateTypes.AccountInfoRevert.delete_it
  account_revert_from_proto (Proto.AccountRevertVariant.revert_to account_info) = do
    account_info ← account_info_from_proto A account_info
    ok (StateTypes.AccountInfoRevert.revert_to account_info)

  slot_revert_to_proto : StateTypes.RevertToSlot A → Proto.SlotRevert
  slot_revert_to_proto (StateTypes.RevertToSlot.some value) =
      Proto.SlotRevert.some (A.u256.to_le_bytes_vec value)
  slot_revert_to_proto StateTypes.RevertToSlot.destroyed = Proto.SlotRevert.destroyed

  slot_revert_from_proto : Proto.SlotRevert → Result Error (StateTypes.RevertToSlot A)
  slot_revert_from_proto (Proto.SlotRevert.some value) = do
    value ← u256_from_bytes A value
    ok (StateTypes.RevertToSlot.some value)
  slot_revert_from_proto Proto.SlotRevert.destroyed = ok StateTypes.RevertToSlot.destroyed

  storage_revert_to_proto : U256 A × StateTypes.RevertToSlot A → Result Error Proto.RevertToSlot
  storage_revert_to_proto (key, slot) =
      ok (record { key = A.u256.to_le_bytes_vec key; revert = some (slot_revert_to_proto slot) })

  storage_revert_from_proto : Proto.RevertToSlot → Result Error (U256 A × StateTypes.RevertToSlot A)
  storage_revert_from_proto slot = do
    key ← u256_from_bytes A slot.key
    revert ← ok_or slot.revert no_slot_revert
    revert ← slot_revert_from_proto revert
    ok (key, revert)

  pub revert_to_proto : Address A × StateTypes.AccountRevert A → Result Error Proto.Revert
  unfolding account_revert_to_proto storage_revert_to_proto slot_revert_to_proto
  revert_to_proto (address, revert) = do
    account ← account_revert_to_proto revert.account
    storage ← try_map storage_revert_to_proto revert.storage
    ok (record {
      address = A.address.to_vec address;
      account = some (record { revert = some account });
      storage = storage;
      previous_status = account_status_to_proto revert.previous_status;
      wipe_storage = revert.wipe_storage;
    })

  pub revert_from_proto : Proto.Revert → Result Error (Address A × StateTypes.AccountRevert A)
  unfolding account_revert_from_proto storage_revert_from_proto slot_revert_from_proto
  revert_from_proto revert = do
    address ← fixed_from_bytes A.address revert.address
    account ← ok_or revert.account no_revert_account
    variant ← ok_or account.revert no_revert_account_revert
    account ← account_revert_from_proto variant
    storage ← try_map storage_revert_from_proto revert.storage
    previous_status ← account_status_from_proto revert.previous_status
    ok (
      address,
      record {
        account = account;
        storage = collect_map A.u256.dec_eq storage;
        previous_status = previous_status;
        wipe_storage = revert.wipe_storage;
      },
    )

  account_revert_kept : StateTypes.AccountInfoRevert A → StateTypes.AccountInfoRevert A
  account_revert_kept (StateTypes.AccountInfoRevert.revert_to account_info) =
      StateTypes.AccountInfoRevert.revert_to (account_info_kept A account_info)
  account_revert_kept other = other

  -- What a revert keeps: all but the `account_id` of the account to go back to.
  pub revert_kept : StateTypes.AccountRevert A → StateTypes.AccountRevert A
  unfolding account_revert_kept
  revert_kept revert = record revert { account = account_revert_kept revert.account }

  account_revert_back :
      (r : StateTypes.AccountInfoRevert A)
      → (account_revert_to_proto r >>= account_revert_from_proto) ≡ ok (account_revert_kept r)
  unfolding account_revert_to_proto account_revert_from_proto account_revert_kept
  account_revert_back StateTypes.AccountInfoRevert.do_nothing = refl
  account_revert_back StateTypes.AccountInfoRevert.delete_it = refl
  account_revert_back (StateTypes.AccountInfoRevert.revert_to account_info) =
      let (info, w, r) =
        >>=-eq-ok (account_info_to_proto A account_info) (account_info_from_proto A)
          (account_info_back A account_info) in
      rw w (rw r)

  slot_revert_back :
      (slot : StateTypes.RevertToSlot A)
      → slot_revert_from_proto (slot_revert_to_proto slot) ≡ ok slot
  unfolding slot_revert_from_proto slot_revert_to_proto
  slot_revert_back (StateTypes.RevertToSlot.some value) = simp fields_back
  slot_revert_back StateTypes.RevertToSlot.destroyed = refl

  storage_back :
      (l : List (U256 A × StateTypes.RevertToSlot A))
      → (try_map storage_revert_to_proto l >>= try_map storage_revert_from_proto) ≡ ok l
  unfolding try_map storage_revert_from_proto storage_revert_to_proto
  storage_back [] = refl
  storage_back ((key, slot) ∷ l) =
      let (rest, w, r) =
        >>=-eq-ok (try_map storage_revert_to_proto l) (try_map storage_revert_from_proto)
          (storage_back l) in
      simp (w, fields_back, slot_revert_back, r)

  pub revert_back :
      (e : Address A × StateTypes.AccountRevert A)
      → HasDistinctKeys e.1.storage
      → (revert_to_proto e >>= revert_from_proto) ≡ ok (e.0, revert_kept e.1)
  unfolding revert_to_proto revert_from_proto revert_kept
  revert_back (address, revert) h =
      let (account, w, r) =
        >>=-eq-ok (account_revert_to_proto revert.account) account_revert_from_proto
          (account_revert_back revert.account) in
      let (storage, w', r') =
        >>=-eq-ok (try_map storage_revert_to_proto revert.storage)
          (try_map storage_revert_from_proto) (storage_back revert.storage) in
      simp (
        w,
        w',
        fields_back,
        r,
        r',
        account_status_back,
        collect_map_distinct A.u256.dec_eq revert.storage h,
      )
