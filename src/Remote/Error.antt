-- ===== src/Remote/Error.antt =====
-- The errors that the conversions of remote/src/codec.rs return, one for each message.
use Prim.Native.Nat.{ℕ}

pub data Error : Type 0 where
  no_notification no_new_chain no_old_chain : Error
  no_execution_outcome no_bundle no_bytecode : Error
  no_sealed_header no_header no_signature no_transaction no_to no_kind no_authorization : Error
  no_revert_account no_revert_account_revert no_slot_revert no_receipt no_log_data : Error
  -- `ok_or_eyre("failed to parse …")`
  failed_to_parse : Error
  -- `TryFromSliceError`: a slice of another length
  slice_length : Error
  chain_id_length : Error
  invalid_parity : ℕ → Error
  unknown_enum_value : ℕ → Error
  empty_receipt : Error
  -- an `unwrap` on `None`
  panic : Error
