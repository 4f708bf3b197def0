-- ===== src/Rollup/Execution/Transactions.antt =====
-- `decode_transactions` of rollup/src/execution.rs. The pool, Blobscan, and the decoding of
-- blobs, RLP and transactions are parameters.
use Prim.Native.Nat.{ℕ}
use mathlib.Core.Bool.{Bool, true, false}
use mathlib.Core.Option.{Option, none, some}
use mathlib.Core.List.{List, [], ◌∷◌, ◌++◌, map, zip}
use reth_exex_examples.Common.{◌==◌, if◌then◌else◌, filter, length}
use reth_exex_examples.Common.Results.{Result, ok, err, ◌>>=◌, ◌>>◌, ok_or, ensure}
use reth_exex_examples.Common.Words.{Bytes}
use reth_exex_examples.Rollup.Deposits.{chain_id}

pub data DecodeError : Type 0 where
  pool_error expected_eip4844 blobscan_error some_blobs_not_found failed_to_decode_blobs :
      DecodeError
  block_data_hash_mismatch rlp_error invalid_transaction recovery_failed : DecodeError

-- The blobs beside their KZG commitments.
pub record BlobSidecar (Blob Commitment : Type 0) : Type 0 where
  pub blobs : List Blob
  pub commitments : List Commitment

-- What the pool holds: EIP-4844 or EIP-7594 sidecars.
pub data PoolSidecar (Blob Commitment : Type 0) : Type 0 where
  eip4844 : BlobSidecar Blob Commitment → PoolSidecar Blob Commitment
  eip7594 : PoolSidecar Blob Commitment

-- The calls of other libraries. `Tx` is a signed transaction and `Signed` one with its signer.
pub record Decoders (Tx Signed : Type 0) : Type 1 where
  pub Blob : Type 0
  pub Commitment : Type 0
  pub is_eip4844 : Tx → Bool
  pub get_blob : Tx → Result DecodeError (Option (PoolSidecar Blob Commitment))
  pub blobscan : Tx → Result DecodeError (BlobSidecar Blob Commitment)
  pub decode_hashes : Bytes → Result DecodeError (List ℕ)
  pub kzg_to_versioned_hash : Commitment → ℕ
  pub decode_all : List Blob → Option (List Bytes)
  pub keccak256 : Bytes → ℕ
  pub decode_exact : Bytes → Result DecodeError (List Bytes)
  pub decode_2718 : Bytes → Result DecodeError Tx
  pub tx_chain_id : Tx → Option ℕ
  -- `try_recover` and `with_signer`
  pub recover : Tx → Result DecodeError Signed

unfoldable pub concat : List Bytes → Bytes
concat [] = []
concat (bytes ∷ rest) = bytes ++ concat rest

unfoldable pub contains : List ℕ → ℕ → Bool
contains [] hash = false
contains (x ∷ xs) hash = if x == hash then true else contains xs hash

unfoldable pub is_own_chain : Option ℕ → Bool
is_own_chain none = false
is_own_chain (some id) = id == chain_id

module _ {Tx Signed : Type 0} (d : Decoders Tx Signed) where
  unfoldable pub paired : BlobSidecar d.Blob d.Commitment → List (d.Blob × d.Commitment)
  paired sidecar = zip sidecar.blobs sidecar.commitments

  -- The blobs of a transaction, by what the pool says of it.
  unfoldable pub pool_or_blobscan :
      Tx
      → Option (PoolSidecar d.Blob d.Commitment)
      → Result DecodeError (List (d.Blob × d.Commitment))
  unfolding paired
  pool_or_blobscan tx (some (eip4844 sidecar)) = ok (paired sidecar)
  pool_or_blobscan tx (some eip7594) = err DecodeError.expected_eip4844
  pool_or_blobscan tx none = do sidecar ← d.blobscan tx; ok (paired sidecar)

  -- The blobs whose versioned hashes stand in the block data.
  unfoldable pub wanted_blobs : List ℕ → List (d.Blob × d.Commitment) → List d.Blob
  unfolding contains
  wanted_blobs blob_hashes blobs =
      map (λ (b : d.Blob × ℕ). b.0)
        (filter (λ (b : d.Blob × ℕ). contains blob_hashes b.1)
          (map (λ (b : d.Blob × d.Commitment). (b.0, d.kzg_to_versioned_hash b.1)) blobs))

  unfoldable pub decode_blobs : Tx → Bytes → Result DecodeError Bytes
  unfolding pool_or_blobscan wanted_blobs concat
  decode_blobs tx block_data = do
    in_pool ← d.get_blob tx
    blobs ← pool_or_blobscan tx in_pool
    blob_hashes ← d.decode_hashes block_data
    let wanted = wanted_blobs blob_hashes blobs
    ensure (length wanted == length blob_hashes) DecodeError.some_blobs_not_found
    parts ← ok_or (d.decode_all wanted) DecodeError.failed_to_decode_blobs
    ok (concat parts)

  unfoldable pub raw_transactions_of : Tx → Bytes → Result DecodeError Bytes
  unfolding decode_blobs
  raw_transactions_of tx block_data =
      if d.is_eip4844 tx then decode_blobs tx block_data else ok block_data

  -- The transaction is recovered if it is of the rollup's chain, and left out otherwise.
  unfoldable pub recover_own : Bool → Tx → Result DecodeError (List Signed)
  recover_own true tx = do signed ← d.recover tx; ok (signed ∷ [])
  recover_own false tx = ok []

  -- The loop.
  unfoldable pub decode_each : List Bytes → Result DecodeError (List Signed)
  unfolding is_own_chain recover_own
  decode_each [] = ok []
  decode_each (raw ∷ raws) = do
    tx ← d.decode_2718 raw
    here ← recover_own (is_own_chain (d.tx_chain_id tx)) tx
    rest ← decode_each raws
    ok (here ++ rest)

  unfoldable pub decode_transactions : Tx → Bytes → ℕ → Result DecodeError (List Signed)
  unfolding raw_transactions_of decode_each
  decode_transactions tx block_data block_data_hash = do
    raw_transactions ← raw_transactions_of tx block_data
    ensure (d.keccak256 raw_transactions == block_data_hash) DecodeError.block_data_hash_mismatch
    raws ← d.decode_exact raw_transactions
    decode_each raws
