-- ===== src/Rollup/Execution/Decoding.antt =====
-- What `decode_transactions` of rollup/src/execution.rs returns.
use Prim.Native.Nat.{ℕ}
use mathlib.Core.Path.{◌≡◌, refl, sym, ap, subst, ◌∙◌}
use mathlib.Core.Logic.{◌⊎◌, inl, inr, ◌↔◌}
use mathlib.Core.Option.{Option, none, some, some-injective}
use mathlib.Core.Bool.{Bool, true, false}
use mathlib.Core.List.{List, [], ◌∷◌, ◌++◌, map, zip, flat_map, Memᴰ}
use mathlib.Core.List.Memᴰ
use reth_exex_examples.Common.{◌==◌, ==_iff, filter, length, Bool-cases, if◌then◌else◌}
use reth_exex_examples.Common.Results.{ok, ok_or, ensure, try_map, ◌>>=◌, >>=-eq-ok, ok_injective}
use reth_exex_examples.Common.Words.{Bytes}
use reth_exex_examples.Rollup.Execution.Transactions.{
  DecodeError, BlobSidecar, PoolSidecar, eip4844, eip7594, concat, contains, paired,
  pool_or_blobscan, wanted_blobs, decode_blobs, Decoders, is_own_chain, recover_own, decode_each,
  raw_transactions_of, decode_transactions,
}
use reth_exex_examples.Rollup.Deposits.{chain_id}
use reth_exex_examples.Rollup.Execution.Sound.{ensure-eq-ok, ok_or-eq-ok}

-- Of a list, exactly the elements with the property, in their order.
abbrev pub Selects : {A : Type 0} → (A → Type 0) → List A → List A → Type 0
Selects P [] selected = selected ≡ []
Selects {A} P (x ∷ xs) selected =
    (rest : List A) × Selects P xs rest
    × ((P x × (selected ≡ x ∷ rest)) ⊎ (¬ P x × (selected ≡ rest)))

filter-Selects :
    {A : Type 0} (test : A → Bool) (P : A → Type 0)
    → ((a : A) → (test a ≡ true) ↔ P a)
    → (l : List A) → Selects P l (filter test l)
filter-Selects test P iff [] = refl
filter-Selects test P iff (x ∷ xs) = elim (Bool-cases (test x)) [
  | inl passes ↦
      (filter test xs, filter-Selects test P iff xs, rw passes (inl ((iff x).0 passes, refl)))
  | inr fails ↦ (
    filter test xs,
    filter-Selects test P iff xs,
    rw fails (inr (λ holds. cc (fails, (iff x).1 holds), refl)),
  )
]

contains_iff : (hashes : List ℕ) (hash : ℕ) → (contains hashes hash ≡ true) ↔ Memᴰ hash hashes
unfolding contains
contains_iff [] hash = (λ h. cc h, λ m. absurd (Memᴰ.not-nil m))
contains_iff (x ∷ xs) hash = elim (Bool-cases (x == hash)) [
  | inl here ↦ let same = (==_iff x hash).0 here in (λ h. Memᴰ.head (sym same), λ m. rw here refl)
  | inr other ↦ (
    λ h. Memᴰ.tail ((contains_iff xs hash).0 (rw other at h)),
    λ m. rw other (elim (Memᴰ.cases_cons m) [
      | inl same ↦ cc (other, (==_iff x hash).1 (sym same))
      | inr later ↦ (contains_iff xs hash).1 later
    ]),
  )
]

is_own_chain_iff : (id : Option ℕ) → (is_own_chain id ≡ true) ↔ (id ≡ some chain_id)
unfolding is_own_chain
is_own_chain_iff none = (λ h. cc h, λ h. cc h)
is_own_chain_iff (some id) = (
  λ h. ap some ((==_iff id chain_id).0 h),
  λ h. (==_iff id chain_id).1 (some-injective id chain_id h),
)

concat-flat_map : (parts : List Bytes) → concat parts ≡ flat_map (λ part. part) parts
unfolding concat flat_map
concat-flat_map [] = refl
concat-flat_map (part ∷ parts) = ap (λ rest. part ++ rest) (concat-flat_map parts)

module _ {Tx Signed : Type 0} (d : Decoders Tx Signed) where
  abbrev own_chain : Tx → Bool
  own_chain tx = is_own_chain (d.tx_chain_id tx)

  own_chain_iff : (tx : Tx) → (own_chain tx ≡ true) ↔ (d.tx_chain_id tx ≡ some chain_id)
  own_chain_iff tx = is_own_chain_iff (d.tx_chain_id tx)

  -- The sidecar of the blobs: the one in the pool, or that of Blobscan where the pool has none.
  abbrev pub IsSidecar : Tx → BlobSidecar d.Blob d.Commitment → Type 0
  IsSidecar tx sidecar =
      (d.get_blob tx ≡ ok (some (eip4844 sidecar)))
      ⊎ ((d.get_blob tx ≡ ok none) × (d.blobscan tx ≡ ok sidecar))

  abbrev pub hashed : List (d.Blob × d.Commitment) → List (d.Blob × ℕ)
  hashed blobs = map (λ (b : d.Blob × d.Commitment). (b.0, d.kzg_to_versioned_hash b.1)) blobs

  -- The parts that are decoded from the blobs whose versioned hashes the block data names.
  abbrev pub IsOfBlobs : Tx → Bytes → Bytes → Type 0
  IsOfBlobs tx block_data raw =
      (sidecar : BlobSidecar d.Blob d.Commitment) × IsSidecar tx sidecar
      × (hashes : List ℕ) × (d.decode_hashes block_data ≡ ok hashes)
      × (wanted : List (d.Blob × ℕ)) × Selects (λ b. Memᴰ b.1 hashes)
          (hashed (zip sidecar.blobs sidecar.commitments)) wanted
      × (length (map (λ (b : d.Blob × ℕ). b.0) wanted) ≡ length hashes)
      × (parts : List Bytes) × (d.decode_all (map (λ (b : d.Blob × ℕ). b.0) wanted) ≡ some parts)
      × (raw ≡ flat_map (λ part. part) parts)

  -- The raw transactions are the block data, or those of the blobs for a blob transaction.
  abbrev pub IsSource : Tx → Bytes → Bytes → Type 0
  IsSource tx block_data raw =
      ((d.is_eip4844 tx ≡ false) × (raw ≡ block_data))
      ⊎ ((d.is_eip4844 tx ≡ true) × IsOfBlobs tx block_data raw)

  pool_or_blobscan-IsSidecar :
      (tx : Tx) (in_pool : Option (PoolSidecar d.Blob d.Commitment))
      {blobs : List (d.Blob × d.Commitment)}
      → d.get_blob tx ≡ ok in_pool
      → pool_or_blobscan d tx in_pool ≡ ok blobs
      → (sidecar : BlobSidecar d.Blob d.Commitment) × IsSidecar tx sidecar
        × (zip sidecar.blobs sidecar.commitments ≡ blobs)
  unfolding pool_or_blobscan paired
  pool_or_blobscan-IsSidecar tx none e h =
      let (sidecar, found, same) = >>=-eq-ok (d.blobscan tx) _ h in
      (sidecar, inr (e, found), ok_injective same)
  pool_or_blobscan-IsSidecar tx (some (eip4844 sidecar)) e h = (sidecar, inl e, ok_injective h)
  pool_or_blobscan-IsSidecar tx (some eip7594) e h = cc h

  decode_blobs-IsOfBlobs :
      (tx : Tx) (block_data : Bytes) {raw : Bytes}
      → decode_blobs d tx block_data ≡ ok raw
      → IsOfBlobs tx block_data raw
  unfolding decode_blobs wanted_blobs
  decode_blobs-IsOfBlobs tx block_data h =
      let (in_pool, pooled, h1) = >>=-eq-ok (d.get_blob tx) _ h in
      let (blobs, chosen, h2) = >>=-eq-ok (pool_or_blobscan d tx in_pool) _ h1 in
      let (hashes, decoded, h3) = >>=-eq-ok (d.decode_hashes block_data) _ h2 in
      let wanted = wanted_blobs d hashes blobs in
      let (_, counted, h4) =
        >>=-eq-ok (ensure (length wanted == length hashes) DecodeError.some_blobs_not_found)
          (λ _. do
            parts ← ok_or (d.decode_all wanted) DecodeError.failed_to_decode_blobs
            ok (concat parts))
          h3 in
      let (parts, split, h5) =
        >>=-eq-ok (ok_or (d.decode_all wanted) DecodeError.failed_to_decode_blobs)
          (λ parts. ok (concat parts)) h4 in
      let (sidecar, source, same) = pool_or_blobscan-IsSidecar tx in_pool pooled chosen in
      (
        sidecar,
        source,
        hashes,
        decoded,
        filter (λ b. contains hashes b.1) (hashed blobs),
        subst
            (λ b.
              Selects (λ (p : d.Blob × ℕ). Memᴰ p.1 hashes)
                (hashed (zip sidecar.blobs sidecar.commitments))
                (filter (λ p. contains hashes p.1) (hashed b)))
            same
            (filter-Selects (λ (p : d.Blob × ℕ). contains hashes p.1)
              (λ (p : d.Blob × ℕ). Memᴰ p.1 hashes) (λ p. contains_iff hashes p.1)
              (hashed (zip sidecar.blobs sidecar.commitments))),
        (==_iff (length wanted) (length hashes)).0 (ensure-eq-ok _ _ counted),
        parts,
        ok_or-eq-ok (d.decode_all wanted) _ split,
        sym (ok_injective h5) ∙ concat-flat_map parts,
      )

  raw_transactions_of-IsSource :
      (tx : Tx) (block_data : Bytes) {raw : Bytes}
      → raw_transactions_of d tx block_data ≡ ok raw
      → IsSource tx block_data raw
  unfolding raw_transactions_of
  raw_transactions_of-IsSource tx block_data h = elim (Bool-cases (d.is_eip4844 tx)) [
    | inl blob ↦ inr (blob, decode_blobs-IsOfBlobs tx block_data (rw blob at h))
    | inr plain ↦ inl (plain, sym (ok_injective (rw plain at h)))
  ]

  recover_own-try_map :
      (b : Bool) (tx : Tx) (txs : List Tx) {here rest : List Signed}
      → recover_own d b tx ≡ ok here
      → try_map d.recover txs ≡ ok rest
      → try_map d.recover (if b then tx ∷ txs else txs) ≡ ok (here ++ rest)
  unfolding recover_own try_map
  recover_own-try_map true tx txs h r =
      let (signed, e, same) = >>=-eq-ok (d.recover tx) _ h in rw (e, r, ← ok_injective same) refl
  recover_own-try_map false tx txs h r = rw (← ok_injective h) r

  decode_each_lem :
      (raws : List Bytes) {signed : List Signed}
      → decode_each d raws ≡ ok signed
      → (txs : List Tx) × (try_map d.decode_2718 raws ≡ ok txs)
        × (try_map d.recover (filter own_chain txs) ≡ ok signed)
  unfolding decode_each try_map
  decode_each_lem [] h = ([], refl, h)
  decode_each_lem (raw ∷ raws) h =
      let (tx, e1, h1) = >>=-eq-ok (d.decode_2718 raw) _ h in
      let (here, e2, h2) = >>=-eq-ok (recover_own d (own_chain tx) tx) _ h1 in
      let (rest, e3, h3) = >>=-eq-ok (decode_each d raws) _ h2 in
      let (txs, decoded, recovered) = decode_each_lem raws e3 in
      (
        tx ∷ txs,
        rw (e1, decoded) refl,
        recover_own-try_map (own_chain tx) tx (filter own_chain txs) e2 recovered ∙ h3,
      )

  -- If the transactions of a submission are decoded, then they come from its block data, or for a
  -- blob transaction from the blobs that the block data names by their hashes, in the pool or else
  -- on Blobscan, each named hash found; these raw transactions have the hash of the contract's
  -- event, and the result is exactly those decoded transactions whose chain id is the rollup's, in
  -- their order, all recovered.
  pub decode_transactions_lem :
      (tx : Tx) (block_data : Bytes) (block_data_hash : ℕ) {signed : List Signed}
      → decode_transactions d tx block_data block_data_hash ≡ ok signed
      → (raw : Bytes) × (raws : List Bytes) × (txs own : List Tx) × IsSource tx block_data raw
        × (d.keccak256 raw ≡ block_data_hash)
        × (d.decode_exact raw ≡ ok raws)
        × (try_map d.decode_2718 raws ≡ ok txs)
        × Selects (λ t. d.tx_chain_id t ≡ some chain_id) txs own
        × (try_map d.recover own ≡ ok signed)
  unfolding decode_transactions
  decode_transactions_lem tx block_data block_data_hash h =
      let (raw, e1, h1) = >>=-eq-ok (raw_transactions_of d tx block_data) _ h in
      let (_, e2, h2) = >>=-eq-ok (ensure (d.keccak256 raw == block_data_hash) _) _ h1 in
      let (raws, e3, h3) = >>=-eq-ok (d.decode_exact raw) _ h2 in
      let (txs, decoded, recovered) = decode_each_lem raws h3 in
      (
        raw,
        raws,
        txs,
        filter own_chain txs,
        raw_transactions_of-IsSource tx block_data e1,
        (==_iff (d.keccak256 raw) block_data_hash).0 (ensure-eq-ok _ _ e2),
        e3,
        decoded,
        filter-Selects own_chain (λ t. d.tx_chain_id t ≡ some chain_id) own_chain_iff txs,
        recovered,
      )
