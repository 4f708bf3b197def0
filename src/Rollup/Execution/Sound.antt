-- ===== src/Rollup/Execution/Sound.antt =====
-- What a block that rollup/src/execution.rs executed is: its header and its receipts.
use Prim.Native.Nat.{ℕ, ◌^◌, ◌<◌, ◌-◌}
use mathlib.Core.Path.{◌≡◌, refl, sym, ap, subst, ◌∙◌}
use mathlib.Core.Bool.{Bool, true, false}
use mathlib.Core.Logic.{◌⊎◌, inl, inr}
use mathlib.Core.Option.{Option, none, some}
use mathlib.Core.List.{List}
use native.Mathlib.Omega.{arith}
use reth_exex_examples.Common.{◌==◌, ==_iff, length, Bool-cases}
use reth_exex_examples.Common.Results.{Result, ok, err, ensure, ok_or, >>=-eq-ok, ok_injective}
use reth_exex_examples.Common.Words.{Bytes}
use reth_exex_examples.Rollup.Database.{Tables, get_block}
use reth_exex_examples.Rollup.Database.Bundles.{Reth}
use reth_exex_examples.Rollup.Deposits.{chain_id}
use reth_exex_examples.Rollup.Execution.{Executed, ExecutionReceipt, execute_transactions}
use reth_exex_examples.Rollup.Execution.Gas.{GasRises, execute_transactions-IsSound}
use reth_exex_examples.Rollup.Execution.Transactions.{Decoders, decode_transactions}
use reth_exex_examples.Rollup.Execution.Blocks.{
  BlockHeader, BlockError, Header, decoding, execution, Rules, u64_try_from, map_err,
  parent_block_of, base_fee_of, construct_header, execute_block, hash_or_default,
}

u64_try_from_lem : (n : ℕ) {m : ℕ} → u64_try_from n ≡ ok m → (m ≡ n) × (n < 2 ^ 64)
unfolding u64_try_from
u64_try_from_lem n h = ground arith

pub ensure-eq-ok : {E : Type 0} (b : Bool) (e : E) {u : Unit {0}} → ensure b e ≡ ok u → b ≡ true
ensure-eq-ok true e h = refl
ensure-eq-ok false e h = cc h

map_err-eq-ok :
    {E F A : Type 0} (f : E → F) (r : Result E A) {a : A} → map_err f r ≡ ok a → r ≡ ok a
unfolding map_err
map_err-eq-ok f (ok a) h = ap ok (ok_injective h)
map_err-eq-ok f (err e) h = cc h

pub ok_or-eq-ok : {E A : Type 0} (o : Option A) (e : E) {a : A} → ok_or o e ≡ ok a → o ≡ some a
ok_or-eq-ok none e h = cc h
ok_or-eq-ok (some a) e h = ap some (ok_injective h)

module _ {reth : Reth} {Signed : Type 0} (rules : Rules reth Signed) where
  -- The parent is the block before the submitted one, if the tables have it; block 0 has none.
  abbrev pub IsParent : BlockHeader → Tables reth.Block → Option reth.Block → Type 0
  IsParent header tables parent =
      ((header.sequence ≡ 0) × (parent ≡ none))
      ⊎ ((0 < header.sequence) × (parent ≡ get_block (header.sequence - 1) tables))

  -- The header names its parent, or the default hash where it has none.
  abbrev pub HasHash : Header → Option reth.Block → Type 0
  HasHash built none = built.parent_hash ≡ rules.default_hash
  HasHash built (some parent) = built.parent_hash ≡ rules.hash parent

  -- The base fee is the initial one at the block of the London fork, and else the parent's next.
  abbrev pub HasBaseFee : Header → Option reth.Block → Type 0
  HasBaseFee built parent_block =
      ((rules.london_transitions_at built.number ≡ true)
        × (built.base_fee_per_gas ≡ rules.initial_base_fee))
      ⊎ ((rules.london_transitions_at built.number ≡ false)
          × (parent : reth.Block) × (parent_block ≡ some parent)
          × (rules.next_block_base_fee parent built.timestamp ≡ some built.base_fee_per_gas))

  -- The header has the fields of the submitted one, which fit 64 bits, and follows its parent.
  abbrev pub Follows : BlockHeader → Tables reth.Block → Header → Type 0
  Follows header tables built =
      (built.number ≡ header.sequence)
      × (built.timestamp ≡ header.confirm_by)
      × (built.gas_limit ≡ header.gas_limit)
      × (header.sequence < 2 ^ 64)
      × (header.confirm_by < 2 ^ 64)
      × (header.gas_limit < 2 ^ 64)
      × (parent : Option reth.Block) × IsParent header tables parent
      × HasHash built parent
      × HasBaseFee built parent

  parent_block_of-IsParent :
      (header : BlockHeader) (tables : Tables reth.Block)
      → IsParent header tables (parent_block_of rules header tables)
  unfolding parent_block_of
  parent_block_of-IsParent header tables = elim (Bool-cases (header.sequence == 0)) [
    | inl first ↦ rw first (inl ((==_iff header.sequence 0).0 first, refl))
    | inr later ↦ rw later (inr (ground arith, refl))
  ]

  hash_or_default-HasHash :
      (number gas_limit timestamp base_fee : ℕ) (parent : Option reth.Block)
      → HasHash
          (record {
            parent_hash = hash_or_default rules parent;
            number = number;
            gas_limit = gas_limit;
            timestamp = timestamp;
            base_fee_per_gas = base_fee;
          })
          parent
  hash_or_default-HasHash number gas_limit timestamp base_fee none = refl
  hash_or_default-HasHash number gas_limit timestamp base_fee (some parent) = refl

  base_fee_of-HasBaseFee :
      (built : Header) (parent : Option reth.Block)
      → base_fee_of rules built.number built.timestamp parent ≡ ok built.base_fee_per_gas
      → HasBaseFee built parent
  unfolding base_fee_of
  base_fee_of-HasBaseFee built parent h =
      elim (Bool-cases (rules.london_transitions_at built.number)) [
        | inl forked ↦ inl (forked, sym (ok_injective (rw forked at h)))
        | inr before ↦
            let (p, found, h1) =
              >>=-eq-ok (ok_or parent BlockError.parent_block_not_found) _ (rw before at h) in
            inr (
              before,
              p,
              ok_or-eq-ok parent _ found,
              ok_or-eq-ok (rules.next_block_base_fee p built.timestamp) _ h1,
            )
      ]

  pub construct_header-Follows :
      (header : BlockHeader) (tables : Tables reth.Block) {built : Header}
      → construct_header rules header tables ≡ ok built
      → Follows header tables built
  unfolding construct_header
  construct_header-Follows header tables {built} h =
      let (number, found_number, h1) = >>=-eq-ok (u64_try_from header.sequence) _ h in
      let (timestamp, found_timestamp, h2) = >>=-eq-ok (u64_try_from header.confirm_by) _ h1 in
      let (base_fee, found_fee, h3) =
        >>=-eq-ok (base_fee_of rules number timestamp (parent_block_of rules header tables)) _ h2 in
      let (gas_limit, found_gas, h4) = >>=-eq-ok (u64_try_from header.gas_limit) _ h3 in
      let (same_number, number_fits) = u64_try_from_lem header.sequence found_number in
      let (same_time, time_fits) = u64_try_from_lem header.confirm_by found_timestamp in
      let (same_gas, gas_fits) = u64_try_from_lem header.gas_limit found_gas in
      let same = ok_injective h4 in
      let sealed : Header = record {
        parent_hash = hash_or_default rules (parent_block_of rules header tables);
        number = number;
        gas_limit = gas_limit;
        timestamp = timestamp;
        base_fee_per_gas = base_fee;
      } in
      rw (← same) (
        same_number,
        same_time,
        same_gas,
        number_fits,
        time_fits,
        gas_fits,
        parent_block_of rules header tables,
        parent_block_of-IsParent header tables,
        hash_or_default-HasHash number gas_limit timestamp base_fee
            (parent_block_of rules header tables),
        base_fee_of-HasBaseFee sealed (parent_block_of rules header tables) found_fee,
      )

  module _ {Tx : Type 0} (decoders : Decoders Tx Signed) (tx : Tx) (header : BlockHeader)
      (block_data : Bytes) (block_data_hash : ℕ) (tables : Tables reth.Block) where
    abbrev Answer : Type 0
    Answer = reth.Block × reth.Bundle × List ExecutionReceipt × List rules.Outcome

    -- If a submitted block is executed, then it is for the rollup's chain, and there is a header
    -- with the submitted number, time and gas limit, with the hash of the block before it in the
    -- tables and with the base fee that follows from that block, under which the decoded
    -- transactions of the submission were executed on the tables within the submitted gas limit.
    -- The block is sealed from that header and the executed transactions, and its number is the
    -- submitted one; the bundle, the receipts and the results are those of the execution; the
    -- cumulative gas of the receipts never falls and stays within the submitted limit, and each
    -- receipt has its result.
    pub execute_block-Follows :
        {block : reth.Block} {bundle : reth.Bundle} {receipts : List ExecutionReceipt}
        {results : List rules.Outcome}
        → execute_block rules decoders tx header block_data block_data_hash tables
          ≡ ok (block, bundle, receipts, results)
        → (built : Header) × (header.rollup_chain_id ≡ chain_id)
          × Follows header tables built
          × (txs : List Signed) × (decode_transactions decoders tx block_data block_data_hash
              ≡ ok txs)
          × (state : rules.Db) × (rules.evm_for_block tables built ≡ ok state)
          × (executed : Executed Signed rules.Outcome rules.Db) × (execute_transactions rules.evm
                header.gas_limit txs state
              ≡ ok executed)
          × (rules.try_into_recovered built executed.transactions ≡ ok block)
          × (bundle ≡ rules.take_bundle executed.db)
          × (receipts ≡ executed.receipts)
          × (results ≡ executed.results)
          × (reth.number block ≡ header.sequence)
          × GasRises header.gas_limit 0 receipts
          × (length receipts ≡ length results)
    unfolding execute_block
    execute_block-Follows {block} {bundle} {receipts} {results} h =
        let (_, own, h1) = >>=-eq-ok (ensure (header.rollup_chain_id == chain_id) _) _ h in
        let (built, found_header, h2) = >>=-eq-ok (construct_header rules header tables) _ h1 in
        let (txs, decoded, h3) =
          >>=-eq-ok (map_err decoding (decode_transactions decoders tx block_data block_data_hash))
            _ h2 in
        let (state, started, h4) = >>=-eq-ok (rules.evm_for_block tables built) _ h3 in
        let (executed, ran, h5) =
          >>=-eq-ok (map_err execution (execute_transactions rules.evm built.gas_limit txs state)) _
            h4 in
        let (recovered, found_block, h6) =
          >>=-eq-ok (rules.try_into_recovered built executed.transactions) _ h5 in
        let follows = construct_header-Follows header tables found_header in
        let same = ok_injective h6 in
        let sound =
          execute_transactions-IsSound rules.evm built.gas_limit txs state (rw follows.2 follows.5)
            (map_err-eq-ok execution _ ran) in
        (
          built,
          (==_iff header.rollup_chain_id chain_id).0 (ensure-eq-ok _ _ own),
          follows,
          txs,
          map_err-eq-ok decoding _ decoded,
          state,
          started,
          executed,
          ap (λ limit. execute_transactions rules.evm limit txs state) (sym follows.2)
              ∙ map_err-eq-ok execution _ ran,
          found_block ∙ ap ok (ap (λ (a : Answer). a.0) same),
          sym (ap (λ (a : Answer). a.1) same),
          sym (ap (λ (a : Answer). a.2) same),
          sym (ap (λ (a : Answer). a.3) same),
          ap reth.number (sym (ap (λ (a : Answer). a.0) same))
              ∙ rules.recovered_number built executed.transactions found_block
              ∙ follows.0,
          subst (GasRises header.gas_limit 0) (ap (λ (a : Answer). a.2) same)
              (subst (λ n. GasRises n 0 executed.receipts) follows.2 sound.0),
          ap length (sym (ap (λ (a : Answer). a.2) same))
              ∙ sound.1.0
              ∙ sym sound.1.1
              ∙ ap length (ap (λ (a : Answer). a.3) same),
        )
