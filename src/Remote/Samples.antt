-- ===== src/Remote/Samples.antt =====
-- Concrete parameters and data for the tests of remote/src/codec.rs: values are numbers, and an
-- array of bytes is its value in one cell and zeros.
use Prim.Native.Nat.{ℕ, zero, suc}
use mathlib.Core.Path.{◌≡◌, refl, ap}
use mathlib.Core.Logic.{◌≢◌}
use mathlib.Core.Bool.{true, false}
use mathlib.Core.Option.{Option, none, some}
use mathlib.Core.List.{[], ◌∷◌}
use native.Mathlib.Omega.{arith}
use native.Mathlib.Decide.{ℕ_discrete}
use reth_exex_examples.Common.{◌==◌, if◌then◌else◌, length}
use reth_exex_examples.Common.Words.{Bytes}
use reth_exex_examples.Remote.Alloy.{FixedBytes, Uint256, BytecodeKind, Alloy}
use reth_exex_examples.Remote.Chains.{ChainNew}
use reth_exex_examples.Remote.StateTypes
use reth_exex_examples.Remote.StateTypes.{AccountStatus, TxType}
use reth_exex_examples.Remote.Types

abbrev zeros : ℕ → Bytes
zeros zero = []
zeros (suc n) = 0 ∷ zeros n

length-zeros : (n : ℕ) → length (zeros n) ≡ n
length-zeros zero = refl
length-zeros (suc n) = ap suc (length-zeros n)

abbrev cell : ℕ → Bytes → Option ℕ
cell n [] = none
cell n (b ∷ bs) = if length bs == n then some b else none

pub cell-zeros : (n a : ℕ) → cell n (a ∷ zeros n) ≡ some a
cell-zeros n a = ground (arith, length-zeros n)

pub cell-none : (n : ℕ) (bs : Bytes) → length bs ≢ suc n → cell n bs ≡ none
cell-none n [] h = refl
cell-none n (b ∷ bs) h = ground arith

abbrev cells : (n : ℕ) → FixedBytes (suc n)
cells n = record {
  Carrier = ℕ;
  dec_eq = ℕ_discrete;
  to_vec = λ a. a ∷ zeros n;
  try_from = cell n;
  try_from-to_vec = cell-zeros n;
  try_from_none = cell-none n;
}

abbrev head_or_zero : Bytes → ℕ
head_or_zero [] = 0
head_or_zero (b ∷ bs) = b

abbrev words : Uint256
words = record {
  Carrier = ℕ;
  dec_eq = ℕ_discrete;
  to_le_bytes_vec = λ a. a ∷ zeros 31;
  try_from_le_slice = cell 31;
  from_le_bytes = head_or_zero;
  length-to_le_bytes_vec = λ a. refl;
  try_from_le_slice-to_le_bytes_vec = cell-zeros 31;
  from_le_bytes-to_le_bytes_vec = λ a. refl;
}

-- The first `n` bytes, with zeros behind a shorter list.
abbrev resize : ℕ → Bytes → Bytes
resize zero bs = []
resize (suc n) [] = 0 ∷ resize n []
resize (suc n) (b ∷ bs) = b ∷ resize n bs

length-resize : (n : ℕ) (bs : Bytes) → length (resize n bs) ≡ n
length-resize zero bs = refl
length-resize (suc n) [] = ap suc (length-resize n [])
length-resize (suc n) (b ∷ bs) = ap suc (length-resize n bs)

abbrev Table : Type 0
Table = Bytes × ℕ

pub data Code : Type 0 where
  legacy : (padded : Bytes) (original_len : ℕ) (table : Table) → Code
  delegation : (address : ℕ) → Code

abbrev kind : Code → BytecodeKind
kind (Code.legacy padded n table) = BytecodeKind.legacy_analyzed
kind (Code.delegation a) = BytecodeKind.eip7702

abbrev code_bytes : Code → Bytes
code_bytes (Code.legacy padded n table) = padded
code_bytes (Code.delegation a) = 0xef ∷ 0x01 ∷ 0 ∷ a ∷ zeros 19

abbrev original : Code → Bytes
original (Code.legacy padded n table) = resize n padded
original (Code.delegation a) = 0xef ∷ 0x01 ∷ 0 ∷ a ∷ zeros 19

abbrev table_of : Code → Option Table
table_of (Code.legacy padded n table) = some table
table_of (Code.delegation a) = none

abbrev address_of : Code → Option ℕ
address_of (Code.legacy padded n table) = none
address_of (Code.delegation a) = some a

pub legacy_made :
    (b : Code)
    → kind b ≡ BytecodeKind.legacy_analyzed
    → (t : Table) × (table_of b ≡ some t)
      × (some (Code.legacy (code_bytes b) (length (original b)) t) ≡ some b)
legacy_made (Code.legacy padded n table) e =
    (table, refl, ap (λ m. some (Code.legacy padded m table)) (length-resize n padded))
legacy_made (Code.delegation a) e = cc

pub delegation_made :
    (b : Code)
    → kind b ≡ BytecodeKind.eip7702
    → (a : ℕ) × (address_of b ≡ some a) × (Code.delegation a ≡ b)
delegation_made (Code.legacy padded n table) e = cc
delegation_made (Code.delegation a) e = (a, refl, refl)

pub delegation_raw :
    (b : Code)
    → kind b ≡ BytecodeKind.eip7702
    → (x y v : ℕ) × (rest : Bytes) × (original b ≡ x ∷ y ∷ v ∷ rest)
delegation_raw (Code.legacy padded n table) e = cc
delegation_raw (Code.delegation a) e = (0xef, 0x01, 0, a ∷ zeros 19, refl)

abbrev pub alloy : Alloy
alloy = record {
  address = cells 19;
  b256 = cells 31;
  b64 = cells 7;
  bloom = cells 255;
  u256 = words;
  JumpTable = Table;
  as_slice = λ t. t.0;
  table_len = λ t. t.1;
  from_slice = λ bs n. some (bs, n);
  Bytecode = Code;
  bytecode_kind = kind;
  bytecode_bytes = code_bytes;
  original_bytes = original;
  legacy_jump_table = table_of;
  eip7702_address = address_of;
  new_analyzed = λ padded n table. some (Code.legacy padded n table);
  new_eip7702 = Code.delegation;
  from_slice-as_slice = λ t. refl;
  legacy_parts = legacy_made;
  eip7702_parts = delegation_made;
  eip7702_raw = delegation_raw;
}

abbrev pub api : ChainNew alloy
api = record {
  new =
      λ blocks outcome. record { blocks = blocks; execution_outcome = outcome; with_trie = false };
  new_ascending = λ blocks outcome h. refl;
}

abbrev pub header : ℕ → Types.Header alloy
header number = record {
  parent_hash = 1;
  ommers_hash = 2;
  beneficiary = 3;
  state_root = 4;
  transactions_root = 5;
  receipts_root = 6;
  withdrawals_root = some 7;
  logs_bloom = 8;
  difficulty = 0;
  number = number;
  gas_limit = 30000000;
  gas_used = 21000;
  timestamp = 1700000000;
  mix_hash = 9;
  nonce = 10;
  base_fee_per_gas = some 7;
  blob_gas_used = none;
  excess_blob_gas = none;
  parent_beacon_block_root = some 11;
  requests_hash = some 12;
  extra_data = 1 ∷ 2 ∷ [];
}

abbrev pub transfer : Types.TransactionSigned alloy
transfer = record {
  transaction = Types.TypedTransaction.legacy (record {
    chain_id = some 1;
    nonce = 5;
    gas_price = 1000000000;
    gas_limit = 21000;
    to = Types.TxKind.call 77;
    value = 1000;
    input = [];
  });
  signature = record { r = 101; s = 102; v = true };
  hash = 103;
}

abbrev pub delegate : Types.TransactionSigned alloy
delegate = record {
  transaction = Types.TypedTransaction.eip7702 (record {
    chain_id = 1;
    nonce = 6;
    gas_limit = 50000;
    max_fee_per_gas = 300;
    max_priority_fee_per_gas = 2;
    to = 78;
    value = 0;
    access_list = record { address = 79; storage_keys = 1 ∷ 2 ∷ [] } ∷ [];
    authorization_list =
        record { chain_id = 1; address = 80; nonce = 0; y_parity = 27; r = 1; s = 2 } ∷ [];
    input = 0xa9 ∷ [];
  });
  signature = record { r = 104; s = 105; v = false };
  hash = 106;
}

abbrev pub block : Types.Header alloy → StateTypes.RecoveredBlock alloy
block head = record {
  hash = 500;
  header = head;
  transactions = transfer ∷ delegate ∷ [];
  ommers = [];
  withdrawals = some [];
  senders = 90 ∷ 91 ∷ [];
}

abbrev pub account : ℕ → StateTypes.AccountInfo alloy
account balance = record {
  account_id = some 3;
  balance = balance;
  nonce = 1;
  code_hash = 40;
  code = some (Code.legacy (0x60 ∷ 0x00 ∷ 0x00 ∷ []) 2 (0 ∷ [], 3));
}

abbrev pub receipt : StateTypes.Receipt alloy
receipt = record {
  tx_type = TxType.eip7702;
  success = true;
  cumulative_gas_used = 71000;
  logs = record { address = 78; topics = 1 ∷ 2 ∷ []; payload = 9 ∷ [] } ∷ [];
}

-- Two blocks with transactions, an account with storage and code, and its revert.
abbrev pub chain : StateTypes.Chain alloy
chain = record {
  blocks = block (header 7) ∷ block (header 8) ∷ [];
  execution_outcome = record {
    bundle = record {
      state =
          (
            77,
            record {
              info = some (account 1000);
              original_info = none;
              storage =
                  (1, record { previous_or_original_value = 0; present_value = 5 })
                  ∷ (2, record { previous_or_original_value = 6; present_value = 0 })
                  ∷ [];
              status = AccountStatus.in_memory_change;
            },
          )
          ∷ [];
      contracts = (40, Code.delegation 12) ∷ [];
      reverts =
          ((
            77,
            record {
              account = StateTypes.AccountInfoRevert.revert_to (account 900);
              storage = (1, StateTypes.RevertToSlot.destroyed) ∷ [];
              previous_status = AccountStatus.loaded;
              wipe_storage = false;
            },
          )
            ∷ [])
          ∷ [];
      state_size = 3;
      reverts_size = 1;
    };
    receipts = (receipt ∷ receipt ∷ []) ∷ (receipt ∷ receipt ∷ []) ∷ [];
    first_block = 7;
    requests = ((1 ∷ []) ∷ []) ∷ [] ∷ [];
  };
  with_trie = true;
}
