-- ===== src/Rollup/Deposits.antt =====
-- The deposits among the events of the rollup contract (rollup/src/main.rs).
use Prim.Native.Nat.{ℕ, ◌+◌, ◌-◌, ◌%◌, ◌^◌, ◌<◌}
use mathlib.Core.Path.{◌≡◌, refl, ap, ◌∙◌}
use mathlib.Core.Logic.{◌≢◌, inl, inr}
use mathlib.Core.Bool.{Bool, ◌&&◌}
use mathlib.Core.Option.{Option, none, some}
use native.Mathlib.Omega.{arith}
use native.Mathlib.Decide.{ℕ_discrete}
use reth_exex_examples.Common.{◌==◌, if◌then◌else◌, Bool-cases, ==_iff}
use reth_exex_examples.Common.Maps.{map_insert, map_get-map_insert, map_get-map_insert_other}
use reth_exex_examples.Common.Results.{Result, ok, ◌>>=◌, ok_or}
use reth_exex_examples.Rollup.Accounts.{AccountInfo, Accounts, get_account, upsert_account}

abbrev pub chain_id : ℕ
chain_id = 17001

pub data RollupError : Type 0 where
  account_not_found : RollupError

-- `RollupContract::Enter`
pub record Enter : Type 0 where
  pub rollup_chain_id : ℕ
  pub token : ℕ
  pub rollup_recipient : ℕ
  pub amount : ℕ

-- The two checks: the chain id of the rollup, and the zero address for ETH.
unfoldable pub is_accepted : Enter → Bool
is_accepted e = (e.rollup_chain_id == chain_id) && (e.token == 0)

abbrev pub unwrap_or : AccountInfo → Option AccountInfo → AccountInfo
unwrap_or default none = default
unwrap_or default (some account) = account

-- The sums and differences of 256-bit integers wrap.
abbrev pub add_balance : ℕ → AccountInfo → AccountInfo
add_balance amount account = record account { balance = (account.balance + amount) % 2 ^ 256 }

abbrev pub sub_balance : ℕ → AccountInfo → AccountInfo
sub_balance amount account = record account {
  balance = (account.balance + (2 ^ 256 - amount)) % 2 ^ 256;
}

-- The arm of `commit`, with the account that `AccountInfo::default()` gives.
unfoldable pub commit_enter : AccountInfo → Enter → Accounts → Result RollupError Accounts
unfolding is_accepted
commit_enter default e accounts =
    if is_accepted e
    then upsert_account e.rollup_recipient
        (λ account. ok (add_balance e.amount (unwrap_or default account))) accounts
    else ok accounts

-- The arm of `revert`.
unfoldable pub revert_enter : Enter → Accounts → Result RollupError Accounts
unfolding is_accepted
revert_enter e accounts =
    if is_accepted e
    then upsert_account e.rollup_recipient
        (λ account. do
          account ← ok_or account RollupError.account_not_found
          ok (sub_balance e.amount account))
        accounts
    else ok accounts

-- The account under an address after a deposit and its revert.
abbrev pub restored : AccountInfo → Enter → Accounts → ℕ → Option AccountInfo
restored default e accounts address =
    if is_accepted e && (e.rollup_recipient == address)
    then some (unwrap_or default (get_account address accounts))
    else get_account address accounts

pub sub_balance-add_balance :
    (amount : ℕ) (account : AccountInfo)
    → amount < 2 ^ 256
    → account.balance < 2 ^ 256
    → sub_balance amount (add_balance amount account) ≡ account
sub_balance-add_balance amount account h g =
    let same : ((((account.balance + amount) % 2 ^ 256) + (2 ^ 256 - amount)) % 2 ^ 256)
        ≡ account.balance =
      omega arith in
    ap (λ b. record account { balance = b }) same

-- A deposit of an amount of 256 bits never fails, and neither does its revert after it. Then every
-- account is what it was, but for one thing: an accepted deposit to an address without an account
-- leaves the default account there.
pub revert_enter-commit_enter :
    (default : AccountInfo) (e : Enter) (accounts : Accounts)
    → e.amount < 2 ^ 256
    → (unwrap_or default (get_account e.rollup_recipient accounts)).balance < 2 ^ 256
    → (after : Accounts) × ((commit_enter default e accounts >>= revert_enter e) ≡ ok after)
      × ((address : ℕ) → get_account address after ≡ restored default e accounts address)
unfolding commit_enter revert_enter upsert_account get_account
revert_enter-commit_enter default e accounts h g = elim (Bool-cases (is_accepted e)) [
  | inr refused ↦
      (accounts, rw refused (rw (refused, revert_enter) refl), λ address. rw refused refl)
  | inl accepted ↦
      let old = unwrap_or default (get_account e.rollup_recipient accounts) in
      let made = map_insert ℕ_discrete e.rollup_recipient (add_balance e.amount old) accounts in
      let found =
        map_get-map_insert ℕ_discrete e.rollup_recipient (add_balance e.amount old) accounts in
      (
        map_insert ℕ_discrete e.rollup_recipient old made,
        rw accepted (rw found (rw (sub_balance-add_balance e.amount old h g) (rw accepted refl))),
        λ address. elim (Bool-cases (e.rollup_recipient == address)) [
          | inl here ↦
              let key : e.rollup_recipient ≡ address = (==_iff e.rollup_recipient address).0 here in
              rw (accepted, here, ← key) (map_get-map_insert ℕ_discrete e.rollup_recipient old made)
          | inr elsewhere ↦
              let other : e.rollup_recipient ≢ address = λ p. ground arith in
              rw (accepted, elsewhere)
                (map_get-map_insert_other ℕ_discrete address e.rollup_recipient old made other
                  ∙ map_get-map_insert_other ℕ_discrete address e.rollup_recipient
                      (add_balance e.amount old) accounts other)
        ],
      )
]
