-- ===== src/Remote/Tests.antt =====
-- Tests and witnesses for remote/src/codec.rs.
use mathlib.Core.Path.{◌≡◌, refl}
use native.Mathlib.Omega.{arith}
use Prim.Native.Nat.{ℕ}
use mathlib.Core.Bool.{true, false}
use mathlib.Core.Option.{Option, none, some}
use mathlib.Core.List.{List, [], ◌∷◌, ◌++◌, map}
use reth_exex_examples.Common.{All}
use reth_exex_examples.Common.Results.{Result, ok, err, ◌>>=◌}
use reth_exex_examples.Remote.Chains.Kept.{IsValidChain}
use reth_exex_examples.Remote.Headers.{
  header_to_proto, header_from_proto, header_kept, header_from_proto-header_to_proto,
}
use reth_exex_examples.Remote.Notifications.{
  notification_to_proto, notification_from_proto, notification_kept, notification_back,
}
use reth_exex_examples.Remote.Samples.{alloy, api, header, transfer, delegate, account, chain}
use reth_exex_examples.Remote.State.{
  account_info_to_proto, account_info_from_proto, account_info_kept, account_info_back,
}
use reth_exex_examples.Remote.Service.{
  Received, Turn, ClientError, ChainMethods, new_tips, exex, exex-broadcast, subscribe, taken,
  refused, consume, consume-subscribe,
}
use reth_exex_examples.Remote.StateTypes.{Chain, ExExNotification}
use reth_exex_examples.Remote.Proto
use reth_exex_examples.Remote.Transactions.Read.{transaction_from_proto}
use reth_exex_examples.Remote.Transactions.RoundTrip.{
  Fits, transaction_from_proto-transaction_to_proto,
}
use reth_exex_examples.Remote.Transactions.Write.{transaction_to_proto}

transactions-Fit : All (λ tx. Fits alloy tx.transaction) (transfer ∷ delegate ∷ [])
transactions-Fit =
    ((omega arith, omega arith), ((omega arith, omega arith, omega arith, (omega arith, tt)), tt))

chain-IsValidChain : IsValidChain alloy chain
chain-IsValidChain = record {
  ascending = (omega arith, tt);
  fits = (transactions-Fit, (transactions-Fit, tt));
  state_map = (tt, tt);
  contracts_map = (tt, tt);
  storage_maps = (((omega arith, tt), (tt, tt)), tt);
  revert_maps = (((tt, tt), tt), tt);
}

notification_example :
    (notification_to_proto alloy (ExExNotification.chain_committed chain)
      >>= notification_from_proto alloy api)
    ≡ ok (notification_kept alloy (ExExNotification.chain_committed chain))
notification_example =
    notification_back alloy api (ExExNotification.chain_committed chain) chain-IsValidChain

transaction_example :
    transaction_from_proto alloy (transaction_to_proto alloy delegate) ≡ ok delegate
transaction_example =
    transaction_from_proto-transaction_to_proto alloy delegate
      (omega arith, omega arith, omega arith, (omega arith, tt))

header_example :
    header_from_proto alloy (header_to_proto alloy (header 7)) ≡ ok (header_kept alloy (header 7))
header_example = header_from_proto-header_to_proto alloy (header 7)

account_example :
    (account_info_to_proto alloy (account 1000) >>= account_info_from_proto alloy)
    ≡ ok (account_info_kept alloy (account 1000))
account_example = account_info_back alloy (account 1000)

abbrev history : List (ExExNotification alloy)
history = ExExNotification.chain_committed chain ∷ ExExNotification.chain_reverted chain ∷ []

abbrev committed : ExExNotification alloy → Option (Chain alloy)
committed (ExExNotification.chain_committed new) = some new
committed (ExExNotification.chain_reorged old new) = some new
committed (ExExNotification.chain_reverted old) = none

abbrev methods : ChainMethods alloy
methods = record {
  committed_chain = committed;
  tip = λ c. (8, 500);
  committed_of_commit = λ new. refl;
  committed_of_reorg = λ old new. refl;
  committed_of_revert = λ old. refl;
}

exex-broadcast_example :
    (exex alloy methods (map {B = Result ℕ (ExExNotification alloy)} ok history)
      ≡ (new_tips alloy methods history, history, ok tt))
    × (exex alloy methods (map {B = Result ℕ (ExExNotification alloy)} ok history ++ err 5 ∷ [])
        ≡ (new_tips alloy methods history, history, err 5))
exex-broadcast_example = exex-broadcast alloy methods history 5 []

abbrev lagging : Turn (ExExNotification alloy)
lagging = record { answer = Received.lagged 2; is_open = true }

abbrev another : ExExNotification alloy
another = ExExNotification.chain_committed chain

consume-subscribe_example :
    (messages : List Proto.ExExNotification) × (subscribe alloy
        (map (taken alloy) history ++ lagging ∷ [])
      ≡ (messages, false))
    × (subscribe alloy (map (taken alloy) history ++ refused alloy another ∷ []) ≡ (messages, true))
    × (consume alloy {S = ℕ} api (map ok messages) ≡ (map (notification_kept alloy) history, ok tt))
    × (consume alloy {S = ℕ} api (map ok messages ++ err 14 ∷ [])
        ≡ (map (notification_kept alloy) history, err (ClientError.stream_status 14)))
consume-subscribe_example =
    consume-subscribe alloy {S = ℕ} api history lagging another [] 14 []
      (chain-IsValidChain, (chain-IsValidChain, tt)) tt
