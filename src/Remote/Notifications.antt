-- ===== src/Remote/Notifications.antt =====
-- Notifications to messages and back (remote/src/codec.rs), as the server sends them
-- (remote/bin/exex.rs) and the client reads them (remote/bin/consumer.rs).
use mathlib.Core.Path.{◌≡◌}
use mathlib.Core.Option.{some}
use reth_exex_examples.Common.Results.{Result, ok, ◌>>=◌, ok_or, >>=-eq-ok}
use reth_exex_examples.Remote.Alloy.{Alloy}
use reth_exex_examples.Remote.Chains.{ChainNew, chain_to_proto, chain_from_proto}
use reth_exex_examples.Remote.Chains.Kept.{chain_kept, IsValidChain}
use reth_exex_examples.Remote.Chains.RoundTrip.{chain_back}
use reth_exex_examples.Remote.Error.{Error, no_notification, no_new_chain, no_old_chain}
use reth_exex_examples.Remote.Proto
use reth_exex_examples.Remote.StateTypes.{ExExNotification}

module _ (A : Alloy) where
  notification_variant_to_proto : ExExNotification A → Result Error Proto.NotificationVariant
  notification_variant_to_proto (ExExNotification.chain_committed new) = do
    new ← chain_to_proto A new
    ok (Proto.NotificationVariant.chain_committed (some new))
  notification_variant_to_proto (ExExNotification.chain_reorged old new) = do
    old ← chain_to_proto A old
    new ← chain_to_proto A new
    ok (Proto.NotificationVariant.chain_reorged (some old) (some new))
  notification_variant_to_proto (ExExNotification.chain_reverted old) = do
    old ← chain_to_proto A old
    ok (Proto.NotificationVariant.chain_reverted (some old))

  pub notification_to_proto : ExExNotification A → Result Error Proto.ExExNotification
  unfolding notification_variant_to_proto
  notification_to_proto notification = do
    variant ← notification_variant_to_proto notification
    ok (record { notification = some variant })

  -- A message carries of a notification what it carries of its chains.
  abbrev pub notification_kept : ExExNotification A → ExExNotification A
  notification_kept (ExExNotification.chain_committed new) =
      ExExNotification.chain_committed (chain_kept A new)
  notification_kept (ExExNotification.chain_reorged old new) =
      ExExNotification.chain_reorged (chain_kept A old) (chain_kept A new)
  notification_kept (ExExNotification.chain_reverted old) =
      ExExNotification.chain_reverted (chain_kept A old)

  abbrev pub IsValidNotification : ExExNotification A → Type 0
  IsValidNotification (ExExNotification.chain_committed new) = IsValidChain A new
  IsValidNotification (ExExNotification.chain_reorged old new) =
      IsValidChain A old × IsValidChain A new
  IsValidNotification (ExExNotification.chain_reverted old) = IsValidChain A old

  module _ (api : ChainNew A) where
    notification_variant_from_proto : Proto.NotificationVariant → Result Error (ExExNotification A)
    notification_variant_from_proto (Proto.NotificationVariant.chain_committed new) = do
      new ← ok_or new no_new_chain
      new ← chain_from_proto A api new
      ok (ExExNotification.chain_committed new)
    notification_variant_from_proto (Proto.NotificationVariant.chain_reorged old new) = do
      old ← ok_or old no_old_chain
      old ← chain_from_proto A api old
      new ← ok_or new no_new_chain
      new ← chain_from_proto A api new
      ok (ExExNotification.chain_reorged old new)
    notification_variant_from_proto (Proto.NotificationVariant.chain_reverted old) = do
      old ← ok_or old no_old_chain
      old ← chain_from_proto A api old
      ok (ExExNotification.chain_reverted old)

    pub notification_from_proto : Proto.ExExNotification → Result Error (ExExNotification A)
    unfolding notification_variant_from_proto
    notification_from_proto notification = do
      variant ← ok_or notification.notification no_notification
      notification_variant_from_proto variant

    -- Writing a valid notification as a message succeeds, and reading the message succeeds and
    -- gives the notification back, less what the message has no field for: the requests, the trie
    -- data, the withdrawals of blocks, the requests hash of headers and the ids of accounts.
    pub notification_back :
        (notification : ExExNotification A)
        → IsValidNotification notification
        → (notification_to_proto notification >>= notification_from_proto)
          ≡ ok (notification_kept notification)
    unfolding notification_to_proto notification_from_proto
    notification_back (ExExNotification.chain_committed new) v =
        let (m, w, r) =
          >>=-eq-ok (chain_to_proto A new) (chain_from_proto A api) (chain_back A api new v) in
        simp (w, r)
    notification_back (ExExNotification.chain_reorged old new) v =
        let (m, w, r) =
          >>=-eq-ok (chain_to_proto A old) (chain_from_proto A api) (chain_back A api old v.0) in
        let (m', w', r') =
          >>=-eq-ok (chain_to_proto A new) (chain_from_proto A api) (chain_back A api new v.1) in
        simp (w, w', r, r')
    notification_back (ExExNotification.chain_reverted old) v =
        let (m, w, r) =
          >>=-eq-ok (chain_to_proto A old) (chain_from_proto A api) (chain_back A api old v) in
        simp (w, r)
