-- ===== src/ExEx/Samples.antt =====
-- The two methods of reth's `ExExNotification`, for the tests.
use mathlib.Core.Path.{refl}
use mathlib.Core.Option.{Option, none, some}
use reth_exex_examples.ExEx.{Notification, NotificationMethods}

abbrev pub committed : {C : Type 0} → Notification C → Option C
committed (Notification.chain_committed new) = some new
committed (Notification.chain_reorged old new) = some new
committed (Notification.chain_reverted old) = none

abbrev pub reverted : {C : Type 0} → Notification C → Option C
reverted (Notification.chain_committed new) = none
reverted (Notification.chain_reorged old new) = some old
reverted (Notification.chain_reverted old) = some old

abbrev pub methods : (C : Type 0) → NotificationMethods C
methods C = record {
  committed_chain = committed;
  reverted_chain = reverted;
  committed_of_commit = λ new. refl;
  committed_of_reorg = λ old new. refl;
  committed_of_revert = λ old. refl;
  reverted_of_commit = λ new. refl;
  reverted_of_reorg = λ old new. refl;
  reverted_of_revert = λ old. refl;
}
