-- ===== src/Rollup/Extension/Heights.antt =====
-- The finished heights that the rollup sends (`Rollup::start` in rollup/src/main.rs).
use mathlib.Core.Path.{◌≡◌, refl, ap, sym}
use mathlib.Core.Logic.{◌⊎◌, inl, inr}
use mathlib.Core.List.{List, [], ◌∷◌, ◌++◌, map, append-nil, append_assoc}
use reth_exex_examples.Common.{Option-cases}
use reth_exex_examples.Common.Results.{ok, err}
use reth_exex_examples.ExEx.{Notification, NotificationMethods, NumHash, Chain}
use reth_exex_examples.Loops.Minimal.{finished_height, finished_height-new_tips, new_tips}
use reth_exex_examples.Rollup.Database.{Tables}
use reth_exex_examples.Rollup.Database.Bundles.{Reth}
use reth_exex_examples.Rollup.Execution.Transactions.{Decoders}
use reth_exex_examples.Rollup.Execution.Blocks.{Rules}
use reth_exex_examples.Rollup.Extension.{
  Contract, ExtensionError, Outcome, and_then, for_each, commit, revert, revert_half, send_height,
  commit_half, handle_notification, start,
}

module _ {S : Type 0} where
  -- An action that ends without an error has sent the new heights behind those sent before it; one
  -- that fails has sent none.
  abbrev Sends : Outcome (S × List NumHash) → List NumHash → List NumHash → Type 0
  Sends run sent new =
      ((run.1 ≡ ok tt) × (run.0.1 ≡ sent ++ new))
      ⊎ ((e : ExtensionError) × (run.1 ≡ err e) × (run.0.1 ≡ sent))

  -- A run that ends without an error has sent all of the tips; one that fails has sent the first
  -- of them and no other.
  abbrev pub SendsInOrder : Outcome (S × List NumHash) → List NumHash → List NumHash → Type 0
  SendsInOrder run sent tips =
      ((run.1 ≡ ok tt) × (run.0.1 ≡ sent ++ tips))
      ⊎ ((e : ExtensionError) × (later : List NumHash) × (run.1 ≡ err e)
          × (run.0.1 ++ later ≡ sent ++ tips))

  and_then-SendsInOrder :
      (run : Outcome (S × List NumHash)) (rest : S × List NumHash → Outcome (S × List NumHash))
      (sent new tips : List NumHash)
      → Sends run sent new
      → ((state : S) → SendsInOrder (rest (state, sent ++ new)) (sent ++ new) tips)
      → SendsInOrder (and_then run rest) sent (new ++ tips)
  unfolding and_then
  and_then-SendsInOrder ((state, heights), ok unit) rest sent new tips (inl (_, same)) later =
      rw (same, sym (append_assoc sent new tips)) (later state)
  and_then-SendsInOrder ((state, heights), ok unit) rest sent new tips (inr (e, failed, _)) later =
      cc
  and_then-SendsInOrder ((state, heights), err e) rest sent new tips (inl (done, _)) later = cc
  and_then-SendsInOrder ((state, heights), err e) rest sent new tips (inr (_, _, same)) later =
      inr (e, new ++ tips, refl, ap (λ h. h ++ (new ++ tips)) same)

module _ {reth : Reth} {Tx Signed : Type 0} (rules : Rules reth Signed)
    (decoders : Decoders Tx Signed) (contract : Contract Tx)
    (methods : NotificationMethods (Chain Tx)) where
  abbrev Here : Type 0
  Here = Tables reth.Block × List NumHash

  abbrev tip : Chain Tx → NumHash
  tip chain = chain.tip

  send_height-Sends :
      (height : NumHash) (sent : List NumHash) (committed : Outcome (Tables reth.Block))
      → Sends (send_height rules decoders contract methods height sent committed) sent (height ∷ [])
  unfolding send_height
  send_height-Sends height sent (tables, ok unit) = inl (refl, refl)
  send_height-Sends height sent (tables, err e) = inr (e, refl, refl)

  commit_half-Sends :
      (notification : Notification (Chain Tx)) (tables : Tables reth.Block) (sent : List NumHash)
      → Sends
          (commit_half rules decoders contract methods
            (methods.committed_chain notification)
            (tables, sent))
          sent
          (finished_height methods tip notification)
  unfolding commit_half finished_height send_height
  commit_half-Sends notification tables sent =
      elim (Option-cases (methods.committed_chain notification)) [
        | inl none_new ↦
            rw (none_new, commit_half, finished_height) (inl (refl, sym (append-nil sent)))
        | inr (chain, new) ↦
            rw (new, commit_half, finished_height)
              (send_height-Sends chain.tip sent (commit rules decoders contract chain tables))
      ]

  after_revert-Sends :
      (notification : Notification (Chain Tx)) (sent : List NumHash)
      (reverted : Outcome (Tables reth.Block))
      → Sends
          (and_then
            ((reverted.0, sent), reverted.1)
            (commit_half rules decoders contract methods (methods.committed_chain notification)))
          sent
          (finished_height methods tip notification)
  unfolding and_then
  after_revert-Sends notification sent (tables, ok unit) =
      commit_half-Sends notification tables sent
  after_revert-Sends notification sent (tables, err e) = inr (e, refl, refl)

  handle_notification-Sends :
      (notification : Notification (Chain Tx)) (tables : Tables reth.Block) (sent : List NumHash)
      → Sends
          (handle_notification rules decoders contract methods (ok notification) (tables, sent))
          sent
          (finished_height methods tip notification)
  unfolding handle_notification revert_half and_then
  handle_notification-Sends notification tables sent =
      elim (Option-cases (methods.reverted_chain notification)) [
        | inl none_old ↦ rw (none_old, revert_half) (commit_half-Sends notification tables sent)
        | inr (chain, old) ↦
            rw (old, revert_half)
              (after_revert-Sends notification sent (revert rules decoders contract chain tables))
      ]

  for_each-SendsInOrder :
      (l : List (Notification (Chain Tx))) (tables : Tables reth.Block) (sent : List NumHash)
      → SendsInOrder
          (for_each (handle_notification rules decoders contract methods) (map ok l) (tables, sent))
          sent
          (new_tips methods tip l)
  unfolding for_each new_tips
  for_each-SendsInOrder [] tables sent = inl (refl, sym (append-nil sent))
  for_each-SendsInOrder (notification ∷ l) tables sent =
      let first =
        handle_notification rules decoders contract methods (ok notification) (tables, sent) in
      rw (sym (finished_height-new_tips methods tip notification l)) (
        and_then-SendsInOrder first
          (for_each (handle_notification rules decoders contract methods) (map ok l)) sent
          (finished_height methods tip notification) (new_tips methods tip l)
          (handle_notification-Sends notification tables sent)
          (λ state.
            for_each-SendsInOrder l state (sent ++ finished_height methods tip notification)))

  -- On a stream of notifications that then ends, the rollup either ends without an error, having
  -- sent the tips of the chains of the commits and reorgs, in their order, or ends with an error,
  -- having sent the first of these tips in their order and no other height.
  pub start-SendsInOrder :
      (l : List (Notification (Chain Tx))) (tables : Tables reth.Block)
      → SendsInOrder
          (start rules decoders contract methods (map ok l) tables)
          []
          (new_tips methods tip l)
  unfolding start
  start-SendsInOrder l tables = for_each-SendsInOrder l tables []
