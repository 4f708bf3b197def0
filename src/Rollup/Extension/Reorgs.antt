-- ===== src/Rollup/Extension/Reorgs.antt =====
-- The commit of a chain and its revert in rollup/src/main.rs.
use mathlib.Core.Path.{◌≡◌, refl, sym, ap, subst, ◌∙◌}
use mathlib.Core.List.{List, [], ◌∷◌, ◌++◌, reverse, reverse-cons}
use reth_exex_examples.Common.Results.{ok, err}
use reth_exex_examples.ExEx.{Chain}
use reth_exex_examples.Rollup.Database.{Tables}
use reth_exex_examples.Rollup.Database.Bundles.{Reth}
use reth_exex_examples.Rollup.Database.RoundTrip.Views.{SameView, SameView-refl}
use reth_exex_examples.Rollup.Execution.Transactions.{Decoders}
use reth_exex_examples.Rollup.Execution.Blocks.{Rules}
use reth_exex_examples.Rollup.Extension.{
  Contract, Outcome, and_then, for_each, commit_event, revert_event, Decoded,
  decode_chain_into_rollup_events, commit, revert,
}
use reth_exex_examples.Rollup.Extension.Undo.{IsUndoable, Undoes, undo_event}

module _ {E S : Type 0} (action : E → S → Outcome S) where
  and_then-ok :
      (o : Outcome S) (rest : S → Outcome S) {t : S}
      → and_then o rest ≡ (t, ok tt)
      → (m : S) × (o ≡ (m, ok tt)) × (rest m ≡ (t, ok tt))
  unfolding and_then
  and_then-ok (m, ok unit) rest h = (m, refl, h)
  and_then-ok (m, err e) rest h = cc h

  -- A loop over a list and then over one more event.
  for_each-append :
      (xs : List E) (e : E) (s : S) {t u : S}
      → for_each action xs s ≡ (t, ok tt)
      → action e t ≡ (u, ok tt)
      → for_each action (xs ++ e ∷ []) s ≡ (u, ok tt)
  unfolding for_each and_then
  for_each-append [] e s {t} {u} h k =
      let k' = subst (λ x. action e x ≡ (u, ok tt)) (sym (ap (λ (o : Outcome S). o.0) h)) k in
      ap (λ (o : Outcome S). and_then o (λ x. (x, ok tt))) k'
  for_each-append (x ∷ xs) e s h k =
      let (m, here, rest) = and_then-ok (action x s) (for_each action xs) h in
      ap (λ (o : Outcome S). and_then o (for_each action (xs ++ e ∷ []))) here
      ∙ for_each-append xs e m rest k

module _ {reth : Reth} {Tx Signed : Type 0} (rules : Rules reth Signed)
    (decoders : Decoders Tx Signed) (contract : Contract Tx) where
  -- Each event is undoable on the tables that those before it leave.
  abbrev pub AllUndoable : List (Decoded rules decoders contract) → Tables reth.Block → Type 0
  AllUndoable [] tables = Unit
  AllUndoable (e ∷ events) tables =
      IsUndoable rules decoders contract e.1 e.3 tables
      × AllUndoable events (commit_event rules decoders contract e.1 e.3 tables).0

  abbrev commit_one :
      Decoded rules decoders contract → Tables reth.Block → Outcome (Tables reth.Block)
  commit_one e = commit_event rules decoders contract e.1 e.3

  abbrev revert_one :
      Decoded rules decoders contract → Tables reth.Block → Outcome (Tables reth.Block)
  revert_one e = revert_event rules decoders contract e.1 e.3

  undo_events :
      (events : List (Decoded rules decoders contract)) (tables : Tables reth.Block)
      → AllUndoable events tables
      → Undoes rules decoders contract
          (for_each commit_one events)
          (for_each revert_one (reverse events))
          tables
  unfolding for_each and_then
  undo_events [] tables h = (tables, refl, λ now v. (now, refl, v))
  undo_events (e ∷ events) tables h =
      let (mid, committed, undo_first) = undo_event rules decoders contract e.1 e.3 tables h.0 in
      let rest : AllUndoable events mid =
        subst (AllUndoable events) (ap (λ (o : Outcome (Tables reth.Block)). o.0) committed) h.1 in
      let (after, all, undo_rest) = undo_events events mid rest in
      (
        after,
        ap (λ o. and_then o (for_each commit_one events)) committed ∙ all,
        λ now v.
            let (before, reverted, same) = undo_rest now v in
            let (restored, last, same_first) = undo_first before same in
            (
              restored,
              rw (reverse-cons e events)
                  (for_each-append revert_one (reverse events) e now reverted last),
              same_first,
            ),
      )

  -- If each rollup event of a chain is undoable on the tables that those before it leave, then the
  -- commit of the chain succeeds, and so does its revert after that, which restores the rows of
  -- blocks, every account, the value of every slot, and, for each block that is left, the rows of
  -- its reverts. An event is undoable if it is a deposit that is refused, a deposit of a 256-bit
  -- amount to an address that has an account with a 256-bit balance, a call that decodes and is
  -- another one, an event of another kind, or a submitted block that is executed, sorts last, and
  -- has a bundle whose plain form is of one block, has the old value of all that it changes and
  -- wipes no storage; and the rows of reverts that the tables hold for the block's number already,
  -- as an earlier revert leaves them, must have the old values too.
  pub revert-commit :
      (chain : Chain Tx) (tables : Tables reth.Block)
      → AllUndoable (decode_chain_into_rollup_events rules decoders contract chain) tables
      → (after : Tables reth.Block) × (restored : Tables reth.Block) × (commit rules decoders
            contract chain tables
          ≡ (after, ok tt))
        × (revert rules decoders contract chain after ≡ (restored, ok tt))
        × SameView restored tables
  unfolding commit revert
  revert-commit chain tables h =
      let (after, committed, undo) =
        undo_events (decode_chain_into_rollup_events rules decoders contract chain) tables h in
      let (restored, reverted, same) = undo after (SameView-refl after) in
      (after, restored, committed, reverted, same)
