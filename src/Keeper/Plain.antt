-- ===== src/Keeper/Plain.antt =====
-- Plain histories: the keeper's advances land on a lane one after the other, none of them with a rejected
-- open or with price rows other than its inputs'.
use state_keeper.Prelude.{
  ℕ, ◌-◌, ◌^◌, [], ◌∷◌, All, append-nil, ok-injective, Result, ok, ◌≡◌, sym, ap, ◌∙◌, subst,
}
use state_keeper.Types.{Bytes}
use state_keeper.Engine.{Engine}
use state_keeper.Engine.Laws.{IsTree, IsPrePass}
use state_keeper.Engine.Order.{IsOrderFree}
use state_keeper.Scan.{ChainHistory, FoldRecord}
use state_keeper.Replay.{TreeState, EpochInputs, EpochOutcome, empty_tree, root, accounts_root}
use state_keeper.Replay.Resolve.{resolve_epoch}
use state_keeper.Replay.Rebuild.{rebuild}
use state_keeper.Replay.Rebuild.Accepts.{Replays, rebuild_iff}
use state_keeper.Replay.Rebuild.Advance.{Commits, NoneRejected, rebuild-with_fold}
use state_keeper.Replay.Rebuild.Growth.{Grows, SetsAfter, Replays-Grows}
use state_keeper.Frames.{FrameValue, AdvanceFrames, build_advance_frames}
use state_keeper.Keeper.Fresh.{fresh_epoch_inputs}
use state_keeper.Keeper.Fresh.Recorded.{
  Follows, paused_pairs_at_later, fresh_epoch_inputs-IsRecorded, paused-fresh_epoch_inputs,
}

module _ (e : Engine) (o : IsOrderFree e) (table : e.ScenarioTable)
    (serialize : FrameValue e.ScenarioTable e.SmtWitness → Result Bytes) where
  pub rebuild-advanced :
      (l : IsTree e) (p : IsPrePass e) (history later : ChainHistory) (state : TreeState)
      (inputs : EpochInputs) (domain now chain_accounts_root : ℕ) (adv : AdvanceFrames)
      (fold : FoldRecord)
      → rebuild e table history ≡ ok state
      → fresh_epoch_inputs e history state domain now ≡ ok inputs
      → build_advance_frames e serialize state inputs table chain_accounts_root ≡ ok adv
      → Commits e o table state inputs adv fold
      → NoneRejected e o table state inputs
      → Follows history fold
      → Grows history (fold ∷ []) later
      → (out : EpochOutcome) × (resolve_epoch e state inputs table ≡ ok out)
        × (rebuild e table later ≡ ok out.post)
        × (root e out.post ≡ adv.predicted_root)
        × (accounts_root e out.post ≡ adv.predicted_accounts_root)
  rebuild-advanced l p history later state inputs domain now car adv fold rebuilt fresh built c none
        f g =
      let recorded =
        fresh_epoch_inputs-IsRecorded e history state domain now inputs f.unique fresh in
      let paused =
        paused_pairs_at_later history (fold.block - 1) (2 ^ 64 - 1) f.in_u64 f.sets_before
        ∙ sym (paused-fresh_epoch_inputs e history state domain now inputs fresh) in
      rebuild-with_fold e o table l p serialize history later state inputs car adv fold rebuilt
        recorded paused built c none g

  -- A plain history, with a tree. It has no fold and the tree is empty; or it is a plain history that has
  -- grown without a fold, with the same tree; or one fold more has landed on a plain history, where
  --   * the fold commits an advance that the keeper has built on the tree before (`Commits`), which asks that
  --     its price rows are, for each account of that tree, those of the inputs, and that no margin saturates;
  --   * the advance's pre-pass rejects no open;
  --   * no id is opened twice, and the market sets stand before the fold's block (`Follows`);
  -- and the tree is what the keeper's own `resolve_epoch` gives. A history that settles a position of two
  -- accounts, or on which an advance with a rejected open lands, is not plain (Replay/Rebuild/Twice, Stuck).
  pub data IsPlain : ChainHistory → TreeState → Type 0 where
    deployed :
        {history : ChainHistory} {state : TreeState}
        → history.folds ≡ []
        → state ≡ empty_tree
        → IsPlain history state
    extended :
        {history later : ChainHistory} {state : TreeState}
        → IsPlain history state
        → Grows history [] later
        → IsPlain later state
    landed :
        {history later : ChainHistory} {state state' : TreeState} {inputs : EpochInputs}
        {adv : AdvanceFrames} {fold : FoldRecord} {out : EpochOutcome}
        (domain now chain_accounts_root : ℕ)
        → IsPlain history state
        → fresh_epoch_inputs e history state domain now ≡ ok inputs
        → build_advance_frames e serialize state inputs table chain_accounts_root ≡ ok adv
        → Commits e o table state inputs adv fold
        → NoneRejected e o table state inputs
        → Follows history fold
        → Grows history (fold ∷ []) later
        → resolve_epoch e state inputs table ≡ ok out
        → state' ≡ out.post
        → IsPlain later state'

  rebuild-deployed :
      (history : ChainHistory) → history.folds ≡ [] → rebuild e table history ≡ ok empty_tree
  rebuild-deployed history none =
      (rebuild_iff e table history empty_tree).1
        (subst (λ fs. Replays e table history fs empty_tree empty_tree) (sym none) Replays.done)

  rebuild-extended :
      (history later : ChainHistory) (state : TreeState)
      → Grows history [] later
      → rebuild e table history ≡ ok state
      → rebuild e table later ≡ ok state
  rebuild-extended history later state g h =
      let same = append-nil history.folds in
      let replayed =
        Replays-Grows e table history later [] g (subst (All (SetsAfter g.new_sets)) same g.after)
          ((rebuild_iff e table history state).0 h) in
      (rebuild_iff e table later state).1
        (subst (λ fs. Replays e table later fs empty_tree state) (sym (g.folds ∙ same)) replayed)

  -- For an engine that keeps its trees as maps, surfaces each new position once in `opened`, and does not
  -- look at the order of the positions: the rebuild of a plain history, however many advances have landed on
  -- it, answers the tree that the keeper's `resolve_epoch` has given, advance after advance. Plain histories
  -- are those on which each fold commits an advance that the keeper has built, with price rows equal to its
  -- inputs' for each account, with no rejected open and no saturated margin, with no id opened twice, and
  -- with the market sets before its block.
  pub rebuild-IsPlain :
      (l : IsTree e) (p : IsPrePass e) {history : ChainHistory} {state : TreeState}
      → IsPlain history state
      → rebuild e table history ≡ ok state
  rebuild-IsPlain l p (deployed {history = h} none empty) =
      rebuild-deployed h none ∙ ap ok (sym empty)
  rebuild-IsPlain l p (extended {history = h} {later = k} {state = s} before g) =
      rebuild-extended h k s g (rebuild-IsPlain l p before)
  rebuild-IsPlain l p
        (landed {history = h} {later = k} {state = s} {inputs = i} {adv = adv} {fold = fold} domain
          now car before fresh built c none f g resolved post) =
      let (out, again, done, _u, _v) =
        rebuild-advanced l p h k s i domain now car adv fold (rebuild-IsPlain l p before) fresh
          built c none f g in
      done
      ∙ ap (λ (x : EpochOutcome). ok x.post) (ok-injective (sym again ∙ resolved))
      ∙ ap ok (sym post)
