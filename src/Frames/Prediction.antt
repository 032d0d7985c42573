-- ===== src/Frames/Prediction.antt =====
-- The advance that the host predicts, against the tree that the replay of its fold rebuilds.
use state_keeper.Prelude.{
  ℕ, Result, ok, guard, guard-eq-ok, >>=-eq-ok, traverse, ok-injective, ==_iff, ◌==◌,
  account_set_drifted, ◌≡◌, refl, sym, ap, ◌∙◌,
}
use state_keeper.BTreeMap.Order.{IsSorted}
use state_keeper.Types.{Bytes}
use state_keeper.Engine.{Engine}
use state_keeper.Engine.Laws.{IsTree}
use state_keeper.Replay.{TreeState, EpochInputs, EpochOutcome, leaves, root, accounts_root}
use state_keeper.Replay.Resolve.{resolve_epoch}
use state_keeper.Replay.Resolve.Steps.{resolve_epoch-EpochShape}
use state_keeper.Frames.{
  FrameValue, AdvanceFrames, build_advance_frames, first_trees, final_trees, frame_values,
}
use state_keeper.Frames.Roots.{final_state_root, final_registry_root, first_registry_root}

module _ (e : Engine) (serialize : FrameValue e.ScenarioTable e.SmtWitness → Result Bytes) where
  -- The stages that a success of `build_advance_frames` went through.
  record BuildRun (state : TreeState) (inputs : EpochInputs) (table : e.ScenarioTable)
      (chain_accounts_root : ℕ) (adv : AdvanceFrames) : Type 0 where
    outcome : EpochOutcome
    resolved : resolve_epoch e state inputs table ≡ ok outcome
    registry_root : e.root (first_trees e state).registry ≡ chain_accounts_root
    encoded :
        traverse serialize (
          frame_values e
            (e.root (e.from_leaves (leaves e state)))
            chain_accounts_root
            (final_trees e state outcome).touched_accounts
            inputs
            table)
        ≡ ok adv.frames
    state_root : adv.predicted_root ≡ e.root (final_trees e state outcome).smt
    members_root : adv.predicted_accounts_root ≡ e.root (final_trees e state outcome).registry
    prior_root : adv.root_prev ≡ e.root (e.from_leaves (leaves e state))

  build_advance_frames-BuildRun :
      (state : TreeState) (inputs : EpochInputs) (table : e.ScenarioTable) (chain_accounts_root : ℕ)
      (adv : AdvanceFrames)
      → build_advance_frames e serialize state inputs table chain_accounts_root ≡ ok adv
      → BuildRun state inputs table chain_accounts_root adv
  unfolding build_advance_frames
  build_advance_frames-BuildRun state inputs table car adv h =
      let (_root, valid, h1) = >>=-eq-ok (e.scenario_root table) _ h in
      let (out, resolved, h2) = >>=-eq-ok (resolve_epoch e state inputs table) _ h1 in
      let (_ok, same, h3) =
        >>=-eq-ok (guard (e.root (first_trees e state).registry == car) account_set_drifted) _ h2 in
      let (frames, encoded, h4) =
        >>=-eq-ok
          (traverse serialize (
            frame_values e (e.root (e.from_leaves (leaves e state))) car
              (final_trees e state out).touched_accounts inputs table))
          _ h3 in
      let made = ok-injective h4 in
      record {
        outcome = out;
        resolved = resolved;
        registry_root = (==_iff _ car).0 (guard-eq-ok _ account_set_drifted same);
        encoded = encoded ∙ ap ok (ap (λ (a : AdvanceFrames). a.frames) made);
        state_root = ap (λ (a : AdvanceFrames). a.predicted_root) (sym made);
        members_root = ap (λ (a : AdvanceFrames). a.predicted_accounts_root) (sym made);
        prior_root = ap (λ (a : AdvanceFrames). a.root_prev) (sym made);
      }

  -- What an advance predicts of the epoch with outcome `out`.
  pub record Predicts (state : TreeState) (chain_accounts_root : ℕ) (out : EpochOutcome)
      (adv : AdvanceFrames) : Type 0 where
    pub root_new : adv.predicted_root ≡ root e out.post
    pub accounts_root_new : adv.predicted_accounts_root ≡ accounts_root e out.post
    pub root_prev : adv.root_prev ≡ root e state
    pub accounts_root_prev : accounts_root e state ≡ chain_accounts_root

  -- Frames that build, on a tree in ascending order, predict the epoch's outcome: both predicted roots,
  -- which come from single steps on the two keyed trees, are those of the post tree built anew; the
  -- prior root is the tree's, and the tree's registry root is the one that the chain holds.
  pub build_advance_frames-Predicts :
      (l : IsTree e) (state : TreeState) (inputs : EpochInputs) (table : e.ScenarioTable)
      (chain_accounts_root : ℕ) (adv : AdvanceFrames)
      → IsSorted state.accounts
      → build_advance_frames e serialize state inputs table chain_accounts_root ≡ ok adv
      → (out : EpochOutcome) × (resolve_epoch e state inputs table ≡ ok out)
        × Predicts state chain_accounts_root out adv
  build_advance_frames-Predicts l state inputs table car adv s h =
      let run = build_advance_frames-BuildRun state inputs table car adv h in
      let shape = resolve_epoch-EpochShape e state inputs table run.outcome run.resolved in
      (
        run.outcome,
        run.resolved,
        record {
          root_new = run.state_root ∙ final_state_root e l state inputs run.outcome s shape;
          accounts_root_new =
              run.members_root ∙ final_registry_root e l state inputs run.outcome s shape;
          root_prev = run.prior_root ∙ (unfold root in refl);
          accounts_root_prev = sym (first_registry_root e l state) ∙ run.registry_root;
        },
      )
