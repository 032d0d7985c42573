-- ===== src/Replay/Rebuild/Advance.antt =====
-- An advance and the replay of its fold.
use state_keeper.Prelude.{
  All-split, ℕ, ◌-◌, true, All, ◌∷◌, some, List, [], filter, Permᴰ, Result, ok, ◌≡◌, refl, sym, ap,
  ◌∙◌, subst,
}
use state_keeper.BTreeMap.{get}
use state_keeper.Types.{Bytes, NewPosition}
use state_keeper.Engine.{Engine}
use state_keeper.Engine.Laws.{IsTree, IsPrePass}
use state_keeper.Engine.Order.{IsOrderFree}
use state_keeper.Scan.{ChainHistory, FoldRecord, paused_pairs_at}
use state_keeper.Replay.{
  AccountState, TreeState, EpochInputs, EpochOutcome, empty_tree, root, accounts_root,
}
use state_keeper.Replay.Resolve.{resolve_epoch}
use state_keeper.Replay.Resolve.Run.{EpochRun, is_marking, resolve_epoch-EpochRun}
use state_keeper.Replay.Resolve.Parties.{with_positions}
use state_keeper.Replay.Resolve.Prices.{
  SameEpoch, twap_binds_some, mark_binds_some, resolve_epoch-SameEpoch,
}
use state_keeper.Replay.Resolve.Reordered.{IsUnsaturated, SameOutcome, resolve_epoch-SameOutcome}
use state_keeper.Replay.Rebuild.{sort_ids, rebuild}
use state_keeper.Replay.Rebuild.Accepts.{
  Accepts, Replays, Replays-snoc, rebuild_iff, rebuild-IsSorted,
}
use state_keeper.Replay.Rebuild.Growth.{Grows, SetsAfter, fold_inputs-Grows, Replays-Grows}
use state_keeper.Replay.Rebuild.Ids.{sort_ids-Permᴰ}
use state_keeper.Replay.Rebuild.Recovered.{Lists, IsRecorded, recovered_inputs, fold_inputs-Lists}
use state_keeper.Replay.Rebuild.Surfaced.{processed-none_rejected}
use state_keeper.Frames.{FrameValue, AdvanceFrames, build_advance_frames}
use state_keeper.Frames.Prediction.{build_advance_frames-Predicts}

module _ (e : Engine) (o : IsOrderFree e) (table : e.ScenarioTable) where
  -- The fold's public values commit the advance: they list its inputs, with price rows that for each
  -- account of the tree are those of the inputs that bind its positions, and name the table and the roots.
  -- In the epoch no margin saturates. The guest commits one price for each seat that it settles, so a fold
  -- that settles a position of two accounts has a row twice and is no such fold (Replay/Rebuild/Twice).
  pub record Commits (state : TreeState) (inputs : EpochInputs) (adv : AdvanceFrames)
      (fold : FoldRecord) : Type 0 where
    pub listed : Lists inputs fold
    pub twaps :
        (aid : ℕ) (a : AccountState)
        → get aid state.accounts ≡ some a
        → filter (twap_binds_some e a) inputs.proven_twaps
          ≡ filter (twap_binds_some e a) listed.twaps
    pub marks :
        (aid : ℕ) (a : AccountState)
        → get aid state.accounts ≡ some a
        → filter (mark_binds_some e a) inputs.proven_marks
          ≡ filter (mark_binds_some e a) listed.marks
    pub committed : e.scenario_root table ≡ ok fold.pv.scenario_root
    pub root_prev : fold.pv.roots.root_prev ≡ adv.root_prev
    pub root_new : fold.pv.roots.root_new ≡ adv.predicted_root
    pub accounts_root_new : fold.pv.roots.accounts_root_new ≡ adv.predicted_accounts_root
    pub unsaturated :
        (out : EpochOutcome) (run : EpochRun e state inputs table out)
        → is_marking run.rows ≡ true
        → All (IsUnsaturated e o inputs) run.pre.0

  -- The open pre-pass of the epoch rejects no position.
  abbrev pub NoneRejected : TreeState → EpochInputs → Type 0
  NoneRejected state inputs =
      (out : EpochOutcome) (run : EpochRun e state inputs table out) → run.pre.1.rejected ≡ []

  -- The epoch of the recovered inputs, which come in the fold's order and with the fold's prices.
  pub resolve_epoch-recovered :
      (history : ChainHistory) (state : TreeState) (inputs : EpochInputs) (adv : AdvanceFrames)
      (fold : FoldRecord) (out : EpochOutcome) (order : List NewPosition)
      (c : Commits state inputs adv fold)
      → paused_pairs_at history (fold.block - 1) ≡ inputs.paused_pairs
      → Permᴰ inputs.new_positions order
      → resolve_epoch e state inputs table ≡ ok out
      → (out' : EpochOutcome) × (resolve_epoch e state
            (recovered_inputs history inputs fold c.listed order)
            table
          ≡ ok out')
        × SameOutcome e o out out'
  resolve_epoch-recovered history state inputs adv fold out order c paused d h =
      let run = resolve_epoch-EpochRun e state inputs table out h in
      let (out', again, same) =
        resolve_epoch-SameOutcome e o state inputs order table out run d (c.unsaturated out run) in
      let alike : SameEpoch e state (with_positions inputs order)
          (recovered_inputs history inputs fold c.listed order) =
        record {
          new_positions = refl;
          paused_pairs = sym paused;
          proof_now = sym c.listed.proof_time;
          twaps = c.twaps;
          marks = c.marks;
        } in
      (out', sym (resolve_epoch-SameEpoch e state _ _ table alike) ∙ again, same)

  -- The epoch processes the ids that the fold lists.
  surfaced-Commits :
      (p : IsPrePass e) (history : ChainHistory) (state : TreeState) (inputs : EpochInputs)
      (adv : AdvanceFrames) (fold : FoldRecord) (out out' : EpochOutcome)
      → Commits state inputs adv fold
      → NoneRejected state inputs
      → resolve_epoch e state inputs table ≡ ok out
      → SameOutcome e o out out'
      → sort_ids out'.processed_open_ids ≡ sort_ids fold.pv.opened_position_ids
  surfaced-Commits p history state inputs adv fold out out' c none h same =
      let run = resolve_epoch-EpochRun e state inputs table out h in
      sym (sort_ids-Permᴰ same.processed)
      ∙ ap sort_ids (processed-none_rejected e p table history state inputs out run (none out run))
      ∙ sort_ids-Permᴰ c.listed.opened

  -- For an engine that keeps its trees as maps, surfaces each new position once in `opened`, and does not
  -- look at the order of the positions: where an advance is built on the rebuilt tree, from opens that
  -- the history records and from the pauses of the block before the fold's, its pre-pass rejects no open,
  -- and a fold commits it, with the opens in any order, the rebuild of the history that has grown by this
  -- fold, and by later opens of other ids and market sets, by any prices and up to any head, accepts the
  -- fold and ends with the tree that the advance has resolved, which has the predicted state root and
  -- accounts root.
  pub rebuild-with_fold :
      (l : IsTree e) (p : IsPrePass e)
      (serialize : FrameValue e.ScenarioTable e.SmtWitness → Result Bytes)
      (history later : ChainHistory) (state : TreeState) (inputs : EpochInputs)
      (chain_accounts_root : ℕ) (adv : AdvanceFrames) (fold : FoldRecord)
      → rebuild e table history ≡ ok state
      → All (IsRecorded history inputs.domain_separator) inputs.new_positions
      → paused_pairs_at history (fold.block - 1) ≡ inputs.paused_pairs
      → build_advance_frames e serialize state inputs table chain_accounts_root ≡ ok adv
      → Commits state inputs adv fold
      → NoneRejected state inputs
      → Grows history (fold ∷ []) later
      → (out : EpochOutcome) × (resolve_epoch e state inputs table ≡ ok out)
        × (rebuild e table later ≡ ok out.post)
        × (root e out.post ≡ adv.predicted_root)
        × (accounts_root e out.post ≡ adv.predicted_accounts_root)
  rebuild-with_fold l p serialize history later state inputs car adv fold rebuilt recorded paused
        built c none g =
      let sorted = rebuild-IsSorted e table history state rebuilt in
      let (out, resolved, q) =
        build_advance_frames-Predicts e serialize l state inputs table car adv sorted built in
      let (order, recovered, d) = fold_inputs-Lists history inputs fold c.listed recorded in
      let (out', again, same) =
        resolve_epoch-recovered history state inputs adv fold out order c paused d resolved in
      let (before, after) = All-split (SetsAfter g.new_sets) history.folds (fold ∷ []) g.after in
      let accepted : Accepts e table later fold state out'.post = record {
        inputs = recovered_inputs history inputs fold c.listed order;
        outcome = out';
        recovered = fold_inputs-Grows history later (fold ∷ []) fold _ g after.0 recovered;
        committed = c.committed;
        root_prev = sym q.root_prev ∙ sym c.root_prev;
        resolved = again;
        surfaced = surfaced-Commits p history state inputs adv fold out out' c none resolved same;
        root_new = ap (root e) same.post ∙ sym q.root_new ∙ sym c.root_new;
        accounts_root_new =
            ap (accounts_root e) same.post ∙ sym q.accounts_root_new ∙ sym c.accounts_root_new;
        next = refl;
      } in
      let replayed =
        Replays-Grows e table history later (fold ∷ []) g before
          ((rebuild_iff e table history state).0 rebuilt) in
      let all_replayed : Replays e table later later.folds empty_tree out'.post =
        subst (λ fs. Replays e table later fs empty_tree out'.post) (sym g.folds)
          (Replays-snoc e table later replayed accepted) in
      (
        out,
        resolved,
        (rebuild_iff e table later out'.post).1 all_replayed ∙ ap ok same.post,
        sym q.root_new,
        sym q.accounts_root_new,
      )
