-- ===== src/Replay/Rebuild/Stuck.antt =====
-- A fold that is not accepted, and every history that goes on from it.
use state_keeper.Prelude.{
  ℕ, ◌-◌, ◌≤◌, suc, true, All, All-split, List, [], ◌∷◌, ◌++◌, any, filter, length, length-map,
  some, ok, >>=-eq-ok, ok-injective, ◌≡◌, ◌≢◌, sym, ap, ◌∙◌, subst,
}
use state_keeper.BTreeMap.{get}
use state_keeper.Types.{NewPosition}
use state_keeper.Engine.{Engine}
use state_keeper.Engine.Laws.{IsPrePass, IsSettling}
use state_keeper.Engine.Order.{IsOrderFree}
use state_keeper.Scan.{ChainHistory, FoldRecord, paused_pairs_at}
use state_keeper.Replay.{AccountState, TreeState, EpochInputs, EpochOutcome, empty_tree}
use state_keeper.Replay.Resolve.{resolve_epoch}
use state_keeper.Replay.Resolve.Run.{EpochRun}
use state_keeper.Replay.Rebuild.{sort_ids, replay_fold, replay_folds, rebuild}
use state_keeper.Replay.Rebuild.Accepts.{Replays-replay_folds, replay_fold-Accepts, rebuild_iff}
use state_keeper.Replay.Rebuild.Advance.{Commits, resolve_epoch-recovered}
use state_keeper.Replay.Rebuild.Growth.{Grows, SetsAfter, fold_inputs-Grows, Replays-Grows}
use state_keeper.Replay.Rebuild.Ids.{sort_ids-Permᴰ}
use state_keeper.Replay.Rebuild.Recovered.{IsRecorded, recovered_inputs, fold_inputs-Lists}
use state_keeper.Replay.Rebuild.Rejected.{rejected_of_lengths}
use state_keeper.Replay.Rebuild.Repeated.{replay_fold-repeated}
use state_keeper.Engine.Laws.{consumed_at, expires_at}
use state_keeper.Replay.Rebuild.Surfaced.{ids_of}
use state_keeper.Frames.{AdvanceFrames}

module _ (e : Engine) (table : e.ScenarioTable) where
  -- A replay of two lists of folds goes through the tree of the first.
  replay_folds_rest :
      (history : ChainHistory) (n : ℕ) (xs ys : List FoldRecord) (state middle last : TreeState)
      → replay_folds e table history n xs state ≡ ok middle
      → replay_folds e table history n (xs ++ ys) state ≡ ok last
      → (m : ℕ) × (replay_folds e table history m ys middle ≡ ok last)
  unfolding replay_folds
  replay_folds_rest history n [] ys state middle last h g =
      (n, subst (λ s. replay_folds e table history n ys s ≡ ok last) (ok-injective h) g)
  replay_folds_rest history n (x ∷ xs) ys state middle last h g =
      let (s, first, rest) = >>=-eq-ok (replay_fold e table history n x state) _ h in
      let (t, again, other) = >>=-eq-ok (replay_fold e table history n x state) _ g in
      replay_folds_rest history (suc n) xs ys s middle last rest (
        subst (λ u. replay_folds e table history (suc n) (xs ++ ys) u ≡ ok last)
          (ok-injective (sym again ∙ first)) other)

  -- Where the replay refuses a fold on the tree before it, it refuses every history that goes on from it.
  rebuild-refused :
      (history later : ChainHistory) (fold : FoldRecord) (folds : List FoldRecord)
      (state last : TreeState)
      → rebuild e table history ≡ ok state
      → Grows history (fold ∷ folds) later
      → ((n : ℕ) (state' : TreeState) → replay_fold e table later n fold state ≢ ok state')
      → rebuild e table later ≢ ok last
  unfolding rebuild replay_folds
  rebuild-refused history later fold folds state last rebuilt g refused h =
      let (before, _u) = All-split (SetsAfter g.new_sets) history.folds (fold ∷ folds) g.after in
      let replayed = Replays-replay_folds e table later 1 (
        Replays-Grows e table history later (fold ∷ folds) g before
          ((rebuild_iff e table history state).0 rebuilt)) in
      let whole = subst (λ fs. replay_folds e table later 1 fs empty_tree ≡ ok last) g.folds h in
      let (n, rest) =
        replay_folds_rest later 1 history.folds (fold ∷ folds) empty_tree state last replayed
          whole in
      let (next, accepted, _v) = >>=-eq-ok (replay_fold e table later n fold state) _ rest in
      refused n next accepted

  -- For an engine that panics on two prices of one oracle and expiry, and whose pre-pass leaves the prices
  -- of the rows: where a history rebuilds, and a fold lands that commits two prices of the oracle and
  -- expiry of a position of the tree, whatever its roots, the rebuild of every history that goes on from
  -- there is refused: with any further folds, with later opens of other ids, and with later market sets.
  pub rebuild-repeated :
      (s : IsSettling e) (history later : ChainHistory) (fold : FoldRecord)
      (folds : List FoldRecord) (state last : TreeState) (aid : ℕ) (a : AccountState)
      (oracle expiry : ℕ)
      → rebuild e table history ≡ ok state
      → Grows history (fold ∷ folds) later
      → get aid state.accounts ≡ some a
      → any (expires_at e oracle expiry) a.positions ≡ true
      → 2 ≤ length (filter (consumed_at e oracle expiry) fold.pv.consumed_twaps)
      → rebuild e table later ≢ ok last
  rebuild-repeated s history later fold folds state last aid a oracle expiry rebuilt g found held
        twice =
      rebuild-refused history later fold folds state last rebuilt g λ n state'.
        replay_fold-repeated e s table later n fold state state' aid a oracle expiry found held
          twice

module _ (e : Engine) (o : IsOrderFree e) (p : IsPrePass e) (table : e.ScenarioTable) where
  -- The fold of an advance whose pre-pass rejects an open.
  replay_fold-Commits :
      (history later : ChainHistory) (new : List FoldRecord) (n : ℕ) (fold : FoldRecord)
      (state state' : TreeState) (inputs : EpochInputs) (adv : AdvanceFrames) (out : EpochOutcome)
      (run : EpochRun e state inputs table out) (g : Grows history new later)
      (c : Commits e o table state inputs adv fold)
      → All (IsRecorded history inputs.domain_separator) inputs.new_positions
      → paused_pairs_at history (fold.block - 1) ≡ inputs.paused_pairs
      → resolve_epoch e state inputs table ≡ ok out
      → SetsAfter g.new_sets fold
      → replay_fold e table later n fold state ≡ ok state'
      → run.pre.1.rejected ≡ []
  replay_fold-Commits history later new n fold state state' inputs adv out run g c recorded paused
        resolved after h =
      let a = replay_fold-Accepts e table later n fold state state' h in
      let (order, recovered, d) = fold_inputs-Lists history inputs fold c.listed recorded in
      let still = fold_inputs-Grows history later new fold _ g after recovered in
      let (out', again, same) =
        resolve_epoch-recovered e o table history state inputs adv fold out order c paused d
          resolved in
      let its_inputs : a.inputs ≡ recovered_inputs history inputs fold c.listed order =
        ok-injective (sym a.recovered ∙ still) in
      let its_outcome : a.outcome ≡ out' =
        ok-injective
          (sym a.resolved ∙ ap (λ i. resolve_epoch e state i table) its_inputs ∙ again) in
      let ids = ids_of inputs.new_positions in
      let surfaced : sort_ids (run.pre.1.opened ++ run.pre.1.rejected) ≡ sort_ids ids =
        ap (λ (x : EpochOutcome). sort_ids x.processed_open_ids) run.result
        ∙ sort_ids-Permᴰ same.processed
        ∙ ap (λ (x : EpochOutcome). sort_ids x.processed_open_ids) (sym its_outcome)
        ∙ a.surfaced
        ∙ sym (sort_ids-Permᴰ c.listed.opened) in
      rejected_of_lengths e p table history run.pre.1.opened run.pre.1.rejected inputs.new_positions
        ids
        (p.opened-apply run.rows run.pre.0 inputs.new_positions inputs.proof_now run.pre.1
          run.opened)
        (sym (length-map inputs.new_positions (λ (q : NewPosition). q.terms_id))) surfaced

  -- For an engine that surfaces each new position once in `opened` and does not look at the order of the
  -- positions: where an advance is built on the rebuilt tree, from opens that the history records and
  -- from the pauses of the block before the fold's, its pre-pass rejects an open, and a fold that commits
  -- it lands, the rebuild of every history that goes on from there is refused: with any further folds,
  -- with later opens of other ids, and with later market sets.
  pub rebuild-rejected :
      (history later : ChainHistory) (fold : FoldRecord) (folds : List FoldRecord)
      (state last : TreeState) (inputs : EpochInputs) (adv : AdvanceFrames) (out : EpochOutcome)
      (run : EpochRun e state inputs table out)
      → rebuild e table history ≡ ok state
      → All (IsRecorded history inputs.domain_separator) inputs.new_positions
      → paused_pairs_at history (fold.block - 1) ≡ inputs.paused_pairs
      → resolve_epoch e state inputs table ≡ ok out
      → run.pre.1.rejected ≢ []
      → Commits e o table state inputs adv fold
      → Grows history (fold ∷ folds) later
      → rebuild e table later ≢ ok last
  rebuild-rejected history later fold folds state last inputs adv out run rebuilt recorded paused
        resolved rejected c g =
      let (_u, after) = All-split (SetsAfter g.new_sets) history.folds (fold ∷ folds) g.after in
      rebuild-refused e table history later fold folds state last rebuilt g λ n state' h. rejected (
        replay_fold-Commits history later (fold ∷ folds) n fold state state' inputs adv out run g c
          recorded paused resolved after.0 h)
