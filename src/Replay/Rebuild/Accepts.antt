-- ===== src/Replay/Rebuild/Accepts.antt =====
-- What `rebuild` asks of a fold, and the order of the tree that it answers.
use state_keeper.Prelude.{
  ℕ, suc, true, ◌==◌, List, [], ◌∷◌, ◌++◌, ok, guard, guard-eq-ok, >>=-eq-ok, ==_iff, ok-injective,
  scenario_root_differs, root_prev_mismatch, open_set_diverges, root_new_mismatch,
  accounts_root_mismatch, ◌≡◌, ◌↔◌, refl, ap, ◌∙◌, subst, arith,
}
use state_keeper.BTreeMap.Order.{IsSorted}
use state_keeper.Engine.{Engine}
use state_keeper.Scan.{ChainHistory, FoldRecord}
use state_keeper.Replay.{TreeState, EpochInputs, EpochOutcome, empty_tree, root, accounts_root}
use state_keeper.Replay.Inputs.{opens_by_id, fold_inputs}
use state_keeper.Replay.Resolve.{resolve_epoch}
use state_keeper.Replay.Resolve.Steps.{resolve_epoch-EpochShape}
use state_keeper.Replay.Rebuild.{sort_ids, ids_eq, replay_fold, replay_folds, rebuild}

pub ids_eq_sound : (xs ys : List ℕ) → ids_eq xs ys ≡ true → xs ≡ ys
unfolding ids_eq
ids_eq_sound [] [] h = refl
ids_eq_sound [] (y ∷ ys) h = cc
ids_eq_sound (x ∷ xs) [] h = cc
ids_eq_sound (x ∷ xs) (y ∷ ys) h = ground (arith, ids_eq_sound xs ys)

pub ids_eq_refl : (xs : List ℕ) → ids_eq xs xs ≡ true
unfolding ids_eq
ids_eq_refl [] = refl
ids_eq_refl (x ∷ xs) = ground (arith, ids_eq_refl xs)

module _ (e : Engine) (table : e.ScenarioTable) (history : ChainHistory) where
  -- The fold takes the tree `state` to `state'`: its inputs are recovered, its table and prior root are
  -- these, the epoch surfaces the ids that the fold lists, and both committed roots are reproduced.
  pub record Accepts (fold : FoldRecord) (state state' : TreeState) : Type 0 where
    pub inputs : EpochInputs
    pub outcome : EpochOutcome
    pub recovered : fold_inputs fold (opens_by_id history) history ≡ ok inputs
    pub committed : e.scenario_root table ≡ ok fold.pv.scenario_root
    pub root_prev : root e state ≡ fold.pv.roots.root_prev
    pub resolved : resolve_epoch e state inputs table ≡ ok outcome
    pub surfaced : sort_ids outcome.processed_open_ids ≡ sort_ids fold.pv.opened_position_ids
    pub root_new : root e outcome.post ≡ fold.pv.roots.root_new
    pub accounts_root_new : accounts_root e outcome.post ≡ fold.pv.roots.accounts_root_new
    pub next : outcome.post ≡ state'

  pub replay_fold-Accepts :
      (n : ℕ) (fold : FoldRecord) (state state' : TreeState)
      → replay_fold e table history n fold state ≡ ok state'
      → Accepts fold state state'
  unfolding replay_fold
  replay_fold-Accepts n fold state state' h =
      let (inputs, recovered, h1) =
        >>=-eq-ok (fold_inputs fold (opens_by_id history) history) _ h in
      let (table_root, committed, h2) = >>=-eq-ok (e.scenario_root table) _ h1 in
      let (_u, g1, h3) =
        >>=-eq-ok (guard (table_root == fold.pv.scenario_root) (scenario_root_differs n)) _ h2 in
      let (_v, g2, h4) =
        >>=-eq-ok (guard (root e state == fold.pv.roots.root_prev) (root_prev_mismatch n)) _ h3 in
      let (out, resolved, h5) = >>=-eq-ok (resolve_epoch e state inputs table) _ h4 in
      let got = sort_ids out.processed_open_ids in
      let want = sort_ids fold.pv.opened_position_ids in
      let (_w, g3, h6) = >>=-eq-ok (guard (ids_eq got want) (open_set_diverges n)) _ h5 in
      let (_x, g4, h7) =
        >>=-eq-ok (guard (root e out.post == fold.pv.roots.root_new) (root_new_mismatch n)) _ h6 in
      let (_y, g5, h8) =
        >>=-eq-ok
          (guard (accounts_root e out.post == fold.pv.roots.accounts_root_new)
            (accounts_root_mismatch n))
          _ h7 in
      record {
        inputs = inputs;
        outcome = out;
        recovered = recovered;
        committed = committed ∙ ap ok ((==_iff _ _).0 (guard-eq-ok _ (scenario_root_differs n) g1));
        root_prev = (==_iff _ _).0 (guard-eq-ok _ (root_prev_mismatch n) g2);
        resolved = resolved;
        surfaced = ids_eq_sound got want (guard-eq-ok _ (open_set_diverges n) g3);
        root_new = (==_iff _ _).0 (guard-eq-ok _ (root_new_mismatch n) g4);
        accounts_root_new = (==_iff _ _).0 (guard-eq-ok _ (accounts_root_mismatch n) g5);
        next = ok-injective h8;
      }

  pub Accepts-replay_fold :
      (n : ℕ) (fold : FoldRecord) (state state' : TreeState)
      → Accepts fold state state'
      → replay_fold e table history n fold state ≡ ok state'
  unfolding replay_fold
  Accepts-replay_fold n fold state state' a =
      ground (arith, ids_eq_refl (sort_ids fold.pv.opened_position_ids))

  -- `replay_fold` answers a tree exactly when the fold is accepted with it.
  pub replay_fold_iff :
      (n : ℕ) (fold : FoldRecord) (state state' : TreeState)
      → (replay_fold e table history n fold state ≡ ok state') ↔ Accepts fold state state'
  replay_fold_iff n fold state state' =
      (replay_fold-Accepts n fold state state', Accepts-replay_fold n fold state state')

  -- The folds, each accepted in turn.
  pub data Replays : List FoldRecord → TreeState → TreeState → Type 0 where
    done : {state : TreeState} → Replays [] state state
    next :
        {fold : FoldRecord} {folds : List FoldRecord} {state middle last : TreeState}
        → Accepts fold state middle
        → Replays folds middle last
        → Replays (fold ∷ folds) state last

  replay_folds-Replays :
      (n : ℕ) (folds : List FoldRecord) (state last : TreeState)
      → replay_folds e table history n folds state ≡ ok last
      → Replays folds state last
  unfolding replay_folds
  replay_folds-Replays n [] state last h = subst (Replays [] state) (ok-injective h) done
  replay_folds-Replays n (fold ∷ folds) state last h =
      let (middle, first, rest) = >>=-eq-ok (replay_fold e table history n fold state) _ h in
      next (replay_fold-Accepts n fold state middle first)
        (replay_folds-Replays (suc n) folds middle last rest)

  pub Replays-replay_folds :
      (n : ℕ) {folds : List FoldRecord} {state last : TreeState}
      → Replays folds state last
      → replay_folds e table history n folds state ≡ ok last
  unfolding replay_folds
  Replays-replay_folds n done = refl
  Replays-replay_folds n (next {fold = f} {state = s} {middle = m} a r) =
      rw (Accepts-replay_fold n f s m a) (Replays-replay_folds (suc n) r)

  -- `rebuild` answers a tree exactly when every fold of the history is accepted in turn from the empty
  -- tree: the replay refuses nothing else and lets no other root pass.
  pub rebuild_iff :
      (last : TreeState)
      → (rebuild e table history ≡ ok last) ↔ Replays history.folds empty_tree last
  unfolding rebuild
  rebuild_iff last = (replay_folds-Replays 1 history.folds empty_tree last, Replays-replay_folds 1)

  Accepts-IsSorted :
      (fold : FoldRecord) (state state' : TreeState)
      → Accepts fold state state'
      → IsSorted state'.accounts
  Accepts-IsSorted fold state state' a =
      subst (λ (s : TreeState). IsSorted s.accounts) a.next
        (resolve_epoch-EpochShape e state a.inputs table a.outcome a.resolved).sorted

  Replays-IsSorted :
      {folds : List FoldRecord} {state last : TreeState}
      → Replays folds state last
      → IsSorted state.accounts
      → IsSorted last.accounts
  Replays-IsSorted done s = s
  Replays-IsSorted (next {fold = f} {state = a} {middle = m} acc r) s =
      Replays-IsSorted r (Accepts-IsSorted f a m acc)

  -- A rebuilt tree holds its accounts in strictly ascending order.
  pub rebuild-IsSorted :
      (last : TreeState) → rebuild e table history ≡ ok last → IsSorted last.accounts
  rebuild-IsSorted last h = Replays-IsSorted ((rebuild_iff last).0 h) tt

  pub Replays-snoc :
      {folds : List FoldRecord} {fold : FoldRecord} {state middle last : TreeState}
      → Replays folds state middle
      → Accepts fold middle last
      → Replays (folds ++ fold ∷ []) state last
  Replays-snoc done a = next a done
  Replays-snoc (next b r) a = next b (Replays-snoc r a)
