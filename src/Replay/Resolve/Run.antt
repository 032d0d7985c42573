-- ===== src/Replay/Resolve/Run.antt =====
-- The three stages that a resolved epoch went through: the rows, the open pre-pass, the resolve loop.
use state_keeper.Prelude.{
  ℕ, Bool, Option, List, [], ◌++◌, any, ok, >>=-eq-ok, traverse, ◌≡◌, ok-injective,
}
use state_keeper.BTreeMap.{BTreeMap, empty, keys}
use state_keeper.Types.{BookOpenOutcome}
use state_keeper.Engine.{Engine, Row}
use state_keeper.Replay.{AccountState, TreeState, EpochInputs, EpochOutcome}
use state_keeper.Replay.Resolve.{resolve_rows, resolve_epoch, touched_set, build_row, is_nonempty}

-- Whether any touched account carries a mark.
abbrev pub is_marking : List Row → Bool
is_marking rows = any (λ (r : Row). is_nonempty r.1.proven_marks) rows

abbrev pub outcome_of :
    List Row
    → List Row × BookOpenOutcome
    → BTreeMap AccountState × List (ℕ × Option ℕ)
    → EpochOutcome
outcome_of rows pre res = record {
  post = record { accounts = res.0 };
  steps = res.1;
  prior_rows = rows;
  processed_open_ids = pre.1.opened ++ pre.1.rejected;
}

module _ (e : Engine) where
  pub record EpochRun (prior : TreeState) (inputs : EpochInputs) (table : e.ScenarioTable)
      (out : EpochOutcome) : Type 0 where
    pub rows : List Row
    pub pre : List Row × BookOpenOutcome
    pub res : BTreeMap AccountState × List (ℕ × Option ℕ)
    pub built : traverse (build_row e prior inputs) (keys (touched_set e prior inputs)) ≡ ok rows
    pub opened : e.apply_new_boxes_to_book rows inputs.new_positions inputs.proof_now ≡ ok pre
    pub resolved :
        resolve_rows e inputs table
          (is_marking rows)
          (keys (touched_set e prior inputs))
          pre.0
          empty
          []
        ≡ ok res
    pub result : outcome_of rows pre res ≡ out

  pub resolve_epoch-EpochRun :
      (prior : TreeState) (inputs : EpochInputs) (table : e.ScenarioTable) (out : EpochOutcome)
      → resolve_epoch e prior inputs table ≡ ok out
      → EpochRun prior inputs table out
  unfolding resolve_epoch
  resolve_epoch-EpochRun prior inputs table out h =
      let touched = keys (touched_set e prior inputs) in
      let (rows, built, h1) = >>=-eq-ok (traverse (build_row e prior inputs) touched) _ h in
      let (pre, opened, h2) =
        >>=-eq-ok (e.apply_new_boxes_to_book rows inputs.new_positions inputs.proof_now) _ h1 in
      let (res, done, h3) =
        >>=-eq-ok (resolve_rows e inputs table (is_marking rows) touched pre.0 empty []) _ h2 in
      record {
        rows = rows;
        pre = pre;
        res = res;
        built = built;
        opened = opened;
        resolved = done;
        result = ok-injective h3;
      }
