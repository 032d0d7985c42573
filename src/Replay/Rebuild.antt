-- ===== src/Replay/Rebuild.antt =====
-- `rebuild`: every fold of the history replayed from the empty tree, its committed roots asserted.
pub mod Accepts
pub mod Advance
pub mod Growth
pub mod Backed
pub mod Ids
pub mod Recovered
pub mod Stuck
pub mod Surfaced
pub mod Twice
pub mod Rejected
pub mod Repeated
use state_keeper.Prelude.{
  ℕ, suc, Bool, true, false, ◌&&◌, ◌==◌, leb, if◌then◌else◌, List, [], ◌∷◌, Result, ok, guard,
  ◌>>=◌, ◌>>◌, scenario_root_differs, root_prev_mismatch, open_set_diverges, root_new_mismatch,
  accounts_root_mismatch,
}
use state_keeper.BTreeMap.{BTreeMap}
use state_keeper.Engine.{Engine}
use state_keeper.Scan.{ChainHistory, FoldRecord, OpenRecord}
use state_keeper.Replay.{TreeState, empty_tree, root, accounts_root}
use state_keeper.Replay.Inputs.{opens_by_id, fold_inputs}
use state_keeper.Replay.Resolve.{resolve_epoch}

abbrev pub insert_id : ℕ → List ℕ → List ℕ
insert_id x [] = x ∷ []
insert_id x (y ∷ ys) = let later = y ∷ insert_id x ys in if leb x y then x ∷ y ∷ ys else later

-- `sort_unstable()` on ids, where equal ids cannot be told apart.
unfoldable pub sort_ids : List ℕ → List ℕ
sort_ids [] = []
sort_ids (x ∷ xs) = insert_id x (sort_ids xs)

unfoldable pub ids_eq : List ℕ → List ℕ → Bool
ids_eq [] [] = true
ids_eq [] (y ∷ ys) = false
ids_eq (x ∷ xs) [] = false
ids_eq (x ∷ xs) (y ∷ ys) = x == y && ids_eq xs ys

module _ (e : Engine) (table : e.ScenarioTable) (history : ChainHistory) where
  -- One fold, the `n`-th of the history, on the tree so far.
  unfoldable pub replay_fold : ℕ → FoldRecord → TreeState → Result TreeState
  replay_fold n fold state = do
    inputs ← fold_inputs fold (opens_by_id history) history
    table_root ← e.scenario_root table
    guard (table_root == fold.pv.scenario_root) (scenario_root_differs n)
    guard (root e state == fold.pv.roots.root_prev) (root_prev_mismatch n)
    outcome ← resolve_epoch e state inputs table
    guard (ids_eq (sort_ids outcome.processed_open_ids) (sort_ids fold.pv.opened_position_ids))
        (open_set_diverges n)
    guard (root e outcome.post == fold.pv.roots.root_new) (root_new_mismatch n)
    guard (accounts_root e outcome.post == fold.pv.roots.accounts_root_new)
        (accounts_root_mismatch n)
    ok outcome.post

  unfoldable pub replay_folds : ℕ → List FoldRecord → TreeState → Result TreeState
  replay_folds n [] state = ok state
  replay_folds n (fold ∷ folds) state = replay_fold n fold state >>= replay_folds (suc n) folds

  unfoldable pub rebuild : Result TreeState
  rebuild = replay_folds 1 history.folds empty_tree
