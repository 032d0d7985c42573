-- ===== src/Frames.antt =====
-- crates/crx-tree/src/frames.rs: the 13 frames of the guest's stdin, and the predicted advance.
-- `serialize` is bincode's encoder.
pub mod Mirror
pub mod Roots
pub mod Prediction
use state_keeper.Prelude.{
  ℕ, Bool, true, false, not, ◌&&◌, ◌==◌, if◌then◌else◌, Option, none, some, List, [], ◌∷◌, ◌++◌,
  map, Result, ok, guard, traverse, ◌>>=◌, ◌>>◌, account_set_drifted,
}
use state_keeper.BTreeMap.{BTreeSet, empty, insert_all, as_entries, contains_key, keys}
use state_keeper.Types.{Bytes, NewPosition, TouchedAccount}
use state_keeper.Engine.{Engine, Row}
use state_keeper.Replay.{TreeState, EpochInputs, EpochOutcome, leaves}
use state_keeper.Replay.Resolve.{resolve_epoch}

-- The element types of the frames that are empty vectors here.
pub data ElementType : Type 0 where
  mark novation novation_witness closeout_novation closeout_novation_witness : ElementType
  unwind unwind_witness : ElementType

-- The values that are encoded, with the table's type `T` and the witnesses' type `W`.
pub data FrameValue (T W : Type 0) : Type 0 where
  book : ℕ → ℕ → List (TouchedAccount W) → FrameValue T W
  empty_vec : ElementType → FrameValue T W
  paused_pairs : List ℕ → FrameValue T W
  new_positions : List NewPosition → FrameValue T W
  proof_now : ℕ → FrameValue T W
  domain_separator : ℕ → FrameValue T W
  scenario_table : T → FrameValue T W

pub record AdvanceFrames : Type 0 where
  pub frames : List Bytes
  pub predicted_root : ℕ
  pub predicted_accounts_root : ℕ
  pub root_prev : ℕ

module _ (e : Engine) where
  -- The two trees and the witnesses, which the loop over the steps updates.
  pub record Trees : Type 0 where
    pub smt : e.Smt2
    pub registry : e.Smt2
    pub touched_accounts : List (TouchedAccount e.SmtWitness)

  abbrev pub is_some {ℓ} : {A : Type ℓ} → Option A → Bool
  is_some none = false
  is_some (some _) = true

  -- The registry's witness and the registry after it, by presence before and after.
  abbrev pub registry_step : ℕ → Bool → Bool → e.Smt2 → Option e.SmtWitness × e.Smt2
  registry_step aid false true t = let s = e.step aid (some e.registry_leaf) t in (some s.0, s.1)
  registry_step aid true false t = let s = e.step aid none t in (some s.0, s.1)
  registry_step aid true true t = (none, t)
  registry_step aid false false t = (none, t)

  abbrev pub touch_present : BTreeSet → ℕ → Option ℕ → Row → Trees → Trees
  touch_present prior_keys aid post row t =
      let s = e.step aid post t.smt in
      let r = registry_step aid (contains_key aid prior_keys) (is_some post) t.registry in
      record {
        smt = s.1;
        registry = r.1;
        touched_accounts =
            t.touched_accounts
            ++ record { account = row.0; risk = row.1; state_witness = s.0; registry_witness = r.0 }
              ∷ [];
      }

  -- One round; an account that was absent and stays absent is dropped.
  unfoldable pub touch : BTreeSet → ℕ → Option ℕ → Row → Trees → Trees
  touch prior_keys aid post row t =
      if not (contains_key aid prior_keys) && not (is_some post)
      then t
      else touch_present prior_keys aid post row t

  -- The loop over the zipped steps and rows, which ends with the shorter of the two.
  unfoldable pub touch_all : BTreeSet → List (ℕ × Option ℕ) → List Row → Trees → Trees
  touch_all prior_keys [] rows t = t
  touch_all prior_keys (s ∷ steps) [] t = t
  touch_all prior_keys ((aid, post) ∷ steps) (row ∷ rows) t =
      touch_all prior_keys steps rows (touch prior_keys aid post row t)

  -- `for k in prior_keys.iter() { registry.insert(*k, reg_leaf) }`
  unfoldable pub insert_registry : List ℕ → e.Smt2 → e.Smt2
  insert_registry [] t = t
  insert_registry (k ∷ ks) t = insert_registry ks (e.insert k e.registry_leaf t)

  abbrev pub prior_keys_of : TreeState → BTreeSet
  prior_keys_of state = insert_all (as_entries (map (λ (x : ℕ × ℕ). x.0) (leaves e state))) empty

  abbrev pub first_trees : TreeState → Trees
  first_trees state = record {
    smt = e.from_leaves (leaves e state);
    registry = insert_registry (keys (prior_keys_of state)) e.new;
    touched_accounts = [];
  }

  -- The trees that the loop of `build_advance_frames` ends with.
  abbrev pub final_trees : TreeState → EpochOutcome → Trees
  final_trees state out =
      touch_all (prior_keys_of state) out.steps out.prior_rows (first_trees state)

  -- The 13 values, in the guest's read order.
  abbrev pub frame_values :
      ℕ
      → ℕ
      → List (TouchedAccount e.SmtWitness)
      → EpochInputs
      → e.ScenarioTable
      → List (FrameValue e.ScenarioTable e.SmtWitness)
  frame_values root_prev chain_accounts_root touched_accounts inputs table =
      book root_prev chain_accounts_root touched_accounts
      ∷ empty_vec mark
      ∷ paused_pairs inputs.paused_pairs
      ∷ empty_vec novation
      ∷ new_positions inputs.new_positions
      ∷ empty_vec novation_witness
      ∷ empty_vec closeout_novation
      ∷ empty_vec closeout_novation_witness
      ∷ proof_now inputs.proof_now
      ∷ domain_separator inputs.domain_separator
      ∷ scenario_table table
      ∷ empty_vec unwind
      ∷ empty_vec unwind_witness
      ∷ []

  unfoldable pub build_advance_frames :
      (FrameValue e.ScenarioTable e.SmtWitness → Result Bytes)
      → TreeState
      → EpochInputs
      → e.ScenarioTable
      → ℕ
      → Result AdvanceFrames
  build_advance_frames serialize state inputs table chain_accounts_root = do
    _table_root ← e.scenario_root table
    let root_prev : ℕ = e.root (e.from_leaves (leaves e state))
    outcome ← resolve_epoch e state inputs table
    guard (e.root (first_trees state).registry == chain_accounts_root) account_set_drifted
    let t : Trees = final_trees state outcome
    frames ←
        traverse serialize
          (frame_values root_prev chain_accounts_root t.touched_accounts inputs table)
    ok (record {
      frames = frames;
      predicted_root = e.root t.smt;
      predicted_accounts_root = e.root t.registry;
      root_prev = root_prev;
    })
