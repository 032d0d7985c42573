-- ===== src/Replay.antt =====
-- crates/crx-tree/src/replay.rs: the rebuilt tree and the inputs of one epoch. Children: the mapping
-- of an open (Open), one epoch (Resolve), the recovery of a fold's inputs (Inputs), the whole replay
-- (Rebuild), and the proofs below them.
pub mod Open
pub mod Resolve
pub mod Inputs
pub mod Rebuild
use state_keeper.Prelude.{ℕ, ℤ, Option, List, [], ◌∷◌, map}
use state_keeper.BTreeMap.{BTreeMap, empty, keys}
use state_keeper.Types.{PositionRecord, NewPosition, ProvenMark, ProvenTwap, Account, RiskInputs}
use state_keeper.Engine.{Engine, Row}

pub record AccountState : Type 0 where
  pub owner : ℕ
  pub vm_equity : ℤ
  pub positions : List PositionRecord

-- Keyed by `account_id_single(owner)`.
pub record TreeState : Type 0 where
  pub accounts : BTreeMap AccountState

abbrev pub empty_tree : TreeState
empty_tree = record { accounts = empty }

module _ (e : Engine) where
  abbrev pub leaf_of : ℕ → AccountState → ℕ
  leaf_of aid a = e.account_leaf aid a.vm_equity (e.positions_root a.positions)

  abbrev pub leaves_of : BTreeMap AccountState → List (ℕ × ℕ)
  leaves_of [] = []
  leaves_of ((aid, a) ∷ m) = (aid, leaf_of aid a) ∷ leaves_of m

  unfoldable pub leaves : TreeState → List (ℕ × ℕ)
  leaves s = leaves_of s.accounts

  unfoldable pub root : TreeState → ℕ
  unfolding leaves
  root s = e.root (e.from_leaves (leaves s))

  unfoldable pub accounts_root : TreeState → ℕ
  accounts_root s = e.credited_deposit_registry (keys s.accounts)

pub record EpochInputs : Type 0 where
  pub new_positions : List NewPosition
  pub proven_marks : List ProvenMark
  pub proven_twaps : List ProvenTwap
  pub paused_pairs : List ℕ
  pub proof_now : ℕ
  pub domain_separator : ℕ

pub record EpochOutcome : Type 0 where
  pub post : TreeState
  pub steps : List (ℕ × Option ℕ)
  pub prior_rows : List Row
  pub processed_open_ids : List ℕ
