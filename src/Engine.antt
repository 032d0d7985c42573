-- ===== src/Engine.antt =====
-- The vendored engine (crates/vendor) as the keeper calls it: a parameter of the model, with the
-- documented behaviour that the keeper relies on as named hypotheses. A function that asserts may
-- panic and returns a `Result`.
pub mod Laws
pub mod Leaves
pub mod Order
use state_keeper.Prelude.{ℕ, ℤ, Option, List, Bool, Result}
use state_keeper.Types.{
  Bytes, Account, RiskInputs, PositionRecord, PositionSettlement, ProvenTwap, ProvenMark,
  ConsumedTwap, ConsumedMark, NewPosition, BookOpenOutcome, AccountResolve,
}

abbrev pub Row : Type 0
Row = Account × RiskInputs

pub record Engine : Type 1 where
  -- crxvm: the scenario table and its commitment, which validates first
  pub ScenarioTable : Type 0
  pub scenario_root : ScenarioTable → Result ℕ
  -- im-crypto
  pub account_id_single : ℕ → ℕ
  pub account_leaf : ℕ → ℤ → ℕ → ℕ
  pub registry_leaf : ℕ
  pub positions_root : List PositionRecord → ℕ
  -- crxvm
  pub feed_id_oracle : ℕ → ℕ
  pub pair_tag_of : ℕ → ℕ
  pub mark_binds_position : PositionRecord → ProvenMark → Bool
  pub mark_fresh : ℕ → ℕ → Bool
  pub apply_new_boxes_to_book :
      List Row → List NewPosition → ℕ → Result (List Row × BookOpenOutcome)
  pub position_settlements_from_twaps :
      List PositionRecord → List ProvenTwap → Result (List PositionSettlement × List ConsumedTwap)
  pub account_vm_from_marks : List PositionRecord → List ProvenMark → Result (ℤ × List ConsumedMark)
  pub resolve_account :
      ℕ
      → List PositionRecord
      → List PositionSettlement
      → ℤ
      → List ℕ
      → ℕ
      → ScenarioTable
      → Result AccountResolve
  -- im-state: the keyed tree
  pub Smt2 : Type 0
  pub SmtWitness : Type 0
  pub new : Smt2
  pub insert : ℕ → ℕ → Smt2 → Smt2
  pub remove : ℕ → Smt2 → Smt2
  pub get : ℕ → Smt2 → Option ℕ
  pub root : Smt2 → ℕ
  pub from_leaves : List (ℕ × ℕ) → Smt2
  pub step : ℕ → Option ℕ → Smt2 → SmtWitness × Smt2
  pub credited_deposit_registry : List ℕ → ℕ
