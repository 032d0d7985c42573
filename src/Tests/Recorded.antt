-- ===== src/Tests/Recorded.antt =====
-- The unit tests of gate.rs and scan.rs, run on the model: the record of the frozen messages, and a
-- history of market sets with the pause sets at three blocks.
use state_keeper.Prelude.{
  ℕ, Bool, true, false, List, [], ◌∷◌, map, Text, codes, replicate, from_be_bytes, from_be_on, ◌≡◌,
  refl,
}
use state_keeper.BTreeMap.{insert, insert_all}
use state_keeper.Scan.{ChainHistory, MarketSetRecord, paused_pairs_at, paused_tags}
use state_keeper.Gate.{
  Gate, table_artifact_not_this_generation, verify_vkey_drift, verify_scenario_root_drift,
  private_key_unset, advance_wrong_generation, advance_scenario_root_drift, rebuild_root_mismatch,
  rebuild_registry_mismatch, rebuild_scenario_root_mismatch,
}
use state_keeper.Gate.Messages.{message}

abbrev frozen_cases : List (Gate × Text)
frozen_cases =
    (
      table_artifact_not_this_generation (codes "aa") (codes "bb"),
      codes
          "scenario table root mismatch: data/scenario-table.bin commits 0xaa, chains.json pins 0xbb — the core would reject every proof built on this table",
    )
    ∷ (
      verify_vkey_drift,
      codes "the core answers a DIFFERENT vkey than this build is pinned to — do not advance",
    )
    ∷ (
      verify_scenario_root_drift,
      codes "the committed scenario table does not match the on-chain scenarioRoot",
    )
    ∷ (private_key_unset, codes "PRIVATE_KEY is not set — the advance signs a real transaction")
    ∷ (
      advance_wrong_generation (codes "cc") (codes "0xdd"),
      codes "core vkey 0xcc != pinned 0xdd — wrong generation, refusing",
    )
    ∷ (
      advance_scenario_root_drift,
      codes "scenario table does not match the on-chain scenarioRoot — refusing to prove",
    )
    ∷ (
      rebuild_root_mismatch,
      codes "REBUILD MISMATCH: the replayed tree does not reproduce the on-chain root",
    )
    ∷ (
      rebuild_registry_mismatch,
      codes "REBUILD MISMATCH: the replayed registry does not reproduce the on-chain accountsRoot",
    )
    ∷ (
      rebuild_scenario_root_mismatch,
      codes "scenario table mismatch against the on-chain scenarioRoot",
    )
    ∷ []

gate_messages_are_frozen :
    map (λ (c : Gate × Text). message c.0) frozen_cases
    ≡ map (λ (c : Gate × Text). c.1) frozen_cases
unfolding message
gate_messages_are_frozen = refl

-- `[tag; 32]`
abbrev tag_of : ℕ → ℕ
tag_of tag = from_be_bytes (replicate 32 tag)

abbrev set_at : ℕ → ℕ → Bool → Bool → MarketSetRecord
set_at block tag enabled paused = record {
  block = block;
  log_index = 0;
  instrument = 1;
  pair_tag = tag_of tag;
  enabled = enabled;
  paused = paused;
}

abbrev recorded_sets : ChainHistory
recorded_sets = record {
  opens = [];
  folds = [];
  twaps = [];
  market_sets =
      set_at 10 2 true true
      ∷ set_at 11 1 true true
      ∷ set_at 12 2 true false
      ∷ set_at 13 3 false true
      ∷ set_at 14 4 true true
      ∷ [];
  head = 20;
}

paused_at_11 : paused_pairs_at recorded_sets 11 ≡ tag_of 1 ∷ tag_of 2 ∷ []
unfolding insert insert_all paused_tags paused_pairs_at from_be_bytes from_be_on
paused_at_11 = refl

paused_at_13 : paused_pairs_at recorded_sets 13 ≡ tag_of 1 ∷ []
unfolding insert insert_all paused_tags paused_pairs_at from_be_bytes from_be_on
paused_at_13 = refl

paused_at_20 : paused_pairs_at recorded_sets 20 ≡ tag_of 1 ∷ tag_of 4 ∷ []
unfolding insert insert_all paused_tags paused_pairs_at from_be_bytes from_be_on
paused_at_20 = refl
