-- ===== src/Gate/Messages.antt =====
-- The `#[error(..)]` strings of gate.rs.
use state_keeper.Prelude.{codes, Text, ◌++◌}
use state_keeper.Gate.{
  Gate, table_artifact_not_this_generation, verify_vkey_drift, verify_scenario_root_drift,
  private_key_unset, advance_wrong_generation, advance_scenario_root_drift, rebuild_root_mismatch,
  rebuild_registry_mismatch, rebuild_scenario_root_mismatch,
}

-- `to_string()`
unfoldable pub message : Gate → Text
message (table_artifact_not_this_generation local pinned) =
    codes "scenario table root mismatch: data/scenario-table.bin commits 0x"
    ++ local
    ++ codes ", chains.json pins 0x"
    ++ pinned
    ++ codes " — the core would reject every proof built on this table"
message verify_vkey_drift =
    codes "the core answers a DIFFERENT vkey than this build is pinned to — do not advance"
message verify_scenario_root_drift =
    codes "the committed scenario table does not match the on-chain scenarioRoot"
message private_key_unset = codes "PRIVATE_KEY is not set — the advance signs a real transaction"
message (advance_wrong_generation chain pinned) =
    codes "core vkey 0x"
    ++ chain
    ++ codes " != pinned "
    ++ pinned
    ++ codes " — wrong generation, refusing"
message advance_scenario_root_drift =
    codes "scenario table does not match the on-chain scenarioRoot — refusing to prove"
message rebuild_root_mismatch =
    codes "REBUILD MISMATCH: the replayed tree does not reproduce the on-chain root"
message rebuild_registry_mismatch =
    codes "REBUILD MISMATCH: the replayed registry does not reproduce the on-chain accountsRoot"
message rebuild_scenario_root_mismatch =
    codes "scenario table mismatch against the on-chain scenarioRoot"
