-- ===== src/Gate.antt =====
-- crates/state-keeper/src/gate.rs: the refusals of the keeper, one constructor for each. A `String` is
-- its code points.
pub mod Messages
use Prim.Native.Nat.{ℕ}
use mathlib.Core.List.{List}

pub data Gate : Type 0 where
  -- the local commitment in hex, and the pinned one
  table_artifact_not_this_generation : List ℕ → List ℕ → Gate
  verify_vkey_drift : Gate
  verify_scenario_root_drift : Gate
  private_key_unset : Gate
  -- the chain's vkey in hex, and the lane's as it is written
  advance_wrong_generation : List ℕ → List ℕ → Gate
  advance_scenario_root_drift : Gate
  rebuild_root_mismatch : Gate
  rebuild_registry_mismatch : Gate
  rebuild_scenario_root_mismatch : Gate
