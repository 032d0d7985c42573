-- ===== src/Keeper/Commands.antt =====
-- `cmd_rebuild` and `cmd_verify` of main.rs. What they print is left out; the answer is what they report on.
pub mod Gates
pub mod Verify
use state_keeper.Prelude.{ℕ, ◌==◌, Result, ok, guard, refused, ◌>>=◌, ◌>>◌, Text}
use state_keeper.Gate.{
  verify_vkey_drift, verify_scenario_root_drift, rebuild_root_mismatch, rebuild_registry_mismatch,
  rebuild_scenario_root_mismatch,
}
use state_keeper.Engine.{Engine}
use state_keeper.Scan.{ChainHistory}
use state_keeper.Scan.Chain.{Provider}
use state_keeper.Replay.{TreeState, root, accounts_root}
use state_keeper.Keeper.Env.{Env}
use state_keeper.Keeper.Chain.{ChainState, Contracts, read_chain, parse_b32}
use state_keeper.Keeper.Context.{Codecs, Files, Ctx, build_ctx, connect, scan_and_rebuild}

module _ (e : Engine) (c : Codecs e) where
  unfoldable pub cmd_rebuild : Files → Env → Text → Contracts → Provider → Result TreeState
  cmd_rebuild files env chain_name contracts provider = do
    ctx ← build_ctx e c files env chain_name
    connect e c ctx
    chain ← read_chain c.addr_from_str contracts ctx.lane
    found ← scan_and_rebuild e c ctx provider
    guard (root e found.1 == chain.root) (refused rebuild_root_mismatch)
    guard (accounts_root e found.1 == chain.accounts_root) (refused rebuild_registry_mismatch)
    guard (ctx.table_root == chain.scenario_root) (refused rebuild_scenario_root_mismatch)
    ok found.1

  unfoldable pub cmd_verify : Files → Env → Text → Contracts → Result ChainState
  cmd_verify files env chain_name contracts = do
    ctx ← build_ctx e c files env chain_name
    connect e c ctx
    chain ← read_chain c.addr_from_str contracts ctx.lane
    pinned ← parse_b32 c.hex ctx.lane.vkey
    guard (chain.vkey == pinned) (refused verify_vkey_drift)
    guard (ctx.table_root == chain.scenario_root) (refused verify_scenario_root_drift)
    ok chain
