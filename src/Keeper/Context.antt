-- ===== src/Keeper/Context.antt =====
-- `Ctx` and `build_ctx` of main.rs, and `load_scenario_table` of crates/crx-tree/src/lib.rs, with what the
-- keeper is linked with outside the repository.
use state_keeper.Prelude.{
  ℕ, Bool, ◌==◌, Option, none, some, List, be_bytes, Result, ok, guard, refused, bad_url, ◌>>=◌,
  ◌>>◌, Text, codes,
}
use state_keeper.Gate.{table_artifact_not_this_generation}
use state_keeper.Types.{Bytes}
use state_keeper.Engine.{Engine}
use state_keeper.Scan.{ChainHistory}
use state_keeper.Scan.Chain.{Abi, Provider}
use state_keeper.Scan.Logs.{scan}
use state_keeper.Replay.{TreeState}
use state_keeper.Replay.Rebuild.{rebuild}
use state_keeper.Frames.{FrameValue}
use state_keeper.Keeper.Env.{Env, env_nonempty}
use state_keeper.Keeper.Chain.{Lane, Hex, load_lane, parse_addr, parse_b32}

-- bincode, alloy's ABI and addresses, keccak and hex.
pub record Codecs (e : Engine) : Type 0 where
  pub serialize : FrameValue e.ScenarioTable e.SmtWitness → Result Bytes
  pub deserialize : Bytes → Result e.ScenarioTable
  pub abi : Abi
  pub hex : Hex
  pub addr_from_str : Text → Option ℕ
  pub url_parses : Text → Bool
  pub parse_chains : Text → Result (List Lane)

-- The files that the keeper reads.
pub record Files : Type 0 where
  pub read_to_string : Text → Option Text
  pub read : Text → Result Bytes

pub record Ctx (e : Engine) : Type 0 where
  pub lane : Lane
  pub rpc_url : Text
  pub table : e.ScenarioTable
  pub table_root : ℕ

module _ (e : Engine) (c : Codecs e) where
  unfoldable pub load_scenario_table : Result Bytes → Result (e.ScenarioTable × ℕ)
  load_scenario_table file = do
    bytes ← file
    table ← c.deserialize bytes
    table_root ← e.scenario_root table
    ok (table, table_root)

  -- `hex::encode` of a `[u8; 32]`
  abbrev pub hex32 : ℕ → Text
  hex32 n = c.hex.encode (be_bytes 32 n)

  abbrev pub unwrap_or : Option Text → Text → Text
  unwrap_or none d = d
  unwrap_or (some v) d = v

  unfoldable pub build_ctx : Files → Env → Text → Result (Ctx e)
  build_ctx files env chain_name = do
    lane ← load_lane files.read_to_string c.parse_chains chain_name
    let rpc_url : Text = unwrap_or (env_nonempty (codes "RPC_URL") env) lane.rpc_url
    loaded ← load_scenario_table (files.read (codes "data/scenario-table.bin"))
    expect ← parse_b32 c.hex lane.scenario_root
    guard (loaded.1 == expect)
        (refused (table_artifact_not_this_generation (hex32 loaded.1) (hex32 expect)))
    ok (record { lane = lane; rpc_url = rpc_url; table = loaded.0; table_root = loaded.1 })

  -- `connect_http(ctx.rpc_url.parse()?)`
  abbrev pub connect : Ctx e → Result (Unit {0})
  connect ctx = guard (c.url_parses ctx.rpc_url) bad_url

  unfoldable pub scan_and_rebuild : Ctx e → Provider → Result (ChainHistory × TreeState)
  scan_and_rebuild ctx provider = do
    core ← parse_addr c.addr_from_str ctx.lane.core
    history ← scan c.abi provider core ctx.lane.deploy_block
    state ← rebuild e ctx.table history
    ok (history, state)
