-- ===== src/Keeper/Advance.antt =====
-- `cmd_advance` of main.rs: at most `max_rebase` rounds, each with the answers that it meets.
pub mod Rounds
pub mod Cost
pub mod Landing
pub mod Progress
pub mod Ends
use state_keeper.Prelude.{
  ℕ, ok_or, codes, Text, ◌>>=◌, ◌>>◌, zero, suc, Bool, Option, List, [], ◌++◌, Result, ok, err,
  guard, ◌>>=◌, gave_up, refused,
}
use state_keeper.Gate.{private_key_unset}
use state_keeper.Types.{Bytes}
use state_keeper.Pv.Schema.{PublicValuesStruct}
use state_keeper.Engine.{Engine}
use state_keeper.Frames.{FrameValue}
use state_keeper.Keeper.Chain.{ChainState, Contracts, Lane, read_chain, parse_addr, parse_b32}
use state_keeper.Keeper.Context.{Codecs, Ctx, Files, build_ctx, connect}
use state_keeper.Keeper.Env.{Env, env_nonempty}
use state_keeper.ProveExec.{execute, prove_network}
use state_keeper.Scan.Chain.{Provider}
use state_keeper.Scan.Logs.{scan}
use state_keeper.Keeper.Attempt.{
  Job, submission_of, reading, World, Effect, Ending, advanced, nothing_to_advance, rebase, Round,
  and_then, attempt,
}

abbrev pub max_rebase : ℕ
max_rebase = 3

module _ (e : Engine) (c : Codecs e) where
  -- A round that rebases is followed by the rest of the loop; any other ends the command.
  abbrev pub continue : Round → Round → Round
  continue (trace, ok rebase) rest = (trace ++ rest.0, rest.1)
  continue (trace, ok advanced) rest = (trace, ok advanced)
  continue (trace, ok nothing_to_advance) rest = (trace, ok nothing_to_advance)
  continue (trace, err x) rest = (trace, err x)

  -- The loop with `left` rounds left, the next of them the `n`-th; `worlds n` answers in it.
  unfoldable pub advance_loop : Job e → (ℕ → World) → ℕ → ℕ → Round
  advance_loop job worlds zero n = ([], err gave_up)
  advance_loop job worlds (suc left) n =
      let rest = advance_loop job worlds left (suc n) in continue (attempt e c job (worlds n)) rest

  -- What `cmd_advance` does before its loop.
  unfoldable pub start_job : Files → Env → Text → Result (Job e)
  start_job files env chain_name = do
    ctx ← build_ctx e c files env chain_name
    signer_key ← ok_or (env_nonempty (codes "PRIVATE_KEY") env) (refused private_key_unset)
    connect e c ctx
    core_addr ← parse_addr c.addr_from_str ctx.lane.core
    ok (record { ctx = ctx; signer_key = signer_key; core_addr = core_addr })

  unfoldable pub cmd_advance : Files → Env → Text → (ℕ → World) → Round
  cmd_advance files env chain_name worlds =
      and_then (start_job files env chain_name) λ job. advance_loop job worlds max_rebase 1
