-- ===== src/Keeper/Attempt.antt =====
-- One round of the loop of `cmd_advance` in main.rs. What the chain, the clock, the guest, the prover
-- and the broadcast answer in the round is a parameter; what the round asks of the last three is its
-- trace.
pub mod Sound
pub mod Landed
pub mod Advances
pub mod Lands
pub mod Rebuilds
use state_keeper.Prelude.{
  ℕ, Bool, ◌==◌, if◌then◌else◌, Option, none, some, List, [], ◌∷◌, Result, ok, err, guard, refused,
  guest_diverged, Text,
}
use state_keeper.Gate.{advance_wrong_generation, advance_scenario_root_drift}
use state_keeper.Types.{Bytes}
use state_keeper.Pv.{decode_public_values}
use state_keeper.Engine.{Engine}
use state_keeper.Scan.{ChainHistory}
use state_keeper.Scan.Chain.{Provider}
use state_keeper.Replay.{TreeState, root}
use state_keeper.Frames.{AdvanceFrames, build_advance_frames}
use state_keeper.ProveExec.{Sp1, execute, prove_network}
use state_keeper.Keeper.Env.{Env, now_secs}
use state_keeper.Keeper.Chain.{Lane, ChainState, Contracts, read_chain, parse_b32}
use state_keeper.Keeper.Context.{Codecs, Ctx, hex32, scan_and_rebuild}
use state_keeper.Keeper.Fresh.{fresh_epoch_inputs}
use state_keeper.Keeper.Submit.{
  SubmitOutcome, mined, stale_root, Broadcast, Submission, submit_apply_state,
}

-- The answers of one round. `fresh` is read after the proof, `last` after the broadcast. `env` is the
-- environment that the prover finds.
pub record World : Type 0 where
  pub contracts : Contracts
  pub provider : Provider
  pub clock : Option ℕ
  pub env : Env
  pub sp1 : Sp1
  pub fresh : Contracts
  pub broadcast : Submission → Broadcast
  pub last : Contracts

-- What the command holds before its loop.
pub record Job (e : Engine) : Type 0 where
  pub ctx : Ctx e
  pub signer_key : Text
  pub core_addr : ℕ

pub data Effect : Type 0 where
  executed proved : List Bytes → Effect
  submitted : Submission → Effect

-- How a round ends; `rebase` is the `continue` of the loop.
pub data Ending : Type 0 where
  advanced nothing_to_advance rebase : Ending

abbrev pub Round : Type 0
Round = List Effect × Result Ending

abbrev pub ends : Ending → Round
ends x = ([], ok x)

-- `m?` before the rest of the round.
abbrev pub and_then {ℓ} : {A : Type ℓ} → Result A → (A → Round) → Round
and_then (err x) k = ([], err x)
and_then (ok a) k = k a

abbrev pub doing : Effect → Round → Round
doing x r = (x ∷ r.0, r.1)

module _ (e : Engine) (c : Codecs e) where
  -- One read of the chain.
  abbrev pub reading : Contracts → Lane → Result ChainState
  reading contracts lane = read_chain c.addr_from_str contracts lane

  abbrev pub submission_of : Job e → Bytes × Bytes → Submission
  submission_of job p = record {
    rpc_url = job.ctx.rpc_url;
    core_addr = job.core_addr;
    signer_key = job.signer_key;
    proof = p.0;
    public_values = p.1;
  }

  abbrev pub settle : Job e → World → SubmitOutcome → Round
  settle job w (mined tx) = and_then (reading w.last job.ctx.lane) λ _after. ends advanced
  settle job w stale_root = ends rebase

  -- The re-read before the submission: a moved root rebases.
  unfoldable pub submit_stage : Job e → World → AdvanceFrames → Bytes × Bytes → Round
  submit_stage job w adv p = and_then (reading w.fresh job.ctx.lane) λ (fresh : ChainState).
      if fresh.root == adv.root_prev
      then doing (submitted (submission_of job p)) (
          and_then
            (submit_apply_state c.hex c.abi.keccak (submission_of job p)
              (w.broadcast (submission_of job p)))
            (settle job w))
      else ends rebase

  -- The free execution, its root against the prediction, then the paid proof.
  unfoldable pub prove_stage : Job e → World → AdvanceFrames → Round
  prove_stage job w adv = doing (executed adv.frames) (
      and_then (execute w.sp1 adv.frames) λ pv_exec.
        and_then (decode_public_values c.abi.decode_pv pv_exec) λ decoded.
          and_then
            (guard (decoded.roots.root_new == adv.predicted_root)
              (guest_diverged decoded.roots.root_new adv.predicted_root))
            λ _same. doing (proved adv.frames) (
              and_then (prove_network w.sp1 w.env adv.frames)
                λ (p : (Bytes × Bytes) × Env). submit_stage job w adv p.0))

  unfoldable pub advance_stage : Job e → World → ChainState → ChainHistory → TreeState → Round
  advance_stage job w chain history state =
      and_then (fresh_epoch_inputs e history state chain.domain (now_secs w.clock)) λ inputs.
        and_then (build_advance_frames e c.serialize state inputs job.ctx.table chain.accounts_root)
          λ adv.
            if adv.predicted_root == adv.root_prev
            then ends nothing_to_advance
            else prove_stage job w adv

  unfoldable pub attempt : Job e → World → Round
  attempt job w = and_then (reading w.contracts job.ctx.lane) λ (chain : ChainState).
      and_then (parse_b32 c.hex job.ctx.lane.vkey) λ pinned_vkey.
        and_then
          (guard (chain.vkey == pinned_vkey)
            (refused (advance_wrong_generation (hex32 e c chain.vkey) job.ctx.lane.vkey)))
          λ _generation.
            and_then
              (guard (job.ctx.table_root == chain.scenario_root)
                (refused advance_scenario_root_drift))
              λ _table.
                and_then (scan_and_rebuild e c job.ctx w.provider)
                  λ (scanned : ChainHistory × TreeState).
                    if root e scanned.1 == chain.root
                    then advance_stage job w chain scanned.0 scanned.1
                    else ends rebase
