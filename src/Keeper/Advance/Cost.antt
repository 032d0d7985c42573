-- ===== src/Keeper/Advance/Cost.antt =====
-- How much `cmd_advance` asks for at most.
use state_keeper.Prelude.{
  ℕ, Text, zero, suc, ◌+◌, ◌≤◌, Bool, true, false, ◌==◌, if◌then◌else◌, List, [], ◌∷◌, ◌++◌, Result,
  ok, err, guard, ◌≡◌, refl, arith,
}
use state_keeper.Types.{Bytes}
use state_keeper.Pv.{decode_public_values}
use state_keeper.Engine.{Engine}
use state_keeper.Replay.{root}
use state_keeper.Frames.{AdvanceFrames, build_advance_frames}
use state_keeper.Keeper.Chain.{parse_b32}
use state_keeper.Keeper.Context.{Codecs, Files, scan_and_rebuild}
use state_keeper.Keeper.Env.{Env, now_secs}
use state_keeper.ProveExec.{execute, prove_network}
use state_keeper.Keeper.Fresh.{fresh_epoch_inputs}
use state_keeper.Keeper.Submit.{SubmitOutcome, mined, stale_root, submit_apply_state}
use state_keeper.Keeper.Attempt.{
  Job, submission_of, reading, World, Effect, executed, proved, submitted, advanced,
  nothing_to_advance, rebase, Round, ends, and_then, doing, settle, submit_stage, prove_stage,
  advance_stage, attempt,
}
use state_keeper.Keeper.Advance.{start_job, continue, advance_loop, cmd_advance}

-- The proofs that a trace pays for, and its submissions.
abbrev pub proofs : List Effect → ℕ
proofs [] = 0
proofs (executed f ∷ t) = proofs t
proofs (proved f ∷ t) = suc (proofs t)
proofs (submitted s ∷ t) = proofs t

abbrev pub submissions : List Effect → ℕ
submissions [] = 0
submissions (executed f ∷ t) = submissions t
submissions (proved f ∷ t) = submissions t
submissions (submitted s ∷ t) = suc (submissions t)

proofs-append : (t u : List Effect) → proofs (t ++ u) ≡ proofs t + proofs u
proofs-append [] u = omega arith
proofs-append (executed f ∷ t) u = proofs-append t u
proofs-append (proved f ∷ t) u = omega (arith, proofs-append t u)
proofs-append (submitted s ∷ t) u = proofs-append t u

submissions-append : (t u : List Effect) → submissions (t ++ u) ≡ submissions t + submissions u
submissions-append [] u = omega arith
submissions-append (executed f ∷ t) u = submissions-append t u
submissions-append (proved f ∷ t) u = submissions-append t u
submissions-append (submitted s ∷ t) u = omega (arith, submissions-append t u)

-- At most `n` proofs, and no more submissions than proofs.
abbrev pub Costs : ℕ → List Effect → Type 0
Costs n t = (proofs t ≤ n) × (submissions t ≤ proofs t)

-- A predicate of traces goes through `and_then` if the empty trace has it.
trace-and_then {ℓ} :
    {A : Type ℓ} (F : List Effect → Type 0) (m : Result A) (k : A → Round)
    → F []
    → ((a : A) → F (k a).0)
    → F (and_then m k).0
trace-and_then F (err x) k z h = z
trace-and_then F (ok a) k z h = h a

Costs-and_then {ℓ} :
    {A : Type ℓ} (n : ℕ) (m : Result A) (k : A → Round)
    → ((a : A) → Costs n (k a).0)
    → Costs n (and_then m k).0
Costs-and_then n m k = trace-and_then (Costs n) m k (omega arith, omega arith)

Costs-if :
    (n : ℕ) (b : Bool) (x y : Round) → Costs n x.0 → Costs n y.0 → Costs n (if b then x else y).0
Costs-if n true x y h g = h
Costs-if n false x y h g = g

none_asked : (n : ℕ) → Costs n []
none_asked n = (omega arith, omega arith)

module _ (e : Engine) (c : Codecs e) where
  settle-Costs :
      (job : Job e) (w : World) (r : Result SubmitOutcome) → (and_then r (settle e c job w)).0 ≡ []
  settle-Costs job w (err x) = refl
  settle-Costs job w (ok (mined tx)) =
      trace-and_then (λ t. t ≡ []) (reading e c w.last job.ctx.lane) (λ _after. ends advanced) refl
        (λ _a. refl)
  settle-Costs job w (ok stale_root) = refl

  -- From the submission on: no proof, at most one submission.
  submit_stage-Costs :
      (job : Job e) (w : World) (adv : AdvanceFrames) (p : Bytes × Bytes) (f : List Bytes)
      → Costs 1 (proved f ∷ (submit_stage e c job w adv p).0)
  unfolding submit_stage
  submit_stage-Costs job w adv p f =
      trace-and_then (λ t. Costs 1 (proved f ∷ t)) (reading e c w.fresh job.ctx.lane) _
        (omega arith, omega arith)
        λ fresh. ground (
          arith,
          settle-Costs job w (
              submit_apply_state c.hex c.abi.keccak (submission_of e c job p)
                (w.broadcast (submission_of e c job p))),
        )

  proof-Costs :
      (job : Job e) (w : World) (adv : AdvanceFrames)
      → Costs 1
          (doing (proved adv.frames) (
            and_then
              (prove_network w.sp1 w.env adv.frames)
              λ (a : (Bytes × Bytes) × Env). submit_stage e c job w adv a.0)).0
  proof-Costs job w adv =
      trace-and_then (λ t. Costs 1 (proved adv.frames ∷ t)) (prove_network w.sp1 w.env adv.frames) _
        (omega arith, omega arith) λ a. submit_stage-Costs job w adv a.0 adv.frames

  attempt-Costs : (job : Job e) (w : World) → Costs 1 (attempt e c job w).0
  unfolding attempt advance_stage prove_stage
  attempt-Costs job w = Costs-and_then 1 (reading e c w.contracts job.ctx.lane) _ λ chain.
      Costs-and_then 1 (parse_b32 c.hex job.ctx.lane.vkey) _ λ pinned.
        Costs-and_then 1 (guard (chain.vkey == pinned) _) _ λ _g.
          Costs-and_then 1 (guard (job.ctx.table_root == chain.scenario_root) _) _ λ _t.
            Costs-and_then 1 (scan_and_rebuild e c job.ctx w.provider) _ λ r.
              Costs-if 1 (root e r.1 == chain.root) _ _
                (Costs-and_then 1 (fresh_epoch_inputs e r.0 r.1 chain.domain (now_secs w.clock)) _
                  λ inputs.
                    Costs-and_then 1
                      (build_advance_frames e c.serialize r.1 inputs job.ctx.table
                        chain.accounts_root)
                      _
                      λ adv. Costs-if 1 (adv.predicted_root == adv.root_prev) _ _ (none_asked 1) (
                        Costs-and_then 1 (execute w.sp1 adv.frames) _ λ pv.
                          Costs-and_then 1 (decode_public_values c.abi.decode_pv pv) _ λ decoded.
                            Costs-and_then 1
                              (guard (decoded.roots.root_new == adv.predicted_root) _) _
                              λ _s. proof-Costs job w adv))
                (none_asked 1)

  continue-Costs :
      (n : ℕ) (r rest : Round)
      → Costs 1 r.0
      → Costs n rest.0
      → Costs (suc n) (continue e c r rest).0
  continue-Costs n (t, ok rebase) rest h g = (
    omega (arith, proofs-append t rest.0, h.0, g.0),
    omega (arith, proofs-append t rest.0, submissions-append t rest.0, h.1, g.1),
  )
  continue-Costs n (t, ok advanced) rest h g = (omega (arith, h.0), h.1)
  continue-Costs n (t, ok nothing_to_advance) rest h g = (omega (arith, h.0), h.1)
  continue-Costs n (t, err x) rest h g = (omega (arith, h.0), h.1)

  advance_loop-Costs :
      (job : Job e) (worlds : ℕ → World) (left n : ℕ)
      → Costs left (advance_loop e c job worlds left n).0
  unfolding advance_loop
  advance_loop-Costs job worlds zero n = none_asked 0
  advance_loop-Costs job worlds (suc left) n =
      continue-Costs left (attempt e c job (worlds n)) _ (attempt-Costs job (worlds n))
        (advance_loop-Costs job worlds left (suc n))

  -- Whatever is answered from outside, `cmd_advance` pays for at most three proofs, and submits no more
  -- often than it has proved.
  pub cmd_advance-Costs :
      (files : Files) (env : Env) (chain_name : Text) (worlds : ℕ → World)
      → Costs 3 (cmd_advance e c files env chain_name worlds).0
  unfolding cmd_advance
  cmd_advance-Costs files env chain_name worlds =
      Costs-and_then 3 (start_job e c files env chain_name) _
        λ job. advance_loop-Costs job worlds 3 1
