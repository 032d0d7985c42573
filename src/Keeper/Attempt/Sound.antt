-- ===== src/Keeper/Attempt/Sound.antt =====
-- What a round has established before each thing that it asks.
use state_keeper.Prelude.{
  ℕ, Bool, true, false, ◌==◌, if◌then◌else◌, All, Result, ok, err, guard, guard-eq-ok, ==_iff,
  >>=-eq-ok, ok-injective, ◌≡◌, ◌≢◌, refl, sym, ap, ◌∙◌, subst, arith,
}
use state_keeper.Types.{Bytes}
use state_keeper.Pv.{DecodedPv, decode_public_values}
use state_keeper.Engine.{Engine}
use state_keeper.Scan.{ChainHistory}
use state_keeper.Replay.{TreeState, EpochInputs, root}
use state_keeper.Replay.Rebuild.{rebuild}
use state_keeper.Frames.{AdvanceFrames, build_advance_frames}
use state_keeper.Keeper.Chain.{ChainState, parse_addr, parse_b32}
use state_keeper.Keeper.Context.{Codecs, Ctx, scan_and_rebuild}
use state_keeper.Keeper.Env.{Env, now_secs}
use state_keeper.ProveExec.{execute, prove_network}
use state_keeper.Scan.Chain.{Provider}
use state_keeper.Scan.Logs.{scan}
use state_keeper.Keeper.Fresh.{fresh_epoch_inputs}
use state_keeper.Keeper.Submit.{Submission, SubmitOutcome, mined, stale_root, submit_apply_state}
use state_keeper.Keeper.Attempt.{
  Job, World, Effect, executed, proved, submitted, advanced, Round, ends, and_then, reading,
  submission_of, settle, submit_stage, prove_stage, advance_stage, attempt,
}

pub All-and_then {ℓ κ} :
    {A : Type ℓ} (P : Effect → Type κ) (m : Result A) (k : A → Round)
    → ((a : A) → m ≡ ok a → All P (k a).0)
    → All P (and_then m k).0
All-and_then P (err x) k h = tt
All-and_then P (ok a) k h = h a refl

All-if {κ} :
    (P : Effect → Type κ) (b : Bool) (x y : Round)
    → (b ≡ true → All P x.0)
    → (b ≡ false → All P y.0)
    → All P (if b then x else y).0
All-if P true x y h g = h refl
All-if P false x y h g = g refl

module _ (e : Engine) (c : Codecs e) where
  -- The advance rests on the tree that the chain holds: this build's generation and table, a rebuilt
  -- tree with the chain's root, and frames that change it.
  pub record Ready (job : Job e) (w : World) (adv : AdvanceFrames) : Type 0 where
    pub chain : ChainState
    pub core : ℕ
    pub history : ChainHistory
    pub state : TreeState
    pub inputs : EpochInputs
    pub read : reading e c w.contracts job.ctx.lane ≡ ok chain
    pub generation : parse_b32 c.hex job.ctx.lane.vkey ≡ ok chain.vkey
    pub table : job.ctx.table_root ≡ chain.scenario_root
    pub located : parse_addr c.addr_from_str job.ctx.lane.core ≡ ok core
    pub scanned : scan c.abi w.provider core job.ctx.lane.deploy_block ≡ ok history
    pub rebuilt : rebuild e job.ctx.table history ≡ ok state
    pub on_chain : root e state ≡ chain.root
    pub recovered : fresh_epoch_inputs e history state chain.domain (now_secs w.clock) ≡ ok inputs
    pub built :
        build_advance_frames e c.serialize state inputs job.ctx.table chain.accounts_root ≡ ok adv
    pub moves : adv.predicted_root ≢ adv.root_prev

  -- The guest has committed the predicted root on the CPU.
  pub record Equivalent (w : World) (adv : AdvanceFrames) : Type 0 where
    pub public_values : Bytes
    pub decoded : DecodedPv
    pub ran : execute w.sp1 adv.frames ≡ ok public_values
    pub read : decode_public_values c.abi.decode_pv public_values ≡ ok decoded
    pub agrees : decoded.roots.root_new ≡ adv.predicted_root

  -- The submission is of a proof of these frames, and the chain still holds the root that they start from.
  pub record Current (job : Job e) (w : World) (adv : AdvanceFrames) (s : Submission) : Type 0 where
    pub answer : (Bytes × Bytes) × Env
    pub proven : prove_network w.sp1 w.env adv.frames ≡ ok answer
    pub of_proof : submission_of e c job answer.0 ≡ s
    pub fresh : ChainState
    pub read : reading e c w.fresh job.ctx.lane ≡ ok fresh
    pub still : fresh.root ≡ adv.root_prev

  -- What stands behind each effect of a round.
  abbrev pub IsJustified : Job e → World → Effect → Type 0
  IsJustified job w (executed frames) =
      (adv : AdvanceFrames) × (adv.frames ≡ frames) × Ready job w adv
  IsJustified job w (proved frames) =
      (adv : AdvanceFrames) × (adv.frames ≡ frames) × Ready job w adv × Equivalent w adv
  IsJustified job w (submitted s) =
      (adv : AdvanceFrames) × Ready job w adv × Equivalent w adv × Current job w adv s

  -- The three steps of `scan_and_rebuild`.
  pub record Rebuilt (ctx : Ctx e) (provider : Provider) (history : ChainHistory)
      (state : TreeState) : Type 0 where
    pub core : ℕ
    pub located : parse_addr c.addr_from_str ctx.lane.core ≡ ok core
    pub scanned : scan c.abi provider core ctx.lane.deploy_block ≡ ok history
    pub replayed : rebuild e ctx.table history ≡ ok state

  pub scan_and_rebuild-Rebuilt :
      (ctx : Ctx e) (provider : Provider) (r : ChainHistory × TreeState)
      → scan_and_rebuild e c ctx provider ≡ ok r
      → Rebuilt ctx provider r.0 r.1
  unfolding scan_and_rebuild
  scan_and_rebuild-Rebuilt ctx provider r h =
      let (core, located, h1) = >>=-eq-ok (parse_addr c.addr_from_str ctx.lane.core) _ h in
      let (history, scanned, h2) =
        >>=-eq-ok (scan c.abi provider core ctx.lane.deploy_block) _ h1 in
      let (state, replayed, h3) = >>=-eq-ok (rebuild e ctx.table history) _ h2 in
      subst (λ (q : ChainHistory × TreeState). Rebuilt ctx provider q.0 q.1) (ok-injective h3)
        (record { core = core; located = located; scanned = scanned; replayed = replayed })

  settle-IsJustified :
      (job : Job e) (w : World) (r : Result SubmitOutcome)
      → All (IsJustified job w) (and_then r (settle e c job w)).0
  settle-IsJustified job w (err x) = tt
  settle-IsJustified job w (ok (mined tx)) =
      All-and_then (IsJustified job w) (reading e c w.last job.ctx.lane) (λ _after. ends advanced)
        (λ a h. tt)
  settle-IsJustified job w (ok stale_root) = tt

  submit_stage-IsJustified :
      (job : Job e) (w : World) (adv : AdvanceFrames) (a : (Bytes × Bytes) × Env)
      → Ready job w adv
      → Equivalent w adv
      → prove_network w.sp1 w.env adv.frames ≡ ok a
      → All (IsJustified job w) (submit_stage e c job w adv a.0).0
  unfolding submit_stage
  submit_stage-IsJustified job w adv a ready same proven =
      All-and_then (IsJustified job w) (reading e c w.fresh job.ctx.lane) _ λ fresh read.
        All-if (IsJustified job w) (fresh.root == adv.root_prev) _ _
          (λ still. (
            (
              adv,
              ready,
              same,
              record {
                answer = a;
                proven = proven;
                of_proof = refl;
                fresh = fresh;
                read = read;
                still = (==_iff _ _).0 still;
              },
            ),
            settle-IsJustified job w (
                submit_apply_state c.hex c.abi.keccak (submission_of e c job a.0)
                  (w.broadcast (submission_of e c job a.0))),
          ))
          (λ moved. tt)

  prove_stage-IsJustified :
      (job : Job e) (w : World) (adv : AdvanceFrames)
      → Ready job w adv
      → All (IsJustified job w) (prove_stage e c job w adv).0
  unfolding prove_stage
  prove_stage-IsJustified job w adv ready = (
    (adv, refl, ready),
    All-and_then (IsJustified job w) (execute w.sp1 adv.frames) _ λ pv ran.
        All-and_then (IsJustified job w) (decode_public_values c.abi.decode_pv pv) _ λ decoded read.
          All-and_then (IsJustified job w) (guard (decoded.roots.root_new == adv.predicted_root) _)
            _
            λ u agrees.
              let same : Equivalent w adv = record {
                public_values = pv;
                decoded = decoded;
                ran = ran;
                read = read;
                agrees = (==_iff _ _).0 (guard-eq-ok _ _ agrees);
              } in
              (
                (adv, refl, ready, same),
                All-and_then (IsJustified job w) (prove_network w.sp1 w.env adv.frames) _
                    λ a proven. submit_stage-IsJustified job w adv a ready same proven,
              ),
  )

  -- In every round, each call of the guest, each proof and each submission is justified by what the
  -- round has read before it: the chain's root rebuilt and moved by the frames; for a proof also the
  -- predicted root committed by the guest; for a submission also the chain's root read again.
  pub attempt-IsJustified :
      (job : Job e) (w : World) → All (IsJustified job w) (attempt e c job w).0
  unfolding attempt advance_stage
  attempt-IsJustified job w =
      let P = IsJustified job w in
      All-and_then P (reading e c w.contracts job.ctx.lane) _ λ chain read.
        All-and_then P (parse_b32 c.hex job.ctx.lane.vkey) _ λ pinned parsed.
          All-and_then P (guard (chain.vkey == pinned) _) _ λ _g generation.
            All-and_then P (guard (job.ctx.table_root == chain.scenario_root) _) _ λ _t table.
              All-and_then P (scan_and_rebuild e c job.ctx w.provider) _ λ r found.
                All-if P (root e r.1 == chain.root) _ _
                  (λ on_chain.
                    All-and_then P (fresh_epoch_inputs e r.0 r.1 chain.domain (now_secs w.clock)) _
                      λ inputs recovered.
                        All-and_then P
                          (build_advance_frames e c.serialize r.1 inputs job.ctx.table
                            chain.accounts_root)
                          _
                          λ adv built.
                            All-if P (adv.predicted_root == adv.root_prev) _ _ (λ same. tt)
                              (λ moves.
                                let s = scan_and_rebuild-Rebuilt job.ctx w.provider r found in
                                prove_stage-IsJustified job w adv (record {
                                  chain = chain;
                                  core = s.core;
                                  history = r.0;
                                  state = r.1;
                                  inputs = inputs;
                                  read = read;
                                  generation =
                                      parsed
                                      ∙ ap ok (sym ((==_iff _ _).0 (guard-eq-ok _ _ generation)));
                                  table = (==_iff _ _).0 (guard-eq-ok _ _ table);
                                  located = s.located;
                                  scanned = s.scanned;
                                  rebuilt = s.replayed;
                                  on_chain = (==_iff _ _).0 on_chain;
                                  recovered = recovered;
                                  built = built;
                                  moves = λ eq. ground arith;
                                })))
                  (λ drifted. tt)
