-- ===== src/Keeper/Attempt/Landed.antt =====
-- What a round has asked when it ends with `advanced`.
use state_keeper.Prelude.{ℕ, Option, List, [], ◌∷◌, ok, ◌≡◌, ◌∙◌, sym, ap, subst}
use state_keeper.Types.{Bytes}
use state_keeper.Engine.{Engine}
use state_keeper.Keeper.Context.{Codecs}
use state_keeper.Keeper.Env.{Env}
use state_keeper.ProveExec.{prove_network}
use state_keeper.Keeper.Submit.{Submission, mined, submit_apply_state}
use state_keeper.Keeper.Attempt.{
  Job, submission_of, World, Effect, executed, proved, submitted, advanced, attempt,
}
use state_keeper.Keeper.Attempt.Lands.{attempt_iff}

module _ (e : Engine) (c : Codecs e) where
  -- One execution, one proof of the same frames and one submission of what it proved, which was mined.
  pub record Landed (job : Job e) (w : World) (trace : List Effect) : Type 0 where
    pub frames : List Bytes
    pub answer : (Bytes × Bytes) × Env
    pub tx : Option ℕ
    pub shown :
        trace ≡ executed frames ∷ proved frames ∷ submitted (submission_of e c job answer.0) ∷ []
    pub proven : prove_network w.sp1 w.env frames ≡ ok answer
    pub accepted :
        submit_apply_state c.hex c.abi.keccak
          (submission_of e c job answer.0)
          (w.broadcast (submission_of e c job answer.0))
        ≡ ok (mined tx)

  -- A round that ends with `advanced` executed the guest once, proved the same frames once and submitted
  -- that proof once, and the submission was mined or is in the mempool.
  pub attempt-Landed :
      (job : Job e) (w : World) (trace : List Effect)
      → attempt e c job w ≡ (trace, ok advanced)
      → Landed job w trace
  attempt-Landed job w trace h =
      let a = (attempt_iff e c job w trace).0 h in
      let of_proof = a.current.of_proof in
      record {
        frames = a.adv.frames;
        answer = a.current.answer;
        tx = a.tx;
        shown =
            a.shown
            ∙ ap (λ s. executed a.adv.frames ∷ proved a.adv.frames ∷ submitted s ∷ [])
                (sym of_proof);
        proven = a.current.proven;
        accepted =
            subst
              (λ (s : Submission).
                submit_apply_state c.hex c.abi.keccak s (w.broadcast s) ≡ ok (mined a.tx))
              (sym of_proof) a.accepted;
      }
