-- ===== src/Keeper/Attempt/Lands.antt =====
-- When a round ends with `advanced`.
use state_keeper.Prelude.{
  ℕ, false, ◌==◌, Option, List, [], ◌∷◌, ok, ==_iff, Bool-cases, inl, inr, ◌≡◌, ◌≢◌, ◌↔◌, refl, sym,
  ap,
}
use state_keeper.Engine.{Engine}
use state_keeper.Frames.{AdvanceFrames}
use state_keeper.Keeper.Chain.{ChainState}
use state_keeper.Keeper.Context.{Codecs, scan_and_rebuild}
use state_keeper.Keeper.Submit.{Submission, mined, submit_apply_state}
use state_keeper.Keeper.Attempt.{
  Job, World, Effect, submitted, advanced, reading, submit_stage, prove_stage, advance_stage,
  attempt,
}
use state_keeper.Keeper.Attempt.Sound.{Current}
use state_keeper.Keeper.Attempt.Advances.{Advances, attempt-Advances}

test_false : (a b : ℕ) → a ≢ b → (a == b) ≡ false
test_false a b n = elim (Bool-cases (a == b)) [ inr f ↦ f | inl t ↦ absurd (n ((==_iff a b).0 t)) ]

module _ (e : Engine) (c : Codecs e) where
  submit_stage-lands :
      (job : Job e) (w : World) (adv : AdvanceFrames) (s : Submission) (tx : Option ℕ)
      (last : ChainState) (current : Current e c job w adv s)
      → submit_apply_state c.hex c.abi.keccak s (w.broadcast s) ≡ ok (mined tx)
      → reading e c w.last job.ctx.lane ≡ ok last
      → submit_stage e c job w adv current.answer.0 ≡ (submitted s ∷ [], ok advanced)
  unfolding submit_stage
  submit_stage-lands job w adv s tx last current accepted read =
      let still = (==_iff _ _).1 current.still in
      rw (current.read, still, current.of_proof, accepted, read) refl

  prove_stage-lands :
      (job : Job e) (w : World) (t : List Effect) (a : Advances e c job w t)
      → prove_stage e c job w a.adv ≡ (t, ok advanced)
  unfolding prove_stage
  prove_stage-lands job w t a =
      let agrees = (==_iff _ _).1 a.same.agrees in
      rw
        (
          a.same.ran,
          a.same.read,
          agrees,
          a.current.proven,
          submit_stage-lands job w a.adv a.submission a.tx a.last a.current a.accepted a.read,
        )
        (ap (λ l. (l, ok advanced)) (sym a.shown))

  attempt-lands :
      (job : Job e) (w : World) (t : List Effect)
      → Advances e c job w t
      → attempt e c job w ≡ (t, ok advanced)
  unfolding attempt advance_stage scan_and_rebuild
  attempt-lands job w t a =
      let r = a.ready in
      let vkey = (==_iff r.chain.vkey r.chain.vkey).1 refl in
      let table = (==_iff _ _).1 r.table in
      let on_chain = (==_iff _ _).1 r.on_chain in
      let moves = test_false _ _ r.moves in
      rw
        (
          r.read,
          r.generation,
          vkey,
          table,
          r.located,
          r.scanned,
          r.rebuilt,
          on_chain,
          r.recovered,
          r.built,
          moves,
          prove_stage-lands job w t a,
        )
        refl

  -- A round ends with `advanced` exactly when the chain's root is rebuilt and moved by the frames, under
  -- the pinned verifying key and the lane's table, the guest commits the predicted root, the network proves
  -- the frames, the chain read again still holds the root, the submission of this proof is mined or in the
  -- mempool, and the chain is read once more; its effects are then one execution and one proof of these
  -- frames and this submission, in this order.
  pub attempt_iff :
      (job : Job e) (w : World) (trace : List Effect)
      → (attempt e c job w ≡ (trace, ok advanced)) ↔ Advances e c job w trace
  attempt_iff job w trace = (attempt-Advances e c job w trace, attempt-lands job w trace)
