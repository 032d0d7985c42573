-- ===== src/Keeper/Attempt/Advances.antt =====
-- What a round that ends with `advanced` has met.
use state_keeper.Prelude.{
  ℕ, Bool, true, false, ◌==◌, Option, List, [], ◌∷◌, Result, ok, err, guard, guard-eq-ok, ==_iff,
  Bool-cases, inl, inr, if◌then◌else◌, ◌≡◌, ◌≢◌, refl, sym, ap, ◌∙◌, arith,
}
use state_keeper.Types.{Bytes}
use state_keeper.Engine.{Engine}
use state_keeper.Pv.{decode_public_values}
use state_keeper.Replay.{root}
use state_keeper.Frames.{AdvanceFrames, build_advance_frames}
use state_keeper.ProveExec.{execute, prove_network}
use state_keeper.Keeper.Chain.{ChainState, parse_b32}
use state_keeper.Keeper.Context.{Codecs, scan_and_rebuild}
use state_keeper.Keeper.Env.{Env, now_secs}
use state_keeper.Keeper.Fresh.{fresh_epoch_inputs}
use state_keeper.Keeper.Submit.{Submission, SubmitOutcome, mined, stale_root, submit_apply_state}
use state_keeper.Keeper.Attempt.{
  Job, World, Effect, executed, proved, submitted, Ending, advanced, rebase, Round, ends, and_then,
  doing, settle, reading, submission_of, submit_stage, prove_stage, advance_stage, attempt,
}
use state_keeper.Keeper.Attempt.Sound.{Ready, Equivalent, Current, scan_and_rebuild-Rebuilt}

pub and_then-eq {ℓ} :
    {A : Type ℓ} (m : Result A) (k : A → Round) {t : List Effect} {x : Ending}
    → and_then m k ≡ (t, ok x)
    → (a : A) × (m ≡ ok a) × (k a ≡ (t, ok x))
and_then-eq (err y) k h = cc
and_then-eq (ok a) k h = (a, refl, h)

pub doing-eq :
    (y : Effect) (r : Round) {t : List Effect} {x : Ending}
    → doing y r ≡ (t, ok x)
    → (t ≡ y ∷ r.0) × (r ≡ (r.0, ok x))
doing-eq y (t, z) h = (ap (λ q. q.0) (sym h), ap (λ (q : Round). (t, q.1)) h)

pub if-eq {ℓ} :
    {A : Type ℓ} (b : Bool) (x y : A) {z : A} → (if b then x else y) ≡ z → (y ≢ z) → x ≡ z
if-eq true x y h n = h
if-eq false x y h n = absurd (n h)

module _ (e : Engine) (c : Codecs e) where
  -- The submission's part of a round that advances: the chain still holds the root, the transaction is
  -- mined or in the mempool, and the chain is read after it.
  record Broadcasts (job : Job e) (w : World) (adv : AdvanceFrames) (trace : List Effect)
      : Type 0 where
    pub submission : Submission
    pub current : Current e c job w adv submission
    pub tx : Option ℕ
    pub accepted :
        submit_apply_state c.hex c.abi.keccak submission (w.broadcast submission) ≡ ok (mined tx)
    pub last : ChainState
    pub read : reading e c w.last job.ctx.lane ≡ ok last
    pub shown : trace ≡ submitted submission ∷ []

  -- What a round that advances has met, and what it has asked.
  pub record Advances (job : Job e) (w : World) (trace : List Effect) : Type 0 where
    pub adv : AdvanceFrames
    pub ready : Ready e c job w adv
    pub same : Equivalent e c w adv
    pub submission : Submission
    pub current : Current e c job w adv submission
    pub tx : Option ℕ
    pub accepted :
        submit_apply_state c.hex c.abi.keccak submission (w.broadcast submission) ≡ ok (mined tx)
    pub last : ChainState
    pub read : reading e c w.last job.ctx.lane ≡ ok last
    pub shown : trace ≡ executed adv.frames ∷ proved adv.frames ∷ submitted submission ∷ []

  settle-advanced :
      (job : Job e) (w : World) (o : SubmitOutcome) (t : List Effect)
      → settle e c job w o ≡ (t, ok advanced)
      → ((tx : Option ℕ) × (o ≡ mined tx))
        × ((last : ChainState) × (reading e c w.last job.ctx.lane ≡ ok last))
        × (t ≡ [])
  settle-advanced job w (mined tx) t h =
      let (after, read, h1) = and_then-eq (reading e c w.last job.ctx.lane) _ h in
      ((tx, refl), (after, read), ap (λ q. q.0) (sym h1))
  settle-advanced job w stale_root t h = absurd (cc)

  submit_stage-Broadcasts :
      (job : Job e) (w : World) (adv : AdvanceFrames) (a : (Bytes × Bytes) × Env) (t : List Effect)
      → prove_network w.sp1 w.env adv.frames ≡ ok a
      → submit_stage e c job w adv a.0 ≡ (t, ok advanced)
      → Broadcasts job w adv t
  unfolding submit_stage
  submit_stage-Broadcasts job w adv a t proven h =
      let s = submission_of e c job a.0 in
      let (fresh, read, h1) = and_then-eq (reading e c w.fresh job.ctx.lane) _ h in
      elim (Bool-cases (fresh.root == adv.root_prev)) [
        | inr moved ↦ absurd (ground arith)
        | inl still ↦
            let h2 = if-eq (fresh.root == adv.root_prev) _ (ends rebase) h1 (λ q. cc) in
            let (shown, h3) = doing-eq (submitted s) _ h2 in
            let (o, sent, h4) =
              and_then-eq (submit_apply_state c.hex c.abi.keccak s (w.broadcast s)) _ h3 in
            let (found, after, nothing) = settle-advanced job w o _ h4 in
            record {
              submission = s;
              current = record {
                answer = a;
                proven = proven;
                of_proof = refl;
                fresh = fresh;
                read = read;
                still = (==_iff _ _).0 still;
              };
              tx = found.0;
              accepted = sent ∙ ap ok found.1;
              last = after.0;
              read = after.1;
              shown = shown ∙ ap (λ l. submitted s ∷ l) nothing;
            }
      ]

  prove_stage-Advances :
      (job : Job e) (w : World) (adv : AdvanceFrames) (t : List Effect)
      → Ready e c job w adv
      → prove_stage e c job w adv ≡ (t, ok advanced)
      → Advances job w t
  unfolding prove_stage
  prove_stage-Advances job w adv t ready h =
      let (shown, h1) = doing-eq (executed adv.frames) _ h in
      let (pv, ran, h2) = and_then-eq (execute w.sp1 adv.frames) _ h1 in
      let (decoded, read, h3) = and_then-eq (decode_public_values c.abi.decode_pv pv) _ h2 in
      let (_u, agrees, h4) =
        and_then-eq (guard (decoded.roots.root_new == adv.predicted_root) _) _ h3 in
      let (shown', h5) = doing-eq (proved adv.frames) _ h4 in
      let (a, proven, h6) = and_then-eq (prove_network w.sp1 w.env adv.frames) _ h5 in
      let b = submit_stage-Broadcasts job w adv a _ proven h6 in
      record {
        adv = adv;
        ready = ready;
        same = record {
          public_values = pv;
          decoded = decoded;
          ran = ran;
          read = read;
          agrees = (==_iff _ _).0 (guard-eq-ok _ _ agrees);
        };
        submission = b.submission;
        current = b.current;
        tx = b.tx;
        accepted = b.accepted;
        last = b.last;
        read = b.read;
        shown =
            shown
            ∙ ap (λ l. executed adv.frames ∷ l) (shown' ∙ ap (λ l. proved adv.frames ∷ l) b.shown);
      }

  pub attempt-Advances :
      (job : Job e) (w : World) (t : List Effect)
      → attempt e c job w ≡ (t, ok advanced)
      → Advances job w t
  unfolding attempt advance_stage
  attempt-Advances job w t h =
      let (chain, read, h1) = and_then-eq (reading e c w.contracts job.ctx.lane) _ h in
      let (pinned, parsed, h1') = and_then-eq (parse_b32 c.hex job.ctx.lane.vkey) _ h1 in
      let (_g, generation, h2) = and_then-eq (guard (chain.vkey == pinned) _) _ h1' in
      let (_t, table, h3) =
        and_then-eq (guard (job.ctx.table_root == chain.scenario_root) _) _ h2 in
      let (r, found, h4) = and_then-eq (scan_and_rebuild e c job.ctx w.provider) _ h3 in
      elim (Bool-cases (root e r.1 == chain.root)) [
        | inr drifted ↦ absurd (ground arith)
        | inl on_chain ↦
            let h6 = if-eq (root e r.1 == chain.root) _ (ends rebase) h4 (λ q. cc) in
            let (inputs, recovered, h7) =
              and_then-eq (fresh_epoch_inputs e r.0 r.1 chain.domain (now_secs w.clock)) _ h6 in
            let (adv, built, h8) =
              and_then-eq
                (build_advance_frames e c.serialize r.1 inputs job.ctx.table chain.accounts_root) _
                h7 in
            let s = scan_and_rebuild-Rebuilt e c job.ctx w.provider r found in
            elim (Bool-cases (adv.predicted_root == adv.root_prev)) [
              | inl same ↦ absurd (ground arith)
              | inr differ ↦
                  prove_stage-Advances job w adv t
                    (record {
                      chain = chain;
                      core = s.core;
                      history = r.0;
                      state = r.1;
                      inputs = inputs;
                      read = read;
                      generation =
                          parsed ∙ ap ok (sym ((==_iff _ _).0 (guard-eq-ok _ _ generation)));
                      table = (==_iff _ _).0 (guard-eq-ok _ _ table);
                      located = s.located;
                      scanned = s.scanned;
                      rebuilt = s.replayed;
                      on_chain = (==_iff _ _).0 on_chain;
                      recovered = recovered;
                      built = built;
                      moves = λ eq. ground arith;
                    })
                    (ground arith)
            ]
      ]
