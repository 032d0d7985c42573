-- ===== src/Keeper/Advance/Landing.antt =====
-- What `cmd_advance` has done when it answers `advanced`.
use state_keeper.Prelude.{
  ℕ, Text, zero, suc, ◌+◌, ◌≤◌, ◌<◌, List, [], ◌++◌, ok, err, append_assoc, ◌≡◌, ◌⊎◌, refl, sym, ap,
  ◌∙◌, subst, arith, inl, inr,
}
use state_keeper.Engine.{Engine}
use state_keeper.Keeper.Context.{Codecs, Files}
use state_keeper.Keeper.Env.{Env}
use state_keeper.Keeper.Attempt.{
  Job, World, Effect, advanced, nothing_to_advance, rebase, Round, attempt,
}
use state_keeper.Keeper.Attempt.Landed.{Landed, attempt-Landed}
use state_keeper.Keeper.Attempt.Advances.{and_then-eq}
use state_keeper.Keeper.Advance.{start_job, continue, advance_loop, cmd_advance}

le_cases : (n j : ℕ) → n ≤ j → (n ≡ j) ⊎ (suc n ≤ j)
le_cases n j h = ground arith

module _ (e : Engine) (c : Codecs e) where
  -- One of the rounds from `n` on landed, after rounds that rebased, and its trace ends the trace.
  pub record LandedIn (job : Job e) (worlds : ℕ → World) (n bound : ℕ) (trace : List Effect)
      : Type 0 where
    pub k : ℕ
    pub from : n ≤ k
    pub before : k < bound
    pub earlier : List Effect
    pub own : List Effect
    pub split : trace ≡ earlier ++ own
    pub landed : Landed e c job (worlds k) own
    pub rebased : (j : ℕ) → n ≤ j → j < k → (attempt e c job (worlds j)).1 ≡ ok rebase

  -- A loop that answers `advanced` does so in its first round, or after a rebase in a later one.
  continue-cases :
      (r rest : Round) (t : List Effect)
      → continue e c r rest ≡ (t, ok advanced)
      → (r ≡ (t, ok advanced))
        ⊎ ((r.1 ≡ ok rebase) × (rest ≡ (rest.0, ok advanced)) × (t ≡ r.0 ++ rest.0))
  continue-cases (u, ok rebase) (v, z) t h =
      inr (refl, ap (λ (q : Round). (v, q.1)) h, ap (λ (q : Round). q.0) (sym h))
  continue-cases (u, ok advanced) rest t h = inl h
  continue-cases (u, ok nothing_to_advance) rest t h = absurd (cc)
  continue-cases (u, err x) rest t h = absurd (cc)

  advance_loop-LandedIn :
      (job : Job e) (worlds : ℕ → World) (left n : ℕ) (t : List Effect)
      → advance_loop e c job worlds left n ≡ (t, ok advanced)
      → LandedIn job worlds n (n + left) t
  unfolding advance_loop
  advance_loop-LandedIn job worlds zero n t h = absurd (cc)
  advance_loop-LandedIn job worlds (suc left) n t h =
      let round = attempt e c job (worlds n) in
      let rest = advance_loop e c job worlds left (suc n) in
      elim (continue-cases round rest t h) [
        | inl now ↦ record {
          k = n;
          from = omega arith;
          before = omega arith;
          earlier = [];
          own = t;
          split = refl;
          landed = attempt-Landed e c job (worlds n) t now;
          rebased = λ j a b. absurd (omega arith);
        }
        | inr (turned, later, shown) ↦
            let l = advance_loop-LandedIn job worlds left (suc n) rest.0 later in
            record {
              k = l.k;
              from = omega (arith, l.from);
              before = omega (arith, l.before);
              earlier = round.0 ++ l.earlier;
              own = l.own;
              split =
                  shown
                  ∙ ap (λ x. round.0 ++ x) l.split
                  ∙ sym (append_assoc round.0 l.earlier l.own);
              landed = l.landed;
              rebased = λ j a b. elim (le_cases n j a) [
                | inl same ↦ subst (λ i. (attempt e c job (worlds i)).1 ≡ ok rebase) same turned
                | inr above ↦ l.rebased j above b
              ];
            }
      ]

  -- Where `cmd_advance` answers `advanced`, it has started a job, one of its three rounds landed an advance,
  -- the rounds before it rebased, and nothing was asked after it.
  pub cmd_advance-LandedIn :
      (files : Files) (env : Env) (chain_name : Text) (worlds : ℕ → World) (trace : List Effect)
      → cmd_advance e c files env chain_name worlds ≡ (trace, ok advanced)
      → (job : Job e) × (start_job e c files env chain_name ≡ ok job)
        × LandedIn job worlds 1 4 trace
  unfolding cmd_advance
  cmd_advance-LandedIn files env chain_name worlds trace h =
      let (job, started, h1) = and_then-eq (start_job e c files env chain_name) _ h in
      (job, started, advance_loop-LandedIn job worlds 3 1 trace h1)
