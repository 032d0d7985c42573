-- ===== src/Keeper/Advance/Ends.antt =====
-- How `cmd_advance` ends: with the first round that does not rebase, or after the last.
use state_keeper.Prelude.{
  ℕ, zero, suc, ◌+◌, ◌-◌, ◌≤◌, ◌<◌, List, [], ◌++◌, append-nil, ok, err, gave_up, ◌≡◌, ◌≢◌, ◌⊎◌,
  refl, sym, ap, ◌∙◌, subst, inl, inr, arith, Text,
}
use state_keeper.Engine.{Engine}
use state_keeper.Keeper.Env.{Env}
use state_keeper.Keeper.Context.{Codecs, Files}
use state_keeper.Keeper.Attempt.{
  Job, World, Effect, Round, advanced, nothing_to_advance, rebase, attempt,
}
use state_keeper.Keeper.Advance.{start_job, continue, advance_loop, cmd_advance}
use state_keeper.Keeper.Advance.Progress.{RebaseBefore, eq_or_above}

module _ (e : Engine) (c : Codecs e) where
  -- What `count` rounds ask, from the `n`-th on.
  unfoldable pub effects : Job e → (ℕ → World) → ℕ → ℕ → List Effect
  effects job worlds zero n = []
  effects job worlds (suc count) n =
      (attempt e c job (worlds n)).0 ++ effects job worlds count (suc n)

  -- The first round that does not rebase is the `k`-th, and the command ends as it does.
  pub record DecidedBy (job : Job e) (worlds : ℕ → World) (n bound : ℕ) (r : Round) : Type 0 where
    pub k : ℕ
    pub from : n ≤ k
    pub before : k < bound
    pub rebased : RebaseBefore e c job worlds n k
    pub decides : (attempt e c job (worlds k)).1 ≢ ok rebase
    pub shown : r ≡ (effects job worlds (suc k - n) n, (attempt e c job (worlds k)).1)

  -- Every round rebases, and the command ends with `gave_up` after all of them.
  pub record GaveUp (job : Job e) (worlds : ℕ → World) (n left : ℕ) (r : Round) : Type 0 where
    pub rebased : RebaseBefore e c job worlds n (n + left)
    pub shown : r ≡ (effects job worlds left n, err gave_up)

  continue_cases :
      (r rest : Round)
      → ((r.1 ≡ ok rebase) × (continue e c r rest ≡ (r.0 ++ rest.0, rest.1)))
        ⊎ ((r.1 ≢ ok rebase) × (continue e c r rest ≡ (r.0 ++ [], r.1)))
  continue_cases (t, ok rebase) rest = inl (refl, refl)
  continue_cases (t, ok advanced) rest =
      inr (λ h. cc, ap (λ l. (l, ok advanced)) (sym (append-nil t)))
  continue_cases (t, ok nothing_to_advance) rest =
      inr (λ h. cc, ap (λ l. (l, ok nothing_to_advance)) (sym (append-nil t)))
  continue_cases (t, err x) rest = inr (λ h. cc, ap (λ l. (l, err x)) (sym (append-nil t)))

  RebaseBefore-suc :
      (job : Job e) (worlds : ℕ → World) (n k : ℕ)
      → (attempt e c job (worlds n)).1 ≡ ok rebase
      → RebaseBefore e c job worlds (suc n) k
      → RebaseBefore e c job worlds n k
  RebaseBefore-suc job worlds n k now later j a b = elim (eq_or_above e c n j a) [
    | inl same ↦ subst (λ i. (attempt e c job (worlds i)).1 ≡ ok rebase) same now
    | inr above ↦ later j above b
  ]

  effects-suc :
      (job : Job e) (worlds : ℕ → World) (n k : ℕ)
      → suc n ≤ k
      → (attempt e c job (worlds n)).0 ++ effects job worlds (suc k - suc n) (suc n)
        ≡ effects job worlds (suc k - n) n
  unfolding effects
  effects-suc job worlds n k h =
      let count : suc k - n ≡ suc (suc k - suc n) = omega arith in
      ap (λ m. effects job worlds m n) (sym count)

  advance_loop_ends :
      (job : Job e) (worlds : ℕ → World) (left n : ℕ)
      → DecidedBy job worlds n (n + left) (advance_loop e c job worlds left n)
        ⊎ GaveUp job worlds n left (advance_loop e c job worlds left n)
  unfolding advance_loop effects
  advance_loop_ends job worlds zero n =
      inr (record { rebased = λ j a b. absurd (omega arith); shown = refl })
  advance_loop_ends job worlds (suc left) n =
      let round = attempt e c job (worlds n) in
      let rest = advance_loop e c job worlds left (suc n) in
      elim (continue_cases round rest) [
        | inr (decides, shown) ↦
            let one : suc n - n ≡ 1 = omega arith in
            inl (record {
              k = n;
              from = omega arith;
              before = omega arith;
              rebased = λ j a b. absurd (omega arith);
              decides = decides;
              shown = shown ∙ ap (λ m. (effects job worlds m n, round.1)) (sym one);
            })
        | inl (now, shown) ↦ elim (advance_loop_ends job worlds left (suc n)) [
          | inl d ↦ inl (record {
            k = d.k;
            from = omega (arith, d.from);
            before = omega (arith, d.before);
            rebased = RebaseBefore-suc job worlds n d.k now d.rebased;
            decides = d.decides;
            shown =
                shown
                ∙ ap (λ (q : Round). (round.0 ++ q.0, q.1)) d.shown
                ∙ ap (λ l. (l, (attempt e c job (worlds d.k)).1))
                    (effects-suc job worlds n d.k d.from);
          })
          | inr g ↦ inr (record {
            rebased =
                RebaseBefore-suc job worlds n (n + suc left) now
                  (λ j a b. g.rebased j a (omega arith));
            shown = shown ∙ ap (λ (q : Round). (round.0 ++ q.0, q.1)) g.shown;
          })
        ]
      ]

  -- Where a job starts, `cmd_advance` ends as the first of its three rounds that does not rebase ends, after
  -- the effects of the rounds up to it, in their order; or all three rebase and it ends with `gave_up` after
  -- the effects of all three.
  pub cmd_advance_ends :
      (files : Files) (env : Env) (chain_name : Text) (worlds : ℕ → World) (job : Job e)
      → start_job e c files env chain_name ≡ ok job
      → DecidedBy job worlds 1 4 (cmd_advance e c files env chain_name worlds)
        ⊎ GaveUp job worlds 1 3 (cmd_advance e c files env chain_name worlds)
  unfolding cmd_advance
  cmd_advance_ends files env chain_name worlds job started =
      rw started (advance_loop_ends job worlds 3 1)
