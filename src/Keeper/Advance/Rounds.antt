-- ===== src/Keeper/Advance/Rounds.antt =====
-- What the rounds of `cmd_advance` ask.
use state_keeper.Prelude.{
  All-append, All-imp, ℕ, Text, ◌≡◌, zero, suc, ◌+◌, ◌≤◌, ◌<◌, All, ok, err, arith,
}
use state_keeper.Engine.{Engine}
use state_keeper.Keeper.Context.{Codecs, Files}
use state_keeper.Keeper.Env.{Env}
use state_keeper.Keeper.Attempt.{
  Job, World, Effect, advanced, nothing_to_advance, rebase, Round, attempt,
}
use state_keeper.Keeper.Attempt.Sound.{IsJustified, attempt-IsJustified}
use state_keeper.Keeper.Advance.{start_job, continue, advance_loop, cmd_advance}

module _ (e : Engine) (c : Codecs e) where
  -- Justified in one of the rounds from `n` on, before the bound.
  abbrev pub IsJustifiedIn : Job e → (ℕ → World) → ℕ → ℕ → Effect → Type 0
  IsJustifiedIn job worlds n bound x =
      (k : ℕ) × (n ≤ k) × (k < bound) × IsJustified e c job (worlds k) x

  All-continue {κ} :
      (P : Effect → Type κ) (r rest : Round)
      → All P r.0
      → All P rest.0
      → All P (continue e c r rest).0
  All-continue P (trace, ok rebase) rest h g = All-append P trace rest.0 h g
  All-continue P (trace, ok advanced) rest h g = h
  All-continue P (trace, ok nothing_to_advance) rest h g = h
  All-continue P (trace, err x) rest h g = h

  advance_loop-IsJustifiedIn :
      (job : Job e) (worlds : ℕ → World) (left n : ℕ)
      → All (IsJustifiedIn job worlds n (n + left)) (advance_loop e c job worlds left n).0
  unfolding advance_loop
  advance_loop-IsJustifiedIn job worlds zero n = tt
  advance_loop-IsJustifiedIn job worlds (suc left) n =
      let round = attempt e c job (worlds n) in
      let rest = advance_loop e c job worlds left (suc n) in
      All-continue (IsJustifiedIn job worlds n (n + suc left)) round rest
        (All-imp (IsJustified e c job (worlds n)) _ round.0
          (λ x h. (n, omega arith, omega arith, h)) (attempt-IsJustified e c job (worlds n)))
        (All-imp (IsJustifiedIn job worlds (suc n) (suc n + left)) _ rest.0
          (λ x h. (h.0, omega (arith, h.1), omega (arith, h.2), h.3))
          (advance_loop-IsJustifiedIn job worlds left (suc n)))

  -- Every call of the guest, every proof and every submission of `cmd_advance` is justified in one of its
  -- three rounds.
  pub cmd_advance-IsJustifiedIn :
      (files : Files) (env : Env) (chain_name : Text) (worlds : ℕ → World) (job : Job e)
      → start_job e c files env chain_name ≡ ok job
      → All (IsJustifiedIn job worlds 1 4) (cmd_advance e c files env chain_name worlds).0
  unfolding cmd_advance
  cmd_advance-IsJustifiedIn files env chain_name worlds job h =
      rw h (advance_loop-IsJustifiedIn job worlds 3 1)
