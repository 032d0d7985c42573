-- ===== src/Keeper/Advance/Progress.antt =====
-- When `cmd_advance` succeeds.
use state_keeper.Prelude.{ℕ, suc, ◌≤◌, ◌<◌, ok, ◌≡◌, ◌⊎◌, arith}
use state_keeper.Engine.{Engine}
use state_keeper.Keeper.Env.{Env}
use state_keeper.Keeper.Context.{Codecs}
use state_keeper.Keeper.Attempt.{Job, World, rebase, attempt}

module _ (e : Engine) (c : Codecs e) where
  -- The rounds from `n` on, before the `k`-th, rebase.
  abbrev pub RebaseBefore : Job e → (ℕ → World) → ℕ → ℕ → Type 0
  RebaseBefore job worlds n k = (j : ℕ) → n ≤ j → j < k → (attempt e c job (worlds j)).1 ≡ ok rebase

  pub eq_or_above : (n k : ℕ) → n ≤ k → (n ≡ k) ⊎ (suc n ≤ k)
  eq_or_above n k h = ground arith
