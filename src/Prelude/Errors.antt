-- ===== src/Prelude/Errors.antt =====
-- `anyhow::Result`: a value, or the refusal that names why. A panic ends the process and is the
-- error `panic`. The refusals are one data type for the four crates, a constructor for each message.
use Prim.Native.Nat.{ℕ}
use mathlib.Core.Path.{◌≡◌, refl, ap, ◌∙◌}
use mathlib.Core.List.{List, [], ◌∷◌}
use mathlib.Core.Bool.{Bool, true, false}
use mathlib.Core.Option.{Option, none, some}
use native.Mathlib.Omega.{arith}
use state_keeper.Gate.{Gate}
use state_keeper.Prelude.Lists.{length}

pub data Error : Type 0 where
  panic : Error
  -- replay.rs
  quantity_exceeds_u128 : Error
  data_too_short entry_rate_exceeds_u128 : ℕ → Error
  scenario_root_differs root_prev_mismatch open_set_diverges : ℕ → Error
  root_new_mismatch accounts_root_mismatch : ℕ → Error
  unmodelled_rows : ℕ → Error
  open_not_recorded : ℕ → ℕ → Error
  negative_mark negative_twap : Error
  -- pv.rs
  public_values_decode twap_exceeds_i128 mark_exceeds_i128 : Error
  -- frames.rs
  account_set_drifted bincode : Error
  -- scan.rs
  rpc : Error
  terms_opened_decode terms_id_mismatch log_without_tx : ℕ → Error
  tx_not_found not_apply_state no_open_signatures : ℕ → Error
  twap_bound_decode market_set_decode : ℕ → Error
  -- main.rs, chain.rs and submit.rs
  refused : Gate → Error
  guest_diverged : ℕ → ℕ → Error
  gave_up estimate_gas send_apply_state await_receipt reverted bad_key bad_url : Error
  chains_not_found parse_chains chain_needs_name : Error
  no_lane bad_address bad_bytes32 wrong_length : List ℕ → Error
  -- prove-exec
  prover_not_permitted : List ℕ → Error
  network_key_unset guest_execute setup groth16_prove : Error

pub data Result {ℓ} (R : Type ℓ) : Type ℓ where
  err : Error → Result R
  ok : R → Result R

-- `if !b { bail!(e) }`
abbrev pub guard : Bool → Error → Result (Unit {0})
guard false reason = err reason
guard true reason = ok tt

-- The `?` operator.
infixl 5 ◌>>=◌ ◌>>◌
abbrev pub ◌>>=◌ {ℓ κ} : {A : Type ℓ} {B : Type κ} → Result A → (A → Result B) → Result B
err reason >>= next = err reason
ok a >>= next = next a

abbrev pub ◌>>◌ {κ} : {B : Type κ} → Result (Unit {0}) → Result B → Result B
checked >> next = checked >>= λ _unit. next

-- `o.ok_or(e)`
abbrev pub ok_or {ℓ} : {A : Type ℓ} → Option A → Error → Result A
ok_or none e = err e
ok_or (some a) e = ok a

-- `iter().map(f).collect::<Result<_>>()`: the first error stops it.
abbrev pub traverse {ℓ κ} : {A : Type ℓ} {B : Type κ} → (A → Result B) → List A → Result (List B)
traverse f [] = ok []
traverse f (x ∷ xs) = f x >>= λ y. traverse f xs >>= λ ys. ok (y ∷ ys)

-- Inversion of a successful bind.
pub >>=-eq-ok {ℓ κ} :
    {A : Type ℓ} {B : Type κ} (m : Result A) (next : A → Result B) {b : B}
    → (m >>= next) ≡ ok b
    → (a : A) × (m ≡ ok a) × (next a ≡ ok b)
>>=-eq-ok (err reason) next h = cc
>>=-eq-ok (ok a) next h = (a, refl, h)

-- A bind whose first part answers.
pub >>=-ok {ℓ κ} :
    {A : Type ℓ} {B : Type κ} {m : Result A} {a : A} {b : B} (next : A → Result B)
    → m ≡ ok a
    → next a ≡ ok b
    → (m >>= next) ≡ ok b
>>=-ok next h g = ap (λ x. x >>= next) h ∙ g

pub guard-eq-ok : (b : Bool) (e : Error) {u : Unit {0}} → guard b e ≡ ok u → b ≡ true
guard-eq-ok true e h = refl
guard-eq-ok false e h = cc

pub ok_or-eq-ok {ℓ} :
    {A : Type ℓ} (o : Option A) (e : Error) (a : A) → ok_or o e ≡ ok a → o ≡ some a
ok_or-eq-ok none e a h = cc
ok_or-eq-ok (some b) e a h = cc

-- Inversion of a traversal over a non-empty list.
pub traverse-eq-ok {ℓ κ} :
    {A : Type ℓ} {B : Type κ} (f : A → Result B) (x : A) (xs : List A) {ys : List B}
    → traverse f (x ∷ xs) ≡ ok ys
    → (z : B) × (zs : List B) × (f x ≡ ok z) × (traverse f xs ≡ ok zs) × (ys ≡ z ∷ zs)
traverse-eq-ok f x xs h =
    let (z, p, h1) = >>=-eq-ok (f x) _ h in
    let (zs, q, h2) = >>=-eq-ok (traverse f xs) _ h1 in (z, zs, p, q, ground arith)

pub ok-injective {ℓ} : {A : Type ℓ} {a b : A} → ok a ≡ ok b → a ≡ b
ok-injective h = cc

pub length-traverse {ℓ κ} :
    {A : Type ℓ} {B : Type κ} (f : A → Result B) (xs : List A) (ys : List B)
    → traverse f xs ≡ ok ys
    → length ys ≡ length xs
length-traverse f [] ys h = ground arith
length-traverse f (x ∷ xs) ys h =
    let (z, zs, p, q, e) = traverse-eq-ok f x xs h in ground (arith, length-traverse f xs zs q)
