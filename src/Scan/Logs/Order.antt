-- ===== src/Scan/Logs/Order.antt =====
-- The order of a scan: `sort_by_key` on the logs, and the records that are read off them.
use state_keeper.Prelude.{
  All-filter, ℕ, ◌≤◌, ◌<◌, Bool, true, false, List, [], ◌∷◌, filter, if◌then◌else◌, All, Result, ok,
  ◌⊎◌, traverse, traverse-eq-ok, subst, sym, ok-injective, inl, inr, ◌≡◌, arith, Bool-cases,
}
use state_keeper.Scan.Chain.{Log}
use state_keeper.Scan.Logs.{block_of, index_of, key_le, insert_log, sort_logs}

-- `a` stands in the chain before `b`, or at one place with it.
abbrev pub IsBefore : ℕ × ℕ → ℕ × ℕ → Type 0
IsBefore a b = (a.0 < b.0) ⊎ ((a.0 ≡ b.0) × (a.1 ≤ b.1))

-- The place of a log in the chain.
abbrev pub place_of : Log → ℕ × ℕ
place_of l = (block_of l, index_of l)

module _ {ℓ} {A : Type ℓ} where
  -- Each item is related to every later one.
  abbrev pub IsOrdered {κ} : (A → A → Type κ) → List A → Type (ℓ ⊔ κ)
  IsOrdered R [] = Unit
  IsOrdered R (x ∷ xs) = All (R x) xs × IsOrdered R xs

  pub IsOrdered-filter {κ} :
      (R : A → A → Type κ) (keep : A → Bool) (xs : List A)
      → IsOrdered R xs
      → IsOrdered R (filter keep xs)
  IsOrdered-filter R keep [] h = tt
  IsOrdered-filter R keep (x ∷ xs) h =
      elim (keep x) as (λ b. IsOrdered R (if b then x ∷ filter keep xs else filter keep xs)) [
        | true ↦ (All-filter (R x) keep xs h.0, IsOrdered-filter R keep xs h.1)
        | false ↦ IsOrdered-filter R keep xs h.1
      ]

IsBefore-trans : (a b c : ℕ × ℕ) → IsBefore a b → IsBefore b c → IsBefore a c
IsBefore-trans a b c h g = ground arith

key_le_sound : (a b : Log) → key_le a b ≡ true → IsBefore (place_of a) (place_of b)
key_le_sound a b h = ground arith

key_le_total : (a b : Log) → key_le a b ≡ false → IsBefore (place_of b) (place_of a)
key_le_total a b h = ground arith

-- A traversal that keeps a relation between the items keeps the order of the list.
module _ {ℓ κ μ} {A : Type ℓ} {B : Type κ} (R : A → A → Type μ) (S : B → B → Type μ)
    (f : A → Result B) (kept : (x y : A) (a b : B) → f x ≡ ok a → f y ≡ ok b → R x y → S a b) where
  All-traverse :
      (x : A) (a : B) (ys : List A) (bs : List B)
      → f x ≡ ok a
      → traverse f ys ≡ ok bs
      → All (R x) ys
      → All (S a) bs
  All-traverse x a [] bs h t r = subst (All (S a)) (ok-injective t) tt
  All-traverse x a (y ∷ ys) bs h t r =
      let (b, cs, here, rest, same) = traverse-eq-ok f y ys t in
      subst (All (S a)) (sym same) (kept x y a b h here r.0, All-traverse x a ys cs h rest r.1)

  pub IsOrdered-traverse :
      (xs : List A) (as_read : List B)
      → traverse f xs ≡ ok as_read
      → IsOrdered R xs
      → IsOrdered S as_read
  IsOrdered-traverse [] bs t r = subst (IsOrdered S) (ok-injective t) tt
  IsOrdered-traverse (x ∷ xs) bs t r =
      let (b, cs, here, rest, same) = traverse-eq-ok f x xs t in
      subst (IsOrdered S) (sym same)
        (All-traverse x b xs cs here rest r.0, IsOrdered-traverse xs cs rest r.1)

abbrev pub LogBefore : Log → Log → Type 0
LogBefore a b = IsBefore (place_of a) (place_of b)

All-insert_log :
    (z x : Log) (ys : List Log)
    → LogBefore z x
    → All (LogBefore z) ys
    → All (LogBefore z) (insert_log x ys)
unfolding insert_log
All-insert_log z x [] h g = (h, tt)
All-insert_log z x (y ∷ ys) h g =
    elim (key_le x y) as (λ b. All (LogBefore z) (if b then x ∷ y ∷ ys else y ∷ insert_log x ys)) [
      | true ↦ (h, g)
      | false ↦ (g.0, All-insert_log z x ys h g.1)
    ]

All-LogBefore-trans :
    (x y : Log) (ys : List Log) → LogBefore x y → All (LogBefore y) ys → All (LogBefore x) ys
All-LogBefore-trans x y [] h g = tt
All-LogBefore-trans x y (z ∷ zs) h g =
    (IsBefore-trans (place_of x) (place_of y) (place_of z) h g.0, All-LogBefore-trans x y zs h g.1)

insert_log-IsOrdered :
    (x : Log) (ys : List Log) → IsOrdered LogBefore ys → IsOrdered LogBefore (insert_log x ys)
unfolding insert_log
insert_log-IsOrdered x [] s = (tt, tt)
insert_log-IsOrdered x (y ∷ ys) s = elim (Bool-cases (key_le x y)) [
  | inl t ↦ rw t ((key_le_sound x y t, All-LogBefore-trans x y ys (key_le_sound x y t) s.0), s)
  | inr f ↦ rw f (All-insert_log y x ys (key_le_total x y f) s.0, insert_log-IsOrdered x ys s.1)
]

pub sort_logs-IsOrdered : (logs : List Log) → IsOrdered LogBefore (sort_logs logs)
unfolding sort_logs
sort_logs-IsOrdered [] = tt
sort_logs-IsOrdered (x ∷ xs) = insert_log-IsOrdered x (sort_logs xs) (sort_logs-IsOrdered xs)
