-- ===== src/Prelude/Perms.antt =====
-- Permutations of lists, on the library's untruncated family.
use mathlib.Core.Path.{◌≡◌, refl, sym, ap, ap₂, ◌∙◌, subst}
use mathlib.Core.Bool.{Bool, true, false, ◌||◌}
use mathlib.Core.List.{List, [], ◌∷◌, map, Permᴰ}
use mathlib.Core.List.Permᴰ
use native.Mathlib.Omega.{arith}
use state_keeper.Prelude.Lists.{filter, any}
use state_keeper.Prelude.Errors.{Result, ok, traverse, traverse-eq-ok, >>=-ok}
use state_keeper.Prelude.Tests.{if◌then◌else◌}

module _ {ℓ} {A : Type ℓ} where
  -- The filter of an item on both sides of a permutation.
  filter-cons :
      (b c : Bool) (x y : A) (xs ys : List A)
      → b ≡ c
      → x ≡ y
      → Permᴰ xs ys
      → Permᴰ (if b then x ∷ xs else xs) (if c then y ∷ ys else ys)
  filter-cons true true x y xs ys h e p = Permᴰ.cons e p
  filter-cons false false x y xs ys h e p = p
  filter-cons true false x y xs ys h e p = absurd cc
  filter-cons false true x y xs ys h e p = absurd cc

  filter-swap :
      (b c : Bool) (x y : A) (xs : List A)
      → Permᴰ
          (if b then x ∷ (if c then y ∷ xs else xs) else (if c then y ∷ xs else xs))
          (if c then y ∷ (if b then x ∷ xs else xs) else (if b then x ∷ xs else xs))
  filter-swap true true x y xs = Permᴰ.swap refl refl
  filter-swap true false x y xs = Permᴰ.refl (x ∷ xs)
  filter-swap false true x y xs = Permᴰ.refl (y ∷ xs)
  filter-swap false false x y xs = Permᴰ.refl xs

  pub filter-Permᴰ :
      (p : A → Bool) {xs ys : List A} → Permᴰ xs ys → Permᴰ (filter p xs) (filter p ys)
  filter-Permᴰ p Permᴰ.nil = Permᴰ.nil
  filter-Permᴰ p (Permᴰ.cons {a = a} {b = b} {l₁ = l} {l₂ = m} e d) =
      filter-cons (p a) (p b) a b (filter p l) (filter p m) (ap p e) e (filter-Permᴰ p d)
  filter-Permᴰ p (Permᴰ.swap {a = a} {b = b} {l = l} e f) =
      subst (λ (q : A × A). Permᴰ (filter p (a ∷ b ∷ l)) (filter p (q.0 ∷ q.1 ∷ l)))
        (λ i. (f i, e i)) (filter-swap (p a) (p b) a b (filter p l))
  filter-Permᴰ p (Permᴰ.trans d f) = Permᴰ.trans (filter-Permᴰ p d) (filter-Permᴰ p f)

  pub any-Permᴰ : (p : A → Bool) {xs ys : List A} → Permᴰ xs ys → any p xs ≡ any p ys
  any-Permᴰ p Permᴰ.nil = refl
  any-Permᴰ p (Permᴰ.cons e d) = ap₂ (λ b c. b || c) (ap p e) (any-Permᴰ p d)
  any-Permᴰ p (Permᴰ.swap {a = a} {b = b} {l = l} e f) = ground (arith, ap p e, ap p f)
  any-Permᴰ p (Permᴰ.trans d f) = any-Permᴰ p d ∙ any-Permᴰ p f

  pub filter-ext :
      (p q : A → Bool) (xs : List A) → ((a : A) → p a ≡ q a) → filter p xs ≡ filter q xs
  filter-ext p q [] h = refl
  filter-ext p q (x ∷ xs) h = rw (h x, filter-ext p q xs h) refl

  pub map-Permᴰ {κ} :
      {B : Type κ} (f : A → B) {xs ys : List A} → Permᴰ xs ys → Permᴰ (map f xs) (map f ys)
  map-Permᴰ f Permᴰ.nil = Permᴰ.nil
  map-Permᴰ f (Permᴰ.cons e d) = Permᴰ.cons (ap f e) (map-Permᴰ f d)
  map-Permᴰ f (Permᴰ.swap e g) = Permᴰ.swap (ap f e) (ap f g)
  map-Permᴰ f (Permᴰ.trans d g) = Permᴰ.trans (map-Permᴰ f d) (map-Permᴰ f g)

  pub traverse-Permᴰ {κ} :
      {B : Type κ} (f : A → Result B) {xs ys : List A} (bs : List B)
      → Permᴰ xs ys
      → traverse f xs ≡ ok bs
      → (cs : List B) × (traverse f ys ≡ ok cs) × Permᴰ bs cs
  traverse-Permᴰ f bs Permᴰ.nil h = (bs, h, Permᴰ.refl bs)
  traverse-Permᴰ f bs (Permᴰ.cons {a = a} {b = b} {l₁ = l} {l₂ = m} e d) h =
      let (x, xs, here, rest, same) = traverse-eq-ok f a l h in
      let (ys, rest', p) = traverse-Permᴰ f xs d rest in
      (
        x ∷ ys,
        >>=-ok _ (ap f (sym e) ∙ here) (>>=-ok _ rest' refl),
        subst (λ l. Permᴰ l (x ∷ ys)) (sym same) (Permᴰ.cons refl p),
      )
  traverse-Permᴰ f bs (Permᴰ.swap {a = a} {b = b} {l = l} e g) h =
      let (x, xs, here, rest, same) = traverse-eq-ok f a (b ∷ l) h in
      let (y, ys, next, tail, also) = traverse-eq-ok f b l rest in
      (
        y ∷ x ∷ ys,
        >>=-ok _ (ap f (sym g) ∙ next)
            (>>=-ok _ (>>=-ok _ (ap f (sym e) ∙ here) (>>=-ok _ tail refl)) refl),
        subst (λ l. Permᴰ l (y ∷ x ∷ ys)) (sym (same ∙ ap (λ l. x ∷ l) also))
            (Permᴰ.swap refl refl),
      )
  traverse-Permᴰ f bs (Permᴰ.trans d g) h =
      let (cs, there, p) = traverse-Permᴰ f bs d h in
      let (ds, done, q) = traverse-Permᴰ f cs g there in (ds, done, Permᴰ.trans p q)
