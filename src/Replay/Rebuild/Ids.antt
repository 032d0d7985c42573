-- ===== src/Replay/Rebuild/Ids.antt =====
-- `sort_unstable` on the ids of a fold, and the comparison of two sorted lists.
use mathlib.Core.Bool.{Bool-set}
use mathlib.Core.Logic.{∥∥₁_elim}
use mathlib.Core.List.{Perm, Permᴰ}
use mathlib.Core.List.Perm
use state_keeper.Prelude.{
  ℕ, true, false, List, [], ◌∷◌, leb, if◌then◌else◌, ◌≡◌, ◌↔◌, refl, sym, ap₂, ◌∙◌, subst, arith,
}
use state_keeper.Replay.Rebuild.{insert_id, sort_ids, ids_eq}
use state_keeper.Replay.Rebuild.Accepts.{ids_eq_sound, ids_eq_refl}

insert_id_comm : (x y : ℕ) (l : List ℕ) → insert_id x (insert_id y l) ≡ insert_id y (insert_id x l)
insert_id_comm x y [] = ground arith
insert_id_comm x y (z ∷ zs) = ground (arith, insert_id_comm x y zs)

Perm-insert_id : (x : ℕ) (l : List ℕ) → Perm (insert_id x l) (x ∷ l)
Perm-insert_id x [] = Perm.refl (x ∷ [])
Perm-insert_id x (y ∷ ys) =
    elim (leb x y) as (λ b. Perm (if b then x ∷ y ∷ ys else y ∷ insert_id x ys) (x ∷ y ∷ ys)) [
      | true ↦ Perm.refl (x ∷ y ∷ ys)
      | false ↦ Perm.trans (Perm.cons y (Perm-insert_id x ys)) (Perm.swap x y ys)
    ]

pub Perm-sort_ids : (xs : List ℕ) → Perm (sort_ids xs) xs
unfolding sort_ids
Perm-sort_ids [] = Perm.refl []
Perm-sort_ids (x ∷ xs) =
    Perm.trans (Perm-insert_id x (sort_ids xs)) (Perm.cons x (Perm-sort_ids xs))

pub sort_ids-Permᴰ : {xs ys : List ℕ} → Permᴰ xs ys → sort_ids xs ≡ sort_ids ys
unfolding sort_ids
sort_ids-Permᴰ Permᴰ.nil = refl
sort_ids-Permᴰ (Permᴰ.cons e d) = ap₂ insert_id e (sort_ids-Permᴰ d)
sort_ids-Permᴰ (Permᴰ.swap {a = a} {b = b} {l = l} e f) =
    insert_id_comm a b (sort_ids l) ∙ ap₂ (λ u v. insert_id u (insert_id v (sort_ids l))) f e
sort_ids-Permᴰ (Permᴰ.trans d f) = sort_ids-Permᴰ d ∙ sort_ids-Permᴰ f

-- The comparison of the sorted lists decides whether one list of ids is a permutation of the other:
-- each id is counted, their order is not.
pub ids_eq_iff : (xs ys : List ℕ) → (ids_eq (sort_ids xs) (sort_ids ys) ≡ true) ↔ Perm xs ys
ids_eq_iff xs ys = (
  λ h.
      Perm.trans (Perm.symm (Perm-sort_ids xs))
        (subst (λ l. Perm l ys) (sym (ids_eq_sound _ _ h)) (Perm-sort_ids ys)),
  λ p. ∥∥₁_elim p (Bool-set _ _) λ d.
      subst (λ l. ids_eq (sort_ids xs) l ≡ true) (sort_ids-Permᴰ d) (ids_eq_refl (sort_ids xs)),
)
