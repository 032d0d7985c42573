-- ===== src/Engine/Leaves.antt =====
-- What the engine's tree reads after an insert for each entry of a list.
use state_keeper.Prelude.{
  ℕ, ◌≡◌, refl, ◌∙◌, ap, Option, none, some, List, [], ◌∷◌, map, contains, if◌then◌else◌, arith,
}
use state_keeper.BTreeMap.Lookup.{last_of}
use state_keeper.Engine.{Engine}
use state_keeper.Engine.Laws.{IsTree, insert_leaves}

-- One value at every key of a list.
abbrev pub at_each : ℕ → List ℕ → List (ℕ × ℕ)
at_each v = map λ k. (k, v)

module _ (e : Engine) (l : IsTree e) where
  open l use {get-new, get-insert, from_leaves_lem}

  get-insert_leaves :
      (k : ℕ) (xs : List (ℕ × ℕ)) (t : e.Smt2)
      → e.get k (insert_leaves e xs t) ≡ last_of k xs (e.get k t)
  unfolding last_of
  get-insert_leaves k [] t = refl
  get-insert_leaves k ((j, v) ∷ xs) t =
      get-insert_leaves k xs (e.insert j v t) ∙ ap (last_of k xs) (get-insert j v k t)

  pub get-from_leaves : (k : ℕ) (xs : List (ℕ × ℕ)) → e.get k (e.from_leaves xs) ≡ last_of k xs none
  get-from_leaves k xs =
      ap (e.get k) (from_leaves_lem xs)
      ∙ get-insert_leaves k xs e.new
      ∙ ap (last_of k xs) (get-new k)

  last_of-at_each :
      (k v : ℕ) (ks : List ℕ) (o : Option ℕ)
      → last_of k (at_each v ks) o ≡ (if contains ks k then some v else o)
  unfolding last_of
  last_of-at_each k v [] o = refl
  last_of-at_each k v (j ∷ ks) o =
      ground (arith, last_of-at_each k v ks o, last_of-at_each k v ks (some v))

  pub get-insert_each :
      (k v : ℕ) (ks : List ℕ)
      → e.get k (insert_leaves e (at_each v ks) e.new) ≡ (if contains ks k then some v else none)
  get-insert_each k v ks =
      get-insert_leaves k (at_each v ks) e.new
      ∙ ap (last_of k (at_each v ks)) (get-new k)
      ∙ last_of-at_each k v ks none
