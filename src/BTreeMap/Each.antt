-- ===== src/BTreeMap/Each.antt =====
-- A predicate of the entries of a map.
use state_keeper.Prelude.{
  ℕ, ◌==◌, ==_iff, Bool-cases, inl, inr, compare, Ordering, some, List, [], ◌∷◌, All, ◌≡◌, subst,
  arith,
}
use state_keeper.BTreeMap.{BTreeMap, insert, insert_all, get}

module _ {κ} {V : Type 0} (Q : ℕ × V → Type κ) where
  pub insert-All : (k : ℕ) (v : V) (m : BTreeMap V) → Q (k, v) → All Q m → All Q (insert k v m)
  unfolding insert
  insert-All k v [] q h = (q, tt)
  insert-All k v ((j, w) ∷ m) q h =
      elim (compare k j)
        as (λ c. All Q (elim c [
          | Ordering.lt ↦ (k, v) ∷ (j, w) ∷ m
          | Ordering.eq ↦ (k, v) ∷ m
          | Ordering.gt ↦ (j, w) ∷ insert k v m
        ])) [
          | Ordering.lt ↦ (q, h)
          | Ordering.eq ↦ (q, h.1)
          | Ordering.gt ↦ (h.0, insert-All k v m q h.1)
        ]

  pub insert_all-All :
      (l : List (ℕ × V)) (m : BTreeMap V) → All Q l → All Q m → All Q (insert_all l m)
  unfolding insert_all
  insert_all-All [] m a h = h
  insert_all-All ((k, v) ∷ l) m a h = insert_all-All l (insert k v m) a.1 (insert-All k v m a.0 h)

  pub get-All : (k : ℕ) (v : V) (m : BTreeMap V) → get k m ≡ some v → All Q m → Q (k, v)
  unfolding get
  get-All k v [] g h = absurd (cc)
  get-All k v ((j, w) ∷ m) g h = elim (Bool-cases (k == j)) [
    | inl e ↦ let same : (j, w) ≡ (k, v) = ground (arith, g, (==_iff k j).0 e) in subst Q same h.0
    | inr n ↦ get-All k v m (ground (arith, g)) h.1
  ]
