-- ===== src/BTreeMap.antt =====
-- `std::collections::BTreeMap` and `BTreeSet` with keys that are byte arrays of one length: the
-- arrays are their big-endian numbers, whose order is that of the arrays. A map is its list of
-- entries in ascending order, which is the order that the source iterates in.
pub mod Each
pub mod Lookup
pub mod Order
pub mod Permuted
use state_keeper.Prelude.{
  ℕ, compare, Ordering, Bool, true, false, Option, none, some, List, [], ◌∷◌, map, ◌==◌,
  if◌then◌else◌,
}

abbrev pub BTreeMap {ℓ} : Type ℓ → Type ℓ
BTreeMap V = List (ℕ × V)

abbrev pub BTreeSet : Type 0
BTreeSet = BTreeMap (Unit {0})

module _ {ℓ} {V : Type ℓ} where
  abbrev pub empty : BTreeMap V
  empty = []

  unfoldable pub insert : ℕ → V → BTreeMap V → BTreeMap V
  insert k v [] = (k, v) ∷ []
  insert k v ((j, w) ∷ m) = elim (compare k j) [
    | Ordering.lt ↦ (k, v) ∷ (j, w) ∷ m
    | Ordering.eq ↦ (k, v) ∷ m
    | Ordering.gt ↦ (j, w) ∷ insert k v m
  ]

  unfoldable pub remove : ℕ → BTreeMap V → BTreeMap V
  remove k [] = []
  remove k ((j, w) ∷ m) = let rest = remove k m in if k == j then rest else (j, w) ∷ rest

  unfoldable pub get : ℕ → BTreeMap V → Option V
  get k [] = none
  get k ((j, w) ∷ m) = if k == j then some w else get k m

  -- `keys().copied().collect()`
  abbrev pub keys : BTreeMap V → List ℕ
  keys [] = []
  keys ((j, w) ∷ m) = j ∷ keys m

  -- `values()`
  abbrev pub values : BTreeMap V → List V
  values [] = []
  values ((j, w) ∷ m) = w ∷ values m

  -- `iter().collect()` into a map, and `extend`: a later entry of one key replaces an earlier one.
  unfoldable pub insert_all : List (ℕ × V) → BTreeMap V → BTreeMap V
  insert_all [] m = m
  insert_all ((k, v) ∷ l) m = insert_all l (insert k v m)

abbrev pub contains_key {ℓ} : {V : Type ℓ} → ℕ → BTreeMap V → Bool
contains_key k m = elim (get k m) [ none ↦ false | some _ ↦ true ]

-- A list of keys, as the entries of a set.
abbrev pub as_entries : List ℕ → BTreeSet
as_entries = map λ k. (k, tt)
