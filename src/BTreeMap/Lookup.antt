-- ===== src/BTreeMap/Lookup.antt =====
-- What `get` reads after each operation. None of these needs the order of the entries.
use state_keeper.Prelude.{
  ℕ, ◌≡◌, refl, Option, none, some, List, [], ◌∷◌, ◌==◌, if◌then◌else◌, arith, ◌||◌, Bool, true,
  false, contains,
}
use state_keeper.BTreeMap.{
  BTreeMap, BTreeSet, empty, insert, remove, get, insert_all, contains_key, as_entries, keys,
}

module _ {ℓ} {V : Type ℓ} where
  pub get-insert :
      (k j : ℕ) (v : V) (m : BTreeMap V)
      → get j (insert k v m) ≡ (if j == k then some v else get j m)
  unfolding get insert
  get-insert k j v [] = refl
  get-insert k j v ((i, w) ∷ m) = ground (arith, get-insert k j v m)

  pub get-remove :
      (k j : ℕ) (m : BTreeMap V) → get j (remove k m) ≡ (if j == k then none else get j m)
  unfolding get remove
  get-remove k j [] = ground arith
  get-remove k j ((i, w) ∷ m) = ground (arith, get-remove k j m)

  -- The last entry of a key in a list, which is what the collected map holds.
  unfoldable pub last_of : ℕ → List (ℕ × V) → Option V → Option V
  last_of k [] o = o
  last_of k ((j, v) ∷ l) o = last_of k l (if k == j then some v else o)

  pub get-insert_all :
      (k : ℕ) (l : List (ℕ × V)) (m : BTreeMap V) → get k (insert_all l m) ≡ last_of k l (get k m)
  unfolding insert_all last_of
  get-insert_all k [] m = refl
  get-insert_all k ((j, v) ∷ l) m =
      ground (arith, get-insert_all k l (insert j v m), get-insert j k v m)

abbrev present : Option (Unit {0}) → Bool
present none = false
present (some _) = true

present-last_of :
    (k : ℕ) (ids : List ℕ) (o : Option (Unit {0}))
    → present (last_of k (as_entries ids) o) ≡ (contains ids k || present o)
unfolding last_of
present-last_of k [] o = refl
present-last_of k (i ∷ ids) o =
    ground (arith, present-last_of k ids o, present-last_of k ids (some tt))

-- A set extended by a list holds the items of both.
pub contains_key-extend :
    (k : ℕ) (ids : List ℕ) (m : BTreeSet)
    → contains_key k (insert_all (as_entries ids) m) ≡ (contains ids k || contains_key k m)
contains_key-extend k ids m =
    ground (arith, get-insert_all k (as_entries ids) m, present-last_of k ids (get k m))

-- A set collected from a list holds the items of the list.
pub contains_key-collect :
    (k : ℕ) (ids : List ℕ) → contains_key k (insert_all (as_entries ids) empty) ≡ contains ids k
unfolding get
contains_key-collect k ids =
    ground (arith, get-insert_all k (as_entries ids) empty, present-last_of k ids none)

pub contains-keys : {V : Type 0} (k : ℕ) (m : BTreeMap V) → contains (keys m) k ≡ contains_key k m
unfolding get
contains-keys k [] = refl
contains-keys k ((j, w) ∷ m) = ground (arith, contains-keys k m)
