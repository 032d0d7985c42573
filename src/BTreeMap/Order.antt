-- ===== src/BTreeMap/Order.antt =====
-- The ascending order of the entries.
use state_keeper.Prelude.{ℕ, suc, contains, ◌≡◌, refl, ◌<◌, none, List, [], ◌∷◌, arith, false}
use state_keeper.BTreeMap.{contains_key, BTreeMap, insert, get, keys, insert_all}

-- Numbers in strictly ascending order, all above `k`.
abbrev pub Ascends : ℕ → List ℕ → Type 0
Ascends k [] = Unit
Ascends k (j ∷ js) = (k < j) × Ascends j js

abbrev pub IsAscending : List ℕ → Type 0
IsAscending [] = Unit
IsAscending (j ∷ js) = Ascends j js

pub Ascends-weaken : (b k : ℕ) (js : List ℕ) → b < k → Ascends k js → Ascends b js
Ascends-weaken b k [] h s = tt
Ascends-weaken b k (j ∷ js) h s = (omega arith, s.1)

pub Ascends-IsAscending : (b : ℕ) (js : List ℕ) → Ascends b js → IsAscending js
Ascends-IsAscending b [] s = tt
Ascends-IsAscending b (j ∷ js) s = s.1

-- A bound below the list is none of its items.
pub contains-Ascends : (b : ℕ) (js : List ℕ) → Ascends b js → contains js b ≡ false
contains-Ascends b [] s = refl
contains-Ascends b (j ∷ js) s =
    ground (arith, contains-Ascends b js (Ascends-weaken b j js s.0 s.1))

module _ {ℓ} {V : Type ℓ} where
  abbrev pub IsSorted : BTreeMap V → Type 0
  IsSorted m = IsAscending (keys m)

  Ascends-insert :
      (b k : ℕ) (v : V) (m : BTreeMap V)
      → b < k
      → Ascends b (keys m)
      → Ascends b (keys (insert k v m))
  unfolding insert
  Ascends-insert b k v [] h s = (h, tt)
  Ascends-insert b k v ((j, w) ∷ m) h s = ground (arith, Ascends-insert j k v m)

  pub insert-IsSorted : (k : ℕ) (v : V) (m : BTreeMap V) → IsSorted m → IsSorted (insert k v m)
  unfolding insert
  insert-IsSorted k v [] s = tt
  insert-IsSorted k v ((j, w) ∷ m) s = ground (arith, Ascends-insert j k v m)

  pub insert_all-IsSorted :
      (l : List (ℕ × V)) (m : BTreeMap V) → IsSorted m → IsSorted (insert_all l m)
  unfolding insert_all
  insert_all-IsSorted [] m s = s
  insert_all-IsSorted ((k, v) ∷ l) m s =
      insert_all-IsSorted l (insert k v m) (insert-IsSorted k v m s)

  -- A key at or below the bound is not in the map.
  pub get-Ascends : (b k : ℕ) (m : BTreeMap V) → Ascends b (keys m) → k < suc b → get k m ≡ none
  unfolding get
  get-Ascends b k [] s h = refl
  get-Ascends b k ((j, w) ∷ m) s h = ground (arith, get-Ascends j k m s.1)

  -- The keys are those at which `get` reads a value.
  pub contains-keys : (k : ℕ) (m : BTreeMap V) → contains (keys m) k ≡ contains_key k m
  unfolding get
  contains-keys k [] = refl
  contains-keys k ((j, w) ∷ m) = ground (arith, contains-keys k m)

  -- `get` of a map that a list of keys was inserted into, when the items hold no value of their own.
  pub get_outside : (k : ℕ) (m : BTreeMap V) → contains (keys m) k ≡ false → get k m ≡ none
  unfolding get
  get_outside k [] h = refl
  get_outside k ((j, w) ∷ m) h = ground (arith, get_outside k m)
