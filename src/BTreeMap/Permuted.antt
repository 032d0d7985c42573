-- ===== src/BTreeMap/Permuted.antt =====
-- Entries that are inserted in another order.
use state_keeper.Prelude.{ℕ, List, [], ◌∷◌, map, Permᴰ, ◌≡◌, refl, ap, ap₂, ◌∙◌, arith}
use state_keeper.BTreeMap.{BTreeMap, insert, insert_all}

module _ {V : Type 0} where
  insert_comm :
      (j k : ℕ) (v w : V) (m : BTreeMap V)
      → (j ≡ k → v ≡ w)
      → insert j v (insert k w m) ≡ insert k w (insert j v m)
  unfolding insert
  insert_comm j k v w [] h = ground (arith, h)
  insert_comm j k v w ((i, u) ∷ m) h = ground (arith, h, insert_comm j k v w m h)

module _ {A V : Type 0} (key : A → ℕ) (value : A → V)
    (same : (a b : A) → key a ≡ key b → value a ≡ value b) where
  -- Values that are determined by their keys may be inserted in any order.
  pub insert_all-Permᴰ :
      (m : BTreeMap V) {xs ys : List A}
      → Permᴰ xs ys
      → insert_all (map (λ a. (key a, value a)) xs) m
        ≡ insert_all (map (λ a. (key a, value a)) ys) m
  unfolding insert_all
  insert_all-Permᴰ m Permᴰ.nil = refl
  insert_all-Permᴰ m (Permᴰ.cons {a = a} {b = b} {l₁ = l} {l₂ = n} e d) =
      insert_all-Permᴰ (insert (key a) (value a) m) d
      ∙ ap (λ x. insert_all (map (λ y. (key y, value y)) n) (insert (key x) (value x) m)) e
  insert_all-Permᴰ m (Permᴰ.swap {a = a} {b = b} {l = l} e f) =
      ap (insert_all (map (λ y. (key y, value y)) l)) (
        insert_comm (key b) (key a) (value b) (value a) m (same b a)
        ∙ ap₂ (λ x y. insert (key x) (value x) (insert (key y) (value y) m)) e f)
  insert_all-Permᴰ m (Permᴰ.trans d f) = insert_all-Permᴰ m d ∙ insert_all-Permᴰ m f
