-- ===== src/Tests/Toy/Trees.antt =====
-- The engine of `Toy` keeps its tree as a map and works on the rows in place.
use state_keeper.Prelude.{
  ℕ, Option, none, some, List, [], ◌∷◌, map, ok-injective, ◌≡◌, refl, sym, ap, ◌∙◌,
}
use state_keeper.Types.{NewPosition}
use state_keeper.Engine.{Row}
use state_keeper.Engine.Laws.{IsTree, IsPrePass, insert_leaves, assign, row_owners}
use state_keeper.Tests.Toy.{ReadTree, put, put_all, no_leaf, read_root, book_row, toy}

put_all-insert_leaves : (l : List (ℕ × ℕ)) (t : ReadTree) → put_all l t ≡ insert_leaves toy l t
put_all-insert_leaves [] t = refl
put_all-insert_leaves ((k, v) ∷ l) t = put_all-insert_leaves l (put k (some v) t)

toy_step : (k : ℕ) (v : Option ℕ) (t : ReadTree) → (toy.step k v t).1 ≡ assign toy k v t
toy_step k none t = refl
toy_step k (some v) t = refl

pub toy-IsTree : IsTree toy
toy-IsTree = record {
  get-new = λ k. refl;
  get-insert = λ k v j t. refl;
  get-remove = λ k j t. refl;
  root_ext = λ s t h. rw (h 1, h 2, h 3) refl;
  from_leaves_lem = λ l. put_all-insert_leaves l no_leaf;
  step_lem = toy_step;
  credited_deposit_registry_lem =
      λ ks. ap read_root (put_all-insert_leaves (map (λ k. (k, 1)) ks) no_leaf);
}

owners-book_row :
    (now : ℕ) (ps : List NewPosition) (rows : List Row)
    → row_owners toy (map (book_row now ps) rows) ≡ row_owners toy rows
owners-book_row now ps [] = refl
owners-book_row now ps (r ∷ rows) = ap (λ l. r.0.account_owner ∷ l) (owners-book_row now ps rows)

pub toy-IsPrePass : IsPrePass toy
toy-IsPrePass = record {
  owners-apply = λ rows rows' ps now o h.
      ap (λ x. row_owners toy x.0) (sym (ok-injective h)) ∙ owners-book_row now ps rows;
  opened-apply = λ rows rows' ps now o h. ap (λ x. x.1.opened) (sym (ok-injective h));
}
