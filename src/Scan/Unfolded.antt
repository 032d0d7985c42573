-- ===== src/Scan/Unfolded.antt =====
-- `unfolded_opens` of a history with one more fold.
use state_keeper.Prelude.{
  ℕ, Bool, false, not, ◌&&◌, ◌||◌, List, [], ◌∷◌, ◌++◌, filter, filter-ext, contains, ◌≡◌, refl,
  arith, ◌∙◌, ap, sym,
}
use state_keeper.BTreeMap.{empty, insert_all, contains_key, as_entries}
use state_keeper.BTreeMap.Lookup.{contains_key-collect}
use state_keeper.Scan.{ChainHistory, FoldRecord, OpenRecord, folded_ids, unfolded_opens}

filter-filter {ℓ} :
    {A : Type ℓ} (p q : A → Bool) (xs : List A)
    → filter p (filter q xs) ≡ filter (λ x. q x && p x) xs
filter-filter p q [] = refl
filter-filter p q (x ∷ xs) = ground (arith, filter-filter p q xs)

contains-append :
    (xs ys : List ℕ) (k : ℕ) → contains (xs ++ ys) k ≡ (contains xs k || contains ys k)
contains-append [] ys k = refl
contains-append (x ∷ xs) ys k = ground (arith, contains-append xs ys k)

-- Whether some fold lists the id.
abbrev pub is_folded : ℕ → List FoldRecord → Bool
is_folded id [] = false
is_folded id (f ∷ fs) = contains f.pv.opened_position_ids id || is_folded id fs

contains-folded_ids :
    (fs : List FoldRecord) (id : ℕ) → contains (folded_ids fs) id ≡ is_folded id fs
unfolding folded_ids
contains-folded_ids [] id = refl
contains-folded_ids (f ∷ fs) id =
    ground (
      arith,
      contains-append f.pv.opened_position_ids (folded_ids fs) id,
      contains-folded_ids fs id,
    )

-- The set lookup of the source is a search of the folds: the opens that no fold lists, in their order.
pub unfolded_opens_lem :
    (h : ChainHistory)
    → unfolded_opens h ≡ filter (λ (o : OpenRecord). not (is_folded o.id h.folds)) h.opens
unfolding unfolded_opens
unfolded_opens_lem h =
    filter-ext
      (λ (o : OpenRecord).
        not (contains_key o.id (insert_all (as_entries (folded_ids h.folds)) empty)))
      (λ o. not (is_folded o.id h.folds)) h.opens
      (λ o.
        ap not (contains_key-collect o.id (folded_ids h.folds) ∙ contains-folded_ids h.folds o.id))

is_folded-append :
    (id : ℕ) (fs gs : List FoldRecord)
    → is_folded id (fs ++ gs) ≡ (is_folded id fs || is_folded id gs)
is_folded-append id [] gs = refl
is_folded-append id (f ∷ fs) gs = ground (arith, is_folded-append id fs gs)

-- The history with one more fold at its end.
abbrev pub with_fold : ChainHistory → FoldRecord → ChainHistory
with_fold h f = record h { folds = h.folds ++ f ∷ [] }

-- One more fold takes exactly the opens that it lists out of the answer and leaves the others in
-- their order.
pub unfolded_opens-with_fold :
    (h : ChainHistory) (f : FoldRecord)
    → unfolded_opens (with_fold h f)
      ≡ filter (λ (o : OpenRecord). not (contains f.pv.opened_position_ids o.id)) (unfolded_opens h)
unfolded_opens-with_fold h f =
    unfolded_opens_lem (with_fold h f)
    ∙ filter-ext (λ (o : OpenRecord). not (is_folded o.id (h.folds ++ f ∷ [])))
        (λ o. not (is_folded o.id h.folds) && not (contains f.pv.opened_position_ids o.id)) h.opens
        (λ o. ground (arith, is_folded-append o.id h.folds (f ∷ [])))
    ∙ sym (
        ap (filter (λ (o : OpenRecord). not (contains f.pv.opened_position_ids o.id)))
          (unfolded_opens_lem h)
        ∙ filter-filter (λ (o : OpenRecord). not (contains f.pv.opened_position_ids o.id))
            (λ o. not (is_folded o.id h.folds)) h.opens)
