-- ===== src/Replay/Resolve/Books.antt =====
-- The owners and the books of an epoch's rows.
use mathlib.Core.List.{head-eq_of_cons-eq, tail-eq_of_cons-eq}
use state_keeper.Prelude.{
  ℕ, some, none, List, [], ◌∷◌, map, All, ok, ok_or, ok_or-eq-ok, panic, ◌>>=◌, >>=-eq-ok,
  ok-injective, traverse, traverse-eq-ok, ◌≡◌, refl, sym, ap, ◌∙◌, subst,
}
use state_keeper.BTreeMap.{BTreeMap, empty, get}
use state_keeper.BTreeMap.Each.{insert_all-All, get-All}
use state_keeper.Types.{PositionRecord, NewPosition}
use state_keeper.Engine.{Engine, Row}
use state_keeper.Engine.Laws.{row_owners, BooksHold}
use state_keeper.Replay.{AccountState, TreeState, EpochInputs}
use state_keeper.Replay.Resolve.{
  owner_entry, party_entries, owners_map, row_of, build_row, default_account, no_risk,
}

module _ (e : Engine) (P : ℕ → Type 0) where
  -- The account stands at its owner's key, and every position of its book is one of these.
  abbrev pub IsBooked : ℕ × AccountState → Type 0
  IsBooked x =
      (x.0 ≡ e.account_id_single x.1.owner)
      × All (λ (b : PositionRecord). P b.terms_id) x.1.positions

  abbrev Owns : ℕ × ℕ → Type 0
  Owns x = x.0 ≡ e.account_id_single x.1

  -- The row of an account, with its owner and with such positions.
  abbrev pub RowFor : ℕ → Row → Type 0
  RowFor aid r =
      (aid ≡ e.account_id_single r.0.account_owner)
      × All (λ (b : PositionRecord). P b.terms_id) r.1.positions

  abbrev pub RowsFor : List ℕ → List Row → Type 0
  RowsFor [] rows = Unit
  RowsFor (aid ∷ aids) [] = Unit
  RowsFor (aid ∷ aids) (r ∷ rows) = RowFor aid r × RowsFor aids rows

  parties-Owns : (ps : List NewPosition) → All Owns (party_entries e ps)
  parties-Owns [] = tt
  parties-Owns (p ∷ ps) = (refl, (refl, parties-Owns ps))

  accounts-Owns : (m : BTreeMap AccountState) → All IsBooked m → All Owns (map owner_entry m)
  accounts-Owns [] h = tt
  accounts-Owns (x ∷ m) h = (h.0.0, accounts-Owns m h.1)

  owners_map-Owns :
      (prior : TreeState) (i : EpochInputs)
      → All IsBooked prior.accounts
      → All Owns (owners_map e prior i)
  unfolding owners_map
  owners_map-Owns prior i h =
      insert_all-All Owns (party_entries e i.new_positions) _ (parties-Owns i.new_positions) (
        insert_all-All Owns (map owner_entry prior.accounts) empty (accounts-Owns prior.accounts h)
          tt)

  build_row-RowFor :
      (prior : TreeState) (i : EpochInputs) (aid : ℕ) (r : Row)
      → All IsBooked prior.accounts
      → build_row e prior i aid ≡ ok r
      → RowFor aid r
  unfolding build_row row_of
  build_row-RowFor prior i aid r h built =
      elim (get aid prior.accounts)
          as (λ x.
            (get aid prior.accounts ≡ x)
            → (elim x [
              | some a ↦ ok (row_of e i a)
              | none ↦ ok_or (get aid (owners_map e prior i)) panic >>= λ w.
                  ok (default_account w, no_risk)
            ]
                ≡ ok r)
            → RowFor aid r) [
              | some a ↦ λ found same.
                  subst (RowFor aid) (ok-injective same)
                    (get-All IsBooked aid a prior.accounts found h)
              | none ↦ λ absent same.
                  let (w, known, done) =
                    >>=-eq-ok (ok_or (get aid (owners_map e prior i)) panic) _ same in
                  subst (RowFor aid) (ok-injective done) (
                    get-All Owns aid w (owners_map e prior i)
                        (ok_or-eq-ok (get aid (owners_map e prior i)) panic w known)
                        (owners_map-Owns prior i h),
                    tt,
                  )
            ]
        refl built

  pub built-RowsFor :
      (prior : TreeState) (i : EpochInputs) (aids : List ℕ) (rows : List Row)
      → All IsBooked prior.accounts
      → traverse (build_row e prior i) aids ≡ ok rows
      → RowsFor aids rows
  built-RowsFor prior i [] rows h t = tt
  built-RowsFor prior i (aid ∷ aids) rows h t =
      let (q, qs, here, rest, same) = traverse-eq-ok (build_row e prior i) aid aids t in
      subst (RowsFor (aid ∷ aids)) (sym same)
        (build_row-RowFor prior i aid q h here, built-RowsFor prior i aids qs h rest)

  pub books_of_rows :
      (aids : List ℕ) (rows : List Row)
      → RowsFor aids rows
      → (prior : TreeState) (i : EpochInputs) → traverse (build_row e prior i) aids ≡ ok rows
      → BooksHold e P rows
  books_of_rows [] rows h prior i t = subst (BooksHold e P) (ok-injective t) tt
  books_of_rows (aid ∷ aids) [] h prior i t = tt
  books_of_rows (aid ∷ aids) (r ∷ rows) h prior i t =
      let (q, qs, here, rest, same) = traverse-eq-ok (build_row e prior i) aid aids t in
      (h.0.1, books_of_rows aids rows h.1 prior i (rest ∙ ap ok (sym (tail-eq_of_cons-eq same))))

  -- Rows with the owners of others, and with such books.
  pub RowsFor-owners :
      (aids : List ℕ) (rows rows' : List Row)
      → RowsFor aids rows
      → row_owners e rows' ≡ row_owners e rows
      → BooksHold e P rows'
      → RowsFor aids rows'
  RowsFor-owners [] rows rows' h o b = tt
  RowsFor-owners (aid ∷ aids) rows [] h o b = tt
  RowsFor-owners (aid ∷ aids) [] (s ∷ ss) h o b = absurd (cc)
  RowsFor-owners (aid ∷ aids) (r ∷ rs) (s ∷ ss) h o b = (
    (h.0.0 ∙ ap e.account_id_single (sym (head-eq_of_cons-eq o)), b.0),
    RowsFor-owners aids rs ss h.1 (tail-eq_of_cons-eq o) b.1,
  )
