-- ===== src/Engine/Laws.antt =====
-- What the keeper relies on of the engine, from the documentation of im-state and crxvm: the tree
-- is a map and its root a function of that map; `from_leaves` and `credited_deposit_registry` are an
-- insert for each entry; `step` is an upsert or a removal; the open pre-pass works in place on the
-- rows, keeps each row's owner and prices, and surfaces every new position once in `opened`; a row that
-- settles has one price for each oracle and expiry; a book gains positions from the new ones
-- only; a settled position's price is consumed.
use state_keeper.Prelude.{
  All, ℤ, any, true, ◌++◌, ℕ, ◌≤◌, Bool, ◌&&◌, length, filter, ◌≡◌, Option, none, some, List, [],
  ◌∷◌, ok, ◌==◌, if◌then◌else◌, map,
}
use state_keeper.Types.{
  AccountResolve, NewPosition, BookOpenOutcome, PositionRecord, PositionSettlement, ProvenTwap,
  ConsumedTwap,
}
use state_keeper.Engine.{Engine, Row}

module _ (e : Engine) where
  -- An insert for each entry, in order.
  abbrev pub insert_leaves : List (ℕ × ℕ) → e.Smt2 → e.Smt2
  insert_leaves [] t = t
  insert_leaves ((k, v) ∷ l) t = insert_leaves l (e.insert k v t)

  -- `Some` upserts, `None` removes.
  abbrev pub assign : ℕ → Option ℕ → e.Smt2 → e.Smt2
  assign k (some v) t = e.insert k v t
  assign k none t = e.remove k t

  pub record IsTree : Type 0 where
    pub get-new : (k : ℕ) → e.get k e.new ≡ none
    pub get-insert :
        (k v j : ℕ) (t : e.Smt2) → e.get j (e.insert k v t) ≡ (if j == k then some v else e.get j t)
    pub get-remove :
        (k j : ℕ) (t : e.Smt2) → e.get j (e.remove k t) ≡ (if j == k then none else e.get j t)
    -- the root is a function of the map
    pub root_ext : (s t : e.Smt2) → ((k : ℕ) → e.get k s ≡ e.get k t) → e.root s ≡ e.root t
    pub from_leaves_lem : (l : List (ℕ × ℕ)) → e.from_leaves l ≡ insert_leaves l e.new
    pub step_lem : (k : ℕ) (v : Option ℕ) (t : e.Smt2) → (e.step k v t).1 ≡ assign k v t
    pub credited_deposit_registry_lem :
        (ks : List ℕ)
        → e.credited_deposit_registry ks
          ≡ e.root (insert_leaves (map (λ k. (k, e.registry_leaf)) ks) e.new)

  abbrev pub row_owners : List Row → List ℕ
  row_owners = map λ r. r.0.account_owner

  pub record IsPrePass : Type 0 where
    -- the slice is worked on in place: the rows stay as many, each with its owner
    pub owners-apply :
        (rows rows' : List Row) (ps : List NewPosition) (now : ℕ) (o : BookOpenOutcome)
        → e.apply_new_boxes_to_book rows ps now ≡ ok (rows', o)
        → row_owners rows' ≡ row_owners rows
    -- "`terms_id` of EVERY new position FINISHED"
    pub opened-apply :
        (rows rows' : List Row) (ps : List NewPosition) (now : ℕ) (o : BookOpenOutcome)
        → e.apply_new_boxes_to_book rows ps now ≡ ok (rows', o)
        → o.opened ≡ map (λ (p : NewPosition). p.terms_id) ps

  -- The price is one for positions of this oracle and expiry.
  abbrev pub settles_at : ℕ → ℕ → ProvenTwap → Bool
  settles_at oracle expiry t = e.feed_id_oracle t.feed_id == oracle && t.close_time == expiry

  -- A committed price for positions of this oracle and expiry.
  abbrev pub consumed_at : ℕ → ℕ → ConsumedTwap → Bool
  consumed_at oracle expiry t = e.feed_id_oracle t.feed_id == oracle && t.close_time == expiry

  abbrev pub expires_at : ℕ → ℕ → PositionRecord → Bool
  expires_at oracle expiry b = b.oracle == oracle && b.expiry == expiry

  abbrev pub row_twaps : Row → List ProvenTwap
  row_twaps r = r.1.proven_twaps

  pub record IsSettling : Type 0 where
    -- "must carry at most one price per position-binding key `(oracle, close_time)`", or it panics
    pub one-price :
        (ps : List PositionRecord) (ts : List ProvenTwap)
        (r : List PositionSettlement × List ConsumedTwap) (oracle expiry : ℕ)
        → e.position_settlements_from_twaps ps ts ≡ ok r
        → length (filter (settles_at oracle expiry) ts) ≤ 1
    -- the pre-pass opens positions and leaves the prices of the rows
    pub twaps-apply :
        (rows rows' : List Row) (ps : List NewPosition) (now : ℕ) (o : BookOpenOutcome)
        → e.apply_new_boxes_to_book rows ps now ≡ ok (rows', o)
        → map row_twaps rows' ≡ map row_twaps rows

  -- The book of each row holds only such positions, told by their ids.
  abbrev pub BooksHold : (ℕ → Type 0) → List Row → Type 0
  BooksHold P rows =
      All (λ (r : Row). All (λ (b : PositionRecord). P b.terms_id) r.1.positions) rows

  pub record IsBooking : Type 1 where
    -- the pre-pass pushes records of new positions only, each with its position's id
    pub positions-apply :
        (P : ℕ → Type 0) (rows rows' : List Row) (ps : List NewPosition) (now : ℕ)
        (o : BookOpenOutcome)
        → e.apply_new_boxes_to_book rows ps now ≡ ok (rows', o)
        → All (λ (p : NewPosition). P p.terms_id) ps
        → BooksHold P rows
        → BooksHold P rows'
    -- "settling positions removed, paused holds kept"
    pub surviving-resolve :
        (P : PositionRecord → Type 0) (owner : ℕ) (ps : List PositionRecord)
        (ss : List PositionSettlement) (vm : ℤ) (paused : List ℕ) (now : ℕ)
        (table : e.ScenarioTable) (r : AccountResolve)
        → e.resolve_account owner ps ss vm paused now table ≡ ok r
        → All P ps
        → All P r.surviving

  -- Each row has a position of the kind if it had one before.
  abbrev pub KeepsEach : (PositionRecord → Bool) → List Row → List Row → Type 0
  KeepsEach k [] [] = Unit
  KeepsEach k [] (s ∷ ss) = ⊥
  KeepsEach k (r ∷ rs) [] = ⊥
  KeepsEach k (r ∷ rs) (s ∷ ss) =
      (any k r.1.positions ≡ true → any k s.1.positions ≡ true) × KeepsEach k rs ss

  -- The prices that the guest commits for these rows: one row after the other, those that the row's
  -- settlements consumed.
  pub data Consumes : List Row → List ConsumedTwap → Type 0 where
    nothing : Consumes [] []
    and_row :
        {rows : List Row} {consumed all : List ConsumedTwap} (row : Row)
        (settled : List PositionSettlement × List ConsumedTwap)
        → e.position_settlements_from_twaps row.1.positions row.1.proven_twaps ≡ ok settled
        → Consumes rows consumed
        → all ≡ settled.1 ++ consumed
        → Consumes (row ∷ rows) all

  pub record IsConsuming : Type 0 where
    -- a position with a price settles, and its price is consumed
    pub one-consumed :
        (ps : List PositionRecord) (ts : List ProvenTwap)
        (r : List PositionSettlement × List ConsumedTwap) (oracle expiry : ℕ)
        → e.position_settlements_from_twaps ps ts ≡ ok r
        → any (expires_at oracle expiry) ps ≡ true
        → 1 ≤ length (filter (settles_at oracle expiry) ts)
        → 1 ≤ length (filter (consumed_at oracle expiry) r.1)
    -- the pre-pass takes no position away
    pub keeps-apply :
        (k : PositionRecord → Bool) (rows rows' : List Row) (ps : List NewPosition) (now : ℕ)
        (o : BookOpenOutcome)
        → e.apply_new_boxes_to_book rows ps now ≡ ok (rows', o)
        → KeepsEach k rows rows'
