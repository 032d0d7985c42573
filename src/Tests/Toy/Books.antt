-- ===== src/Tests/Toy/Books.antt =====
-- The engine of `Toy` settles each position at one price and books new positions only.
use state_keeper.Prelude.{
  any, ap₂, ◌++◌, ◌∙◌, filter, ℕ, ℤ, Bool, false, true, if◌then◌else◌, List, [], ◌∷◌, map, length,
  ok, leb, err, panic, arith, ok-injective, ◌≡◌, refl, sym, ap, subst, All, All-append, All-filter,
  Bool-cases, inl, inr, ◌≤◌,
}
use state_keeper.Types.{
  PositionSettlement, ConsumedTwap, PositionRecord, NewPosition, BookOpenOutcome, AccountResolve,
  ProvenTwap,
}
use state_keeper.Engine.{Row}
use state_keeper.Engine.Laws.{
  IsConsuming, KeepsEach, consumed_at, expires_at, IsSettling, IsBooking, BooksHold, settles_at,
  row_twaps,
}
use state_keeper.Tests.Toy.{
  consumed_of, settle_priced, is_priced, one_price_each, is_at, is_booked, booked_as, book_on,
  book_row, insert_position, sort_positions, are_distinct, stays, outcome_of_sorted, survivors, toy,
}

twaps-book_row :
    (now : ℕ) (ps : List NewPosition) (rows : List Row)
    → map (row_twaps toy) (map (book_row now ps) rows) ≡ map (row_twaps toy) rows
twaps-book_row now ps [] = refl
twaps-book_row now ps (r ∷ rows) = ap (λ l. r.1.proven_twaps ∷ l) (twaps-book_row now ps rows)

none_of_any {ℓ} :
    {A : Type ℓ} (p : A → Bool) (xs : List A) → any p xs ≡ false → length (filter p xs) ≡ 0
none_of_any p [] h = refl
none_of_any p (x ∷ xs) h = ground (arith, none_of_any p xs)

one_price_each_lem :
    (oracle expiry : ℕ) (ts : List ProvenTwap)
    → one_price_each ts ≡ true
    → length (filter (settles_at toy oracle expiry) ts) ≤ 1
one_price_each_lem oracle expiry [] u = omega arith
one_price_each_lem oracle expiry (t ∷ ts) u =
    ground (arith, one_price_each_lem oracle expiry ts, none_of_any (is_at oracle expiry) ts)

pub toy-IsSettling : IsSettling toy
toy-IsSettling = record {
  one-price = λ ps ts r oracle expiry h. elim (Bool-cases (one_price_each ts)) [
    | inl u ↦ one_price_each_lem oracle expiry ts u
    | inr n ↦ absurd (ground (arith, h))
  ];
  twaps-apply = λ rows rows' ps now o h.
      ap (λ (x : List Row × BookOpenOutcome). map (row_twaps toy) x.0) (sym (ok-injective h))
      ∙ twaps-book_row now ps rows;
}

booked_hold :
    (P : ℕ → Type 0) (now owner : ℕ) (ps : List NewPosition)
    → All (λ (p : NewPosition). P p.terms_id) ps
    → All (λ (b : PositionRecord). P b.terms_id) (book_on now owner ps)
booked_hold P now owner [] h = tt
booked_hold P now owner (p ∷ ps) h =
    elim (is_booked now owner p)
      as (λ c.
        All (λ (b : PositionRecord). P b.terms_id)
          (map (booked_as owner)
            (if c then p ∷ filter (is_booked now owner) ps else filter (is_booked now owner) ps))) [
              | true ↦ (h.0, booked_hold P now owner ps h.1)
              | false ↦ booked_hold P now owner ps h.1
            ]

rows_hold :
    (P : ℕ → Type 0) (now : ℕ) (ps : List NewPosition) (rows : List Row)
    → All (λ (p : NewPosition). P p.terms_id) ps
    → BooksHold toy P rows
    → BooksHold toy P (map (book_row now ps) rows)
rows_hold P now ps [] h b = tt
rows_hold P now ps (r ∷ rows) h b = (
  All-append (λ (b : PositionRecord). P b.terms_id) r.1.positions (book_on now r.0.account_owner ps)
      b.0 (booked_hold P now r.0.account_owner ps h),
  rows_hold P now ps rows h b.1,
)

insert_position_hold :
    (P : PositionRecord → Type 0) (p : PositionRecord) (ps : List PositionRecord)
    → P p
    → All P ps
    → All P (insert_position p ps)
insert_position_hold P p [] x h = (x, tt)
insert_position_hold P p (q ∷ qs) x h =
    elim (leb p.terms_id q.terms_id)
      as (λ c. All P (if c then p ∷ q ∷ qs else q ∷ insert_position p qs)) [
        | true ↦ (x, h)
        | false ↦ (h.0, insert_position_hold P p qs x h.1)
      ]

sort_positions_hold :
    (P : PositionRecord → Type 0) (ps : List PositionRecord) → All P ps → All P (sort_positions ps)
sort_positions_hold P [] h = tt
sort_positions_hold P (p ∷ ps) h =
    insert_position_hold P p (sort_positions ps) h.0 (sort_positions_hold P ps h.1)

surviving-survivors :
    (vm : ℤ) (ps : List PositionRecord) (r : AccountResolve)
    → survivors vm ps ≡ ok r
    → sort_positions ps ≡ r.surviving
surviving-survivors vm ps r h = elim (Bool-cases (are_distinct ps)) [
  | inl u ↦
      ap (λ (x : AccountResolve). x.surviving)
        (ok-injective (sym (ap (λ b. if b then ok (outcome_of_sorted vm ps) else err panic) u) ∙ h))
  | inr n ↦ absurd (ground (arith, h))
]

pub toy-IsBooking : IsBooking toy
toy-IsBooking = record {
  positions-apply = λ P rows rows' ps now o h new held.
      subst (λ (x : List Row × BookOpenOutcome). BooksHold toy P x.0) (ok-injective h)
        (rows_hold P now ps rows new held);
  surviving-resolve = λ P owner ps ss vm paused now table r h held.
      subst (All P) (surviving-survivors vm (filter (stays ss) ps) r h)
        (sort_positions_hold P (filter (stays ss) ps) (All-filter P (stays ss) ps held));
}

priced_of_count :
    (q : ProvenTwap → Bool) (ts : List ProvenTwap) → 1 ≤ length (filter q ts) → any q ts ≡ true
priced_of_count q ts h = elim (Bool-cases (any q ts)) [
  | inl t ↦ t
  | inr f ↦ absurd (omega (arith, none_of_any q ts f))
]

consumed_counts :
    (oracle expiry : ℕ) (ts : List ProvenTwap) (ps : List PositionRecord)
    → any (is_at oracle expiry) ts ≡ true
    → any (expires_at toy oracle expiry) ps ≡ true
    → 1
      ≤ length (filter (consumed_at toy oracle expiry) (map consumed_of (filter (is_priced ts) ps)))
consumed_counts oracle expiry ts [] t h = absurd (cc)
consumed_counts oracle expiry ts (p ∷ ps) t h = elim (Bool-cases (expires_at toy oracle expiry p)) [
  | inl here ↦
      let at_oracle : p.oracle ≡ oracle = ground (arith, here) in
      let at_expiry : p.expiry ≡ expiry = ground (arith, here) in
      let priced : is_priced ts p ≡ true =
        ap₂ (λ x y. any (is_at x y) ts) at_oracle at_expiry ∙ t in
      ground (arith, priced, here)
  | inr elsewhere ↦ ground (arith, consumed_counts oracle expiry ts ps t)
]

settle_priced-consumes :
    (ps : List PositionRecord) (ts : List ProvenTwap)
    (r : List PositionSettlement × List ConsumedTwap)
    → settle_priced ps ts ≡ ok r
    → map consumed_of (filter (is_priced ts) ps) ≡ r.1
settle_priced-consumes ps ts r h = elim (Bool-cases (one_price_each ts)) [
  | inl u ↦ ground (arith, h)
  | inr n ↦ absurd (ground (arith, h))
]

any_append_left :
    (k : PositionRecord → Bool) (xs ys : List PositionRecord)
    → any k xs ≡ true
    → any k (xs ++ ys) ≡ true
any_append_left k [] ys h = absurd (cc)
any_append_left k (x ∷ xs) ys h = ground (arith, any_append_left k xs ys)

book_row-KeepsEach :
    (k : PositionRecord → Bool) (now : ℕ) (ps : List NewPosition) (rows : List Row)
    → KeepsEach toy k rows (map (book_row now ps) rows)
book_row-KeepsEach k now ps [] = tt
book_row-KeepsEach k now ps (r ∷ rows) = (
  any_append_left k r.1.positions (book_on now r.0.account_owner ps),
  book_row-KeepsEach k now ps rows,
)

pub toy-IsConsuming : IsConsuming toy
toy-IsConsuming = record {
  one-consumed = λ ps ts r oracle expiry h held priced.
      subst (λ l. 1 ≤ length (filter (consumed_at toy oracle expiry) l))
        (settle_priced-consumes ps ts r h)
        (consumed_counts oracle expiry ts ps (priced_of_count (is_at oracle expiry) ts priced)
          held);
  keeps-apply = λ k rows rows' ps now o h.
      subst (λ (x : List Row × BookOpenOutcome). KeepsEach toy k rows x.0) (ok-injective h)
        (book_row-KeepsEach k now ps rows);
}
