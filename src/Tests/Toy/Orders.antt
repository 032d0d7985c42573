-- ===== src/Tests/Toy/Orders.antt =====
-- The engine of `Toy` does not look at the order of positions.
use mathlib.Core.List.Permᴰ
use state_keeper.Prelude.{
  ℕ, ℤ, pos, false, true, ◌&&◌, List, [], ◌∷◌, map, filter, ok, not, any, any-Permᴰ, map-Permᴰ,
  filter-Permᴰ, Permᴰ, arith, ok-injective, ◌≡◌, refl, sym, ap, ap₂, ◌∙◌, subst, All, filter-ext,
  Bool-cases, inl, inr,
}
use state_keeper.Types.{
  PositionRecord, NewPosition, BookOpenOutcome, AccountResolve, ProvenMark, ProvenTwap,
  ConsumedTwap, PositionSettlement,
}
use state_keeper.Engine.{Row}
use state_keeper.Engine.Order.{AllAlike, IsOrderFree}
use state_keeper.Replay.{EpochInputs}
use state_keeper.Replay.Resolve.Reordered.{IsUnsaturated}
use state_keeper.Tests.Toy.{
  consumed_of, is_late, is_booked, booked_as, book_row, id_of, pre_pass, insert_position,
  sort_positions, has_id, are_distinct, one_price_each, is_priced, settlement_of, settle_priced,
  stays, survivors, toy,
}

insert_position_comm :
    (p q : PositionRecord) (ps : List PositionRecord)
    → has_id p.terms_id q ≡ false
    → insert_position p (insert_position q ps) ≡ insert_position q (insert_position p ps)
insert_position_comm p q [] d = ground arith
insert_position_comm p q (r ∷ ps) d = ground (arith, insert_position_comm p q ps d)

are_distinct-Permᴰ : {ps qs : List PositionRecord} → Permᴰ ps qs → are_distinct ps ≡ are_distinct qs
are_distinct-Permᴰ Permᴰ.nil = refl
are_distinct-Permᴰ (Permᴰ.cons {a = a} {b = b} {l₁ = l} {l₂ = m} e d) =
    ap₂ (λ x y. not x && y)
      (ap (λ (p : PositionRecord). any (has_id p.terms_id) l) e ∙ any-Permᴰ (has_id b.terms_id) d)
      (are_distinct-Permᴰ d)
are_distinct-Permᴰ (Permᴰ.swap {a = a} {b = b} {l = l} e f) =
    subst
      (λ (x : PositionRecord × PositionRecord).
        are_distinct (a ∷ b ∷ l) ≡ are_distinct (x.0 ∷ x.1 ∷ l))
      (λ i. (f i, e i)) (ground arith)
are_distinct-Permᴰ (Permᴰ.trans d f) = are_distinct-Permᴰ d ∙ are_distinct-Permᴰ f

sort_positions-Permᴰ :
    {ps qs : List PositionRecord}
    → Permᴰ ps qs
    → are_distinct ps ≡ true
    → sort_positions ps ≡ sort_positions qs
sort_positions-Permᴰ Permᴰ.nil u = refl
sort_positions-Permᴰ (Permᴰ.cons {a = a} {l₁ = l} e d) u =
    ap₂ insert_position e (sort_positions-Permᴰ d (ground arith))
sort_positions-Permᴰ (Permᴰ.swap {a = a} {b = b} {l = l} e f) u =
    insert_position_comm a b (sort_positions l) (ground arith)
    ∙ ap₂ (λ x y. insert_position x (insert_position y (sort_positions l))) f e
sort_positions-Permᴰ (Permᴰ.trans d f) u =
    sort_positions-Permᴰ d u ∙ sort_positions-Permᴰ f (sym (are_distinct-Permᴰ d) ∙ u)

survivors-Permᴰ :
    (vm : ℤ) (ps qs : List PositionRecord) (r : AccountResolve)
    → Permᴰ ps qs
    → survivors vm ps ≡ ok r
    → survivors vm qs ≡ ok r
survivors-Permᴰ vm ps qs r d h = ground (arith, are_distinct-Permᴰ d, sort_positions-Permᴰ d)

settled_of :
    (ps : List PositionRecord) (ts : List ProvenTwap)
    (r : List PositionSettlement × List ConsumedTwap)
    → one_price_each ts ≡ true
    → settle_priced ps ts ≡ ok r
    → (map settlement_of (filter (is_priced ts) ps), map consumed_of (filter (is_priced ts) ps)) ≡ r
settled_of ps ts r u h = ground (arith, h)

settle_priced-Permᴰ :
    (ps qs : List PositionRecord) (ts : List ProvenTwap)
    (r : List PositionSettlement × List ConsumedTwap)
    → Permᴰ ps qs
    → settle_priced ps ts ≡ ok r
    → (s : List PositionSettlement × List ConsumedTwap) × (settle_priced qs ts ≡ ok s)
      × Permᴰ r.0 s.0
settle_priced-Permᴰ ps qs ts r d h = elim (Bool-cases (one_price_each ts)) [
  | inl u ↦ (
    (map settlement_of (filter (is_priced ts) qs), map consumed_of (filter (is_priced ts) qs)),
    rw u refl,
    subst
        (λ (x : List PositionSettlement × List ConsumedTwap).
          Permᴰ x.0 (map settlement_of (filter (is_priced ts) qs)))
        (settled_of ps ts r u h) (map-Permᴰ settlement_of (filter-Permᴰ (is_priced ts) d)),
  )
  | inr n ↦ absurd (ground (arith, h))
]

stays-Permᴰ :
    (ps qs : List PositionRecord) (ss ts : List PositionSettlement)
    → Permᴰ ps qs
    → Permᴰ ss ts
    → Permᴰ (filter (stays ss) ps) (filter (stays ts) qs)
stays-Permᴰ ps qs ss ts d f =
    subst (Permᴰ (filter (stays ss) ps))
      (filter-ext (stays ss) (stays ts) qs λ p. ap not (any-Permᴰ _ f)) (filter-Permᴰ (stays ss) d)

rows-AllAlike :
    (now : ℕ) (rows : List Row) (ps qs : List NewPosition)
    → Permᴰ ps qs
    → AllAlike (map (book_row now ps) rows) (map (book_row now qs) rows)
rows-AllAlike now [] ps qs d = tt
rows-AllAlike now (r ∷ rows) ps qs d = (
  record {
    account = refl;
    positions = Permᴰ.append_left r.1.positions (
        map-Permᴰ (booked_as r.0.account_owner) (filter-Permᴰ (is_booked now r.0.account_owner) d));
    twaps = refl;
    marks = refl;
  },
  rows-AllAlike now rows ps qs d,
)

pub toy-IsOrderFree : IsOrderFree toy
toy-IsOrderFree = record {
  account_id_single-injective = λ p q h. h;
  apply-Permᴰ = λ rows ps qs now r d h. (
    (map (book_row now qs) rows, pre_pass qs now),
    refl,
    subst (λ (x : List Row × BookOpenOutcome). AllAlike x.0 (map (book_row now qs) rows))
        (ok-injective h) (rows-AllAlike now rows ps qs d),
    subst (λ (x : List Row × BookOpenOutcome). Permᴰ x.1.opened (map id_of qs)) (ok-injective h)
        (map-Permᴰ id_of d),
    subst
        (λ (x : List Row × BookOpenOutcome).
          Permᴰ x.1.rejected (map id_of (filter (is_late now) qs)))
        (ok-injective h) (map-Permᴰ id_of (filter-Permᴰ (is_late now) d)),
  );
  settlements-Permᴰ = settle_priced-Permᴰ;
  Unsaturated = λ ps ms. Unit;
  vm-Permᴰ = λ ps qs ms r d u h. ((pos 5, []), refl, ap (λ x. x.0) (sym (ok-injective h)));
  resolve-Permᴰ = λ owner ps qs ss ts vm paused now table r d f h.
      survivors-Permᴰ vm (filter (stays ss) ps) (filter (stays ts) qs) r
        (stays-Permᴰ ps qs ss ts d f) h;
}

-- No margin of this engine is a sum.
toy-Unsaturated :
    (ps : List PositionRecord) (ms : List ProvenMark) → toy-IsOrderFree.Unsaturated ps ms
unfolding toy-IsOrderFree
toy-Unsaturated ps ms = tt

pub toy-IsUnsaturated :
    (i : EpochInputs) (rows : List Row) → All (IsUnsaturated toy toy-IsOrderFree i) rows
toy-IsUnsaturated i [] = tt
toy-IsUnsaturated i (r ∷ rows) = (λ settled found. toy-Unsaturated _ _, toy-IsUnsaturated i rows)
