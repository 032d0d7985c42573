-- ===== src/Keeper/Fresh/Newest.antt =====
-- The marks of the next epoch against the prices of the history.
use state_keeper.Prelude.{
  ℕ, ◌≤◌, Bool, true, false, ◌&&◌, ◌==◌, ltb, nonneg, if◌then◌else◌, Option, none, some, List, [],
  ◌∷◌, map, filter, All, ◌⊎◌, inl, inr, ◌≡◌, refl, sym, ap, ◌∙◌, subst, arith, Bool-cases, ==_iff,
}
use state_keeper.BTreeMap.{BTreeMap, empty, get, keys, values}
use state_keeper.BTreeMap.Lookup.{get-insert}
use state_keeper.BTreeMap.Order.{IsAscending, IsSorted, get-Ascends, Ascends-IsAscending}
use state_keeper.Types.{ProvenMark}
use state_keeper.Engine.{Engine}
use state_keeper.Scan.{TwapBoundRecord}
use state_keeper.Keeper.Fresh.Marks.{feed_of, fresh_marks-IsAscending, latest_prices-IsLatest}
use state_keeper.Keeper.Fresh.{later_record, latest_prices, mark_of_price, fresh_marks}

-- `t` is one of the prices.
abbrev pub Among : TwapBoundRecord → List TwapBoundRecord → Type 0
Among t [] = ⊥
Among t (u ∷ us) = (u ≡ t) ⊎ Among t us

-- The later of a price found before and the next one; of two at one time, the first.
abbrev later : Option TwapBoundRecord → TwapBoundRecord → TwapBoundRecord
later none t = t
later (some u) t = if ltb u.close_time t.close_time then t else u

-- The price of a feed that the loop ends with, when it starts with `o`.
abbrev newer : ℕ → List TwapBoundRecord → Option TwapBoundRecord → Option TwapBoundRecord
newer k [] o = o
newer k (t ∷ ts) o = newer k ts (if k == t.feed_id then some (later o t) else o)

get-later_record :
    (k : ℕ) (t : TwapBoundRecord) (o : Option TwapBoundRecord) (m : BTreeMap TwapBoundRecord)
    → get t.feed_id m ≡ o
    → get k (later_record t.feed_id t o m) ≡ (if k == t.feed_id then some (later o t) else get k m)
get-later_record k t none m h = get-insert t.feed_id k t m
get-later_record k t (some u) m h = ground (arith, get-insert t.feed_id k t m)

same_feed :
    (k : ℕ) (t : TwapBoundRecord) (m : BTreeMap TwapBoundRecord)
    → (if k == t.feed_id then some (later (get t.feed_id m) t) else get k m)
      ≡ (if k == t.feed_id then some (later (get k m) t) else get k m)
same_feed k t m = elim (Bool-cases (k == t.feed_id)) [
  | inl e ↦ rw e (ap (λ j. some (later (get j m) t)) (sym ((==_iff k t.feed_id).0 e)))
  | inr n ↦ rw n refl
]

get-latest_prices :
    (k : ℕ) (ts : List TwapBoundRecord) (m : BTreeMap TwapBoundRecord)
    → get k (latest_prices ts m) ≡ newer k ts (get k m)
unfolding latest_prices
get-latest_prices k [] m = refl
get-latest_prices k (t ∷ ts) m =
    get-latest_prices k ts (later_record t.feed_id t (get t.feed_id m) m)
    ∙ ap (newer k ts) (get-later_record k t (get t.feed_id m) m refl ∙ same_feed k t m)

abbrev IsFrom : ℕ → Option TwapBoundRecord → Type 0
IsFrom k none = Unit
IsFrom k (some t) = t.feed_id ≡ k

IsFrom-later :
    (k : ℕ) (o : Option TwapBoundRecord) (t : TwapBoundRecord)
    → IsFrom k o
    → IsFrom k (if k == t.feed_id then some (later o t) else o)
IsFrom-later k none t h = ground arith
IsFrom-later k (some u) t h = ground arith

later-bound :
    (o : Option TwapBoundRecord) (t u : TwapBoundRecord)
    → o ≡ some u
    → u.close_time ≤ (later o t).close_time
later-bound none t u h = cc
later-bound (some v) t u h = ground arith

later-bound_next :
    (o : Option TwapBoundRecord) (t : TwapBoundRecord) → t.close_time ≤ (later o t).close_time
later-bound_next none t = ground arith
later-bound_next (some v) t = ground arith

-- No price of the feed is later than `t`.
abbrev pub NoneLater : ℕ → TwapBoundRecord → List TwapBoundRecord → Type 0
NoneLater k t = All λ (u : TwapBoundRecord). u.feed_id ≡ k → u.close_time ≤ t.close_time

-- What the price that the loop ends with has to do with the prices, and with the price at its start.
record IsLast (k : ℕ) (ts : List TwapBoundRecord) (o : Option TwapBoundRecord) (t : TwapBoundRecord)
    : Type 0 where
  from : t.feed_id ≡ k
  found : (o ≡ some t) ⊎ Among t ts
  start : (u : TwapBoundRecord) → o ≡ some u → u.close_time ≤ t.close_time
  none_later : NoneLater k t ts

later-found :
    (o : Option TwapBoundRecord) (x t : TwapBoundRecord) → later o x ≡ t → (o ≡ some t) ⊎ (x ≡ t)
later-found none x t h = inr h
later-found (some u) x t h = ground arith

-- The round on `x`, by whether `x` is a price of the feed.
IsLast-round :
    (k : ℕ) (x : TwapBoundRecord) (ts : List TwapBoundRecord) (o : Option TwapBoundRecord)
    (t : TwapBoundRecord) (b : Bool)
    → (k == x.feed_id) ≡ b
    → IsLast k ts (if b then some (later o x) else o) t
    → IsLast k (x ∷ ts) o t
IsLast-round k x ts o t true e l = record {
  from = l.from;
  found = elim l.found [
    | inl h ↦ elim (later-found o x t (ground arith)) [ inl p ↦ inl p | inr p ↦ inr (inl p) ]
    | inr among ↦ inr (inr among)
  ];
  start = λ u h. omega (arith, later-bound o x u h, l.start (later o x) refl);
  none_later = (λ h. omega (arith, later-bound_next o x, l.start (later o x) refl), l.none_later);
}
IsLast-round k x ts o t false e l = record {
  from = l.from;
  found = elim l.found [ inl h ↦ inl h | inr among ↦ inr (inr among) ];
  start = l.start;
  none_later = (λ h. ground arith, l.none_later);
}

IsLast-cons :
    (k : ℕ) (x : TwapBoundRecord) (ts : List TwapBoundRecord) (o : Option TwapBoundRecord)
    (t : TwapBoundRecord)
    → IsLast k ts (if k == x.feed_id then some (later o x) else o) t
    → IsLast k (x ∷ ts) o t
IsLast-cons k x ts o t l = IsLast-round k x ts o t (k == x.feed_id) refl l

newer-IsLast :
    (k : ℕ) (ts : List TwapBoundRecord) (o : Option TwapBoundRecord) (t : TwapBoundRecord)
    → IsFrom k o
    → newer k ts o ≡ some t
    → IsLast k ts o t
newer-IsLast k [] o t f h = record {
  from = subst (IsFrom k) h f;
  found = inl h;
  start = λ u g. ground arith;
  none_later = tt;
}
newer-IsLast k (x ∷ ts) o t f h =
    IsLast-cons k x ts o t (
      newer-IsLast k ts (if k == x.feed_id then some (later o x) else o) t (IsFrom-later k o x f) h)

-- A property of all that the map holds is one of its values.
All-values {κ} :
    (P : TwapBoundRecord → Type κ) (m : BTreeMap TwapBoundRecord)
    → IsSorted m
    → ((k : ℕ) (t : TwapBoundRecord) → get k m ≡ some t → P t)
    → All P (values m)
unfolding get
All-values P [] s h = tt
All-values P ((j, w) ∷ m) s h = (
  h j w (ground arith),
  All-values P m (Ascends-IsAscending j (keys m) s)
      λ k t g. h k t (ground (arith, get-Ascends j k m s)),
)

module _ (e : Engine) (ts : List TwapBoundRecord) (now : ℕ) where
  -- The mark is a price of the history, fresh and not negative, and none of its feed is later.
  pub record IsNewest (m : ProvenMark) : Type 0 where
    pub price : TwapBoundRecord
    pub among : Among price ts
    pub mark : mark_of_price price ≡ m
    pub fresh : e.mark_fresh price.close_time now ≡ true
    pub signed : nonneg price.twap ≡ true
    pub none_later : NoneLater price.feed_id price ts

  -- A price of the history, of whose feed none is later.
  abbrev IsLatest : TwapBoundRecord → Type 0
  IsLatest t = Among t ts × NoneLater t.feed_id t ts

  get-IsLatest :
      (k : ℕ) (t : TwapBoundRecord) → get k (latest_prices ts empty) ≡ some t → IsLatest t
  unfolding get
  get-IsLatest k t h =
      let l = newer-IsLast k ts none t tt (sym (get-latest_prices k ts empty) ∙ h) in
      (
        elim l.found [ inl p ↦ absurd cc | inr among ↦ among ],
        subst (λ f. NoneLater f t ts) (sym l.from) l.none_later,
      )

  marks-IsNewest :
      (prices : List TwapBoundRecord)
      → All IsLatest prices
      → All IsNewest (
          map mark_of_price (
            filter
              (λ (t : TwapBoundRecord). e.mark_fresh t.close_time now && nonneg t.twap)
              prices))
  marks-IsNewest [] h = tt
  marks-IsNewest (t ∷ prices) h =
      let rest = marks-IsNewest prices h.1 in
      elim (Bool-cases (e.mark_fresh t.close_time now)) [
        | inl fresh ↦ elim (Bool-cases (nonneg t.twap)) [
          | inl signed ↦
              rw (fresh, signed)
                (
                  record {
                    price = t;
                    among = h.0.0;
                    mark = refl;
                    fresh = fresh;
                    signed = signed;
                    none_later = h.0.1;
                  },
                  rest,
                )
          | inr negative ↦ rw (fresh, negative) rest
        ]
        | inr stale ↦ rw stale rest
      ]

  fresh_marks-IsNewest : All IsNewest (fresh_marks e ts now)
  unfolding fresh_marks
  fresh_marks-IsNewest = marks-IsNewest (values (latest_prices ts empty)) (
      All-values IsLatest (latest_prices ts empty) (latest_prices-IsLatest ts empty (tt, tt)).0
        get-IsLatest)

  -- The fresh marks are one at most for each feed, in strictly ascending order of the feeds; each is a
  -- price of the history that is fresh and not negative, and no price of its feed has a later close time.
  pub fresh_marks_lem :
      All IsNewest (fresh_marks e ts now) × IsAscending (map feed_of (fresh_marks e ts now))
  fresh_marks_lem = (fresh_marks-IsNewest, fresh_marks-IsAscending e ts now)
