-- ===== src/Keeper/Fresh/Marks.antt =====
-- The feeds of the marks of the next epoch.
use state_keeper.Prelude.{
  ℕ, Bool, true, false, ◌&&◌, ltb, nonneg, if◌then◌else◌, Option, none, some, List, [], ◌∷◌, map,
  filter, ◌<◌, compare, Ordering, ◌≡◌, refl, sym, subst,
}
use state_keeper.BTreeMap.{BTreeMap, empty, insert, get, keys, values}
use state_keeper.BTreeMap.Order.{
  Ascends, IsAscending, IsSorted, Ascends-weaken, Ascends-IsAscending, insert-IsSorted,
}
use state_keeper.Types.{ProvenMark}
use state_keeper.Engine.{Engine}
use state_keeper.Scan.{TwapBoundRecord}
use state_keeper.Keeper.Fresh.{later_record, latest_prices, mark_of_price, fresh_marks}

-- Each price stands at its feed.
abbrev IsKeyed : BTreeMap TwapBoundRecord → Type 0
IsKeyed [] = Unit
IsKeyed ((k, t) ∷ m) = (t.feed_id ≡ k) × IsKeyed m

insert-IsKeyed :
    (t : TwapBoundRecord) (m : BTreeMap TwapBoundRecord)
    → IsKeyed m
    → IsKeyed (insert t.feed_id t m)
unfolding insert
insert-IsKeyed t [] h = (refl, tt)
insert-IsKeyed t ((k, u) ∷ m) h =
    elim (compare t.feed_id k)
      as (λ c. IsKeyed (elim c as (λ _. BTreeMap TwapBoundRecord) [
        | Ordering.lt ↦ (t.feed_id, t) ∷ (k, u) ∷ m
        | Ordering.eq ↦ (t.feed_id, t) ∷ m
        | Ordering.gt ↦ (k, u) ∷ insert t.feed_id t m
      ])) [
        | Ordering.lt ↦ (refl, h)
        | Ordering.eq ↦ (refl, h.1)
        | Ordering.gt ↦ (h.0, insert-IsKeyed t m h.1)
      ]

-- A map of latest prices: in order, each price at its feed.
abbrev IsLatest : BTreeMap TwapBoundRecord → Type 0
IsLatest m = IsSorted m × IsKeyed m

insert-IsLatest :
    (t : TwapBoundRecord) (m : BTreeMap TwapBoundRecord)
    → IsLatest m
    → IsLatest (insert t.feed_id t m)
insert-IsLatest t m h = (insert-IsSorted t.feed_id t m h.0, insert-IsKeyed t m h.1)

later_record-IsLatest :
    (t : TwapBoundRecord) (o : Option TwapBoundRecord) (m : BTreeMap TwapBoundRecord)
    → IsLatest m
    → IsLatest (later_record t.feed_id t o m)
later_record-IsLatest t none m h = insert-IsLatest t m h
later_record-IsLatest t (some u) m h =
    elim (ltb u.close_time t.close_time)
      as (λ b. IsLatest (if b then insert t.feed_id t m else m)) [
        | true ↦ insert-IsLatest t m h
        | false ↦ h
      ]

pub latest_prices-IsLatest :
    (ts : List TwapBoundRecord) (m : BTreeMap TwapBoundRecord)
    → IsLatest m
    → IsLatest (latest_prices ts m)
unfolding latest_prices
latest_prices-IsLatest [] m h = h
latest_prices-IsLatest (t ∷ ts) m h =
    latest_prices-IsLatest ts (later_record t.feed_id t (get t.feed_id m) m)
      (later_record-IsLatest t (get t.feed_id m) m h)

abbrev pub feed_of : ProvenMark → ℕ
feed_of m = m.feed_id

abbrev feeds_of : (TwapBoundRecord → Bool) → BTreeMap TwapBoundRecord → List ℕ
feeds_of p m = map feed_of (map mark_of_price (filter p (values m)))

-- The feeds of the prices that pass a test, above a bound.
Ascends-feeds :
    (p : TwapBoundRecord → Bool) (b : ℕ) (m : BTreeMap TwapBoundRecord)
    → Ascends b (keys m)
    → IsKeyed m
    → Ascends b (feeds_of p m)
Ascends-feeds p b [] s k = tt
Ascends-feeds p b ((j, t) ∷ m) s k =
    let rest = Ascends-feeds p j m s.1 k.1 in
    elim (p t)
      as (λ c. Ascends b (
        map feed_of
          (map mark_of_price (if c then t ∷ filter p (values m) else filter p (values m))))) [
            | true ↦ (
              subst (λ x. b < x) (sym k.0) s.0,
              subst (λ x. Ascends x (feeds_of p m)) (sym k.0) rest,
            )
            | false ↦ Ascends-weaken b j (feeds_of p m) s.0 rest
          ]

IsAscending-feeds :
    (p : TwapBoundRecord → Bool) (m : BTreeMap TwapBoundRecord)
    → IsSorted m
    → IsKeyed m
    → IsAscending (feeds_of p m)
IsAscending-feeds p [] s k = tt
IsAscending-feeds p ((j, t) ∷ m) s k =
    let rest = Ascends-feeds p j m s k.1 in
    elim (p t)
      as (λ c. IsAscending (
        map feed_of
          (map mark_of_price (if c then t ∷ filter p (values m) else filter p (values m))))) [
            | true ↦ subst (λ x. Ascends x (feeds_of p m)) (sym k.0) rest
            | false ↦ Ascends-IsAscending j (feeds_of p m) rest
          ]

-- The fresh marks are one for each feed, in strictly ascending order of the feeds.
pub fresh_marks-IsAscending :
    (e : Engine) (ts : List TwapBoundRecord) (now : ℕ)
    → IsAscending (map feed_of (fresh_marks e ts now))
unfolding fresh_marks
fresh_marks-IsAscending e ts now =
    let latest = latest_prices-IsLatest ts empty (tt, tt) in
    IsAscending-feeds (λ (t : TwapBoundRecord). e.mark_fresh t.close_time now && nonneg t.twap)
      (latest_prices ts empty) latest.0 latest.1
