-- ===== src/Scan/Paused.antt =====
-- The pause set of a block, against the last `MarketSet` of each pair.
use state_keeper.Prelude.{
  ℕ, Bool, true, false, ◌&&◌, Option, none, some, List, [], ◌∷◌, map, filter, contains, leb, ◌==◌,
  if◌then◌else◌, ◌≡◌, refl, arith, ◌∙◌, ap,
}
use state_keeper.BTreeMap.{BTreeMap, empty, insert_all, get, keys}
use state_keeper.BTreeMap.Lookup.{last_of, get-insert_all}
use state_keeper.BTreeMap.Order.{
  Ascends, IsAscending, IsSorted, Ascends-weaken, Ascends-IsAscending, insert_all-IsSorted,
  get-Ascends,
}
use state_keeper.Scan.{ChainHistory, MarketSetRecord, paused_tags, pause_entry, paused_pairs_at}

-- Whether the last record for `tag` up to `block` leaves the pair enabled and paused; `before` is
-- the answer of the records before these.
pub last_pause : ℕ → ℕ → List MarketSetRecord → Bool → Bool
last_pause block tag [] before = before
last_pause block tag (m ∷ ms) before =
    last_pause block tag ms
      (if leb m.block block && tag == m.pair_tag then m.enabled && m.paused else before)

abbrev is_some_true : Option Bool → Bool
is_some_true none = false
is_some_true (some b) = b

last_of-last_pause :
    (block tag : ℕ) (ms : List MarketSetRecord) (o : Option Bool)
    → is_some_true
        (last_of tag (map pause_entry (filter (λ (m : MarketSetRecord). leb m.block block) ms)) o)
      ≡ last_pause block tag ms (is_some_true o)
unfolding last_of last_pause
last_of-last_pause block tag [] o = refl
last_of-last_pause block tag (m ∷ ms) o = ground (
  arith,
  last_of-last_pause block tag ms o,
  last_of-last_pause block tag ms (some (m.enabled && m.paused)),
)

Ascends-paused_tags : (b : ℕ) (m : BTreeMap Bool) → Ascends b (keys m) → Ascends b (paused_tags m)
unfolding paused_tags
Ascends-paused_tags b [] s = tt
Ascends-paused_tags b ((k, true) ∷ m) s = (s.0, Ascends-paused_tags k m s.1)
Ascends-paused_tags b ((k, false) ∷ m) s =
    Ascends-paused_tags b m (Ascends-weaken b k (keys m) s.0 s.1)

paused_tags-IsAscending : (m : BTreeMap Bool) → IsSorted m → IsAscending (paused_tags m)
unfolding paused_tags
paused_tags-IsAscending [] s = tt
paused_tags-IsAscending ((k, true) ∷ m) s = Ascends-paused_tags k m s
paused_tags-IsAscending ((k, false) ∷ m) s =
    paused_tags-IsAscending m (Ascends-IsAscending k (keys m) s)

contains-paused_tags :
    (tag : ℕ) (m : BTreeMap Bool)
    → IsSorted m
    → contains (paused_tags m) tag ≡ is_some_true (get tag m)
unfolding paused_tags get
contains-paused_tags tag [] s = refl
contains-paused_tags tag ((k, b) ∷ m) s =
    ground
      (arith, contains-paused_tags tag m (Ascends-IsAscending k (keys m) s), get-Ascends k tag m s)

-- At every block a pair is answered exactly when its last `MarketSet` up to that block has it enabled
-- and paused, and the answer is in strictly ascending order.
pub paused_pairs_at_lem :
    (h : ChainHistory) (block : ℕ)
    → ((tag : ℕ)
        → contains (paused_pairs_at h block) tag ≡ last_pause block tag h.market_sets false)
      × IsAscending (paused_pairs_at h block)
unfolding paused_pairs_at get last_pause
paused_pairs_at_lem h block =
    let seen =
      map pause_entry (filter (λ (m : MarketSetRecord). leb m.block block) h.market_sets) in
    let state : BTreeMap Bool = insert_all seen empty in
    let sorted : IsSorted state = insert_all-IsSorted seen empty tt in
    (
      λ tag.
          contains-paused_tags tag state sorted
          ∙ ap is_some_true (get-insert_all tag seen empty)
          ∙ last_of-last_pause block tag h.market_sets none,
      paused_tags-IsAscending state sorted,
    )
