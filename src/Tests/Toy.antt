-- ===== src/Tests/Toy.antt =====
-- A small engine: a tree is what it reads at a key, and its root reads the keys 1 to 3.
pub mod Trees
pub mod Orders
pub mod Books
use mathlib.Core.List.Permᴰ
use state_keeper.Prelude.{
  ℕ, suc, ◌+◌, ◌*◌, ℤ, pos, negsuc, Bool, false, true, ◌&&◌, ◌||◌, ◌==◌, ltb, if◌then◌else◌, Option,
  none, some, List, [], ◌∷◌, ◌++◌, map, filter, length, ok, not, leb, any, any-Permᴰ, map-Permᴰ,
  filter-Permᴰ, Permᴰ, Result, err, panic, arith, ok-injective, ◌≡◌, refl, sym, ap, ap₂, ◌∙◌, subst,
  All, filter-ext, All-append, All-filter, Bool-cases, inl, inr, ◌≤◌,
}
use state_keeper.Types.{
  PositionRecord, NewPosition, BookOpenOutcome, AccountResolve, ProvenMark, ProvenTwap,
  ConsumedTwap, PositionSettlement,
}
use state_keeper.Engine.{Engine, Row}
use state_keeper.Engine.Laws.{
  IsTree, IsPrePass, IsSettling, IsBooking, BooksHold, settles_at, row_twaps, insert_leaves, assign,
  row_owners,
}
use state_keeper.Engine.Order.{AllAlike, IsOrderFree}
use state_keeper.Replay.{EpochInputs}
use state_keeper.Replay.Resolve.{is_nonempty}
use state_keeper.Replay.Resolve.Reordered.{IsUnsaturated}

abbrev pub ReadTree : Type 0
ReadTree = ℕ → Option ℕ

abbrev pub put : ℕ → Option ℕ → ReadTree → ReadTree
put k v t = λ j. if j == k then v else t j

abbrev pub put_all : List (ℕ × ℕ) → ReadTree → ReadTree
put_all [] t = t
put_all ((k, v) ∷ l) t = put_all l (put k (some v) t)

abbrev pub no_leaf : ReadTree
no_leaf j = none

abbrev pub weight : Option ℕ → ℕ
weight none = 0
weight (some v) = suc v

abbrev pub read_root : ReadTree → ℕ
read_root t = weight (t 1) + 100 * weight (t 2) + 10000 * weight (t 3)

abbrev pub leaf_weight : ℕ → ℤ → ℕ → ℕ
leaf_weight aid (pos n) r = aid + 10 * r + n
leaf_weight aid (negsuc n) r = aid + 10 * r

-- An open that is past its expiry is rejected.
abbrev pub is_live : ℕ → NewPosition → Bool
is_live now p = ltb now p.expiry

abbrev pub is_late : ℕ → NewPosition → Bool
is_late now p = if is_live now p then false else true

abbrev pub position_of : ℕ → NewPosition → PositionRecord
position_of counterparty p = record {
  terms_id = p.terms_id;
  counterparty = counterparty;
  oracle = p.oracle;
  notional = p.quantity;
  entry_rate = p.entry_rate;
  side = p.side_a;
  expiry = p.expiry;
  pushed_im = 0;
  market_key = p.pair_tag;
}

abbrev pub is_booked : ℕ → ℕ → NewPosition → Bool
is_booked now owner p = is_live now p && (owner == p.party_a || owner == p.party_b)

abbrev pub booked_as : ℕ → NewPosition → PositionRecord
booked_as owner p = position_of (if owner == p.party_a then p.party_b else p.party_a) p

abbrev pub book_on : ℕ → ℕ → List NewPosition → List PositionRecord
book_on now owner ps = map (booked_as owner) (filter (is_booked now owner) ps)

abbrev pub book_row : ℕ → List NewPosition → Row → Row
book_row now ps r =
    (r.0, record (r.1) { positions = r.1.positions ++ book_on now r.0.account_owner ps })

abbrev pub id_of : NewPosition → ℕ
id_of p = p.terms_id

abbrev pub pre_pass : List NewPosition → ℕ → BookOpenOutcome
pre_pass ps now = record { rejected = map id_of (filter (is_late now) ps); opened = map id_of ps }

abbrev pub insert_position : PositionRecord → List PositionRecord → List PositionRecord
insert_position p [] = p ∷ []
insert_position p (q ∷ qs) =
    let later = q ∷ insert_position p qs in if leb p.terms_id q.terms_id then p ∷ q ∷ qs else later

-- In the order of the ids.
abbrev pub sort_positions : List PositionRecord → List PositionRecord
sort_positions [] = []
sort_positions (p ∷ ps) = insert_position p (sort_positions ps)

abbrev pub has_id : ℕ → PositionRecord → Bool
has_id id p = p.terms_id == id

abbrev pub are_distinct : List PositionRecord → Bool
are_distinct [] = true
are_distinct (p ∷ ps) = not (any (has_id p.terms_id) ps) && are_distinct ps

abbrev pub is_at : ℕ → ℕ → ProvenTwap → Bool
is_at feed close_time t = t.feed_id == feed && t.close_time == close_time

-- No two prices for one oracle and expiry.
abbrev pub one_price_each : List ProvenTwap → Bool
one_price_each [] = true
one_price_each (t ∷ ts) = not (any (is_at t.feed_id t.close_time) ts) && one_price_each ts

abbrev pub is_priced : List ProvenTwap → PositionRecord → Bool
is_priced ts p = any (is_at p.oracle p.expiry) ts

abbrev pub settlement_of : PositionRecord → PositionSettlement
settlement_of p = record { terms_id = p.terms_id; vm_realized = pos 0 }

abbrev pub consumed_of : PositionRecord → ConsumedTwap
consumed_of p = record { feed_id = p.oracle; close_time = p.expiry; twap = pos 0; expo = pos 0 }

abbrev pub settle_priced :
    List PositionRecord → List ProvenTwap → Result (List PositionSettlement × List ConsumedTwap)
settle_priced ps ts =
    if one_price_each ts
    then ok
        (map settlement_of (filter (is_priced ts) ps), map consumed_of (filter (is_priced ts) ps))
    else err panic

abbrev pub stays : List PositionSettlement → PositionRecord → Bool
stays ss p = not (any (λ (s : PositionSettlement). s.terms_id == p.terms_id) ss)

abbrev pub outcome_of_sorted : ℤ → List PositionRecord → AccountResolve
outcome_of_sorted vm ps = record {
  vm_equity = vm;
  positions_live = is_nonempty (sort_positions ps);
  surviving = sort_positions ps;
}

abbrev pub survivors : ℤ → List PositionRecord → Result AccountResolve
survivors vm ps = if are_distinct ps then ok (outcome_of_sorted vm ps) else err panic

abbrev pub toy : Engine
toy = record {
  ScenarioTable = ℕ;
  scenario_root = λ t. ok t;
  account_id_single = λ a. a;
  account_leaf = leaf_weight;
  registry_leaf = 1;
  positions_root = length;
  feed_id_oracle = λ f. f;
  pair_tag_of = λ o. o;
  mark_binds_position = λ b m. b.oracle == m.feed_id;
  mark_fresh = λ t now. true;
  apply_new_boxes_to_book = λ rows ps now. ok (map (book_row now ps) rows, pre_pass ps now);
  position_settlements_from_twaps = settle_priced;
  account_vm_from_marks = λ ps ms. ok (pos 5, []);
  resolve_account = λ owner ps ss vm paused now table. survivors vm (filter (stays ss) ps);
  Smt2 = ReadTree;
  SmtWitness = ℕ;
  new = no_leaf;
  insert = λ k v t. put k (some v) t;
  remove = λ k t. put k none t;
  get = λ k t. t k;
  root = read_root;
  from_leaves = λ l. put_all l no_leaf;
  step = λ k v t. (read_root t, put k v t);
  credited_deposit_registry = λ ks. read_root (put_all (map (λ k. (k, 1)) ks) no_leaf);
}
