-- ===== src/Keeper/Fresh.antt =====
-- `fresh_epoch_inputs` of main.rs: the inputs of the next epoch, from the history alone.
pub mod Due
pub mod Marks
pub mod Newest
pub mod Recorded
use state_keeper.Prelude.{
  ℕ, ◌-◌, ◌^◌, nonneg, as_u128, Bool, ◌&&◌, ◌==◌, ltb, if◌then◌else◌, Option, none, some, List, [],
  ◌∷◌, map, filter, any, Result, ok, traverse, ◌>>=◌, flatten,
}
use state_keeper.BTreeMap.{BTreeMap, empty, insert, get, values}
use state_keeper.Types.{ProvenMark, ProvenTwap, PositionRecord}
use state_keeper.Engine.{Engine}
use state_keeper.Scan.{ChainHistory, TwapBoundRecord, unfolded_opens, paused_pairs_at}
use state_keeper.Replay.{AccountState, TreeState, EpochInputs}
use state_keeper.Replay.Open.{open_to_new_position}

-- One round of the loop: `entry(feed).or_insert(t)`, and the later close time wins.
abbrev pub later_record :
    ℕ
    → TwapBoundRecord
    → Option TwapBoundRecord
    → BTreeMap TwapBoundRecord
    → BTreeMap TwapBoundRecord
later_record feed t none m = insert feed t m
later_record feed t (some e) m = if ltb e.close_time t.close_time then insert feed t m else m

unfoldable pub latest_prices :
    List TwapBoundRecord → BTreeMap TwapBoundRecord → BTreeMap TwapBoundRecord
latest_prices [] m = m
latest_prices (t ∷ ts) m = latest_prices ts (later_record t.feed_id t (get t.feed_id m) m)

abbrev pub mark_of_price : TwapBoundRecord → ProvenMark
mark_of_price t = record {
  feed_id = t.feed_id;
  mark_time = t.close_time;
  price = as_u128 t.twap;
  expo = t.expo;
}

abbrev pub twap_of_price : TwapBoundRecord → ProvenTwap
twap_of_price t = record {
  feed_id = t.feed_id;
  close_time = t.close_time;
  settle_price = as_u128 t.twap;
  expo = t.expo;
}

module _ (e : Engine) where
  -- Latest price per feed, fresh at `now` and not negative.
  unfoldable pub fresh_marks : List TwapBoundRecord → ℕ → List ProvenMark
  fresh_marks ts now = map mark_of_price (
      filter (λ (t : TwapBoundRecord). e.mark_fresh t.close_time now && nonneg t.twap)
        (values (latest_prices ts empty)))

  -- The `expiries` of the tree's open positions, each with its oracle. The set is kept as the list that
  -- it is collected from, which has the same items.
  abbrev pub expiries : TreeState → List (ℕ × ℕ)
  expiries state = flatten (
      map (λ (a : AccountState). map (λ (p : PositionRecord). (p.expiry, p.oracle)) a.positions)
        (values state.accounts))

  -- `expiries.contains(&(close_time, oracle))`
  abbrev pub is_due : TreeState → ℕ → ℕ → Bool
  is_due state close_time oracle =
      any (λ (x : ℕ × ℕ). x.0 == close_time && x.1 == oracle) (expiries state)

  -- Bound prices whose close time is an open position's expiry.
  unfoldable pub due_twaps : List TwapBoundRecord → TreeState → List ProvenTwap
  due_twaps ts state = map twap_of_price (
      filter
        (λ (t : TwapBoundRecord).
          nonneg t.twap && is_due state t.close_time (e.feed_id_oracle t.feed_id))
        ts)

  unfoldable pub fresh_epoch_inputs : ChainHistory → TreeState → ℕ → ℕ → Result EpochInputs
  fresh_epoch_inputs history state domain now =
      traverse (λ o. open_to_new_position o domain) (unfolded_opens history) >>= λ new_positions.
      ok (record {
        new_positions = new_positions;
        proven_marks = fresh_marks history.twaps now;
        proven_twaps = due_twaps history.twaps state;
        paused_pairs = paused_pairs_at history (2 ^ 64 - 1);
        proof_now = now;
        domain_separator = domain;
      })
