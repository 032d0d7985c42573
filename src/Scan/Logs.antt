-- ===== src/Scan/Logs.antt =====
-- The second half of `scan`: the logs in chain order, each dispatched on its topic.
pub mod Authentic
pub mod Chronology
pub mod Kinds
pub mod Order
pub mod ReadOff
pub mod Runs
use state_keeper.Prelude.{
  ℕ, codes, ◌+◌, Bool, true, false, Option, none, some, List, flatten, [], ◌∷◌, ◌++◌, ◌==◌,
  if◌then◌else◌, Result, ok, ◌>>=◌, ◌>>◌, guard, ok_or, traverse, compare, Ordering, leb,
  terms_opened_decode, terms_id_mismatch, log_without_tx, tx_not_found, not_apply_state,
  twap_bound_decode, market_set_decode, panic,
}
use state_keeper.Types.{Bytes}
use state_keeper.Events.{OpenLockTerms, terms_rfq_id}
use state_keeper.Pv.{decode_public_values}
use state_keeper.Scan.{OpenRecord, FoldRecord, TwapBoundRecord, MarketSetRecord, ChainHistory}
use state_keeper.Scan.Chain.{Abi, Provider, Log, Filter, TermsOpened}
use state_keeper.Scan.Chunks.{chunk_ranges}
use state_keeper.Scan.Signatures.{open_sigs}

-- `unwrap_or(0)`
abbrev pub or_zero : Option ℕ → ℕ
or_zero none = 0
or_zero (some n) = n

abbrev pub block_of : Log → ℕ
block_of l = or_zero l.block_number

abbrev pub index_of : Log → ℕ
index_of l = or_zero l.log_index

-- The order of the sort keys, `(block, log index)` lexicographically.
abbrev pub key_le : Log → Log → Bool
key_le a b = elim (compare (block_of a) (block_of b)) [
  | Ordering.lt ↦ true
  | Ordering.eq ↦ leb (index_of a) (index_of b)
  | Ordering.gt ↦ false
]

unfoldable pub insert_log : Log → List Log → List Log
insert_log x [] = x ∷ []
insert_log x (y ∷ ys) = let later = y ∷ insert_log x ys in if key_le x y then x ∷ y ∷ ys else later

-- `logs.sort_by_key(..)`, which is stable.
unfoldable pub sort_logs : List Log → List Log
unfolding insert_log
sort_logs [] = []
sort_logs (x ∷ xs) = insert_log x (sort_logs xs)

abbrev pub first_topic : Log → Option ℕ
first_topic l = elim l.topics [ [] ↦ none | t ∷ ts ↦ some t ]

-- `Topics::new()`
pub record Topics : Type 0 where
  pub bound : ℕ
  pub terms_opened : ℕ
  pub root_advanced : ℕ
  pub twap_bound : ℕ
  pub market_set : ℕ

unfoldable pub new_topics : Abi → Topics
new_topics abi = record {
  bound = abi.keccak (codes "Bound(bytes32,address,address,uint256)");
  terms_opened = abi.terms_opened_hash;
  root_advanced = abi.keccak (codes "RootAdvanced(bytes32,bytes32)");
  twap_bound = abi.twap_bound_hash;
  market_set = abi.market_set_hash;
}

unfoldable pub as_filter_topics : Topics → List ℕ
as_filter_topics t = t.bound ∷ t.terms_opened ∷ t.root_advanced ∷ t.twap_bound ∷ t.market_set ∷ []

-- The filter of one chunk of blocks.
abbrev pub chunk_filter : ℕ → Topics → ℕ × ℕ → Filter
chunk_filter core topics (lo, hi) = record {
  address = core;
  from_block = lo;
  to_block = hi;
  event_signature = as_filter_topics topics;
}

abbrev pub unpack_opened : Option TermsOpened → Option (ℕ × OpenLockTerms)
unpack_opened none = none
unpack_opened (some ev) = some (ev.id, ev.terms)

unfoldable pub terms_from_opened_log : Abi → Log → Option (ℕ × OpenLockTerms)
terms_from_opened_log abi log = unpack_opened (abi.decode_terms_opened log)

-- The four vectors that the loop fills.
pub record Scanned : Type 0 where
  pub opens : List OpenRecord
  pub folds : List FoldRecord
  pub twaps : List TwapBoundRecord
  pub market_sets : List MarketSetRecord

abbrev pub nothing_scanned : Scanned
nothing_scanned = record { opens = []; folds = []; twaps = []; market_sets = [] }

module _ (abi : Abi) (p : Provider) where
  unfoldable pub read_open : Log → Result OpenRecord
  read_open log = do
    ev ← ok_or (terms_from_opened_log abi log) (terms_opened_decode (block_of log))
    guard (terms_rfq_id abi.keccak ev.1 == ev.0) (terms_id_mismatch (block_of log))
    tx_hash ← ok_or log.transaction_hash (log_without_tx (block_of log))
    sigs ← open_sigs abi p tx_hash ev.0
    ok (record { id = ev.0; terms = ev.1; sig_a = sigs.0; sig_b = sigs.1; block = block_of log })

  unfoldable pub read_fold : Log → Result FoldRecord
  read_fold log = do
    tx_hash ← ok_or log.transaction_hash (log_without_tx (block_of log))
    tx ← p.get_transaction_by_hash tx_hash
    input ← ok_or tx (tx_not_found tx_hash)
    public_values ← ok_or (abi.decode_apply_state input) (not_apply_state tx_hash)
    pv ← decode_public_values abi.decode_pv public_values
    ok (record { block = block_of log; tx = tx_hash; pv = pv })

  unfoldable pub read_twap : Log → Result TwapBoundRecord
  read_twap log = do
    ev ← ok_or (abi.decode_twap_bound log) (twap_bound_decode (block_of log))
    ok (record {
      feed_id = ev.feed_id;
      close_time = ev.close_time;
      twap = ev.twap;
      expo = ev.expo;
      block = block_of log;
    })

  unfoldable pub read_market_set : Log → Result MarketSetRecord
  read_market_set log = do
    ev ← ok_or (abi.decode_market_set log) (market_set_decode (block_of log))
    ok (record {
      block = block_of log;
      log_index = index_of log;
      instrument = ev.instrument;
      pair_tag = ev.pair_tag;
      enabled = ev.enabled;
      paused = ev.paused;
    })

  -- The dispatch on the first topic.
  abbrev pub scan_topic : Topics → Scanned → Log → Option ℕ → Result Scanned
  scan_topic topics s log none = ok s
  scan_topic topics s log (some t0) =
      if t0 == topics.terms_opened
      then (read_open log >>= λ o. ok (record s { opens = s.opens ++ o ∷ [] }))
      else if t0 == topics.root_advanced
      then (read_fold log >>= λ f. ok (record s { folds = s.folds ++ f ∷ [] }))
      else if t0 == topics.twap_bound
      then (read_twap log >>= λ t. ok (record s { twaps = s.twaps ++ t ∷ [] }))
      else if t0 == topics.market_set
      then (read_market_set log >>= λ m. ok (record s { market_sets = s.market_sets ++ m ∷ [] }))
      else ok s

  -- One round of the loop; a log without topics is skipped.
  unfoldable pub scan_log : Topics → Scanned → Log → Result Scanned
  scan_log topics s log = scan_topic topics s log (first_topic log)

  unfoldable pub scan_logs : Topics → List Log → Scanned → Result Scanned
  scan_logs topics [] s = ok s
  scan_logs topics (log ∷ logs) s = scan_log topics s log >>= scan_logs topics logs

  -- `scan`. The fuel of the loop over the block ranges is above the number of blocks and
  -- never runs out.
  unfoldable pub scan : ℕ → ℕ → Result ChainHistory
  scan core deploy_block = do
    head ← p.get_block_number
    let topics : Topics = new_topics abi
    ranges ← ok_or (chunk_ranges (head + 2) deploy_block head) panic
    chunks ← traverse (λ r. p.get_logs (chunk_filter core topics r)) ranges
    s ← scan_logs topics (sort_logs (flatten chunks)) nothing_scanned
    ok (record {
      opens = s.opens;
      folds = s.folds;
      twaps = s.twaps;
      market_sets = s.market_sets;
      head = head;
    })
