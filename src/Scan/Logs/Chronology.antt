-- ===== src/Scan/Logs/Chronology.antt =====
-- The order of the four lists of a scanned history, which the replay and the pause set rely on.
use state_keeper.Prelude.{
  ℕ, ◌≤◌, Bool, List, flatten, Result, ok, guard, ok_or, >>=-eq-ok, ok-injective, traverse, ◌==◌,
  ◌≡◌, sym, ap, subst, arith, terms_opened_decode, terms_id_mismatch, log_without_tx, tx_not_found,
  not_apply_state, twap_bound_decode, market_set_decode,
}
use state_keeper.Events.{terms_rfq_id}
use state_keeper.Pv.{decode_public_values}
use state_keeper.Scan.{OpenRecord, FoldRecord, TwapBoundRecord, MarketSetRecord, ChainHistory}
use state_keeper.Scan.Chain.{Abi, Provider, Log}
use state_keeper.Scan.Signatures.{open_sigs}
use state_keeper.Scan.Logs.{
  block_of, terms_from_opened_log, new_topics, sort_logs, read_open, read_fold, read_twap,
  read_market_set, scan,
}
use state_keeper.Scan.Logs.Order.{
  IsBefore, place_of, LogBefore, IsOrdered, IsOrdered-filter, IsOrdered-traverse,
  sort_logs-IsOrdered,
}
use state_keeper.Scan.Logs.ReadOff.{scan-IsReadOff}
use state_keeper.Scan.Logs.Kinds.{Kind, kind_of, is_open, is_fold, is_price, is_market, logs_of}

-- The place of a `MarketSet` in the chain.
abbrev pub place_of_set : MarketSetRecord → ℕ × ℕ
place_of_set m = (m.block, m.log_index)

-- Every list of the history in the order of the chain; the market sets also by their log index.
pub record IsChronological (h : ChainHistory) : Type 0 where
  pub opens : IsOrdered (λ (a b : OpenRecord). a.block ≤ b.block) h.opens
  pub folds : IsOrdered (λ (a b : FoldRecord). a.block ≤ b.block) h.folds
  pub twaps : IsOrdered (λ (a b : TwapBoundRecord). a.block ≤ b.block) h.twaps
  pub market_sets :
      IsOrdered
        (λ (a b : MarketSetRecord). IsBefore (place_of_set a) (place_of_set b))
        h.market_sets

blocks_ascend : (a b : Log) (i j : ℕ) → i ≡ block_of a → j ≡ block_of b → LogBefore a b → i ≤ j
blocks_ascend a b i j h g r = ground arith

module _ (abi : Abi) (p : Provider) where
  block-read_open :
      (log : Log) (o : OpenRecord) → read_open abi p log ≡ ok o → o.block ≡ block_of log
  unfolding read_open
  block-read_open log o h =
      let (ev, decoded, h1) =
        >>=-eq-ok (ok_or (terms_from_opened_log abi log) (terms_opened_decode (block_of log))) _
          h in
      let (_u, same, h2) =
        >>=-eq-ok (guard (terms_rfq_id abi.keccak ev.1 == ev.0) (terms_id_mismatch (block_of log)))
          _ h1 in
      let (tx, sent, h3) =
        >>=-eq-ok (ok_or log.transaction_hash (log_without_tx (block_of log))) _ h2 in
      let (sigs, found, h4) = >>=-eq-ok (open_sigs abi p tx ev.0) _ h3 in
      ap (λ (x : OpenRecord). x.block) (sym (ok-injective h4))

  block-read_fold :
      (log : Log) (f : FoldRecord) → read_fold abi p log ≡ ok f → f.block ≡ block_of log
  unfolding read_fold
  block-read_fold log f h =
      let (tx_hash, sent, h1) =
        >>=-eq-ok (ok_or log.transaction_hash (log_without_tx (block_of log))) _ h in
      let (tx, got, h2) = >>=-eq-ok (p.get_transaction_by_hash tx_hash) _ h1 in
      let (input, found, h3) = >>=-eq-ok (ok_or tx (tx_not_found tx_hash)) _ h2 in
      let (values, decoded, h4) =
        >>=-eq-ok (ok_or (abi.decode_apply_state input) (not_apply_state tx_hash)) _ h3 in
      let (pv, read, h5) = >>=-eq-ok (decode_public_values abi.decode_pv values) _ h4 in
      ap (λ (x : FoldRecord). x.block) (sym (ok-injective h5))

  block-read_twap :
      (log : Log) (t : TwapBoundRecord) → read_twap abi p log ≡ ok t → t.block ≡ block_of log
  unfolding read_twap
  block-read_twap log t h =
      let (ev, decoded, h1) =
        >>=-eq-ok (ok_or (abi.decode_twap_bound log) (twap_bound_decode (block_of log))) _ h in
      ap (λ (x : TwapBoundRecord). x.block) (sym (ok-injective h1))

  place-read_market_set :
      (log : Log) (m : MarketSetRecord)
      → read_market_set abi p log ≡ ok m
      → place_of log ≡ place_of_set m
  unfolding read_market_set
  place-read_market_set log m h =
      let (ev, decoded, h1) =
        >>=-eq-ok (ok_or (abi.decode_market_set log) (market_set_decode (block_of log))) _ h in
      ap place_of_set (ok-injective h1)

  module _ {ℓ} {A : Type ℓ} (f : Log → Result A) (block : A → ℕ)
      (shown : (log : Log) (a : A) → f log ≡ ok a → block a ≡ block_of log) where
    -- Records that are read off sorted logs stand in the order of their blocks.
    blocks-IsOrdered :
        (keep : Kind → Bool) (logs : List Log) (rs : List A)
        → traverse f (logs_of (new_topics abi) keep (sort_logs logs)) ≡ ok rs
        → IsOrdered (λ a b. block a ≤ block b) rs
    blocks-IsOrdered keep logs rs h =
        IsOrdered-traverse LogBefore (λ a b. block a ≤ block b) f
          (λ x y a b here there r.
            blocks_ascend x y (block a) (block b) (shown x a here) (shown y b there) r)
          (logs_of (new_topics abi) keep (sort_logs logs)) rs h
          (IsOrdered-filter LogBefore (λ l. keep (kind_of (new_topics abi) l)) (sort_logs logs)
            (sort_logs-IsOrdered logs))

  -- The opens, the folds and the prices of a scanned history stand in the order of their blocks, its
  -- market sets in the order of block and log index, in whatever order the provider answers the logs.
  pub scan-IsChronological :
      (core deploy_block : ℕ) (history : ChainHistory)
      → scan abi p core deploy_block ≡ ok history
      → IsChronological history
  scan-IsChronological core deploy_block history h =
      let r = scan-IsReadOff abi p core deploy_block history h in
      let logs = flatten r.chunks in
      record {
        opens =
            blocks-IsOrdered (read_open abi p) (λ o. o.block) block-read_open is_open logs
              history.opens r.opens;
        folds =
            blocks-IsOrdered (read_fold abi p) (λ o. o.block) block-read_fold is_fold logs
              history.folds r.folds;
        twaps =
            blocks-IsOrdered (read_twap abi p) (λ o. o.block) block-read_twap is_price logs
              history.twaps r.twaps;
        market_sets =
            IsOrdered-traverse LogBefore (λ a b. IsBefore (place_of_set a) (place_of_set b))
              (read_market_set abi p)
              (λ x y a b here there before.
                subst (λ q. IsBefore (place_of_set a) q) (place-read_market_set y b there)
                  (subst (λ q. IsBefore q (place_of y)) (place-read_market_set x a here) before))
              (logs_of (new_topics abi) is_market (sort_logs logs)) history.market_sets
              r.market_sets
              (IsOrdered-filter LogBefore (λ l. is_market (kind_of (new_topics abi) l))
                (sort_logs logs) (sort_logs-IsOrdered logs));
      }
