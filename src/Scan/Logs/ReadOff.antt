-- ===== src/Scan/Logs/ReadOff.antt =====
-- A scanned history against the logs that the provider answers.
use state_keeper.Prelude.{
  ℕ, ◌+◌, Bool, List, [], filter, Result, ok, ok_or, >>=-eq-ok, >>=-ok, ok-injective, traverse,
  flatten, panic, ◌≡◌, ◌↔◌, refl, sym, ap, ◌∙◌, subst,
}
use state_keeper.Scan.{ChainHistory}
use state_keeper.Scan.Chain.{Abi, Provider, Log}
use state_keeper.Scan.Chunks.{chunk_ranges}
use state_keeper.Scan.Logs.{
  chunk_filter, new_topics, nothing_scanned, sort_logs, read_open, read_fold, read_twap,
  read_market_set, scan_logs, scan,
}
use state_keeper.Scan.Logs.Runs.{Split-scan_logs}
use state_keeper.Scan.Logs.Kinds.{
  is_open, is_fold, is_price, is_market, logs_of, Reading, scan_logs-Split,
}

module _ (abi : Abi) (p : Provider) where
  -- A history that is read off the chain: the head, the logs of every range up to it, and for each
  -- kind the records of all its logs in the order of the sort.
  pub record IsReadOff (core deploy_block : ℕ) (h : ChainHistory) : Type 0 where
    pub ranges : List (ℕ × ℕ)
    pub chunks : List (List Log)
    pub head : p.get_block_number ≡ ok h.head
    pub looped : ok_or (chunk_ranges (h.head + 2) deploy_block h.head) panic ≡ ok ranges
    pub fetched :
        traverse (λ r. p.get_logs (chunk_filter core (new_topics abi) r)) ranges ≡ ok chunks
    pub opens :
        traverse (read_open abi p) (logs_of (new_topics abi) is_open (sort_logs (flatten chunks)))
        ≡ ok h.opens
    pub folds :
        traverse (read_fold abi p) (logs_of (new_topics abi) is_fold (sort_logs (flatten chunks)))
        ≡ ok h.folds
    pub twaps :
        traverse (read_twap abi p) (logs_of (new_topics abi) is_price (sort_logs (flatten chunks)))
        ≡ ok h.twaps
    pub market_sets :
        traverse
          (read_market_set abi p)
          (logs_of (new_topics abi) is_market (sort_logs (flatten chunks)))
        ≡ ok h.market_sets

  Reading-from_nil {ℓ} :
      {A : Type ℓ} (f : Log → Result A) (keep : Log → Bool) (logs : List Log) (ys : List A)
      → Reading f keep logs [] ys
      → traverse f (filter keep logs) ≡ ok ys
  Reading-from_nil f keep logs ys (rs, read, shown) = read ∙ ap ok (sym shown)

  pub scan-IsReadOff :
      (core deploy_block : ℕ) (history : ChainHistory)
      → scan abi p core deploy_block ≡ ok history
      → IsReadOff core deploy_block history
  unfolding scan
  scan-IsReadOff core deploy_block history h =
      let topics = new_topics abi in
      let (head, got, h1) = >>=-eq-ok p.get_block_number _ h in
      let (ranges, looped, h2) =
        >>=-eq-ok (ok_or (chunk_ranges (head + 2) deploy_block head) panic) _ h1 in
      let (chunks, fetched, h3) =
        >>=-eq-ok (traverse (λ r. p.get_logs (chunk_filter core topics r)) ranges) _ h2 in
      let logs = sort_logs (flatten chunks) in
      let (s, read, h4) = >>=-eq-ok (scan_logs abi p topics logs nothing_scanned) _ h3 in
      let split = scan_logs-Split abi p topics logs nothing_scanned s read in
      subst (IsReadOff core deploy_block) (ok-injective h4) (record {
        ranges = ranges;
        chunks = chunks;
        head = got;
        looped = looped;
        fetched = fetched;
        opens = Reading-from_nil _ _ logs s.opens split.opens;
        folds = Reading-from_nil _ _ logs s.folds split.folds;
        twaps = Reading-from_nil _ _ logs s.twaps split.twaps;
        market_sets = Reading-from_nil _ _ logs s.market_sets split.market_sets;
      })

  IsReadOff-scan :
      (core deploy_block : ℕ) (history : ChainHistory)
      → IsReadOff core deploy_block history
      → scan abi p core deploy_block ≡ ok history
  unfolding scan
  IsReadOff-scan core deploy_block history r =
      let read =
        Split-scan_logs abi p (new_topics abi) (sort_logs (flatten r.chunks)) nothing_scanned
          (record {
            opens = history.opens;
            folds = history.folds;
            twaps = history.twaps;
            market_sets = history.market_sets;
          })
          (record {
            opens = (history.opens, r.opens, refl);
            folds = (history.folds, r.folds, refl);
            twaps = (history.twaps, r.twaps, refl);
            market_sets = (history.market_sets, r.market_sets, refl);
          }) in
      >>=-ok _ r.head (>>=-ok _ r.looped (>>=-ok _ r.fetched (>>=-ok _ read refl)))

  -- A scan answers a history exactly when the provider answers its head and the logs of every range up
  -- to it, and each list of the history is the reading, one record for a log and in the order of the
  -- sort, of all those logs of its kind: no log is lost or made up, and one that cannot be read fails
  -- the scan.
  pub scan_iff :
      (core deploy_block : ℕ) (history : ChainHistory)
      → (scan abi p core deploy_block ≡ ok history) ↔ IsReadOff core deploy_block history
  scan_iff core deploy_block history =
      (scan-IsReadOff core deploy_block history, IsReadOff-scan core deploy_block history)
