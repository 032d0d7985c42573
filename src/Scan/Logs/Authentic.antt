-- ===== src/Scan/Logs/Authentic.antt =====
-- The opens that a scan answers.
use state_keeper.Prelude.{
  All-append, ℕ, ◌+◌, Bool, true, false, Option, none, some, List, [], ◌∷◌, ◌==◌, if◌then◌else◌,
  All, Result, ok, err, guard, guard-eq-ok, ok_or, >>=-eq-ok, ◌>>=◌, ok-injective, ==_iff, traverse,
  flatten, panic, ◌≡◌, refl, subst, terms_opened_decode, terms_id_mismatch, log_without_tx,
}
use state_keeper.Events.{terms_rfq_id}
use state_keeper.Scan.{OpenRecord, ChainHistory}
use state_keeper.Scan.Chain.{Abi, Provider, Log}
use state_keeper.Scan.Chunks.{chunk_ranges}
use state_keeper.Scan.Signatures.{open_sigs, IsSigned, open_sigs-IsSigned}
use state_keeper.Scan.Logs.{
  block_of, chunk_filter, terms_from_opened_log, first_topic, Topics, new_topics, Scanned,
  nothing_scanned, sort_logs, read_open, read_fold, read_twap, read_market_set, scan_topic,
  scan_log, scan_logs, scan,
}

-- A predicate of the value, if there is one.
abbrev pub OnOk {ℓ κ} : {A : Type ℓ} → (A → Type κ) → Result A → Type κ
OnOk P (ok a) = P a
OnOk P (err x) = Unit

pub OnOk-bind {ℓ μ κ} :
    {A : Type ℓ} {B : Type μ} (P : B → Type κ) (m : Result A) (k : A → Result B)
    → ((a : A) → m ≡ ok a → OnOk P (k a))
    → OnOk P (m >>= k)
OnOk-bind P (ok a) k h = h a refl
OnOk-bind P (err x) k h = tt

pub OnOk-if {ℓ κ} :
    {A : Type ℓ} (P : A → Type κ) (b : Bool) (x y : Result A)
    → OnOk P x
    → OnOk P y
    → OnOk P (if b then x else y)
OnOk-if P true x y h g = h
OnOk-if P false x y h g = g

module _ (abi : Abi) (p : Provider) where
  -- The id is the hash of the Terms, and the signatures were sent with Terms of that id.
  pub record IsAuthentic (o : OpenRecord) : Type 0 where
    pub identity : terms_rfq_id abi.keccak o.terms ≡ o.id
    pub signed : IsSigned abi p o.id o.sig_a o.sig_b

  read_open-IsAuthentic : (log : Log) (o : OpenRecord) → read_open abi p log ≡ ok o → IsAuthentic o
  unfolding read_open
  read_open-IsAuthentic log o h =
      let (ev, decoded, h1) =
        >>=-eq-ok (ok_or (terms_from_opened_log abi log) (terms_opened_decode (block_of log))) _
          h in
      let (_u, same, h2) =
        >>=-eq-ok (guard (terms_rfq_id abi.keccak ev.1 == ev.0) (terms_id_mismatch (block_of log)))
          _ h1 in
      let (tx, sent, h3) =
        >>=-eq-ok (ok_or log.transaction_hash (log_without_tx (block_of log))) _ h2 in
      let (sigs, found, h4) = >>=-eq-ok (open_sigs abi p tx ev.0) _ h3 in
      subst IsAuthentic (ok-injective h4) (record {
        identity = (==_iff _ _).0 (guard-eq-ok _ _ same);
        signed = open_sigs-IsSigned abi p tx ev.0 sigs found;
      })

  scan_topic-IsAuthentic :
      (topics : Topics) (s : Scanned) (log : Log) (t : Option ℕ)
      → All IsAuthentic s.opens
      → OnOk (λ (s' : Scanned). All IsAuthentic s'.opens) (scan_topic abi p topics s log t)
  scan_topic-IsAuthentic topics s log none a = a
  scan_topic-IsAuthentic topics s log (some t0) a =
      let P = λ (s' : Scanned). All IsAuthentic s'.opens in
      OnOk-if P (t0 == topics.terms_opened) _ _
        (OnOk-bind P (read_open abi p log) _ λ o read.
          All-append IsAuthentic s.opens (o ∷ []) a (read_open-IsAuthentic log o read, tt))
        (OnOk-if P (t0 == topics.root_advanced) _ _
          (OnOk-bind P (read_fold abi p log) _ λ f read. a)
          (OnOk-if P (t0 == topics.twap_bound) _ _ (OnOk-bind P (read_twap abi p log) _ λ f read. a)
            (OnOk-if P (t0 == topics.market_set) _ _
              (OnOk-bind P (read_market_set abi p log) _ λ f read. a) a)))

  scan_log-IsAuthentic :
      (topics : Topics) (s s' : Scanned) (log : Log)
      → scan_log abi p topics s log ≡ ok s'
      → All IsAuthentic s.opens
      → All IsAuthentic s'.opens
  unfolding scan_log
  scan_log-IsAuthentic topics s s' log h a =
      subst (OnOk (λ (x : Scanned). All IsAuthentic x.opens)) h
        (scan_topic-IsAuthentic topics s log (first_topic log) a)

  scan_logs-IsAuthentic :
      (topics : Topics) (logs : List Log) (s s' : Scanned)
      → scan_logs abi p topics logs s ≡ ok s'
      → All IsAuthentic s.opens
      → All IsAuthentic s'.opens
  unfolding scan_logs
  scan_logs-IsAuthentic topics [] s s' h a =
      subst (λ (x : Scanned). All IsAuthentic x.opens) (ok-injective h) a
  scan_logs-IsAuthentic topics (log ∷ logs) s s' h a =
      let (m, first, rest) = >>=-eq-ok (scan_log abi p topics s log) _ h in
      scan_logs-IsAuthentic topics logs m s' rest (scan_log-IsAuthentic topics s m log first a)

  -- Every open that a scan answers has the hash of its Terms as its id, and signatures that stand in an
  -- `openLock` call with Terms of that id.
  pub scan-IsAuthentic :
      (core deploy_block : ℕ) (history : ChainHistory)
      → scan abi p core deploy_block ≡ ok history
      → All IsAuthentic history.opens
  unfolding scan
  scan-IsAuthentic core deploy_block history h =
      let (head, got, h1) = >>=-eq-ok p.get_block_number _ h in
      let (ranges, looped, h2) =
        >>=-eq-ok (ok_or (chunk_ranges (head + 2) deploy_block head) panic) _ h1 in
      let (chunks, fetched, h3) =
        >>=-eq-ok (traverse (λ r. p.get_logs (chunk_filter core (new_topics abi) r)) ranges) _ h2 in
      let (s, read, h4) =
        >>=-eq-ok (scan_logs abi p (new_topics abi) (sort_logs (flatten chunks)) nothing_scanned) _
          h3 in
      subst (λ (x : ChainHistory). All IsAuthentic x.opens) (ok-injective h4)
        (scan_logs-IsAuthentic (new_topics abi) (sort_logs (flatten chunks)) nothing_scanned s read
          tt)
