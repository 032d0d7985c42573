-- ===== src/Replay/Rebuild/Twice.antt =====
-- A fold that settles a position in the books of two accounts.
use mathlib.Core.List.{head-eq_of_cons-eq, tail-eq_of_cons-eq}
use state_keeper.Prelude.{
  ℕ, ◌+◌, ◌≤◌, Bool, true, false, ◌||◌, ◌==◌, ==_iff, Bool-cases, inl, inr, List, [], ◌∷◌, ◌++◌,
  map, any, filter, filter-append, contains, length, length-append, some, ok, traverse,
  traverse-eq-ok, ok-injective, ◌≡◌, ◌≢◌, sym, ap, ◌∙◌, subst, arith,
}
use state_keeper.BTreeMap.{get, keys}
use state_keeper.Types.{ConsumedTwap}
use state_keeper.Engine.{Engine, Row}
use state_keeper.Engine.Laws.{
  settles_at, consumed_at, expires_at, row_twaps, KeepsEach, Consumes, IsSettling, IsConsuming,
}
use state_keeper.Scan.{ChainHistory, FoldRecord}
use state_keeper.Replay.{AccountState, TreeState, EpochInputs, EpochOutcome}
use state_keeper.Replay.Resolve.{touched_set, row_of, build_row}
use state_keeper.Replay.Resolve.Run.{EpochRun}
use state_keeper.Replay.Resolve.Settles.{touched-prior, build_row-prior}
use state_keeper.Replay.Rebuild.{rebuild}
use state_keeper.Replay.Rebuild.Growth.{Grows}
use state_keeper.Replay.Rebuild.Repeated.{count-row_of}
use state_keeper.Replay.Rebuild.Stuck.{rebuild-repeated}

-- One for a member.
abbrev bit : Bool → ℕ
bit true = 1
bit false = 0

first_counted :
    (ina inb ka kb : Bool) (all here later : ℕ)
    → all ≡ here + later
    → 1 ≤ here
    → bit ina + bit inb ≤ later
    → kb ≡ false
    → bit (ka || ina) + bit (kb || inb) ≤ all
first_counted ina inb ka kb all here later s h l n = ground arith

second_counted :
    (ina inb ka kb : Bool) (all here later : ℕ)
    → all ≡ here + later
    → 1 ≤ here
    → bit ina + bit inb ≤ later
    → ka ≡ false
    → bit (ka || ina) + bit (kb || inb) ≤ all
second_counted ina inb ka kb all here later s h l n = ground arith

none_counted :
    (ina inb ka kb : Bool) (all here later : ℕ)
    → all ≡ here + later
    → bit ina + bit inb ≤ later
    → ka ≡ false
    → kb ≡ false
    → bit (ka || ina) + bit (kb || inb) ≤ all
none_counted ina inb ka kb all here later s l m n = ground arith

module _ (e : Engine) (c : IsConsuming e) (oracle expiry : ℕ) where
  abbrev count_consumed : List ConsumedTwap → ℕ
  count_consumed cs = length (filter (consumed_at e oracle expiry) cs)

  -- A row that has a position of the oracle and expiry, and its price.
  pub record IsDue (r : Row) : Type 0 where
    pub held : any (expires_at e oracle expiry) r.1.positions ≡ true
    pub priced : 1 ≤ length (filter (settles_at e oracle expiry) r.1.proven_twaps)

  count-append :
      (xs ys : List ConsumedTwap)
      → count_consumed (xs ++ ys) ≡ count_consumed xs + count_consumed ys
  count-append xs ys =
      ap length (filter-append (consumed_at e oracle expiry) xs ys)
      ∙ length-append (filter (consumed_at e oracle expiry) xs)
          (filter (consumed_at e oracle expiry) ys)

  count_both :
      (prior : TreeState) (i : EpochInputs) (a b : ℕ) (ra rb : Row) (aids : List ℕ)
      (built rows : List Row) (cs : List ConsumedTwap)
      → (a == b) ≡ false
      → build_row e prior i a ≡ ok ra
      → build_row e prior i b ≡ ok rb
      → IsDue ra
      → IsDue rb
      → traverse (build_row e prior i) aids ≡ ok built
      → map (row_twaps e) rows ≡ map (row_twaps e) built
      → KeepsEach e (expires_at e oracle expiry) built rows
      → Consumes e rows cs
      → bit (contains aids a) + bit (contains aids b) ≤ count_consumed cs
  count_both prior i a b ra rb [] built rows cs n ba bb da db t m kp cons = omega arith
  count_both prior i a b ra rb (k ∷ aids) [] rows cs n ba bb da db t m kp cons =
      let (q, qs, here, rest, same) = traverse-eq-ok (build_row e prior i) k aids t in absurd (cc)
  count_both prior i a b ra rb (k ∷ aids) (q ∷ built) [] cs n ba bb da db t m kp cons = absurd kp
  count_both prior i a b ra rb (k ∷ aids) (q ∷ built) (r ∷ rows) cs n ba bb da db t m kp
        (Consumes.and_row {consumed = later} row settled found others all) =
      let (q', qs, here, rest, same) = traverse-eq-ok (build_row e prior i) k aids t in
      let its : build_row e prior i k ≡ ok q = here ∙ ap ok (sym (head-eq_of_cons-eq same)) in
      let more : traverse (build_row e prior i) aids ≡ ok built =
        rest ∙ ap ok (sym (tail-eq_of_cons-eq same)) in
      let ih =
        count_both prior i a b ra rb aids built rows later n ba bb da db more (tail-eq_of_cons-eq m)
          kp.1 others in
      let sum = ap count_consumed all ∙ count-append settled.1 later in
      let one = λ (d : IsDue q).
        c.one-consumed r.1.positions r.1.proven_twaps settled oracle expiry found (kp.0 d.held) (
          subst (λ ts. 1 ≤ length (filter (settles_at e oracle expiry) ts))
            (sym (head-eq_of_cons-eq m)) d.priced) in
      elim (Bool-cases (k == a)) [
        | inl ka ↦
            let mine : ra ≡ q =
              ok-injective (sym ba ∙ ap (build_row e prior i) (sym ((==_iff k a).0 ka)) ∙ its) in
            let this = one (subst IsDue mine da) in
            let not_b : (k == b) ≡ false =
              subst (λ x. (x == b) ≡ false) (sym ((==_iff k a).0 ka)) n in
            first_counted (contains aids a) (contains aids b) (k == a) (k == b) _ _ _ sum this ih
              not_b
        | inr not_a ↦ elim (Bool-cases (k == b)) [
          | inl kb ↦
              let mine : rb ≡ q =
                ok-injective (sym bb ∙ ap (build_row e prior i) (sym ((==_iff k b).0 kb)) ∙ its) in
              let this = one (subst IsDue mine db) in
              second_counted (contains aids a) (contains aids b) (k == a) (k == b) _ _ _ sum this ih
                not_a
          | inr not_b ↦
              none_counted (contains aids a) (contains aids b) (k == a) (k == b) _ _ _ sum ih not_a
                not_b
        ]
      ]

  row_of-IsDue :
      (i : EpochInputs) (a : AccountState)
      → any (expires_at e oracle expiry) a.positions ≡ true
      → 1 ≤ length (filter (settles_at e oracle expiry) i.proven_twaps)
      → IsDue (row_of e i a)
  unfolding row_of
  row_of-IsDue i a held priced = record {
    held = held;
    priced =
        subst (λ n. 1 ≤ n) (sym (count-row_of e oracle expiry a.positions i.proven_twaps held))
          priced;
  }

  -- For an engine that consumes the price of each position that it settles, that panics on two prices of
  -- one oracle and expiry, and whose pre-pass leaves the prices of the rows and takes no position away:
  -- where a history rebuilds, two accounts of the tree hold a position of one oracle and expiry, the
  -- inputs of an epoch have a price for it, and a fold commits the prices that the epoch's rows consume,
  -- row after row, the rebuild of every history that goes on from that fold is refused: with any further
  -- folds, with later opens of other ids, and with later market sets.
  pub rebuild-settled :
      (s : IsSettling e) (table : e.ScenarioTable) (history later : ChainHistory)
      (fold : FoldRecord) (folds : List FoldRecord) (state last : TreeState) (inputs : EpochInputs)
      (out : EpochOutcome) (run : EpochRun e state inputs table out) (ida idb : ℕ)
      (a b : AccountState)
      → rebuild e table history ≡ ok state
      → get ida state.accounts ≡ some a
      → get idb state.accounts ≡ some b
      → ida ≢ idb
      → any (expires_at e oracle expiry) a.positions ≡ true
      → any (expires_at e oracle expiry) b.positions ≡ true
      → 1 ≤ length (filter (settles_at e oracle expiry) inputs.proven_twaps)
      → Consumes e run.pre.0 fold.pv.consumed_twaps
      → Grows history (fold ∷ folds) later
      → rebuild e table later ≢ ok last
  rebuild-settled s table history later fold folds state last inputs out run ida idb a b rebuilt
        found_a found_b distinct held_a held_b priced consumes g =
      let aids = keys (touched_set e state inputs) in
      let apart : (ida == idb) ≡ false = elim (Bool-cases (ida == idb)) [
        | inl same ↦ absurd (distinct ((==_iff ida idb).0 same))
        | inr differ ↦ differ
      ] in
      let both =
        count_both state inputs ida idb (row_of e inputs a) (row_of e inputs b) aids run.rows
          run.pre.0 fold.pv.consumed_twaps apart (build_row-prior e state inputs ida a found_a)
          (build_row-prior e state inputs idb b found_b) (row_of-IsDue inputs a held_a priced)
          (row_of-IsDue inputs b held_b priced) run.built
          (s.twaps-apply run.rows run.pre.0 inputs.new_positions inputs.proof_now run.pre.1
            run.opened)
          (c.keeps-apply (expires_at e oracle expiry) run.rows run.pre.0 inputs.new_positions
            inputs.proof_now run.pre.1 run.opened)
          consumes in
      let two : 2 ≤ count_consumed fold.pv.consumed_twaps = ground (
        arith,
        both,
        touched-prior e state inputs ida a found_a,
        touched-prior e state inputs idb b found_b,
      ) in
      rebuild-repeated e table s history later fold folds state last ida a oracle expiry rebuilt g
        found_a held_a two
