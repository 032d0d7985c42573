-- ===== src/Scan/Logs/Kinds.antt =====
-- What the loop of `scan` makes of the logs of each kind.
use state_keeper.Prelude.{
  ℕ, Bool, true, false, Option, none, some, List, [], ◌∷◌, ◌++◌, ◌==◌, if◌then◌else◌, filter,
  append_assoc, append-nil, Result, ok, >>=-eq-ok, ok-injective, traverse, ◌≡◌, refl, sym, ap, ◌∙◌,
  subst,
}
use state_keeper.Scan.{OpenRecord, FoldRecord, TwapBoundRecord, MarketSetRecord}
use state_keeper.Scan.Chain.{Abi, Provider, Log}
use state_keeper.Scan.Logs.{
  first_topic, Topics, Scanned, read_open, read_fold, read_twap, read_market_set, scan_topic,
  scan_log, scan_logs,
}
use state_keeper.Scan.Logs.Authentic.{OnOk, OnOk-bind}

pub data Kind : Type 0 where
  opened advanced bound_price market other : Kind

abbrev pub kind_of_topic : Topics → Option ℕ → Kind
kind_of_topic topics none = other
kind_of_topic topics (some t0) =
    if t0 == topics.terms_opened
    then opened
    else if t0 == topics.root_advanced
    then advanced
    else if t0 == topics.twap_bound
    then bound_price
    else if t0 == topics.market_set
    then market
    else other

-- The kind of a log, by its first topic.
abbrev pub kind_of : Topics → Log → Kind
kind_of topics log = kind_of_topic topics (first_topic log)

abbrev pub is_open : Kind → Bool
is_open k = elim k [ opened ↦ true | _ ↦ false ]

abbrev pub is_fold : Kind → Bool
is_fold k = elim k [ advanced ↦ true | _ ↦ false ]

abbrev pub is_price : Kind → Bool
is_price k = elim k [ bound_price ↦ true | _ ↦ false ]

abbrev pub is_market : Kind → Bool
is_market k = elim k [ market ↦ true | _ ↦ false ]

-- The logs whose kind passes a test, in their order.
abbrev pub logs_of : Topics → (Kind → Bool) → List Log → List Log
logs_of topics test = filter λ log. test (kind_of topics log)

OnOk-if-kind {ℓ κ} :
    {A : Type ℓ} (P : Kind → A → Type κ) (b : Bool) (j k : Kind) (x y : Result A)
    → OnOk (P j) x
    → OnOk (P k) y
    → OnOk (P (if b then j else k)) (if b then x else y)
OnOk-if-kind P true j k x y h g = h
OnOk-if-kind P false j k x y h g = g

-- The list `ys` is `xs` followed by the readings of the logs that pass the test.
abbrev pub Reading {ℓ} :
    {A : Type ℓ} → (Log → Result A) → (Log → Bool) → List Log → List A → List A → Type ℓ
Reading {A = A} f keep logs xs ys =
    (rs : List A) × (traverse f (filter keep logs) ≡ ok rs) × (ys ≡ xs ++ rs)

Reading-skip {ℓ} :
    {A : Type ℓ} (f : Log → Result A) (keep : Log → Bool) (log : Log) (logs : List Log)
    (xs ys : List A)
    → keep log ≡ false
    → Reading f keep logs xs ys
    → Reading f keep (log ∷ logs) xs ys
Reading-skip f keep log logs xs ys skipped (rs, read, shown) = (rs, rw skipped read, shown)

Reading-take {ℓ} :
    {A : Type ℓ} (f : Log → Result A) (keep : Log → Bool) (log : Log) (logs : List Log) (a : A)
    (xs ys : List A)
    → keep log ≡ true
    → f log ≡ ok a
    → Reading f keep logs (xs ++ a ∷ []) ys
    → Reading f keep (log ∷ logs) xs ys
Reading-take f keep log logs a xs ys kept here (rs, read, shown) =
    (a ∷ rs, rw (kept, here, read) refl, shown ∙ append_assoc xs (a ∷ []) rs)

module _ (abi : Abi) (p : Provider) where
  -- What one round does with a log of the kind.
  abbrev pub Reads : Log → Scanned → Kind → Scanned → Type 0
  Reads log s k s' = elim k [
    | opened ↦
        (o : OpenRecord) × (read_open abi p log ≡ ok o)
        × (record s { opens = s.opens ++ o ∷ [] } ≡ s')
    | advanced ↦
        (f : FoldRecord) × (read_fold abi p log ≡ ok f)
        × (record s { folds = s.folds ++ f ∷ [] } ≡ s')
    | bound_price ↦
        (t : TwapBoundRecord) × (read_twap abi p log ≡ ok t)
        × (record s { twaps = s.twaps ++ t ∷ [] } ≡ s')
    | market ↦
        (m : MarketSetRecord) × (read_market_set abi p log ≡ ok m)
        × (record s { market_sets = s.market_sets ++ m ∷ [] } ≡ s')
    | other ↦ s ≡ s'
  ]

  scan_topic-Reads :
      (topics : Topics) (s : Scanned) (log : Log) (t : Option ℕ)
      → OnOk (Reads log s (kind_of_topic topics t)) (scan_topic abi p topics s log t)
  scan_topic-Reads topics s log none = refl
  scan_topic-Reads topics s log (some t0) =
      let R = Reads log s in
      OnOk-if-kind R (t0 == topics.terms_opened) _ _ _ _
        (OnOk-bind (R opened) (read_open abi p log) _ λ o read. (o, read, refl))
        (OnOk-if-kind R (t0 == topics.root_advanced) _ _ _ _
          (OnOk-bind (R advanced) (read_fold abi p log) _ λ f read. (f, read, refl))
          (OnOk-if-kind R (t0 == topics.twap_bound) _ _ _ _
            (OnOk-bind (R bound_price) (read_twap abi p log) _ λ u read. (u, read, refl))
            (OnOk-if-kind R (t0 == topics.market_set) _ _ _ _
              (OnOk-bind (R market) (read_market_set abi p log) _ λ m read. (m, read, refl)) refl)))

  scan_log-Reads :
      (topics : Topics) (s s' : Scanned) (log : Log)
      → scan_log abi p topics s log ≡ ok s'
      → Reads log s (kind_of topics log) s'
  unfolding scan_log
  scan_log-Reads topics s s' log h =
      subst (OnOk (Reads log s (kind_of topics log))) h
        (scan_topic-Reads topics s log (first_topic log))

  -- What the loop over the logs adds to each vector.
  pub record Split (topics : Topics) (logs : List Log) (s s' : Scanned) : Type 0 where
    pub opens : Reading (read_open abi p) (λ l. is_open (kind_of topics l)) logs s.opens s'.opens
    pub folds : Reading (read_fold abi p) (λ l. is_fold (kind_of topics l)) logs s.folds s'.folds
    pub twaps : Reading (read_twap abi p) (λ l. is_price (kind_of topics l)) logs s.twaps s'.twaps
    pub market_sets :
        Reading
          (read_market_set abi p)
          (λ l. is_market (kind_of topics l))
          logs
          s.market_sets
          s'.market_sets

  Split-cons :
      (topics : Topics) (log : Log) (logs : List Log) (s m s' : Scanned) (k : Kind)
      → kind_of topics log ≡ k
      → Reads log s k m
      → Split topics logs m s'
      → Split topics (log ∷ logs) s s'
  Split-cons topics log logs s m s' opened e (o, read, same) r =
      let r' : Split topics logs (record s { opens = s.opens ++ o ∷ [] }) s' =
        subst (λ x. Split topics logs x s') (sym same) r in
      record {
        opens = Reading-take _ _ log logs o _ _ (ap is_open e) read r'.opens;
        folds = Reading-skip _ _ log logs _ _ (ap is_fold e) r'.folds;
        twaps = Reading-skip _ _ log logs _ _ (ap is_price e) r'.twaps;
        market_sets = Reading-skip _ _ log logs _ _ (ap is_market e) r'.market_sets;
      }
  Split-cons topics log logs s m s' advanced e (f, read, same) r =
      let r' : Split topics logs (record s { folds = s.folds ++ f ∷ [] }) s' =
        subst (λ x. Split topics logs x s') (sym same) r in
      record {
        opens = Reading-skip _ _ log logs _ _ (ap is_open e) r'.opens;
        folds = Reading-take _ _ log logs f _ _ (ap is_fold e) read r'.folds;
        twaps = Reading-skip _ _ log logs _ _ (ap is_price e) r'.twaps;
        market_sets = Reading-skip _ _ log logs _ _ (ap is_market e) r'.market_sets;
      }
  Split-cons topics log logs s m s' bound_price e (t, read, same) r =
      let r' : Split topics logs (record s { twaps = s.twaps ++ t ∷ [] }) s' =
        subst (λ x. Split topics logs x s') (sym same) r in
      record {
        opens = Reading-skip _ _ log logs _ _ (ap is_open e) r'.opens;
        folds = Reading-skip _ _ log logs _ _ (ap is_fold e) r'.folds;
        twaps = Reading-take _ _ log logs t _ _ (ap is_price e) read r'.twaps;
        market_sets = Reading-skip _ _ log logs _ _ (ap is_market e) r'.market_sets;
      }
  Split-cons topics log logs s m s' market e (t, read, same) r =
      let r' : Split topics logs (record s { market_sets = s.market_sets ++ t ∷ [] }) s' =
        subst (λ x. Split topics logs x s') (sym same) r in
      record {
        opens = Reading-skip _ _ log logs _ _ (ap is_open e) r'.opens;
        folds = Reading-skip _ _ log logs _ _ (ap is_fold e) r'.folds;
        twaps = Reading-skip _ _ log logs _ _ (ap is_price e) r'.twaps;
        market_sets = Reading-take _ _ log logs t _ _ (ap is_market e) read r'.market_sets;
      }
  Split-cons topics log logs s m s' other e same r =
      let r' : Split topics logs s s' = subst (λ x. Split topics logs x s') (sym same) r in
      record {
        opens = Reading-skip _ _ log logs _ _ (ap is_open e) r'.opens;
        folds = Reading-skip _ _ log logs _ _ (ap is_fold e) r'.folds;
        twaps = Reading-skip _ _ log logs _ _ (ap is_price e) r'.twaps;
        market_sets = Reading-skip _ _ log logs _ _ (ap is_market e) r'.market_sets;
      }

  pub scan_logs-Split :
      (topics : Topics) (logs : List Log) (s s' : Scanned)
      → scan_logs abi p topics logs s ≡ ok s'
      → Split topics logs s s'
  unfolding scan_logs
  scan_logs-Split topics [] s s' h = subst (Split topics [] s) (ok-injective h) (record {
    opens = ([], refl, sym (append-nil s.opens));
    folds = ([], refl, sym (append-nil s.folds));
    twaps = ([], refl, sym (append-nil s.twaps));
    market_sets = ([], refl, sym (append-nil s.market_sets));
  })
  scan_logs-Split topics (log ∷ logs) s s' h =
      let (m, first, rest) = >>=-eq-ok (scan_log abi p topics s log) _ h in
      Split-cons topics log logs s m s' (kind_of topics log) refl
        (scan_log-Reads topics s m log first) (scan_logs-Split topics logs m s' rest)
