-- ===== src/Scan/Logs/Runs.antt =====
-- The loop of `scan` run from the readings of the logs of each kind.
use state_keeper.Prelude.{
  ℕ, Bool, true, false, Option, none, some, List, [], ◌∷◌, ◌++◌, ◌==◌, if◌then◌else◌, filter,
  append_assoc, append-nil, Result, ok, ok-injective, traverse, traverse-eq-ok, ◌≡◌, refl, sym, ap,
  ◌∙◌, subst,
}
use state_keeper.Scan.Chain.{Abi, Provider, Log}
use state_keeper.Scan.Logs.{first_topic, Topics, Scanned, scan_topic, scan_log, scan_logs}
use state_keeper.Scan.Logs.Kinds.{
  Kind, opened, advanced, bound_price, market, other, kind_of_topic, kind_of, is_open, is_fold,
  is_price, is_market, Reading, Reads, Split,
}

if-kind {ℓ κ} :
    {A : Type ℓ} (P : Kind → A → Type κ) (b : Bool) (j k : Kind) (x y : A)
    → P j x
    → P k y
    → P (if b then j else k) (if b then x else y)
if-kind P true j k x y h g = h
if-kind P false j k x y h g = g

skipped {ℓ} :
    {A : Type ℓ} (f : Log → Result A) (keep : Log → Bool) (log : Log) (logs : List Log)
    (xs ys : List A)
    → keep log ≡ false
    → Reading f keep (log ∷ logs) xs ys
    → Reading f keep logs xs ys
skipped f keep log logs xs ys out (rs, read, shown) = (
  rs,
  subst (λ b. traverse f (if b then log ∷ filter keep logs else filter keep logs) ≡ ok rs) out read,
  shown,
)

taken {ℓ} :
    {A : Type ℓ} (f : Log → Result A) (keep : Log → Bool) (log : Log) (logs : List Log)
    (xs ys : List A)
    → keep log ≡ true
    → Reading f keep (log ∷ logs) xs ys
    → (a : A) × (f log ≡ ok a) × Reading f keep logs (xs ++ a ∷ []) ys
taken f keep log logs xs ys kept (rs, read, shown) =
    let read' : traverse f (log ∷ filter keep logs) ≡ ok rs =
      subst (λ b. traverse f (if b then log ∷ filter keep logs else filter keep logs) ≡ ok rs) kept
        read in
    let (a, as_rest, here, rest, same) = traverse-eq-ok f log (filter keep logs) read' in
    (
      a,
      here,
      (as_rest, rest, shown ∙ ap (λ l. xs ++ l) same ∙ sym (append_assoc xs (a ∷ []) as_rest)),
    )

no_more {ℓ} :
    {A : Type ℓ} (xs ys rs : List A)
    → Path (Result (List A)) (ok []) (ok rs)
    → ys ≡ xs ++ rs
    → xs ≡ ys
no_more xs ys rs read shown =
    sym (shown ∙ ap (λ l. xs ++ l) (sym (ok-injective read)) ∙ append-nil xs)

module _ (abi : Abi) (p : Provider) where
  Reads-scan_topic :
      (topics : Topics) (s : Scanned) (log : Log) (t : Option ℕ) (s' : Scanned)
      → Reads abi p log s (kind_of_topic topics t) s'
      → scan_topic abi p topics s log t ≡ ok s'
  Reads-scan_topic topics s log none s' = λ h. ap ok h
  Reads-scan_topic topics s log (some t0) s' =
      let P = λ (k : Kind) (m : Result Scanned). Reads abi p log s k s' → m ≡ ok s' in
      if-kind P (t0 == topics.terms_opened) _ _ _ _ (λ (o, read, same). rw read (ap ok same))
        (if-kind P (t0 == topics.root_advanced) _ _ _ _ (λ (f, read, same). rw read (ap ok same))
          (if-kind P (t0 == topics.twap_bound) _ _ _ _ (λ (u, read, same). rw read (ap ok same))
            (if-kind P (t0 == topics.market_set) _ _ _ _ (λ (m, read, same). rw read (ap ok same))
              (λ same. ap ok same))))

  -- The first log of a split, and the split of the others.
  Split-uncons :
      (topics : Topics) (log : Log) (logs : List Log) (s s' : Scanned) (k : Kind)
      → kind_of topics log ≡ k
      → Split abi p topics (log ∷ logs) s s'
      → (m : Scanned) × Reads abi p log s k m × Split abi p topics logs m s'
  Split-uncons topics log logs s s' opened e r =
      let (o, here, rest) = taken _ _ log logs _ _ (ap is_open e) r.opens in
      (
        record s { opens = s.opens ++ o ∷ [] },
        (o, here, refl),
        record {
          opens = rest;
          folds = skipped _ _ log logs _ _ (ap is_fold e) r.folds;
          twaps = skipped _ _ log logs _ _ (ap is_price e) r.twaps;
          market_sets = skipped _ _ log logs _ _ (ap is_market e) r.market_sets;
        },
      )
  Split-uncons topics log logs s s' advanced e r =
      let (f, here, rest) = taken _ _ log logs _ _ (ap is_fold e) r.folds in
      (
        record s { folds = s.folds ++ f ∷ [] },
        (f, here, refl),
        record {
          opens = skipped _ _ log logs _ _ (ap is_open e) r.opens;
          folds = rest;
          twaps = skipped _ _ log logs _ _ (ap is_price e) r.twaps;
          market_sets = skipped _ _ log logs _ _ (ap is_market e) r.market_sets;
        },
      )
  Split-uncons topics log logs s s' bound_price e r =
      let (t, here, rest) = taken _ _ log logs _ _ (ap is_price e) r.twaps in
      (
        record s { twaps = s.twaps ++ t ∷ [] },
        (t, here, refl),
        record {
          opens = skipped _ _ log logs _ _ (ap is_open e) r.opens;
          folds = skipped _ _ log logs _ _ (ap is_fold e) r.folds;
          twaps = rest;
          market_sets = skipped _ _ log logs _ _ (ap is_market e) r.market_sets;
        },
      )
  Split-uncons topics log logs s s' market e r =
      let (t, here, rest) = taken _ _ log logs _ _ (ap is_market e) r.market_sets in
      (
        record s { market_sets = s.market_sets ++ t ∷ [] },
        (t, here, refl),
        record {
          opens = skipped _ _ log logs _ _ (ap is_open e) r.opens;
          folds = skipped _ _ log logs _ _ (ap is_fold e) r.folds;
          twaps = skipped _ _ log logs _ _ (ap is_price e) r.twaps;
          market_sets = rest;
        },
      )
  Split-uncons topics log logs s s' other e r = (
    s,
    refl,
    record {
      opens = skipped _ _ log logs _ _ (ap is_open e) r.opens;
      folds = skipped _ _ log logs _ _ (ap is_fold e) r.folds;
      twaps = skipped _ _ log logs _ _ (ap is_price e) r.twaps;
      market_sets = skipped _ _ log logs _ _ (ap is_market e) r.market_sets;
    },
  )

  -- Where every log of each kind can be read, the loop ends with the readings appended.
  pub Split-scan_logs :
      (topics : Topics) (logs : List Log) (s s' : Scanned)
      → Split abi p topics logs s s'
      → scan_logs abi p topics logs s ≡ ok s'
  unfolding scan_logs scan_log
  Split-scan_logs topics [] s s' r = ap ok (λ i. record {
    opens = no_more s.opens s'.opens r.opens.0 r.opens.1 r.opens.2 i;
    folds = no_more s.folds s'.folds r.folds.0 r.folds.1 r.folds.2 i;
    twaps = no_more s.twaps s'.twaps r.twaps.0 r.twaps.1 r.twaps.2 i;
    market_sets =
        no_more s.market_sets s'.market_sets r.market_sets.0 r.market_sets.1 r.market_sets.2 i;
  })
  Split-scan_logs topics (log ∷ logs) s s' r =
      let (m, here, rest) = Split-uncons topics log logs s s' (kind_of topics log) refl r in
      rw (Reads-scan_topic topics s log (first_topic log) m here)
        (Split-scan_logs topics logs m s' rest)
