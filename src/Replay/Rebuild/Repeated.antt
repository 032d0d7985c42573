-- ===== src/Replay/Rebuild/Repeated.antt =====
-- A fold that commits a price twice.
use state_keeper.Prelude.{
  ℕ, ◌≤◌, true, nonneg, guard, List, [], ◌∷◌, any, filter, length, some, ok, traverse,
  traverse-eq-ok, >>=-eq-ok, ok-injective, negative_twap, unmodelled_rows, ◌≡◌, ◌≢◌, refl, sym, ap,
  ◌∙◌, arith,
}
use state_keeper.BTreeMap.{get}
use state_keeper.Types.{PositionRecord, ProvenTwap, ConsumedTwap}
use state_keeper.Engine.{Engine}
use state_keeper.Engine.Laws.{settles_at, consumed_at, expires_at, IsSettling}
use state_keeper.Scan.{ChainHistory, FoldRecord}
use state_keeper.Replay.{AccountState, TreeState, EpochInputs}
use state_keeper.Replay.Inputs.{
  opens_by_id, fold_inputs, recover_open, is_modelled, proven_mark, proven_twap,
}
use state_keeper.Replay.Resolve.{row_of, twap_binds}
use state_keeper.Replay.Resolve.Run.{resolve_epoch-EpochRun}
use state_keeper.Replay.Resolve.Settles.{row-OnePrice}
use state_keeper.Replay.Rebuild.{replay_fold}
use state_keeper.Replay.Rebuild.Accepts.{replay_fold-Accepts}

module _ (e : Engine) where
  settles-proven_twap :
      (oracle expiry : ℕ) (t : ConsumedTwap) (p : ProvenTwap)
      → proven_twap t ≡ ok p
      → settles_at e oracle expiry p ≡ consumed_at e oracle expiry t
  unfolding proven_twap
  settles-proven_twap oracle expiry t p h =
      let (_u, g, same) = >>=-eq-ok (guard (nonneg t.twap) negative_twap) _ h in
      ap (settles_at e oracle expiry) (sym (ok-injective same))

  -- The prices keep their keys.
  count-proven_twaps :
      (oracle expiry : ℕ) (ts : List ConsumedTwap) (ps : List ProvenTwap)
      → traverse proven_twap ts ≡ ok ps
      → length (filter (settles_at e oracle expiry) ps)
        ≡ length (filter (consumed_at e oracle expiry) ts)
  count-proven_twaps oracle expiry [] ps h =
      ap (λ (l : List ProvenTwap). length (filter (settles_at e oracle expiry) l))
        (sym (ok-injective h))
  count-proven_twaps oracle expiry (t ∷ ts) ps h =
      let (p, qs, here, rest, same) = traverse-eq-ok proven_twap t ts h in
      ground (
        arith,
        ap (λ (l : List ProvenTwap). length (filter (settles_at e oracle expiry) l)) same,
        settles-proven_twap oracle expiry t p here,
        count-proven_twaps oracle expiry ts qs rest,
      )

  count-fold_inputs :
      (oracle expiry : ℕ) (fold : FoldRecord) (history : ChainHistory) (inputs : EpochInputs)
      → fold_inputs fold (opens_by_id history) history ≡ ok inputs
      → length (filter (settles_at e oracle expiry) inputs.proven_twaps)
        ≡ length (filter (consumed_at e oracle expiry) fold.pv.consumed_twaps)
  unfolding fold_inputs
  count-fold_inputs oracle expiry fold history inputs h =
      let opens = opens_by_id history in
      let ids = fold.pv.opened_position_ids in
      let (_u, g, h1) = >>=-eq-ok (guard (is_modelled fold) (unmodelled_rows fold.block)) _ h in
      let (ps, recovered, h2) = >>=-eq-ok (traverse (recover_open opens fold) ids) _ h1 in
      let (marks, found, h3) = >>=-eq-ok (traverse proven_mark fold.pv.consumed_marks) _ h2 in
      let (twaps, read, h4) = >>=-eq-ok (traverse proven_twap fold.pv.consumed_twaps) _ h3 in
      ap (λ (i : EpochInputs). length (filter (settles_at e oracle expiry) i.proven_twaps))
        (sym (ok-injective h4))
      ∙ count-proven_twaps oracle expiry fold.pv.consumed_twaps twaps read

  -- A price at a position's key binds it.
  binds_of_key :
      (oracle expiry : ℕ) (t : ProvenTwap) (bs : List PositionRecord)
      → settles_at e oracle expiry t ≡ true
      → any (expires_at e oracle expiry) bs ≡ true
      → any (λ b. twap_binds e t b) bs ≡ true
  binds_of_key oracle expiry t [] s h = cc
  binds_of_key oracle expiry t (b ∷ bs) s h = ground (arith, binds_of_key oracle expiry t bs s)

  -- The row of an account with such a position has all the prices of the key.
  pub count-row_of :
      (oracle expiry : ℕ) (bs : List PositionRecord) (ts : List ProvenTwap)
      → any (expires_at e oracle expiry) bs ≡ true
      → length
          (filter (settles_at e oracle expiry) (filter (λ t. any (λ b. twap_binds e t b) bs) ts))
        ≡ length (filter (settles_at e oracle expiry) ts)
  count-row_of oracle expiry bs [] h = refl
  count-row_of oracle expiry bs (t ∷ ts) h =
      ground (arith, count-row_of oracle expiry bs ts h, binds_of_key oracle expiry t bs)

  -- For an engine that panics on two prices of one oracle and expiry: a fold that commits two prices of
  -- the oracle and expiry of a position of the tree is not accepted, whatever roots it commits.
  pub replay_fold-repeated :
      (s : IsSettling e) (table : e.ScenarioTable) (history : ChainHistory) (n : ℕ)
      (fold : FoldRecord) (state state' : TreeState) (aid : ℕ) (a : AccountState)
      (oracle expiry : ℕ)
      → get aid state.accounts ≡ some a
      → any (expires_at e oracle expiry) a.positions ≡ true
      → 2 ≤ length (filter (consumed_at e oracle expiry) fold.pv.consumed_twaps)
      → replay_fold e table history n fold state ≢ ok state'
  unfolding row_of
  replay_fold-repeated s table history n fold state state' aid a oracle expiry found held twice h =
      let acc = replay_fold-Accepts e table history n fold state state' h in
      let run = resolve_epoch-EpochRun e state acc.inputs table acc.outcome acc.resolved in
      absurd (
        omega (
          arith,
          row-OnePrice e s state acc.inputs table acc.outcome run aid a oracle expiry found,
          count-row_of oracle expiry a.positions acc.inputs.proven_twaps held,
          count-fold_inputs oracle expiry fold history acc.inputs acc.recovered,
        ))
