-- ===== src/Replay/Rebuild/Rejected.antt =====
-- A fold whose open pre-pass rejects a position.
use state_keeper.Prelude.{
  ℕ, suc, List, [], ◌∷◌, ◌++◌, map, length, guard, unmodelled_rows, length-append, length-map,
  length-traverse, ok, traverse, >>=-eq-ok, ◌≡◌, ◌≢◌, refl, sym, ap, ◌∙◌, arith, ok-injective,
  subst,
}
use state_keeper.BTreeMap.{keys}
use state_keeper.Types.{NewPosition, BookOpenOutcome}
use state_keeper.Engine.{Engine, Row}
use state_keeper.Engine.Laws.{IsPrePass}
use state_keeper.Scan.{ChainHistory, FoldRecord}
use state_keeper.Replay.{TreeState, EpochInputs, EpochOutcome}
use state_keeper.Replay.Inputs.{
  opens_by_id, fold_inputs, recover_open, is_modelled, proven_mark, proven_twap,
}
use state_keeper.Replay.Resolve.{resolve_epoch, touched_set, build_row}
use state_keeper.Replay.Resolve.Run.{EpochRun, resolve_epoch-EpochRun}
use state_keeper.Replay.Rebuild.{sort_ids, insert_id, replay_fold}
use state_keeper.Replay.Rebuild.Accepts.{replay_fold-Accepts}

length-insert_id : (x : ℕ) (ys : List ℕ) → length (insert_id x ys) ≡ suc (length ys)
length-insert_id x [] = refl
length-insert_id x (y ∷ ys) = ground (arith, length-insert_id x ys)

length-sort_ids : (xs : List ℕ) → length (sort_ids xs) ≡ length xs
unfolding sort_ids
length-sort_ids [] = refl
length-sort_ids (x ∷ xs) = omega (arith, length-insert_id x (sort_ids xs), length-sort_ids xs)

-- A fold's inputs hold one new position for each id that the fold lists.
length-fold_inputs :
    (fold : FoldRecord) (history : ChainHistory) (inputs : EpochInputs)
    → fold_inputs fold (opens_by_id history) history ≡ ok inputs
    → length inputs.new_positions ≡ length fold.pv.opened_position_ids
unfolding fold_inputs
length-fold_inputs fold history inputs h =
    let opens = opens_by_id history in
    let ids = fold.pv.opened_position_ids in
    let (_u, g, h1) = >>=-eq-ok (guard (is_modelled fold) (unmodelled_rows fold.block)) _ h in
    let (ps, recovered, h2) = >>=-eq-ok (traverse (recover_open opens fold) ids) _ h1 in
    let (marks, found, h3) = >>=-eq-ok (traverse proven_mark fold.pv.consumed_marks) _ h2 in
    let (twaps, read, h4) = >>=-eq-ok (traverse proven_twap fold.pv.consumed_twaps) _ h3 in
    ap (λ (i : EpochInputs). length i.new_positions) (sym (ok-injective h4))
    ∙ length-traverse (recover_open opens fold) ids ps recovered

length-zero : (xs : List ℕ) → length xs ≡ 0 → xs ≡ []
length-zero [] h = refl
length-zero (x ∷ xs) h = absurd (omega arith)

module _ (e : Engine) (p : IsPrePass e) (table : e.ScenarioTable) (history : ChainHistory) where
  pub rejected_of_lengths :
      (opened rejected : List ℕ) (ps : List NewPosition) (ids : List ℕ)
      → opened ≡ map (λ (q : NewPosition). q.terms_id) ps
      → length ps ≡ length ids
      → sort_ids (opened ++ rejected) ≡ sort_ids ids
      → rejected ≡ []
  rejected_of_lengths opened rejected ps ids o n s = length-zero rejected (
      omega (
        arith,
        ap length s,
        length-sort_ids (opened ++ rejected),
        length-sort_ids ids,
        length-append opened rejected,
        ap length o,
        length-map ps (λ (q : NewPosition). q.terms_id),
      ))

  pub surfaced_rejects_none :
      (fold : FoldRecord) (state : TreeState) (inputs : EpochInputs) (out : EpochOutcome)
      (run : EpochRun e state inputs table out)
      → fold_inputs fold (opens_by_id history) history ≡ ok inputs
      → sort_ids out.processed_open_ids ≡ sort_ids fold.pv.opened_position_ids
      → run.pre.1.rejected ≡ []
  surfaced_rejects_none fold state inputs out run recovered surfaced =
      rejected_of_lengths run.pre.1.opened run.pre.1.rejected inputs.new_positions
        fold.pv.opened_position_ids
        (p.opened-apply run.rows run.pre.0 inputs.new_positions inputs.proof_now run.pre.1
          run.opened)
        (length-fold_inputs fold history inputs recovered)
        (ap (λ (o : EpochOutcome). sort_ids o.processed_open_ids) run.result ∙ surfaced)

  -- Where the pre-pass rejects an open of a fold (one that is past its expiry, say), `rebuild` does not
  -- accept the fold, whatever ids and roots it commits: the rejected id is counted twice.
  pub replay_fold-rejected :
      (n : ℕ) (fold : FoldRecord) (state state' : TreeState) (inputs : EpochInputs)
      (rows : List Row) (pre : List Row × BookOpenOutcome)
      → fold_inputs fold (opens_by_id history) history ≡ ok inputs
      → traverse (build_row e state inputs) (keys (touched_set e state inputs)) ≡ ok rows
      → e.apply_new_boxes_to_book rows inputs.new_positions inputs.proof_now ≡ ok pre
      → pre.1.rejected ≢ []
      → replay_fold e table history n fold state ≢ ok state'
  replay_fold-rejected n fold state state' inputs rows pre recovered built opened some_rejected h =
      let a = replay_fold-Accepts e table history n fold state state' h in
      let same : a.inputs ≡ inputs = ok-injective (sym a.recovered ∙ recovered) in
      let resolved : resolve_epoch e state inputs table ≡ ok a.outcome =
        subst (λ i. resolve_epoch e state i table ≡ ok a.outcome) same a.resolved in
      let run = resolve_epoch-EpochRun e state inputs table a.outcome resolved in
      let same_rows : run.rows ≡ rows = ok-injective (sym run.built ∙ built) in
      let same_pre : run.pre ≡ pre = ok-injective (
        sym run.opened
        ∙ ap (λ r. e.apply_new_boxes_to_book r inputs.new_positions inputs.proof_now) same_rows
        ∙ opened) in
      some_rejected (
        sym (ap (λ (x : List Row × BookOpenOutcome). x.1.rejected) same_pre)
        ∙ surfaced_rejects_none fold state inputs a.outcome run recovered a.surfaced)
