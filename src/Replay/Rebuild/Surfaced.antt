-- ===== src/Replay/Rebuild/Surfaced.antt =====
-- The comparison of the ids in the replay of a fold, for the ids that the fold itself commits.
use mathlib.Core.List.{Perm}
use mathlib.Core.List.Perm
use state_keeper.Prelude.{
  ℕ, ◌^◌, ltb, leb, not, any, take, length, List, [], ◌∷◌, ◌++◌, map, some, true, guard,
  unmodelled_rows, open_not_recorded, quantity_exceeds_u128, data_too_short,
  entry_rate_exceeds_u128, ok, ok_or, ok_or-eq-ok, traverse, traverse-eq-ok, >>=-eq-ok, ◌≡◌, ◌↔◌,
  sym, ap, ap₂, ◌∙◌, subst, arith, ok-injective, append-nil,
}
use state_keeper.BTreeMap.{BTreeMap, empty, get, insert, insert_all}
use state_keeper.BTreeMap.Lookup.{get-insert}
use state_keeper.Types.{NewPosition}
use state_keeper.Engine.{Engine}
use state_keeper.Engine.Laws.{IsPrePass}
use state_keeper.Scan.{ChainHistory, FoldRecord, OpenRecord}
use state_keeper.Replay.{TreeState, EpochInputs, EpochOutcome}
use state_keeper.Replay.Open.{nonzero, open_to_new_position}
use state_keeper.Replay.Inputs.{
  open_entry, opens_by_id, fold_inputs, recover_open, is_modelled, proven_mark, proven_twap,
}
use state_keeper.Replay.Resolve.Run.{EpochRun}
use state_keeper.Replay.Rebuild.{sort_ids, ids_eq}
use state_keeper.Replay.Rebuild.Accepts.{ids_eq_sound}
use state_keeper.Replay.Rebuild.Ids.{ids_eq_iff}
use state_keeper.Replay.Rebuild.Rejected.{surfaced_rejects_none}

-- A map of opens in which each stands at its id.
abbrev IsById : BTreeMap OpenRecord → Type 0
IsById m = (k : ℕ) (o : OpenRecord) → get k m ≡ some o → o.id ≡ k

insert-IsById : (o : OpenRecord) (m : BTreeMap OpenRecord) → IsById m → IsById (insert o.id o m)
insert-IsById o m h k r g = ground (arith, get-insert o.id k o m, h k r)

insert_all-IsById :
    (os : List OpenRecord) (m : BTreeMap OpenRecord)
    → IsById m
    → IsById (insert_all (map open_entry os) m)
unfolding insert_all
insert_all-IsById [] m h = h
insert_all-IsById (o ∷ os) m h = insert_all-IsById os (insert o.id o m) (insert-IsById o m h)

opens_by_id-IsById : (history : ChainHistory) → IsById (opens_by_id history)
unfolding opens_by_id
opens_by_id-IsById history = insert_all-IsById history.opens empty (λ k o h. unfold get in cc)

pub terms_id-open_to_new_position :
    (o : OpenRecord) (domain : ℕ) (q : NewPosition)
    → open_to_new_position o domain ≡ ok q
    → q.terms_id ≡ o.id
unfolding open_to_new_position
terms_id-open_to_new_position o domain q h =
    let (_u, g1, h1) =
      >>=-eq-ok (guard (ltb o.terms.quantity (2 ^ 128)) quantity_exceeds_u128) _ h in
    let (_v, g2, h2) =
      >>=-eq-ok (guard (leb 32 (length o.terms.terms_data)) (data_too_short o.id)) _ h1 in
    let (_w, g3, h3) =
      >>=-eq-ok
        (guard (not (any nonzero (take 16 o.terms.terms_data))) (entry_rate_exceeds_u128 o.id)) _
        h2 in
    ap (λ (x : NewPosition). x.terms_id) (sym (ok-injective h3))

abbrev pub ids_of : List NewPosition → List ℕ
ids_of = map λ (q : NewPosition). q.terms_id

ids-recovered :
    (opens : BTreeMap OpenRecord) (fold : FoldRecord) (ids : List ℕ) (ps : List NewPosition)
    → IsById opens
    → traverse (recover_open opens fold) ids ≡ ok ps
    → ids_of ps ≡ ids
unfolding recover_open
ids-recovered opens fold [] ps s h = ap ids_of (sym (ok-injective h))
ids-recovered opens fold (id ∷ ids) ps s h =
    let (q, qs, here, rest, same) = traverse-eq-ok (recover_open opens fold) id ids h in
    let (o, found, mapped) =
      >>=-eq-ok (ok_or (get id opens) (open_not_recorded fold.block id)) _ here in
    let named : q.terms_id ≡ id =
      terms_id-open_to_new_position o fold.pv.domain_separator q mapped
      ∙ s id o (ok_or-eq-ok (get id opens) (open_not_recorded fold.block id) o found) in
    ap ids_of same ∙ ap₂ (λ x xs. x ∷ xs) named (ids-recovered opens fold ids qs s rest)

-- The new positions that a fold recovers are those that it lists, in its order.
pub ids-fold_inputs :
    (fold : FoldRecord) (history : ChainHistory) (inputs : EpochInputs)
    → fold_inputs fold (opens_by_id history) history ≡ ok inputs
    → ids_of inputs.new_positions ≡ fold.pv.opened_position_ids
unfolding fold_inputs
ids-fold_inputs fold history inputs h =
    let opens = opens_by_id history in
    let ids = fold.pv.opened_position_ids in
    let (_u, g, h1) = >>=-eq-ok (guard (is_modelled fold) (unmodelled_rows fold.block)) _ h in
    let (ps, recovered, h2) = >>=-eq-ok (traverse (recover_open opens fold) ids) _ h1 in
    let (marks, found, h3) = >>=-eq-ok (traverse proven_mark fold.pv.consumed_marks) _ h2 in
    let (twaps, read, h4) = >>=-eq-ok (traverse proven_twap fold.pv.consumed_twaps) _ h3 in
    ap (λ (i : EpochInputs). ids_of i.new_positions) (sym (ok-injective h4))
    ∙ ids-recovered opens fold ids ps (opens_by_id-IsById history) recovered

module _ (e : Engine) (p : IsPrePass e) (table : e.ScenarioTable) (history : ChainHistory) where
  pub processed-none_rejected :
      (state : TreeState) (inputs : EpochInputs) (out : EpochOutcome)
      (run : EpochRun e state inputs table out)
      → run.pre.1.rejected ≡ []
      → out.processed_open_ids ≡ ids_of inputs.new_positions
  processed-none_rejected state inputs out run none_rejected =
      ap (λ (o : EpochOutcome). o.processed_open_ids) (sym run.result)
      ∙ ap (λ r. run.pre.1.opened ++ r) none_rejected
      ∙ append-nil run.pre.1.opened
      ∙ p.opened-apply run.rows run.pre.0 inputs.new_positions inputs.proof_now run.pre.1 run.opened

  -- In the replay of a fold on its own inputs, the comparison of the processed ids with the committed
  -- ones passes exactly when the open pre-pass has rejected no position.
  pub surfaced_iff :
      (fold : FoldRecord) (state : TreeState) (inputs : EpochInputs) (out : EpochOutcome)
      (run : EpochRun e state inputs table out)
      → fold_inputs fold (opens_by_id history) history ≡ ok inputs
      → (ids_eq (sort_ids out.processed_open_ids) (sort_ids fold.pv.opened_position_ids) ≡ true)
        ↔ (run.pre.1.rejected ≡ [])
  surfaced_iff fold state inputs out run recovered = (
    λ h.
        surfaced_rejects_none e p table history fold state inputs out run recovered
          (ids_eq_sound (sort_ids out.processed_open_ids) (sort_ids fold.pv.opened_position_ids) h),
    λ none_rejected.
        let same : out.processed_open_ids ≡ fold.pv.opened_position_ids =
          processed-none_rejected state inputs out run none_rejected
          ∙ ids-fold_inputs fold history inputs recovered in
        (ids_eq_iff out.processed_open_ids fold.pv.opened_position_ids).1
          (subst (λ l. Perm out.processed_open_ids l) same (Perm.refl out.processed_open_ids)),
  )
