-- ===== src/Replay/Rebuild/Backed.antt =====
-- The positions of a rebuilt tree, and the opens of its history.
use state_keeper.Prelude.{
  ℕ, List, [], ◌∷◌, map, All, guard, unmodelled_rows, open_not_recorded, ok, ok_or, ok_or-eq-ok,
  traverse, traverse-eq-ok, >>=-eq-ok, ok-injective, ◌≡◌, refl, sym, subst,
}
use state_keeper.BTreeMap.{BTreeMap, empty, get}
use state_keeper.BTreeMap.Each.{insert_all-All, get-All}
use state_keeper.Types.{NewPosition}
use state_keeper.Engine.{Engine}
use state_keeper.Engine.Laws.{IsPrePass, IsBooking}
use state_keeper.Scan.{ChainHistory, FoldRecord, OpenRecord}
use state_keeper.Replay.{TreeState, EpochInputs}
use state_keeper.Replay.Inputs.{
  open_entry, opens_by_id, fold_inputs, recover_open, is_modelled, proven_mark, proven_twap,
}
use state_keeper.Replay.Resolve.Books.{IsBooked}
use state_keeper.Replay.Resolve.Booked.{resolve_epoch-IsBooked}
use state_keeper.Replay.Rebuild.{rebuild}
use state_keeper.Replay.Rebuild.Accepts.{Replays, rebuild_iff}
use state_keeper.Replay.Rebuild.Surfaced.{terms_id-open_to_new_position}

module _ (R : OpenRecord → Type 0) where
  -- The id is that of an open of which `R` holds.
  abbrev pub IsBacked : ℕ → Type 0
  IsBacked id = (o : OpenRecord) × (o.id ≡ id) × R o

  abbrev HasId : ℕ × OpenRecord → Type 0
  HasId x = (x.1.id ≡ x.0) × R x.1

  entries-HasId : (os : List OpenRecord) → All R os → All HasId (map open_entry os)
  entries-HasId [] h = tt
  entries-HasId (o ∷ os) h = ((refl, h.0), entries-HasId os h.1)

  opens_by_id-HasId :
      (history : ChainHistory) → All R history.opens → All HasId (opens_by_id history)
  unfolding opens_by_id
  opens_by_id-HasId history h =
      insert_all-All HasId (map open_entry history.opens) empty (entries-HasId history.opens h) tt

  recovered-IsBacked :
      (opens : BTreeMap OpenRecord) (fold : FoldRecord) (ids : List ℕ) (ps : List NewPosition)
      → All HasId opens
      → traverse (recover_open opens fold) ids ≡ ok ps
      → All (λ (q : NewPosition). IsBacked q.terms_id) ps
  unfolding recover_open
  recovered-IsBacked opens fold [] ps s h =
      subst (All λ (q : NewPosition). IsBacked q.terms_id) (ok-injective h) tt
  recovered-IsBacked opens fold (id ∷ ids) ps s h =
      let (q, qs, here, rest, same) = traverse-eq-ok (recover_open opens fold) id ids h in
      let (o, found, mapped) =
        >>=-eq-ok (ok_or (get id opens) (open_not_recorded fold.block id)) _ here in
      let (named, held) =
        get-All HasId id o opens
          (ok_or-eq-ok (get id opens) (open_not_recorded fold.block id) o found) s in
      subst (All λ (q : NewPosition). IsBacked q.terms_id) (sym same) (
        (o, sym (terms_id-open_to_new_position o fold.pv.domain_separator q mapped), held),
        recovered-IsBacked opens fold ids qs s rest,
      )

  fold_inputs-IsBacked :
      (fold : FoldRecord) (history : ChainHistory) (inputs : EpochInputs)
      → All R history.opens
      → fold_inputs fold (opens_by_id history) history ≡ ok inputs
      → All (λ (q : NewPosition). IsBacked q.terms_id) inputs.new_positions
  unfolding fold_inputs
  fold_inputs-IsBacked fold history inputs held h =
      let opens = opens_by_id history in
      let ids = fold.pv.opened_position_ids in
      let (_u, g, h1) = >>=-eq-ok (guard (is_modelled fold) (unmodelled_rows fold.block)) _ h in
      let (ps, recovered, h2) = >>=-eq-ok (traverse (recover_open opens fold) ids) _ h1 in
      let (marks, found, h3) = >>=-eq-ok (traverse proven_mark fold.pv.consumed_marks) _ h2 in
      let (twaps, read, h4) = >>=-eq-ok (traverse proven_twap fold.pv.consumed_twaps) _ h3 in
      subst (λ (i : EpochInputs). All (λ (q : NewPosition). IsBacked q.terms_id) i.new_positions)
        (ok-injective h4)
        (recovered-IsBacked opens fold ids ps (opens_by_id-HasId history held) recovered)

  module _ (e : Engine) (p : IsPrePass e) (k : IsBooking e) (table : e.ScenarioTable)
      (history : ChainHistory) where
    Replays-IsBooked :
        {folds : List FoldRecord} {state last : TreeState}
        → All R history.opens
        → Replays e table history folds state last
        → All (IsBooked e IsBacked) state.accounts
        → All (IsBooked e IsBacked) last.accounts
    Replays-IsBooked held Replays.done b = b
    Replays-IsBooked held (Replays.next {fold = f} {state = s} {middle = m} a r) b =
        Replays-IsBooked held r (
          subst (λ (t : TreeState). All (IsBooked e IsBacked) t.accounts) a.next
            (resolve_epoch-IsBooked e k IsBacked p s a.inputs table a.outcome a.resolved
              (fold_inputs-IsBacked f history a.inputs held a.recovered) b))

    -- Each account of a rebuilt tree stands at its owner's key, and each of its positions has the id of
    -- an open of which `R` holds, as it does of every open of the history.
    pub rebuild-IsBooked :
        (state : TreeState)
        → All R history.opens
        → rebuild e table history ≡ ok state
        → All (IsBooked e IsBacked) state.accounts
    rebuild-IsBooked state held h =
        Replays-IsBooked held ((rebuild_iff e table history state).0 h) tt
