-- ===== src/Replay/Rebuild/Recovered.antt =====
-- The inputs of an epoch, recovered from the public values that commit it.
use state_keeper.Prelude.{
  ℕ, ◌-◌, true, List, [], ◌∷◌, All, Permᴰ, some, ok, ok_or, guard, traverse, traverse-Permᴰ, >>=-ok,
  unmodelled_rows, open_not_recorded, ◌≡◌, refl, sym, ap, subst,
}
use state_keeper.BTreeMap.{get}
use state_keeper.Types.{NewPosition, ProvenMark, ProvenTwap}
use state_keeper.Scan.{ChainHistory, FoldRecord, OpenRecord, paused_pairs_at}
use state_keeper.Replay.{EpochInputs}
use state_keeper.Replay.Open.{open_to_new_position}
use state_keeper.Replay.Inputs.{
  opens_by_id, fold_inputs, recover_open, is_modelled, proven_mark, proven_twap,
}
use state_keeper.Replay.Rebuild.Surfaced.{ids_of}

-- The position is that of the open recorded under its id.
abbrev pub IsRecorded : ChainHistory → ℕ → NewPosition → Type 0
IsRecorded history domain q =
    (o : OpenRecord) × (get q.terms_id (opens_by_id history) ≡ some o)
    × (open_to_new_position o domain ≡ ok q)

-- What the public values of a fold say of the inputs of its epoch: no row of another kind, the new
-- positions by their ids, in any order, the time, the domain, and prices that can be read.
pub record Lists (inputs : EpochInputs) (fold : FoldRecord) : Type 0 where
  pub modelled : is_modelled fold ≡ true
  pub opened : Permᴰ (ids_of inputs.new_positions) fold.pv.opened_position_ids
  pub proof_time : fold.pv.proof_time ≡ inputs.proof_now
  pub domain : fold.pv.domain_separator ≡ inputs.domain_separator
  pub marks : List ProvenMark
  pub marks_read : traverse proven_mark fold.pv.consumed_marks ≡ ok marks
  pub twaps : List ProvenTwap
  pub twaps_read : traverse proven_twap fold.pv.consumed_twaps ≡ ok twaps

recover_recorded :
    (history : ChainHistory) (fold : FoldRecord) (ps : List NewPosition)
    → All (IsRecorded history fold.pv.domain_separator) ps
    → traverse (recover_open (opens_by_id history) fold) (ids_of ps) ≡ ok ps
unfolding recover_open
recover_recorded history fold [] r = refl
recover_recorded history fold (q ∷ ps) r =
    let (o, found, mapped) = r.0 in
    >>=-ok _ (>>=-ok _ (ap (λ x. ok_or x (open_not_recorded fold.block q.terms_id)) found) mapped)
      (>>=-ok _ (recover_recorded history fold ps r.1) refl)

abbrev pub recovered_inputs :
    (history : ChainHistory) (inputs : EpochInputs) (fold : FoldRecord)
    → Lists inputs fold
    → List NewPosition
    → EpochInputs
recovered_inputs history inputs fold c order = record {
  new_positions = order;
  proven_marks = c.marks;
  proven_twaps = c.twaps;
  paused_pairs = paused_pairs_at history (fold.block - 1);
  proof_now = fold.pv.proof_time;
  domain_separator = fold.pv.domain_separator;
}

-- The fold's inputs are recovered, with the new positions in the order of its ids.
pub fold_inputs-Lists :
    (history : ChainHistory) (inputs : EpochInputs) (fold : FoldRecord) (c : Lists inputs fold)
    → All (IsRecorded history inputs.domain_separator) inputs.new_positions
    → (order : List NewPosition) × (fold_inputs fold (opens_by_id history) history
        ≡ ok (recovered_inputs history inputs fold c order))
      × Permᴰ inputs.new_positions order
unfolding fold_inputs
fold_inputs-Lists history inputs fold c recorded =
    let opens = opens_by_id history in
    let known : All (IsRecorded history fold.pv.domain_separator) inputs.new_positions =
      subst (λ d. All (IsRecorded history d) inputs.new_positions) (sym c.domain) recorded in
    let (order, found, p) =
      traverse-Permᴰ (recover_open opens fold) inputs.new_positions c.opened
        (recover_recorded history fold inputs.new_positions known) in
    (
      order,
      >>=-ok _ (ap (λ b. guard b (unmodelled_rows fold.block)) c.modelled)
          (>>=-ok _ found (>>=-ok _ c.marks_read (>>=-ok _ c.twaps_read refl))),
      p,
    )
