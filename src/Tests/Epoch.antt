-- ===== src/Tests/Epoch.antt =====
-- The ids and the prices of an epoch, on the tree of `Samples`.
use state_keeper.Prelude.{
  ℕ, map, All, pos, negsuc, true, ◌==◌, filter, none, some, subst, ◌⊎◌, inl, inr, [], ◌∷◌, ok, ◌≡◌,
  ◌↔◌, refl, arith, from_be_bytes, from_be_on,
}
use state_keeper.BTreeMap.{insert, insert_all, get}
use state_keeper.Types.{ProvenMark}
use state_keeper.Scan.{
  ChainHistory, TwapBoundRecord, paused_pairs_at, paused_tags, unfolded_opens, folded_ids,
}
use state_keeper.Replay.{AccountState, EpochInputs, empty_tree}
use state_keeper.Replay.Open.{open_to_new_position}
use state_keeper.Replay.Inputs.{proven_mark, proven_twap, recover_open, fold_inputs, opens_by_id}
use state_keeper.Replay.Resolve.{
  touched_set, owners_map, row_of, build_row, resolve_row, resolve_rows, resolve_epoch,
}
use state_keeper.Replay.Resolve.Run.{EpochRun, resolve_epoch-EpochRun}
use state_keeper.Replay.Resolve.Prices.{mark_binds_some, SameEpoch, resolve_epoch-SameEpoch}
use state_keeper.Replay.Rebuild.{sort_ids, ids_eq}
use state_keeper.Replay.Rebuild.Surfaced.{surfaced_iff}
use state_keeper.Keeper.Fresh.{latest_prices, fresh_marks, due_twaps, fresh_epoch_inputs}
use state_keeper.Keeper.Fresh.Newest.{IsNewest, fresh_marks_lem}
use state_keeper.Keeper.Fresh.Marks.{feed_of}
use state_keeper.BTreeMap.Order.{IsAscending}
use state_keeper.Keeper.Fresh.Due.{with_all_prices, fresh_epoch_inputs-SameEpoch}
use state_keeper.Tests.Toy.{toy}
use state_keeper.Tests.Toy.Trees.{toy-IsPrePass}
use state_keeper.Tests.Samples.{
  first_fold, first_history, folded_history, first_inputs, first_outcome, or_else_value, no_inputs,
}

recovered : fold_inputs first_fold (opens_by_id first_history) first_history ≡ ok first_inputs
unfolding insert insert_all get paused_pairs_at paused_tags from_be_bytes from_be_on
    open_to_new_position proven_mark proven_twap recover_open opens_by_id fold_inputs
recovered = refl

resolved : resolve_epoch toy empty_tree first_inputs 8 ≡ ok first_outcome
unfolding insert insert_all get paused_pairs_at paused_tags from_be_bytes from_be_on
    open_to_new_position proven_mark proven_twap recover_open opens_by_id fold_inputs touched_set
    owners_map row_of build_row resolve_row resolve_rows resolve_epoch
resolved = refl

abbrev first_run : EpochRun toy empty_tree first_inputs 8 first_outcome
first_run = resolve_epoch-EpochRun toy empty_tree first_inputs 8 first_outcome resolved

surfaced_iff_example :
    (ids_eq (sort_ids first_outcome.processed_open_ids) (sort_ids first_fold.pv.opened_position_ids)
      ≡ true)
    ↔ (first_run.pre.1.rejected ≡ [])
surfaced_iff_example =
    surfaced_iff toy toy-IsPrePass 8 first_history first_fold empty_tree first_inputs first_outcome
      first_run recovered

-- Prices of the positions' oracle at their expiry, and others: early, of another oracle, negative.
abbrev price_at : ℕ → ℕ → TwapBoundRecord
price_at feed close_time = record {
  feed_id = feed;
  close_time = close_time;
  twap = pos 7;
  expo = negsuc 7;
  block = 8;
}

abbrev priced_history : ChainHistory
priced_history = record folded_history {
  twaps =
      price_at 9 4000
      ∷ price_at 9 5000
      ∷ price_at 8 5000
      ∷ record (price_at 9 5000) { twap = negsuc 0 }
      ∷ [];
}

abbrev priced_inputs : EpochInputs
priced_inputs =
    or_else_value no_inputs (fresh_epoch_inputs toy priced_history first_outcome.post 4 1200)

priced : fresh_epoch_inputs toy priced_history first_outcome.post 4 1200 ≡ ok priced_inputs
unfolding mathlib.Core.List.flatten insert insert_all get paused_pairs_at paused_tags from_be_bytes
    from_be_on open_to_new_position unfolded_opens folded_ids latest_prices fresh_marks due_twaps
    fresh_epoch_inputs
priced = refl

fresh_epoch_inputs-SameEpoch_example :
    resolve_epoch toy first_outcome.post priced_inputs 8
    ≡ resolve_epoch toy first_outcome.post (with_all_prices toy priced_history priced_inputs) 8
fresh_epoch_inputs-SameEpoch_example =
    fresh_epoch_inputs-SameEpoch toy priced_history first_outcome.post 4 1200 priced_inputs 8 priced

fresh_marks_lem_example :
    All (IsNewest toy priced_history.twaps 1200) (fresh_marks toy priced_history.twaps 1200)
    × IsAscending (map feed_of (fresh_marks toy priced_history.twaps 1200))
fresh_marks_lem_example = fresh_marks_lem toy priced_history.twaps 1200

-- The same inputs without the mark of the other oracle.
abbrev due_inputs : EpochInputs
due_inputs = record priced_inputs {
  proven_marks = filter (λ (m : ProvenMark). m.feed_id == 9) priced_inputs.proven_marks;
}

abbrev state_of : ℕ → AccountState
state_of k = elim (get k first_outcome.post.accounts) [
  | none ↦ record { owner = 0; vm_equity = pos 0; positions = [] }
  | some a ↦ a
]

two_accounts :
    (aid : ℕ) (a : AccountState)
    → get aid first_outcome.post.accounts ≡ some a
    → (state_of 1 ≡ a) ⊎ (state_of 2 ≡ a)
unfolding mathlib.Core.List.flatten insert insert_all get paused_pairs_at paused_tags from_be_bytes
    from_be_on open_to_new_position unfolded_opens folded_ids latest_prices fresh_marks due_twaps
    fresh_epoch_inputs proven_mark proven_twap recover_open opens_by_id fold_inputs touched_set
    owners_map row_of build_row resolve_row resolve_rows resolve_epoch
two_accounts aid a found = ground arith

same_marks :
    (a : AccountState)
    → (state_of 1 ≡ a) ⊎ (state_of 2 ≡ a)
    → filter (mark_binds_some toy a) priced_inputs.proven_marks
      ≡ filter (mark_binds_some toy a) due_inputs.proven_marks
unfolding mathlib.Core.List.flatten insert insert_all get paused_pairs_at paused_tags from_be_bytes
    from_be_on open_to_new_position unfolded_opens folded_ids latest_prices fresh_marks due_twaps
    fresh_epoch_inputs proven_mark proven_twap recover_open opens_by_id fold_inputs touched_set
    owners_map row_of build_row resolve_row resolve_rows resolve_epoch
same_marks a (inl e) =
    subst
      (λ (x : AccountState).
        filter (mark_binds_some toy x) priced_inputs.proven_marks
        ≡ filter (mark_binds_some toy x) due_inputs.proven_marks)
      e refl
same_marks a (inr e) =
    subst
      (λ (x : AccountState).
        filter (mark_binds_some toy x) priced_inputs.proven_marks
        ≡ filter (mark_binds_some toy x) due_inputs.proven_marks)
      e refl

same_epoch : SameEpoch toy first_outcome.post priced_inputs due_inputs
unfolding mathlib.Core.List.flatten insert insert_all get paused_pairs_at paused_tags from_be_bytes
    from_be_on open_to_new_position unfolded_opens folded_ids latest_prices fresh_marks due_twaps
    fresh_epoch_inputs proven_mark proven_twap recover_open opens_by_id fold_inputs touched_set
    owners_map row_of build_row resolve_row resolve_rows resolve_epoch
same_epoch = record {
  new_positions = refl;
  paused_pairs = refl;
  proof_now = refl;
  twaps = λ aid a found. refl;
  marks = λ aid a found. same_marks a (two_accounts aid a found);
}

resolve_epoch-SameEpoch_example :
    resolve_epoch toy first_outcome.post priced_inputs 8
    ≡ resolve_epoch toy first_outcome.post due_inputs 8
resolve_epoch-SameEpoch_example =
    resolve_epoch-SameEpoch toy first_outcome.post priced_inputs due_inputs 8 same_epoch
