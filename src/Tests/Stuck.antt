-- ===== src/Tests/Stuck.antt =====
-- An advance on the tree of `Samples` with an open that has expired, and the histories after its fold.
use mathlib.Core.List.{flatten, Permᴰ}
use mathlib.Core.List.Permᴰ
use state_keeper.Prelude.{◌≢◌, [], ◌∷◌, ok, ◌≡◌, refl, ap, ok-injective, from_be_bytes, from_be_on}
use state_keeper.BTreeMap.{insert, insert_all, get}
use state_keeper.Scan.{ChainHistory, paused_pairs_at, paused_tags, unfolded_opens, folded_ids}
use state_keeper.Replay.{EpochInputs, EpochOutcome, empty_tree, leaves, root, accounts_root}
use state_keeper.Replay.Open.{open_to_new_position}
use state_keeper.Replay.Inputs.{proven_mark, proven_twap, recover_open, fold_inputs, opens_by_id}
use state_keeper.Replay.Resolve.{
  touched_set, owners_map, row_of, build_row, resolve_row, resolve_rows, resolve_epoch,
}
use state_keeper.Replay.Resolve.Run.{EpochRun, resolve_epoch-EpochRun}
use state_keeper.Replay.Rebuild.{sort_ids, ids_eq, replay_fold, replay_folds, rebuild}
use state_keeper.Replay.Rebuild.Advance.{Commits}
use state_keeper.Replay.Rebuild.Growth.{Grows}
use state_keeper.Replay.Rebuild.Stuck.{rebuild-rejected}
use state_keeper.Frames.{touch, touch_all, insert_registry, build_advance_frames, AdvanceFrames}
use state_keeper.Keeper.Fresh.{latest_prices, fresh_marks, due_twaps, fresh_epoch_inputs}
use state_keeper.Keeper.Fresh.Recorded.{fresh_epoch_inputs-IsRecorded}
use state_keeper.Tests.Toy.{toy}
use state_keeper.Tests.Toy.Trees.{toy-IsPrePass}
use state_keeper.Tests.Toy.Orders.{toy-IsOrderFree, toy-IsUnsaturated}
use state_keeper.Tests.Samples.{
  first_fold, late_fold, folded_history, first_outcome, encode_nothing, or_else_value, no_inputs,
  no_outcome, no_frames,
}

abbrev late_inputs : EpochInputs
late_inputs =
    or_else_value no_inputs (fresh_epoch_inputs toy folded_history first_outcome.post 4 2000)

abbrev late_outcome : EpochOutcome
late_outcome = or_else_value no_outcome (resolve_epoch toy first_outcome.post late_inputs 8)

abbrev late_frames : AdvanceFrames
late_frames =
    or_else_value no_frames
      (build_advance_frames toy encode_nothing first_outcome.post late_inputs 8 202)

late_fresh : fresh_epoch_inputs toy folded_history first_outcome.post 4 2000 ≡ ok late_inputs
unfolding mathlib.Core.List.flatten insert insert_all get paused_pairs_at paused_tags from_be_bytes
    from_be_on open_to_new_position proven_mark proven_twap recover_open opens_by_id fold_inputs
    touched_set owners_map row_of build_row resolve_row resolve_rows resolve_epoch leaves root
    accounts_root sort_ids ids_eq replay_fold replay_folds rebuild touch touch_all insert_registry
    build_advance_frames unfolded_opens folded_ids latest_prices fresh_marks due_twaps
    fresh_epoch_inputs
late_fresh = refl

late_rebuilt : rebuild toy 8 folded_history ≡ ok first_outcome.post
unfolding mathlib.Core.List.flatten insert insert_all get paused_pairs_at paused_tags from_be_bytes
    from_be_on open_to_new_position proven_mark proven_twap recover_open opens_by_id fold_inputs
    touched_set owners_map row_of build_row resolve_row resolve_rows resolve_epoch leaves root
    accounts_root sort_ids ids_eq replay_fold replay_folds rebuild touch touch_all insert_registry
    build_advance_frames unfolded_opens folded_ids latest_prices fresh_marks due_twaps
    fresh_epoch_inputs
late_rebuilt = refl

late_resolved : resolve_epoch toy first_outcome.post late_inputs 8 ≡ ok late_outcome
unfolding mathlib.Core.List.flatten insert insert_all get paused_pairs_at paused_tags from_be_bytes
    from_be_on open_to_new_position proven_mark proven_twap recover_open opens_by_id fold_inputs
    touched_set owners_map row_of build_row resolve_row resolve_rows resolve_epoch leaves root
    accounts_root sort_ids ids_eq replay_fold replay_folds rebuild touch touch_all insert_registry
    build_advance_frames unfolded_opens folded_ids latest_prices fresh_marks due_twaps
    fresh_epoch_inputs
late_resolved = refl

late_paused : paused_pairs_at folded_history 8 ≡ late_inputs.paused_pairs
unfolding mathlib.Core.List.flatten insert insert_all get paused_pairs_at paused_tags from_be_bytes
    from_be_on open_to_new_position proven_mark proven_twap recover_open opens_by_id fold_inputs
    touched_set owners_map row_of build_row resolve_row resolve_rows resolve_epoch leaves root
    accounts_root sort_ids ids_eq replay_fold replay_folds rebuild touch touch_all insert_registry
    build_advance_frames unfolded_opens folded_ids latest_prices fresh_marks due_twaps
    fresh_epoch_inputs
late_paused = refl

abbrev late_run : EpochRun toy first_outcome.post late_inputs 8 late_outcome
late_run = resolve_epoch-EpochRun toy first_outcome.post late_inputs 8 late_outcome late_resolved

late_is_rejected : late_run.pre.1.rejected ≢ []
unfolding mathlib.Core.List.flatten insert insert_all get paused_pairs_at paused_tags from_be_bytes
    from_be_on open_to_new_position proven_mark proven_twap recover_open opens_by_id fold_inputs
    touched_set owners_map row_of build_row resolve_row resolve_rows resolve_epoch leaves root
    accounts_root sort_ids ids_eq replay_fold replay_folds rebuild touch touch_all insert_registry
    build_advance_frames unfolded_opens folded_ids latest_prices fresh_marks due_twaps
    fresh_epoch_inputs
late_is_rejected h = let same = ap (λ x. x.1.rejected) (ok-injective late_run.opened) in cc

late_committed : Commits toy toy-IsOrderFree 8 first_outcome.post late_inputs late_frames late_fold
unfolding mathlib.Core.List.flatten insert insert_all get paused_pairs_at paused_tags from_be_bytes
    from_be_on open_to_new_position proven_mark proven_twap recover_open opens_by_id fold_inputs
    touched_set owners_map row_of build_row resolve_row resolve_rows resolve_epoch leaves root
    accounts_root sort_ids ids_eq replay_fold replay_folds rebuild touch touch_all insert_registry
    build_advance_frames unfolded_opens folded_ids latest_prices fresh_marks due_twaps
    fresh_epoch_inputs
late_committed = record {
  listed = record {
    modelled = refl;
    opened = Permᴰ.refl _;
    proof_time = refl;
    domain = refl;
    marks = [];
    marks_read = refl;
    twaps = [];
    twaps_read = refl;
  };
  twaps = λ aid a found. refl;
  marks = λ aid a found. refl;
  committed = refl;
  root_prev = refl;
  root_new = refl;
  accounts_root_new = refl;
  unsaturated = λ out run m. toy-IsUnsaturated late_inputs run.pre.0;
}

abbrev stuck_history : ChainHistory
stuck_history = record folded_history {
  folds = first_fold ∷ late_fold ∷ record first_fold { block = 14 } ∷ [];
  head = 14;
}

stuck-Grows : Grows folded_history (late_fold ∷ record first_fold { block = 14 } ∷ []) stuck_history
stuck-Grows = record {
  new_opens = [];
  new_sets = [];
  folds = refl;
  opens = refl;
  other_ids = tt;
  market_sets = refl;
  after = (tt, (tt, (tt, tt)));
}

rebuild-rejected_example : rebuild toy 8 stuck_history ≢ ok empty_tree
rebuild-rejected_example =
    rebuild-rejected toy toy-IsOrderFree toy-IsPrePass 8 folded_history stuck_history late_fold
      (record first_fold { block = 14 } ∷ []) first_outcome.post empty_tree late_inputs late_frames
      late_outcome late_run late_rebuilt
      (fresh_epoch_inputs-IsRecorded toy folded_history first_outcome.post 4 2000 late_inputs
        (refl, (refl, tt)) late_fresh)
      late_paused late_resolved late_is_rejected late_committed stuck-Grows
