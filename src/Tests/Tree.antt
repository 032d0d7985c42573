-- ===== src/Tests/Tree.antt =====
-- The theorems on the tree of `Samples`.
use state_keeper.Prelude.{
  List, [], ok, ◌≡◌, refl, ◌≢◌, ◌↔◌, map, arith, from_be_bytes, from_be_on, traverse,
}
use state_keeper.BTreeMap.{insert, insert_all, get, keys}
use state_keeper.Scan.{paused_pairs_at, paused_tags}
use state_keeper.Replay.{EpochInputs, EpochOutcome, empty_tree, leaves}
use state_keeper.Replay.Open.{open_to_new_position}
use state_keeper.Replay.Inputs.{proven_mark, proven_twap, recover_open, fold_inputs, opens_by_id}
use state_keeper.Replay.Resolve.{
  touched_set, owners_map, row_of, build_row, resolve_row, resolve_rows, resolve_epoch,
}
use state_keeper.Replay.Rebuild.{replay_fold, rebuild}
use state_keeper.Frames.{touch, touch_all, insert_registry, build_advance_frames, AdvanceFrames}
use state_keeper.Types.{BookOpenOutcome}
use state_keeper.BTreeMap.Order.{IsSorted}
use state_keeper.Engine.{Row}
use state_keeper.Replay.Resolve.Steps.{EpochShape, resolve_epoch-EpochShape}
use state_keeper.Replay.Rebuild.Accepts.{Replays, rebuild_iff}
use state_keeper.Replay.Rebuild.Rejected.{replay_fold-rejected}
use state_keeper.Frames.Prediction.{Predicts, build_advance_frames-Predicts}
use state_keeper.Tests.Toy.{toy, book_row, pre_pass}
use state_keeper.Tests.Toy.Trees.{toy-IsTree, toy-IsPrePass}
use state_keeper.Tests.Samples.{
  late_fold, folded_history, first_outcome, encode_nothing, or_else_value, no_inputs, no_outcome,
  no_frames,
}

-- An epoch on the rebuilt tree that opens the late position, which the pre-pass rejects.
abbrev late_inputs : EpochInputs
late_inputs =
    or_else_value no_inputs (fold_inputs late_fold (opens_by_id folded_history) folded_history)

abbrev late_rows : List Row
late_rows = or_else_value [] (
    traverse (build_row toy first_outcome.post late_inputs)
      (keys (touched_set toy first_outcome.post late_inputs)))

abbrev late_pre : List Row × BookOpenOutcome
late_pre = (
  map (book_row late_inputs.proof_now late_inputs.new_positions) late_rows,
  pre_pass late_inputs.new_positions late_inputs.proof_now,
)

late_recovered : fold_inputs late_fold (opens_by_id folded_history) folded_history ≡ ok late_inputs
unfolding insert insert_all get paused_pairs_at paused_tags from_be_bytes from_be_on
    open_to_new_position proven_mark proven_twap recover_open opens_by_id fold_inputs
late_recovered = refl

late_built :
    traverse
      (build_row toy first_outcome.post late_inputs)
      (keys (touched_set toy first_outcome.post late_inputs))
    ≡ ok late_rows
unfolding insert insert_all get paused_pairs_at paused_tags from_be_bytes from_be_on
    open_to_new_position proven_mark proven_twap recover_open opens_by_id fold_inputs touched_set
    owners_map row_of build_row resolve_row resolve_rows resolve_epoch
late_built = refl

late_opened :
    toy.apply_new_boxes_to_book late_rows late_inputs.new_positions late_inputs.proof_now
    ≡ ok late_pre
late_opened = refl

late_rejected : late_pre.1.rejected ≢ []
unfolding insert insert_all get paused_pairs_at paused_tags from_be_bytes from_be_on
    open_to_new_position proven_mark proven_twap recover_open opens_by_id fold_inputs
late_rejected h = cc

-- The next advance on the rebuilt tree.
abbrev next_frames : AdvanceFrames
next_frames =
    or_else_value no_frames
      (build_advance_frames toy encode_nothing first_outcome.post late_inputs 8 202)

abbrev next_outcome : EpochOutcome
next_outcome = or_else_value no_outcome (resolve_epoch toy first_outcome.post late_inputs 8)

next_built :
    build_advance_frames toy encode_nothing first_outcome.post late_inputs 8 202 ≡ ok next_frames
unfolding insert insert_all get paused_pairs_at paused_tags from_be_bytes from_be_on
    open_to_new_position proven_mark proven_twap recover_open opens_by_id fold_inputs touched_set
    owners_map row_of build_row resolve_row resolve_rows resolve_epoch leaves touch touch_all
    insert_registry build_advance_frames
next_built = refl

next_resolved : resolve_epoch toy first_outcome.post late_inputs 8 ≡ ok next_outcome
unfolding insert insert_all get paused_pairs_at paused_tags from_be_bytes from_be_on
    open_to_new_position proven_mark proven_twap recover_open opens_by_id fold_inputs touched_set
    owners_map row_of build_row resolve_row resolve_rows resolve_epoch
next_resolved = refl

first-IsSorted : IsSorted first_outcome.post.accounts
unfolding insert insert_all get paused_pairs_at paused_tags from_be_bytes from_be_on
    open_to_new_position proven_mark proven_twap recover_open opens_by_id fold_inputs touched_set
    owners_map row_of build_row resolve_row resolve_rows resolve_epoch
first-IsSorted = (omega arith, tt)

build_advance_frames-Predicts_example :
    (out : EpochOutcome) × (resolve_epoch toy first_outcome.post late_inputs 8 ≡ ok out)
    × Predicts toy encode_nothing first_outcome.post 202 out next_frames
build_advance_frames-Predicts_example =
    build_advance_frames-Predicts toy encode_nothing toy-IsTree first_outcome.post late_inputs 8 202
      next_frames first-IsSorted next_built

resolve_epoch-EpochShape_example : EpochShape toy first_outcome.post late_inputs next_outcome
resolve_epoch-EpochShape_example =
    resolve_epoch-EpochShape toy first_outcome.post late_inputs 8 next_outcome next_resolved

rebuild_iff_example :
    (rebuild toy 8 folded_history ≡ ok first_outcome.post)
    ↔ Replays toy 8 folded_history folded_history.folds empty_tree first_outcome.post
rebuild_iff_example = rebuild_iff toy 8 folded_history first_outcome.post

replay_fold-rejected_example :
    replay_fold toy 8 folded_history 2 late_fold first_outcome.post ≢ ok first_outcome.post
replay_fold-rejected_example =
    replay_fold-rejected toy toy-IsPrePass 8 folded_history 2 late_fold first_outcome.post
      first_outcome.post late_inputs late_rows late_pre late_recovered late_built late_opened
      late_rejected
