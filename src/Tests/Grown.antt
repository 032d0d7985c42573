-- ===== src/Tests/Grown.antt =====
-- Two opens of which the later has the smaller id, an advance of both, and the history after its fold,
-- which lists the ids in their own order.
use mathlib.Core.List.{flatten, Permᴰ}
use mathlib.Core.List.Permᴰ
use state_keeper.Prelude.{
  true, false, List, [], ◌∷◌, ◌++◌, ok, ◌≡◌, refl, sym, ap, ok-injective, pos, arith, from_be_bytes,
  from_be_on,
}
use state_keeper.BTreeMap.{insert, insert_all, get}
use state_keeper.Types.{NewPosition, BookOpenOutcome}
use state_keeper.Engine.{Row}
use state_keeper.Scan.{
  ChainHistory, FoldRecord, TwapBoundRecord, paused_pairs_at, paused_tags, unfolded_opens,
  folded_ids,
}
use state_keeper.Replay.{EpochInputs, EpochOutcome, empty_tree, leaves, root, accounts_root}
use state_keeper.Replay.Open.{open_to_new_position}
use state_keeper.Replay.Inputs.{proven_mark, proven_twap, recover_open, fold_inputs, opens_by_id}
use state_keeper.Replay.Resolve.{
  touched_set, owners_map, row_of, build_row, resolve_row, resolve_rows, resolve_epoch,
}
use state_keeper.Replay.Resolve.Run.{EpochRun, resolve_epoch-EpochRun}
use state_keeper.Replay.Resolve.Parties.{with_positions}
use state_keeper.Replay.Resolve.Reordered.{SameOutcome, resolve_epoch-SameOutcome}
use state_keeper.Replay.Rebuild.{sort_ids, ids_eq, replay_fold, replay_folds, rebuild}
use state_keeper.Replay.Rebuild.Advance.{Commits, rebuild-with_fold}
use state_keeper.Replay.Rebuild.Growth.{Grows}
use state_keeper.Frames.{touch, touch_all, insert_registry, build_advance_frames, AdvanceFrames}
use state_keeper.Keeper.Fresh.{latest_prices, fresh_marks, due_twaps, fresh_epoch_inputs}
use state_keeper.Keeper.Plain.{IsPlain, rebuild-IsPlain}
use state_keeper.Keeper.Fresh.Recorded.{Follows, fresh_epoch_inputs-IsRecorded}
use state_keeper.Tests.Toy.{toy}
use state_keeper.Tests.Toy.Trees.{toy-IsTree, toy-IsPrePass}
use state_keeper.Tests.Toy.Orders.{toy-IsOrderFree, toy-IsUnsaturated}
use state_keeper.Tests.Samples.{
  open_of, pv_of, market_set, encode_nothing, or_else_value, no_inputs, no_frames, no_outcome,
}

abbrev reversed {ℓ} : {A : Type ℓ} → List A → List A
reversed [] = []
reversed (x ∷ xs) = reversed xs ++ x ∷ []

abbrev two_history : ChainHistory
two_history = record {
  opens = open_of 22 5000 3 ∷ open_of 21 5000 4 ∷ [];
  folds = [];
  twaps = [];
  market_sets = market_set 2 77 true ∷ market_set 4 50 true ∷ [];
  head = 5;
}

abbrev two_inputs : EpochInputs
two_inputs = or_else_value no_inputs (fresh_epoch_inputs toy two_history empty_tree 4 1000)

abbrev two_frames : AdvanceFrames
two_frames =
    or_else_value no_frames (build_advance_frames toy encode_nothing empty_tree two_inputs 8 0)

abbrev pub two_fold : FoldRecord
two_fold = record { block = 6; tx = 102; pv = pv_of 0 2322 202 1000 (21 ∷ 22 ∷ []) }

abbrev late_price : TwapBoundRecord
late_price = record { feed_id = 9; close_time = 4000; twap = pos 7; expo = pos 0; block = 8 }

-- In the fold's own block a pair is enabled again, and then another position is opened.
abbrev grown_history : ChainHistory
grown_history = record {
  opens = two_history.opens ++ open_of 23 6000 7 ∷ [];
  folds = two_history.folds ++ two_fold ∷ [];
  twaps = late_price ∷ [];
  market_sets = two_history.market_sets ++ market_set 6 77 false ∷ [];
  head = 9;
}

two_fresh : fresh_epoch_inputs toy two_history empty_tree 4 1000 ≡ ok two_inputs
unfolding mathlib.Core.List.flatten insert insert_all get paused_pairs_at paused_tags from_be_bytes
    from_be_on open_to_new_position proven_mark proven_twap recover_open opens_by_id fold_inputs
    touched_set owners_map row_of build_row resolve_row resolve_rows resolve_epoch leaves root
    accounts_root sort_ids ids_eq replay_fold replay_folds rebuild touch touch_all insert_registry
    build_advance_frames unfolded_opens folded_ids latest_prices fresh_marks due_twaps
    fresh_epoch_inputs
two_fresh = refl

two_rebuilt : rebuild toy 8 two_history ≡ ok empty_tree
unfolding mathlib.Core.List.flatten insert insert_all get paused_pairs_at paused_tags from_be_bytes
    from_be_on open_to_new_position proven_mark proven_twap recover_open opens_by_id fold_inputs
    touched_set owners_map row_of build_row resolve_row resolve_rows resolve_epoch leaves root
    accounts_root sort_ids ids_eq replay_fold replay_folds rebuild touch touch_all insert_registry
    build_advance_frames unfolded_opens folded_ids latest_prices fresh_marks due_twaps
    fresh_epoch_inputs
two_rebuilt = refl

two_built : build_advance_frames toy encode_nothing empty_tree two_inputs 8 0 ≡ ok two_frames
unfolding mathlib.Core.List.flatten insert insert_all get paused_pairs_at paused_tags from_be_bytes
    from_be_on open_to_new_position proven_mark proven_twap recover_open opens_by_id fold_inputs
    touched_set owners_map row_of build_row resolve_row resolve_rows resolve_epoch leaves root
    accounts_root sort_ids ids_eq replay_fold replay_folds rebuild touch touch_all insert_registry
    build_advance_frames unfolded_opens folded_ids latest_prices fresh_marks due_twaps
    fresh_epoch_inputs
two_built = refl

two_paused : paused_pairs_at two_history 5 ≡ two_inputs.paused_pairs
unfolding mathlib.Core.List.flatten insert insert_all get paused_pairs_at paused_tags from_be_bytes
    from_be_on open_to_new_position proven_mark proven_twap recover_open opens_by_id fold_inputs
    touched_set owners_map row_of build_row resolve_row resolve_rows resolve_epoch leaves root
    accounts_root sort_ids ids_eq replay_fold replay_folds rebuild touch touch_all insert_registry
    build_advance_frames unfolded_opens folded_ids latest_prices fresh_marks due_twaps
    fresh_epoch_inputs
two_paused = refl

two_none_rejected :
    (out : EpochOutcome) (run : EpochRun toy empty_tree two_inputs 8 out) → run.pre.1.rejected ≡ []
unfolding mathlib.Core.List.flatten insert insert_all get paused_pairs_at paused_tags from_be_bytes
    from_be_on open_to_new_position proven_mark proven_twap recover_open opens_by_id fold_inputs
    touched_set owners_map row_of build_row resolve_row resolve_rows resolve_epoch leaves root
    accounts_root sort_ids ids_eq replay_fold replay_folds rebuild touch touch_all insert_registry
    build_advance_frames unfolded_opens folded_ids latest_prices fresh_marks due_twaps
    fresh_epoch_inputs
two_none_rejected out run =
    ap (λ (x : List Row × BookOpenOutcome). x.1.rejected) (sym (ok-injective run.opened))

two_committed : Commits toy toy-IsOrderFree 8 empty_tree two_inputs two_frames two_fold
unfolding mathlib.Core.List.flatten insert insert_all get paused_pairs_at paused_tags from_be_bytes
    from_be_on open_to_new_position proven_mark proven_twap recover_open opens_by_id fold_inputs
    touched_set owners_map row_of build_row resolve_row resolve_rows resolve_epoch leaves root
    accounts_root sort_ids ids_eq replay_fold replay_folds rebuild touch touch_all insert_registry
    build_advance_frames unfolded_opens folded_ids latest_prices fresh_marks due_twaps
    fresh_epoch_inputs
two_committed = record {
  listed = record {
    modelled = refl;
    opened = Permᴰ.swap refl refl;
    proof_time = refl;
    domain = refl;
    marks = [];
    marks_read = refl;
    twaps = [];
    twaps_read = refl;
  };
  twaps = λ aid a found. refl;
  marks = λ aid a found. refl;
  committed = refl;
  root_prev = refl;
  root_new = refl;
  accounts_root_new = refl;
  unsaturated = λ out run m. toy-IsUnsaturated two_inputs run.pre.0;
}

two-Grows : Grows two_history (two_fold ∷ []) grown_history
two-Grows = record {
  new_opens = open_of 23 6000 7 ∷ [];
  new_sets = market_set 6 77 false ∷ [];
  folds = refl;
  opens = refl;
  other_ids = (refl, tt);
  market_sets = refl;
  after = ((omega arith, tt), tt);
}

rebuild-with_fold_example :
    (out : EpochOutcome) × (resolve_epoch toy empty_tree two_inputs 8 ≡ ok out)
    × (rebuild toy 8 grown_history ≡ ok out.post)
    × (root toy out.post ≡ two_frames.predicted_root)
    × (accounts_root toy out.post ≡ two_frames.predicted_accounts_root)
rebuild-with_fold_example =
    rebuild-with_fold toy toy-IsOrderFree 8 toy-IsTree toy-IsPrePass encode_nothing two_history
      grown_history empty_tree two_inputs 0 two_frames two_fold two_rebuilt
      (fresh_epoch_inputs-IsRecorded toy two_history empty_tree 4 1000 two_inputs (refl, (refl, tt))
        two_fresh)
      two_paused two_built two_committed two_none_rejected two-Grows

abbrev two_outcome : EpochOutcome
two_outcome = or_else_value no_outcome (resolve_epoch toy empty_tree two_inputs 8)

two_resolved : resolve_epoch toy empty_tree two_inputs 8 ≡ ok two_outcome
unfolding mathlib.Core.List.flatten insert insert_all get paused_pairs_at paused_tags from_be_bytes
    from_be_on open_to_new_position proven_mark proven_twap recover_open opens_by_id fold_inputs
    touched_set owners_map row_of build_row resolve_row resolve_rows resolve_epoch leaves root
    accounts_root sort_ids ids_eq replay_fold replay_folds rebuild touch touch_all insert_registry
    build_advance_frames unfolded_opens folded_ids latest_prices fresh_marks due_twaps
    fresh_epoch_inputs
two_resolved = refl

abbrev two_run : EpochRun toy empty_tree two_inputs 8 two_outcome
two_run = resolve_epoch-EpochRun toy empty_tree two_inputs 8 two_outcome two_resolved

-- The two positions in the order of their ids.
abbrev sorted_positions : List NewPosition
sorted_positions = reversed two_inputs.new_positions

two_reversed : Permᴰ two_inputs.new_positions sorted_positions
unfolding mathlib.Core.List.flatten insert insert_all get paused_pairs_at paused_tags from_be_bytes
    from_be_on open_to_new_position proven_mark proven_twap recover_open opens_by_id fold_inputs
    touched_set owners_map row_of build_row resolve_row resolve_rows resolve_epoch leaves root
    accounts_root sort_ids ids_eq replay_fold replay_folds rebuild touch touch_all insert_registry
    build_advance_frames unfolded_opens folded_ids latest_prices fresh_marks due_twaps
    fresh_epoch_inputs
two_reversed = Permᴰ.swap refl refl

resolve_epoch-SameOutcome_example :
    (out : EpochOutcome) × (resolve_epoch toy empty_tree
        (with_positions two_inputs sorted_positions)
        8
      ≡ ok out)
    × SameOutcome toy toy-IsOrderFree two_outcome out
resolve_epoch-SameOutcome_example =
    resolve_epoch-SameOutcome toy toy-IsOrderFree empty_tree two_inputs sorted_positions 8
      two_outcome two_run two_reversed (λ m. toy-IsUnsaturated two_inputs two_run.pre.0)

-- The lane at its deployment, one open later, and after the fold of both opens.
abbrev one_history : ChainHistory
one_history = record two_history { opens = open_of 22 5000 3 ∷ []; head = 3 }

one-Grows : Grows one_history [] two_history
one-Grows = record {
  new_opens = open_of 21 5000 4 ∷ [];
  new_sets = [];
  folds = refl;
  opens = refl;
  other_ids = (refl, tt);
  market_sets = refl;
  after = tt;
}

two-Follows : Follows two_history two_fold
two-Follows = record {
  unique = (refl, (refl, tt));
  in_u64 = omega arith;
  sets_before = (omega arith, (omega arith, tt));
}

two-IsPlain : IsPlain toy toy-IsOrderFree 8 encode_nothing grown_history two_outcome.post
unfolding mathlib.Core.List.flatten insert insert_all get paused_pairs_at paused_tags from_be_bytes
    from_be_on open_to_new_position proven_mark proven_twap recover_open opens_by_id fold_inputs
    touched_set owners_map row_of build_row resolve_row resolve_rows resolve_epoch leaves root
    accounts_root sort_ids ids_eq replay_fold replay_folds rebuild touch touch_all insert_registry
    build_advance_frames unfolded_opens folded_ids latest_prices fresh_marks due_twaps
    fresh_epoch_inputs
two-IsPlain =
    IsPlain.landed 4 1000 0 (IsPlain.extended (IsPlain.deployed refl refl) one-Grows) two_fresh
      two_built two_committed two_none_rejected two-Follows two-Grows two_resolved refl

rebuild-IsPlain_example : rebuild toy 8 grown_history ≡ ok two_outcome.post
rebuild-IsPlain_example =
    rebuild-IsPlain toy toy-IsOrderFree 8 encode_nothing toy-IsTree toy-IsPrePass two-IsPlain
