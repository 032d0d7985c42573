-- ===== src/Tests/Settled.antt =====
-- The round after the advance of `Keeper`: the chain has the advance's fold, and the rebuild accepts it.
use state_keeper.Keeper.Backed.{scan_and_rebuild-IsBooked}
use state_keeper.Keeper.Chain.{parse_addr}
use state_keeper.Replay.Rebuild.Backed.{IsBacked}
use state_keeper.Replay.Resolve.Books.{IsBooked}
use state_keeper.Scan.Logs.Authentic.{IsAuthentic}
use state_keeper.Prelude.{
  All, arith, ap, sym, ok-injective, List, [], ◌∷◌, ok, ◌≡◌, refl, be_bytes, from_be_bytes,
  from_be_on,
}
use mathlib.Core.List.{flatten}
use state_keeper.BTreeMap.{insert, insert_all, get}
use state_keeper.Events.{
  terms_rfq_id, terms_words, concat, addr_word, u64_word, instrument_word, side_word,
}
use state_keeper.Pv.{decode_public_values, decode_twap, decode_mark}
use state_keeper.Scan.{paused_pairs_at, paused_tags, unfolded_opens, folded_ids}
use state_keeper.Scan.Chunks.{chunk_end, chunk_ranges}
use state_keeper.Scan.Signatures.{has_prefix, matching_call, embedded_call, find_call, open_sigs}
use state_keeper.Scan.Logs.{
  as_filter_topics, terms_from_opened_log, new_topics, insert_log, sort_logs, read_open, read_fold,
  read_market_set, scan_log, scan_logs, scan,
}
use state_keeper.Replay.{leaves, root, accounts_root}
use state_keeper.Replay.Open.{open_to_new_position}
use state_keeper.Replay.Inputs.{proven_mark, proven_twap, recover_open, fold_inputs, opens_by_id}
use state_keeper.Replay.Resolve.{
  touched_set, owners_map, row_of, build_row, resolve_row, resolve_rows, resolve_epoch,
}
use state_keeper.Replay.Rebuild.{sort_ids, ids_eq, replay_fold, replay_folds, rebuild}
use state_keeper.Frames.{touch, touch_all, insert_registry, build_advance_frames}
use state_keeper.Keeper.Context.{scan_and_rebuild}
use state_keeper.Keeper.Fresh.{latest_prices, fresh_marks, due_twaps, fresh_epoch_inputs}
use state_keeper.Tests.Toy.{toy}
use state_keeper.Tests.Samples.{or_else_value, first_fold}
use state_keeper.Tests.Lane.{lane_abi, lane_codecs, lane_job, world_at}
use state_keeper.Types.{BookOpenOutcome}
use state_keeper.Engine.{Row}
use state_keeper.Replay.{EpochOutcome}
use state_keeper.Replay.Resolve.Run.{EpochRun}
use state_keeper.Replay.Rebuild.Advance.{Commits}
use state_keeper.Replay.Rebuild.Growth.{Grows}
use state_keeper.Scan.{ChainHistory}
use mathlib.Core.List.Permᴰ
use state_keeper.Keeper.Fresh.Recorded.{Follows}
use state_keeper.Keeper.Attempt.Rebuilds.{scan_and_rebuild-advanced}
use state_keeper.Tests.Toy.Trees.{toy-IsTree, toy-IsPrePass}
use state_keeper.Tests.Toy.Books.{toy-IsBooking}
use state_keeper.Tests.Toy.Orders.{toy-IsOrderFree, toy-IsUnsaturated}
use state_keeper.Tests.Lane.{later_provider, lane_provider}
use state_keeper.Tests.Keeper.{lane_history, lane_state, lane_inputs, lane_frames, ready}
use state_keeper.Scan.{FoldRecord}

abbrev later_fold : FoldRecord
later_fold = record {
  block = 8;
  tx = 103;
  pv = or_else_value first_fold.pv (decode_public_values lane_abi.decode_pv (2 ∷ []));
}

abbrev later_history : ChainHistory
later_history = or_else_value lane_history (scan lane_abi later_provider 4 1)

later_scanned : scan lane_abi later_provider 4 1 ≡ ok later_history
unfolding mathlib.Core.List.flatten as_filter_topics terms_from_opened_log new_topics insert_log
    sort_logs read_open read_fold read_market_set scan_log scan_logs scan chunk_end chunk_ranges
    has_prefix matching_call embedded_call find_call open_sigs terms_rfq_id terms_words concat
    addr_word u64_word instrument_word side_word be_bytes from_be_bytes from_be_on
    decode_public_values decode_twap decode_mark insert insert_all get paused_pairs_at paused_tags
    open_to_new_position proven_mark proven_twap recover_open opens_by_id fold_inputs touched_set
    owners_map row_of build_row resolve_row resolve_rows resolve_epoch leaves root accounts_root
    sort_ids ids_eq replay_fold replay_folds rebuild touch touch_all insert_registry
    build_advance_frames unfolded_opens folded_ids latest_prices fresh_marks due_twaps
    fresh_epoch_inputs
later_scanned = refl

none_rejected :
    (out : EpochOutcome) (run : EpochRun toy lane_state lane_inputs 8 out) → run.pre.1.rejected ≡ []
unfolding mathlib.Core.List.flatten as_filter_topics terms_from_opened_log new_topics insert_log
    sort_logs read_open read_fold read_market_set scan_log scan_logs scan chunk_end chunk_ranges
    has_prefix matching_call embedded_call find_call open_sigs terms_rfq_id terms_words concat
    addr_word u64_word instrument_word side_word be_bytes from_be_bytes from_be_on
    decode_public_values decode_twap decode_mark insert insert_all get paused_pairs_at paused_tags
    open_to_new_position proven_mark proven_twap recover_open opens_by_id fold_inputs touched_set
    owners_map row_of build_row resolve_row resolve_rows resolve_epoch leaves root accounts_root
    sort_ids ids_eq replay_fold replay_folds rebuild touch touch_all insert_registry
    build_advance_frames unfolded_opens folded_ids latest_prices fresh_marks due_twaps
    fresh_epoch_inputs
none_rejected out run =
    ap (λ (x : List Row × BookOpenOutcome). x.1.rejected) (sym (ok-injective run.opened))

committed : Commits toy toy-IsOrderFree 8 lane_state lane_inputs lane_frames later_fold
unfolding mathlib.Core.List.flatten as_filter_topics terms_from_opened_log new_topics insert_log
    sort_logs read_open read_fold read_market_set scan_log scan_logs scan chunk_end chunk_ranges
    has_prefix matching_call embedded_call find_call open_sigs terms_rfq_id terms_words concat
    addr_word u64_word instrument_word side_word be_bytes from_be_bytes from_be_on
    decode_public_values decode_twap decode_mark insert insert_all get paused_pairs_at paused_tags
    open_to_new_position proven_mark proven_twap recover_open opens_by_id fold_inputs touched_set
    owners_map row_of build_row resolve_row resolve_rows resolve_epoch leaves root accounts_root
    sort_ids ids_eq replay_fold replay_folds rebuild touch touch_all insert_registry
    build_advance_frames unfolded_opens folded_ids latest_prices fresh_marks due_twaps
    fresh_epoch_inputs
committed = record {
  listed = record {
    modelled = refl;
    opened = Permᴰ.refl _;
    proof_time = refl;
    domain = refl;
    marks = [];
    marks_read = refl;
    twaps = [];
    twaps_read = refl;
  };
  twaps = λ aid a found. refl;
  marks = λ aid a found. refl;
  committed = refl;
  root_prev = refl;
  root_new = refl;
  accounts_root_new = refl;
  unsaturated = λ out run m. toy-IsUnsaturated lane_inputs run.pre.0;
}

follows : Follows lane_history later_fold
unfolding mathlib.Core.List.flatten as_filter_topics terms_from_opened_log new_topics insert_log
    sort_logs read_open read_fold read_market_set scan_log scan_logs scan chunk_end chunk_ranges
    has_prefix matching_call embedded_call find_call open_sigs terms_rfq_id terms_words concat
    addr_word u64_word instrument_word side_word be_bytes from_be_bytes from_be_on
    decode_public_values decode_twap decode_mark insert insert_all get paused_pairs_at paused_tags
    open_to_new_position proven_mark proven_twap recover_open opens_by_id fold_inputs touched_set
    owners_map row_of build_row resolve_row resolve_rows resolve_epoch leaves root accounts_root
    sort_ids ids_eq replay_fold replay_folds rebuild touch touch_all insert_registry
    build_advance_frames unfolded_opens folded_ids latest_prices fresh_marks due_twaps
    fresh_epoch_inputs
follows = record {
  unique = (refl, (refl, tt));
  in_u64 = omega arith;
  sets_before = (omega arith, tt);
}

grows : Grows lane_history (later_fold ∷ []) later_history
unfolding mathlib.Core.List.flatten as_filter_topics terms_from_opened_log new_topics insert_log
    sort_logs read_open read_fold read_market_set scan_log scan_logs scan chunk_end chunk_ranges
    has_prefix matching_call embedded_call find_call open_sigs terms_rfq_id terms_words concat
    addr_word u64_word instrument_word side_word be_bytes from_be_bytes from_be_on
    decode_public_values decode_twap decode_mark insert insert_all get paused_pairs_at paused_tags
    open_to_new_position proven_mark proven_twap recover_open opens_by_id fold_inputs touched_set
    owners_map row_of build_row resolve_row resolve_rows resolve_epoch leaves root accounts_root
    sort_ids ids_eq replay_fold replay_folds rebuild touch touch_all insert_registry
    build_advance_frames unfolded_opens folded_ids latest_prices fresh_marks due_twaps
    fresh_epoch_inputs
grows = record {
  new_opens = [];
  new_sets = [];
  folds = refl;
  opens = refl;
  other_ids = tt;
  market_sets = refl;
  after = (tt, (tt, tt));
}

scan_and_rebuild-advanced_example :
    (out : EpochOutcome) × (resolve_epoch toy lane_state lane_inputs 8 ≡ ok out)
    × (scan_and_rebuild toy lane_codecs lane_job.ctx later_provider ≡ ok (later_history, out.post))
    × (root toy out.post ≡ lane_frames.predicted_root)
    × (accounts_root toy out.post ≡ lane_frames.predicted_accounts_root)
unfolding ready
scan_and_rebuild-advanced_example =
    scan_and_rebuild-advanced toy lane_codecs toy-IsTree toy-IsPrePass toy-IsOrderFree lane_job
      (world_at 1312) lane_frames ready later_provider later_history later_fold committed
      none_rejected follows grows later_scanned

rebuilt_here :
    scan_and_rebuild toy lane_codecs lane_job.ctx lane_provider ≡ ok (lane_history, lane_state)
unfolding mathlib.Core.List.flatten as_filter_topics terms_from_opened_log new_topics insert_log
    sort_logs read_open read_fold read_market_set scan_log scan_logs scan chunk_end chunk_ranges
    has_prefix matching_call embedded_call find_call open_sigs terms_rfq_id terms_words concat
    addr_word u64_word instrument_word side_word be_bytes from_be_bytes from_be_on
    decode_public_values decode_twap decode_mark insert insert_all get paused_pairs_at paused_tags
    open_to_new_position proven_mark proven_twap recover_open opens_by_id fold_inputs touched_set
    owners_map row_of build_row resolve_row resolve_rows resolve_epoch leaves root accounts_root
    sort_ids ids_eq replay_fold replay_folds rebuild touch touch_all insert_registry
    build_advance_frames unfolded_opens folded_ids latest_prices fresh_marks due_twaps
    fresh_epoch_inputs scan_and_rebuild parse_addr
rebuilt_here = refl

scan_and_rebuild-IsBooked_example :
    All (IsBooked toy (IsBacked (IsAuthentic lane_abi lane_provider))) lane_state.accounts
scan_and_rebuild-IsBooked_example =
    scan_and_rebuild-IsBooked toy lane_codecs toy-IsPrePass toy-IsBooking lane_job.ctx lane_provider
      lane_history lane_state rebuilt_here
