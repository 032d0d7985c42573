-- ===== src/Tests/Keeper.antt =====
-- The commands of the keeper on the lane of `Lane`: a first round that meets another root, and a
-- second that lands an advance.
use state_keeper.Prelude.{
  some, List, [], ◌∷◌, All, ok, ◌≡◌, ◌≢◌, ◌⊎◌, ◌↔◌, refl, arith, codes, be_bytes, from_be_bytes,
  from_be_on, text_eq, trim_start_0x, trim, trim_matches, trim_start_of, trim_end_of,
}
use mathlib.Core.List.{flatten}
use state_keeper.BTreeMap.{insert, insert_all, get}
use state_keeper.Events.{
  terms_rfq_id, terms_words, concat, addr_word, u64_word, instrument_word, side_word,
}
use state_keeper.Pv.{decode_public_values, decode_twap, decode_mark}
use state_keeper.Scan.{paused_pairs_at, paused_tags, unfolded_opens, folded_ids, ChainHistory}
use state_keeper.Scan.Chunks.{chunk_end, chunk_ranges}
use state_keeper.Scan.Signatures.{has_prefix, matching_call, embedded_call, find_call, open_sigs}
use state_keeper.Scan.Logs.{
  as_filter_topics, terms_from_opened_log, new_topics, insert_log, sort_logs, read_open, read_fold,
  read_market_set, scan_log, scan_logs, scan,
}
use state_keeper.Scan.Logs.Chronology.{IsChronological, scan-IsChronological}
use state_keeper.Scan.Logs.ReadOff.{IsReadOff, scan_iff}
use state_keeper.Scan.Logs.Authentic.{IsAuthentic, scan-IsAuthentic}
use state_keeper.Replay.{TreeState, EpochInputs, empty_tree, leaves, root, accounts_root}
use state_keeper.Replay.Open.{open_to_new_position}
use state_keeper.Replay.Inputs.{proven_mark, proven_twap, recover_open, fold_inputs, opens_by_id}
use state_keeper.Replay.Resolve.{
  touched_set, owners_map, row_of, build_row, resolve_row, resolve_rows, resolve_epoch,
}
use state_keeper.Replay.Rebuild.{sort_ids, ids_eq, replay_fold, replay_folds, rebuild}
use state_keeper.Frames.{touch, touch_all, insert_registry, build_advance_frames, AdvanceFrames}
use state_keeper.ProveExec.{stdin_from_frames, execute, prove_network}
use state_keeper.Keeper.Env.{var, set_var, env_nonempty}
use state_keeper.Keeper.Chain.{
  ChainState, first_readable, find_lane, load_lane, parse_addr, parse_b32, read_chain,
}
use state_keeper.Keeper.Context.{load_scenario_table, build_ctx, scan_and_rebuild}
use state_keeper.Keeper.Fresh.{latest_prices, fresh_marks, due_twaps, fresh_epoch_inputs}
use state_keeper.Keeper.Submit.{Submission, submit_apply_state}
use state_keeper.Keeper.Attempt.{
  Job, Effect, executed, proved, submitted, advanced, rebase, submission_of, submit_stage,
  prove_stage, advance_stage, attempt,
}
use state_keeper.Keeper.Attempt.Sound.{Ready, Equivalent, Current}
use state_keeper.Keeper.Attempt.Advances.{Advances}
use state_keeper.Keeper.Attempt.Lands.{attempt_iff}
use state_keeper.Keeper.Advance.{start_job, advance_loop, cmd_advance}
use state_keeper.Keeper.Advance.Rounds.{IsJustifiedIn, cmd_advance-IsJustifiedIn}
use state_keeper.Keeper.Advance.Cost.{Costs, cmd_advance-Costs}
use state_keeper.Keeper.Advance.Landing.{LandedIn, cmd_advance-LandedIn}
use state_keeper.Keeper.Advance.Progress.{RebaseBefore}
use state_keeper.Keeper.Advance.Ends.{DecidedBy, GaveUp, cmd_advance_ends}
use state_keeper.Keeper.Commands.{cmd_rebuild, cmd_verify}
use state_keeper.Keeper.Commands.Verify.{Verifies, cmd_verify_iff}
use state_keeper.Keeper.Commands.Gates.{Confirms, cmd_rebuild_iff}
use state_keeper.Tests.Toy.{toy}
use state_keeper.Tests.Samples.{or_else_value, no_inputs, no_frames, encode_nothing, first_fold}
use state_keeper.Tests.Lane.{
  contracts_at, drifting_worlds, lane_abi, lane_codecs, lane_env, lane_files, lane_job,
  lane_provider, lane_worlds, world_at,
}

abbrev pub no_history : ChainHistory
no_history = record { opens = []; folds = []; twaps = []; market_sets = []; head = 0 }

abbrev pub lane_history : ChainHistory
lane_history = or_else_value no_history (scan lane_abi lane_provider 4 1)

pub scanned : scan lane_abi lane_provider 4 1 ≡ ok lane_history
unfolding mathlib.Core.List.flatten as_filter_topics terms_from_opened_log new_topics insert_log
    sort_logs read_open read_fold read_market_set scan_log scan_logs scan chunk_end chunk_ranges
    has_prefix matching_call embedded_call find_call open_sigs terms_rfq_id terms_words concat
    addr_word u64_word instrument_word side_word be_bytes from_be_bytes from_be_on
    decode_public_values decode_twap decode_mark
scanned = refl

scan-IsAuthentic_example : All (IsAuthentic lane_abi lane_provider) lane_history.opens
scan-IsAuthentic_example = scan-IsAuthentic lane_abi lane_provider 4 1 lane_history scanned

scan_iff_example :
    (scan lane_abi lane_provider 4 1 ≡ ok lane_history)
    ↔ IsReadOff lane_abi lane_provider 4 1 lane_history
scan_iff_example = scan_iff lane_abi lane_provider 4 1 lane_history

scan-IsChronological_example : IsChronological lane_history
scan-IsChronological_example = scan-IsChronological lane_abi lane_provider 4 1 lane_history scanned

started : start_job toy lane_codecs lane_files lane_env (codes "celo") ≡ ok lane_job
unfolding text_eq trim_start_0x trim trim_matches trim_start_of trim_end_of var set_var env_nonempty
    first_readable find_lane load_lane parse_addr parse_b32 be_bytes from_be_bytes from_be_on
    load_scenario_table build_ctx start_job
started = refl

abbrev lane_trace : List Effect
lane_trace = (cmd_advance toy lane_codecs lane_files lane_env (codes "celo") lane_worlds).0

landed :
    cmd_advance toy lane_codecs lane_files lane_env (codes "celo") lane_worlds
    ≡ (lane_trace, ok advanced)
unfolding mathlib.Core.List.flatten as_filter_topics terms_from_opened_log new_topics insert_log
    sort_logs read_open read_fold read_market_set scan_log scan_logs scan chunk_end chunk_ranges
    has_prefix matching_call embedded_call find_call open_sigs terms_rfq_id terms_words concat
    addr_word u64_word instrument_word side_word be_bytes from_be_bytes from_be_on
    decode_public_values decode_twap decode_mark text_eq trim_start_0x trim trim_matches
    trim_start_of trim_end_of var set_var env_nonempty first_readable find_lane load_lane parse_addr
    parse_b32 load_scenario_table build_ctx start_job insert insert_all get paused_pairs_at
    paused_tags open_to_new_position proven_mark proven_twap recover_open opens_by_id fold_inputs
    touched_set owners_map row_of build_row resolve_row resolve_rows resolve_epoch leaves root
    accounts_root sort_ids ids_eq replay_fold replay_folds rebuild touch touch_all insert_registry
    build_advance_frames unfolded_opens folded_ids latest_prices fresh_marks due_twaps
    fresh_epoch_inputs stdin_from_frames execute prove_network read_chain scan_and_rebuild
    submit_apply_state submit_stage prove_stage advance_stage attempt advance_loop cmd_advance
landed = refl

drifts : (attempt toy lane_codecs lane_job (world_at 5)).1 ≡ ok rebase
unfolding mathlib.Core.List.flatten as_filter_topics terms_from_opened_log new_topics insert_log
    sort_logs read_open read_fold read_market_set scan_log scan_logs scan chunk_end chunk_ranges
    has_prefix matching_call embedded_call find_call open_sigs terms_rfq_id terms_words concat
    addr_word u64_word instrument_word side_word be_bytes from_be_bytes from_be_on
    decode_public_values decode_twap decode_mark text_eq trim_start_0x trim trim_matches
    trim_start_of trim_end_of var set_var env_nonempty first_readable find_lane load_lane parse_addr
    parse_b32 load_scenario_table build_ctx start_job insert insert_all get paused_pairs_at
    paused_tags open_to_new_position proven_mark proven_twap recover_open opens_by_id fold_inputs
    touched_set owners_map row_of build_row resolve_row resolve_rows resolve_epoch leaves root
    accounts_root sort_ids ids_eq replay_fold replay_folds rebuild touch touch_all insert_registry
    build_advance_frames unfolded_opens folded_ids latest_prices fresh_marks due_twaps
    fresh_epoch_inputs stdin_from_frames execute prove_network read_chain scan_and_rebuild
    submit_apply_state submit_stage prove_stage advance_stage attempt advance_loop cmd_advance
drifts = refl

all_rebase : RebaseBefore toy lane_codecs lane_job drifting_worlds 1 4
all_rebase j a b = drifts

cmd_advance-IsJustifiedIn_example :
    All
      (IsJustifiedIn toy lane_codecs lane_job lane_worlds 1 4)
      (cmd_advance toy lane_codecs lane_files lane_env (codes "celo") lane_worlds).0
cmd_advance-IsJustifiedIn_example =
    cmd_advance-IsJustifiedIn toy lane_codecs lane_files lane_env (codes "celo") lane_worlds
      lane_job started

cmd_advance-Costs_example :
    Costs 3 (cmd_advance toy lane_codecs lane_files lane_env (codes "celo") lane_worlds).0
cmd_advance-Costs_example =
    cmd_advance-Costs toy lane_codecs lane_files lane_env (codes "celo") lane_worlds

cmd_advance-LandedIn_example :
    (job : Job toy) × (start_job toy lane_codecs lane_files lane_env (codes "celo") ≡ ok job)
    × LandedIn toy lane_codecs job lane_worlds 1 4 lane_trace
cmd_advance-LandedIn_example =
    cmd_advance-LandedIn toy lane_codecs lane_files lane_env (codes "celo") lane_worlds lane_trace
      landed

cmd_advance_ends_example :
    DecidedBy toy lane_codecs lane_job drifting_worlds 1 4
      (cmd_advance toy lane_codecs lane_files lane_env (codes "celo") drifting_worlds)
    ⊎ GaveUp toy lane_codecs lane_job drifting_worlds 1 3
        (cmd_advance toy lane_codecs lane_files lane_env (codes "celo") drifting_worlds)
cmd_advance_ends_example =
    cmd_advance_ends toy lane_codecs lane_files lane_env (codes "celo") drifting_worlds lane_job
      started

-- The state, the inputs and the frames of the round that lands.
abbrev pub lane_state : TreeState
lane_state = or_else_value empty_tree (rebuild toy 8 lane_history)

abbrev pub lane_inputs : EpochInputs
lane_inputs = or_else_value no_inputs (fresh_epoch_inputs toy lane_history lane_state 4 1200)

abbrev pub lane_frames : AdvanceFrames
lane_frames =
    or_else_value no_frames (build_advance_frames toy encode_nothing lane_state lane_inputs 8 202)

abbrev lane_chain : ChainState
lane_chain = record {
  root = 1312;
  root_at = 0;
  accounts_root = 202;
  scenario_root = 8;
  domain = 4;
  vkey = 55;
}

pub roots_differ : lane_frames.predicted_root ≢ lane_frames.root_prev
unfolding mathlib.Core.List.flatten as_filter_topics terms_from_opened_log new_topics insert_log
    sort_logs read_open read_fold read_market_set scan_log scan_logs scan chunk_end chunk_ranges
    has_prefix matching_call embedded_call find_call open_sigs terms_rfq_id terms_words concat
    addr_word u64_word instrument_word side_word be_bytes from_be_bytes from_be_on
    decode_public_values decode_twap decode_mark text_eq trim_start_0x trim trim_matches
    trim_start_of trim_end_of var set_var env_nonempty first_readable find_lane load_lane parse_addr
    parse_b32 load_scenario_table build_ctx start_job insert insert_all get paused_pairs_at
    paused_tags open_to_new_position proven_mark proven_twap recover_open opens_by_id fold_inputs
    touched_set owners_map row_of build_row resolve_row resolve_rows resolve_epoch leaves root
    accounts_root sort_ids ids_eq replay_fold replay_folds rebuild touch touch_all insert_registry
    build_advance_frames unfolded_opens folded_ids latest_prices fresh_marks due_twaps
    fresh_epoch_inputs stdin_from_frames execute prove_network read_chain scan_and_rebuild
    submit_apply_state submit_stage prove_stage advance_stage attempt advance_loop cmd_advance
roots_differ h = omega arith

unfoldable pub ready : Ready toy lane_codecs lane_job (world_at 1312) lane_frames
unfolding mathlib.Core.List.flatten as_filter_topics terms_from_opened_log new_topics insert_log
    sort_logs read_open read_fold read_market_set scan_log scan_logs scan chunk_end chunk_ranges
    has_prefix matching_call embedded_call find_call open_sigs terms_rfq_id terms_words concat
    addr_word u64_word instrument_word side_word be_bytes from_be_bytes from_be_on
    decode_public_values decode_twap decode_mark text_eq trim_start_0x trim trim_matches
    trim_start_of trim_end_of var set_var env_nonempty first_readable find_lane load_lane parse_addr
    parse_b32 load_scenario_table build_ctx start_job insert insert_all get paused_pairs_at
    paused_tags open_to_new_position proven_mark proven_twap recover_open opens_by_id fold_inputs
    touched_set owners_map row_of build_row resolve_row resolve_rows resolve_epoch leaves root
    accounts_root sort_ids ids_eq replay_fold replay_folds rebuild touch touch_all insert_registry
    build_advance_frames unfolded_opens folded_ids latest_prices fresh_marks due_twaps
    fresh_epoch_inputs stdin_from_frames execute prove_network read_chain scan_and_rebuild
    submit_apply_state submit_stage prove_stage advance_stage attempt advance_loop cmd_advance
ready = record {
  chain = lane_chain;
  core = 4;
  history = lane_history;
  state = lane_state;
  inputs = lane_inputs;
  read = refl;
  generation = refl;
  table = refl;
  located = refl;
  scanned = scanned;
  rebuilt = refl;
  on_chain = refl;
  recovered = refl;
  built = refl;
  moves = roots_differ;
}

equivalent : Equivalent toy lane_codecs (world_at 1312) lane_frames
unfolding mathlib.Core.List.flatten as_filter_topics terms_from_opened_log new_topics insert_log
    sort_logs read_open read_fold read_market_set scan_log scan_logs scan chunk_end chunk_ranges
    has_prefix matching_call embedded_call find_call open_sigs terms_rfq_id terms_words concat
    addr_word u64_word instrument_word side_word be_bytes from_be_bytes from_be_on
    decode_public_values decode_twap decode_mark text_eq trim_start_0x trim trim_matches
    trim_start_of trim_end_of var set_var env_nonempty first_readable find_lane load_lane parse_addr
    parse_b32 load_scenario_table build_ctx start_job insert insert_all get paused_pairs_at
    paused_tags open_to_new_position proven_mark proven_twap recover_open opens_by_id fold_inputs
    touched_set owners_map row_of build_row resolve_row resolve_rows resolve_epoch leaves root
    accounts_root sort_ids ids_eq replay_fold replay_folds rebuild touch touch_all insert_registry
    build_advance_frames unfolded_opens folded_ids latest_prices fresh_marks due_twaps
    fresh_epoch_inputs stdin_from_frames execute prove_network read_chain scan_and_rebuild
    submit_apply_state submit_stage prove_stage advance_stage attempt advance_loop cmd_advance
equivalent = record {
  public_values = 2 ∷ [];
  decoded = or_else_value first_fold.pv (decode_public_values lane_abi.decode_pv (2 ∷ []));
  ran = refl;
  read = refl;
  agrees = refl;
}

abbrev lane_submission : Submission
lane_submission = submission_of toy lane_codecs lane_job (6 ∷ [], 2 ∷ [])

current : Current toy lane_codecs lane_job (world_at 1312) lane_frames lane_submission
unfolding mathlib.Core.List.flatten as_filter_topics terms_from_opened_log new_topics insert_log
    sort_logs read_open read_fold read_market_set scan_log scan_logs scan chunk_end chunk_ranges
    has_prefix matching_call embedded_call find_call open_sigs terms_rfq_id terms_words concat
    addr_word u64_word instrument_word side_word be_bytes from_be_bytes from_be_on
    decode_public_values decode_twap decode_mark text_eq trim_start_0x trim trim_matches
    trim_start_of trim_end_of var set_var env_nonempty first_readable find_lane load_lane parse_addr
    parse_b32 load_scenario_table build_ctx start_job insert insert_all get paused_pairs_at
    paused_tags open_to_new_position proven_mark proven_twap recover_open opens_by_id fold_inputs
    touched_set owners_map row_of build_row resolve_row resolve_rows resolve_epoch leaves root
    accounts_root sort_ids ids_eq replay_fold replay_folds rebuild touch touch_all insert_registry
    build_advance_frames unfolded_opens folded_ids latest_prices fresh_marks due_twaps
    fresh_epoch_inputs stdin_from_frames execute prove_network read_chain scan_and_rebuild
    submit_apply_state submit_stage prove_stage advance_stage attempt advance_loop cmd_advance
current = record {
  answer = ((6 ∷ [], 2 ∷ []), (codes "SP1_PROVER", codes "network") ∷ lane_env);
  proven = refl;
  of_proof = refl;
  fresh = lane_chain;
  read = refl;
  still = refl;
}

-- The round's submission is accepted, and the chain is read after it.
round-Advances :
    Advances toy lane_codecs lane_job
      (world_at 1312)
      (executed lane_frames.frames ∷ proved lane_frames.frames ∷ submitted lane_submission ∷ [])
unfolding submit_apply_state trim_start_0x text_eq trim trim_matches trim_start_of trim_end_of
    read_chain parse_addr
round-Advances = record {
  adv = lane_frames;
  ready = ready;
  same = equivalent;
  submission = lane_submission;
  current = current;
  tx = some 77;
  accepted = refl;
  last = record lane_chain { root = 2322 };
  read = refl;
  shown = refl;
}

attempt_iff_example :
    (attempt toy lane_codecs lane_job (world_at 1312) ≡ (
      executed lane_frames.frames ∷ proved lane_frames.frames ∷ submitted lane_submission ∷ [],
      ok advanced,
    ))
    ↔ Advances toy lane_codecs lane_job
        (world_at 1312)
        (executed lane_frames.frames ∷ proved lane_frames.frames ∷ submitted lane_submission ∷ [])
attempt_iff_example =
    attempt_iff toy lane_codecs lane_job (world_at 1312)
      (executed lane_frames.frames ∷ proved lane_frames.frames ∷ submitted lane_submission ∷ [])

cmd_rebuild_iff_example :
    (cmd_rebuild toy lane_codecs lane_files lane_env
        (codes "celo")
        (contracts_at 1312)
        lane_provider
      ≡ ok lane_state)
    ↔ Confirms toy lane_codecs lane_files lane_env
        (codes "celo")
        (contracts_at 1312)
        lane_provider
        lane_state
cmd_rebuild_iff_example =
    cmd_rebuild_iff toy lane_codecs lane_files lane_env (codes "celo") (contracts_at 1312)
      lane_provider lane_state

cmd_verify_iff_example :
    (cmd_verify toy lane_codecs lane_files lane_env (codes "celo") (contracts_at 1312)
      ≡ ok lane_chain)
    ↔ Verifies toy lane_codecs lane_files lane_env (codes "celo") (contracts_at 1312) lane_chain
cmd_verify_iff_example =
    cmd_verify_iff toy lane_codecs lane_files lane_env (codes "celo") (contracts_at 1312) lane_chain
