-- ===== src/Tests/Doubled.antt =====
-- A fold that settles a position and commits its price for each party, and the history after it.
use mathlib.Core.List.{flatten, Permᴰ}
use mathlib.Core.List.Permᴰ
use state_keeper.Prelude.{
  ℕ, List, Option, map, traverse, true, any, none, some, ◌≢◌, [], ◌∷◌, ok, ◌≡◌, refl, pos, arith,
  from_be_bytes, from_be_on,
}
use state_keeper.BTreeMap.{BTreeMap, keys, insert, insert_all, get}
use state_keeper.Types.{ConsumedTwap, PositionSettlement, BookOpenOutcome}
use state_keeper.Scan.{
  ChainHistory, FoldRecord, paused_pairs_at, paused_tags, unfolded_opens, folded_ids,
}
use state_keeper.Replay.{AccountState, EpochInputs, empty_tree, leaves, root, accounts_root}
use state_keeper.Replay.Open.{open_to_new_position}
use state_keeper.Replay.Inputs.{proven_mark, proven_twap, recover_open, fold_inputs, opens_by_id}
use state_keeper.Replay.Resolve.{
  touched_set, owners_map, row_of, build_row, resolve_row, resolve_rows, resolve_epoch,
}
use state_keeper.Engine.Laws.{expires_at}
use state_keeper.Replay.Rebuild.Twice.{rebuild-settled}
use state_keeper.Replay.Resolve.Run.{EpochRun, is_marking, outcome_of}
use state_keeper.Engine.{Row}
use state_keeper.Engine.Laws.{Consumes}
use state_keeper.Replay.Rebuild.{sort_ids, ids_eq, replay_fold, replay_folds, rebuild}
use state_keeper.Replay.Rebuild.Growth.{Grows}
use state_keeper.Frames.{touch, touch_all, insert_registry, build_advance_frames}
use state_keeper.Keeper.Fresh.{latest_prices, fresh_marks, due_twaps, fresh_epoch_inputs}
use state_keeper.Tests.Toy.{toy, book_row, pre_pass}
use state_keeper.Tests.Toy.Books.{toy-IsSettling, toy-IsConsuming}
use state_keeper.Tests.Samples.{
  or_else_value, no_inputs, pv_of, first_fold, first_outcome, folded_history,
}
use state_keeper.Tests.Grown.{two_fold}

-- A fold on the tree of `Samples` that settles the position 21 in the books of both its parties, and
-- commits the price once for each.
abbrev settle_price : ConsumedTwap
settle_price = record { feed_id = 9; close_time = 5000; twap = pos 0; expo = pos 0 }

abbrev settling_fold : FoldRecord
settling_fold = record {
  block = 9;
  tx = 104;
  pv = record (pv_of 1312 0 0 6000 []) { consumed_twaps = settle_price ∷ settle_price ∷ [] };
}

abbrev account_at : ℕ → AccountState
account_at k = elim (get k first_outcome.post.accounts) [
  | none ↦ record { owner = 0; vm_equity = pos 0; positions = [] }
  | some a ↦ a
]

first_found : get 1 first_outcome.post.accounts ≡ some (account_at 1)
unfolding mathlib.Core.List.flatten insert insert_all get paused_pairs_at paused_tags from_be_bytes
    from_be_on open_to_new_position proven_mark proven_twap recover_open opens_by_id fold_inputs
    touched_set owners_map row_of build_row resolve_row resolve_rows resolve_epoch leaves root
    accounts_root sort_ids ids_eq replay_fold replay_folds rebuild touch touch_all insert_registry
    build_advance_frames unfolded_opens folded_ids latest_prices fresh_marks due_twaps
    fresh_epoch_inputs
first_found = refl

second_found : get 2 first_outcome.post.accounts ≡ some (account_at 2)
unfolding mathlib.Core.List.flatten insert insert_all get paused_pairs_at paused_tags from_be_bytes
    from_be_on open_to_new_position proven_mark proven_twap recover_open opens_by_id fold_inputs
    touched_set owners_map row_of build_row resolve_row resolve_rows resolve_epoch leaves root
    accounts_root sort_ids ids_eq replay_fold replay_folds rebuild touch touch_all insert_registry
    build_advance_frames unfolded_opens folded_ids latest_prices fresh_marks due_twaps
    fresh_epoch_inputs
second_found = refl

first_expires : any (expires_at toy 9 5000) (account_at 1).positions ≡ true
unfolding mathlib.Core.List.flatten insert insert_all get paused_pairs_at paused_tags from_be_bytes
    from_be_on open_to_new_position proven_mark proven_twap recover_open opens_by_id fold_inputs
    touched_set owners_map row_of build_row resolve_row resolve_rows resolve_epoch leaves root
    accounts_root sort_ids ids_eq replay_fold replay_folds rebuild touch touch_all insert_registry
    build_advance_frames unfolded_opens folded_ids latest_prices fresh_marks due_twaps
    fresh_epoch_inputs
first_expires = refl

second_expires : any (expires_at toy 9 5000) (account_at 2).positions ≡ true
unfolding mathlib.Core.List.flatten insert insert_all get paused_pairs_at paused_tags from_be_bytes
    from_be_on open_to_new_position proven_mark proven_twap recover_open opens_by_id fold_inputs
    touched_set owners_map row_of build_row resolve_row resolve_rows resolve_epoch leaves root
    accounts_root sort_ids ids_eq replay_fold replay_folds rebuild touch touch_all insert_registry
    build_advance_frames unfolded_opens folded_ids latest_prices fresh_marks due_twaps
    fresh_epoch_inputs
second_expires = refl

folded_rebuilt : rebuild toy 8 folded_history ≡ ok first_outcome.post
unfolding mathlib.Core.List.flatten insert insert_all get paused_pairs_at paused_tags from_be_bytes
    from_be_on open_to_new_position proven_mark proven_twap recover_open opens_by_id fold_inputs
    touched_set owners_map row_of build_row resolve_row resolve_rows resolve_epoch leaves root
    accounts_root sort_ids ids_eq replay_fold replay_folds rebuild touch touch_all insert_registry
    build_advance_frames unfolded_opens folded_ids latest_prices fresh_marks due_twaps
    fresh_epoch_inputs
folded_rebuilt = refl

-- Another fold comes after it.
abbrev settled_history : ChainHistory
settled_history = record folded_history {
  folds = first_fold ∷ settling_fold ∷ record two_fold { block = 12 } ∷ [];
}

settled-Grows :
    Grows folded_history (settling_fold ∷ record two_fold { block = 12 } ∷ []) settled_history
settled-Grows = record {
  new_opens = [];
  new_sets = [];
  folds = refl;
  opens = refl;
  other_ids = tt;
  market_sets = refl;
  after = (tt, (tt, (tt, tt)));
}

-- The epoch of the fold, whose inputs have the price once.
abbrev settling_inputs : EpochInputs
settling_inputs = record no_inputs {
  proven_twaps = record { feed_id = 9; close_time = 5000; settle_price = 7; expo = pos 0 } ∷ [];
  proof_now = 6000;
}

abbrev settling_rows : List Row
settling_rows = or_else_value [] (
    traverse (build_row toy first_outcome.post settling_inputs)
      (keys (touched_set toy first_outcome.post settling_inputs)))

abbrev settling_pre : List Row × BookOpenOutcome
settling_pre = (map (book_row 6000 []) settling_rows, pre_pass [] 6000)

abbrev settling_res : BTreeMap AccountState × List (ℕ × Option ℕ)
settling_res =
    or_else_value ([], [])
      (resolve_rows toy settling_inputs 8 (is_marking settling_rows)
        (keys (touched_set toy first_outcome.post settling_inputs)) settling_pre.0 [] [])

settling_run :
    EpochRun toy first_outcome.post settling_inputs 8
      (outcome_of settling_rows settling_pre settling_res)
unfolding mathlib.Core.List.flatten insert insert_all get paused_pairs_at paused_tags from_be_bytes
    from_be_on open_to_new_position proven_mark proven_twap recover_open opens_by_id fold_inputs
    touched_set owners_map row_of build_row resolve_row resolve_rows resolve_epoch leaves root
    accounts_root sort_ids ids_eq replay_fold replay_folds rebuild touch touch_all insert_registry
    build_advance_frames unfolded_opens folded_ids latest_prices fresh_marks due_twaps
    fresh_epoch_inputs
settling_run = record {
  rows = settling_rows;
  pre = settling_pre;
  res = settling_res;
  built = refl;
  opened = refl;
  resolved = refl;
  result = refl;
}

abbrev settled_of : Row → List PositionSettlement × List ConsumedTwap
settled_of r =
    or_else_value ([], []) (toy.position_settlements_from_twaps r.1.positions r.1.proven_twaps)

abbrev row_at : ℕ → Row
row_at k = book_row 6000 [] (row_of toy settling_inputs (account_at k))

settling-Consumes : Consumes toy settling_pre.0 settling_fold.pv.consumed_twaps
unfolding mathlib.Core.List.flatten insert insert_all get paused_pairs_at paused_tags from_be_bytes
    from_be_on open_to_new_position proven_mark proven_twap recover_open opens_by_id fold_inputs
    touched_set owners_map row_of build_row resolve_row resolve_rows resolve_epoch leaves root
    accounts_root sort_ids ids_eq replay_fold replay_folds rebuild touch touch_all insert_registry
    build_advance_frames unfolded_opens folded_ids latest_prices fresh_marks due_twaps
    fresh_epoch_inputs
settling-Consumes =
    Consumes.and_row (row_at 1) (settled_of (row_at 1)) refl
      (Consumes.and_row (row_at 2) (settled_of (row_at 2)) refl Consumes.nothing refl) refl

rebuild-settled_example : rebuild toy 8 settled_history ≢ ok empty_tree
unfolding settling_run
rebuild-settled_example =
    rebuild-settled toy toy-IsConsuming 9 5000 toy-IsSettling 8 folded_history settled_history
      settling_fold (record two_fold { block = 12 } ∷ []) first_outcome.post empty_tree
      settling_inputs (outcome_of settling_rows settling_pre settling_res) settling_run 1 2
      (account_at 1) (account_at 2) folded_rebuilt first_found second_found (omega arith)
      first_expires second_expires (omega arith) settling-Consumes settled-Grows
