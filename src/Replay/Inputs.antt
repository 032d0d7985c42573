-- ===== src/Replay/Inputs.antt =====
-- `fold_inputs`: the inputs of a historical fold, from its committed public values.
use state_keeper.Prelude.{
  ℕ, ◌-◌, nonneg, as_u128, Bool, true, false, ◌&&◌, ◌==◌, List, [], ◌∷◌, map, Result, ok, guard,
  ok_or, traverse, ◌>>=◌, ◌>>◌, unmodelled_rows, open_not_recorded, negative_mark, negative_twap,
}
use state_keeper.BTreeMap.{BTreeMap, empty, insert_all, get}
use state_keeper.Types.{NewPosition, ConsumedMark, ConsumedTwap, ProvenMark, ProvenTwap}
use state_keeper.Scan.{ChainHistory, FoldRecord, OpenRecord, paused_pairs_at}
use state_keeper.Replay.{EpochInputs}
use state_keeper.Replay.Open.{open_to_new_position}

abbrev pub open_entry : OpenRecord → ℕ × OpenRecord
open_entry o = (o.id, o)

-- `opens_by_id` of `rebuild`.
unfoldable pub opens_by_id : ChainHistory → BTreeMap OpenRecord
opens_by_id h = insert_all (map open_entry h.opens) empty

unfoldable pub proven_mark : ConsumedMark → Result ProvenMark
proven_mark m = do
  guard (nonneg m.price) negative_mark
  ok (record {
    feed_id = m.feed_id;
    mark_time = m.mark_time;
    price = as_u128 m.price;
    expo = m.expo;
  })

unfoldable pub proven_twap : ConsumedTwap → Result ProvenTwap
proven_twap t = do
  guard (nonneg t.twap) negative_twap
  ok (record {
    feed_id = t.feed_id;
    close_time = t.close_time;
    settle_price = as_u128 t.twap;
    expo = t.expo;
  })

-- One round of the loop over the surfaced ids.
unfoldable pub recover_open : BTreeMap OpenRecord → FoldRecord → ℕ → Result NewPosition
recover_open opens fold id = do
  open_record ← ok_or (get id opens) (open_not_recorded fold.block id)
  open_to_new_position open_record fold.pv.domain_separator

abbrev pub is_empty {ℓ} : {A : Type ℓ} → List A → Bool
is_empty [] = true
is_empty (x ∷ xs) = false

-- No novation, closeout or unwind in the fold.
abbrev pub is_modelled : FoldRecord → Bool
is_modelled fold =
    is_empty fold.pv.novations && fold.pv.closeout_novations_len == 0 && fold.pv.unwinds_len == 0

unfoldable pub fold_inputs : FoldRecord → BTreeMap OpenRecord → ChainHistory → Result EpochInputs
fold_inputs fold opens history = do
  guard (is_modelled fold) (unmodelled_rows fold.block)
  new_positions ← traverse (recover_open opens fold) fold.pv.opened_position_ids
  proven_marks ← traverse proven_mark fold.pv.consumed_marks
  proven_twaps ← traverse proven_twap fold.pv.consumed_twaps
  ok (record {
    new_positions = new_positions;
    proven_marks = proven_marks;
    proven_twaps = proven_twaps;
    paused_pairs = paused_pairs_at history (fold.block - 1);
    proof_now = fold.pv.proof_time;
    domain_separator = fold.pv.domain_separator;
  })
