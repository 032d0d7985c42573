-- ===== src/Pv.antt =====
-- crates/crx-tree/src/pv.rs: the public values of one fold in the engine's types. `abi_decode` is
-- alloy's decoder of the 15-row struct.
pub mod Schema
pub mod Decode
use state_keeper.Prelude.{
  ℕ, ℤ, Option, none, some, List, map, length, fits_i128, guard, Result, ok, err, ◌>>=◌, ◌>>◌,
  traverse, ok_or, Error, public_values_decode, twap_exceeds_i128, mark_exceeds_i128,
}
use state_keeper.Types.{Bytes, Roots, ConsumedTwap, ConsumedMark, Novation}
use state_keeper.Pv.Schema.{
  RootsSol, ConsumedTwapSol, ConsumedMarkSol, NovationSol, PublicValuesStruct,
}

pub record DecodedPv : Type 0 where
  pub roots : Roots
  pub consumed_twaps : List ConsumedTwap
  pub novations : List Novation
  pub proof_time : ℕ
  pub domain_separator : ℕ
  pub scenario_root : ℕ
  pub consumed_marks : List ConsumedMark
  pub opened_position_ids : List ℕ
  pub closeout_novations_len : ℕ
  pub unwinds_len : ℕ

abbrev pub roots_of : RootsSol → Roots
roots_of r = record {
  root_prev = r.root_prev;
  root_new = r.root_new;
  accounts_root_prev = r.accounts_root_prev;
  accounts_root_new = r.accounts_root_new;
}

abbrev pub twap_of : ConsumedTwapSol → ConsumedTwap
twap_of t = record { feed_id = t.feed_id; close_time = t.close_time; twap = t.twap; expo = t.expo }

abbrev pub mark_of : ConsumedMarkSol → ConsumedMark
mark_of m = record { feed_id = m.feed_id; mark_time = m.mark_time; price = m.price; expo = m.expo }

-- `i128::try_from(t.twap)`, and the row.
unfoldable pub decode_twap : ConsumedTwapSol → Result ConsumedTwap
decode_twap t = do guard (fits_i128 t.twap) twap_exceeds_i128; ok (twap_of t)

unfoldable pub decode_mark : ConsumedMarkSol → Result ConsumedMark
decode_mark m = do guard (fits_i128 m.price) mark_exceeds_i128; ok (mark_of m)

abbrev pub novation_of : NovationSol → Novation
novation_of n = record {
  old_id = n.old_id;
  new_id = n.new_id;
  party_a = n.party_a;
  party_b = n.party_b;
  party_c = n.party_c;
  c_im = n.c_im;
  forced = n.forced;
  transfer_price = n.transfer_price;
  spread = n.spread;
  nonce = n.nonce;
  deadline = n.deadline;
}

unfoldable pub decode_public_values : (Bytes → Option PublicValuesStruct) → Bytes → Result DecodedPv
unfolding decode_twap decode_mark
decode_public_values abi_decode public_values = do
  pv ← ok_or (abi_decode public_values) public_values_decode
  consumed_twaps ← traverse decode_twap pv.consumed_twaps
  consumed_marks ← traverse decode_mark pv.consumed_marks
  ok (record {
    roots = roots_of pv.roots;
    consumed_twaps = consumed_twaps;
    novations = map novation_of pv.novations;
    proof_time = pv.proof_time;
    domain_separator = pv.domain_separator;
    scenario_root = pv.scenario_root;
    consumed_marks = consumed_marks;
    opened_position_ids = pv.opened_position_ids;
    closeout_novations_len = length pv.closeout_novations;
    unwinds_len = length pv.unwinds;
  })
