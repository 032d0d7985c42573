-- ===== src/Replay/Open.antt =====
-- `open_to_new_position`: an open of the chain as the engine's `NewPosition`.
pub mod Bounds
use state_keeper.Prelude.{
  ℕ, ◌^◌, Bool, not, List, [], ◌∷◌, ◌==◌, leb, ltb, any, take, drop, length, from_be_bytes, Result,
  ok, guard, ◌>>=◌, ◌>>◌, quantity_exceeds_u128, data_too_short, entry_rate_exceeds_u128,
}
use state_keeper.Types.{NewPosition}
use state_keeper.Events.{OpenLockTerms, u64_or_zero}
use state_keeper.Scan.{OpenRecord}

abbrev pub nonzero : ℕ → Bool
nonzero b = not (b == 0)

abbrev pub new_position_of : OpenRecord → ℕ → ℕ → NewPosition
new_position_of o entry_rate domain_separator = record {
  terms_id = o.id;
  party_a = o.terms.party_a;
  party_b = o.terms.party_b;
  oracle = o.terms.oracle;
  quantity = o.terms.quantity;
  entry_rate = entry_rate;
  side_a = o.terms.side;
  expiry = u64_or_zero o.terms.expiry;
  im_bps_a = o.terms.im_bps_a;
  im_bps_b = o.terms.im_bps_b;
  instrument = o.terms.instrument;
  pair_tag = o.terms.pair_tag;
  mm_pct = o.terms.mm_pct;
  nonce = o.terms.nonce;
  cure_window = o.terms.cure_window;
  payout_pref_a = o.terms.payout_pref_a;
  payout_pref_b = o.terms.payout_pref_b;
  terms_data = o.terms.terms_data;
  sig_a = o.sig_a;
  sig_b = o.sig_b;
  domain_separator = domain_separator;
}

unfoldable pub open_to_new_position : OpenRecord → ℕ → Result NewPosition
open_to_new_position o domain_separator = do
  guard (ltb o.terms.quantity (2 ^ 128)) quantity_exceeds_u128
  guard (leb 32 (length o.terms.terms_data)) (data_too_short o.id)
  let entry_rate : ℕ = from_be_bytes (take 16 (drop 16 o.terms.terms_data))
  guard (not (any nonzero (take 16 o.terms.terms_data))) (entry_rate_exceeds_u128 o.id)
  ok (new_position_of o entry_rate domain_separator)
