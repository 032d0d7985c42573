-- ===== src/Tests/Chain.antt =====
-- The theorems on the history of `Samples`, and on a transaction that wraps an `openLock` call.
use state_keeper.Prelude.{
  ℕ, ◌+◌, ◌%◌, ◌^◌, ◌<◌, pos, negsuc, true, false, not, ◌&&◌, ◌==◌, leb, ltb, contains, filter,
  if◌then◌else◌, Option, none, some, List, [], ◌∷◌, take, drop, length, from_be_bytes, from_be_on,
  be_bytes, ok, err, quantity_exceeds_u128, data_too_short, entry_rate_exceeds_u128, ◌≡◌, ◌↔◌, ◌-◌,
  refl, ◌⊎◌, arith,
}
use state_keeper.BTreeMap.Order.{IsAscending}
use state_keeper.Types.{Bytes}
use state_keeper.Events.{
  terms_rfq_id, terms_words, concat, addr_word, u64_word, instrument_word, side_word,
}
use state_keeper.Events.Identity.{InWidth, Collide, terms_rfq_id-injective}
use state_keeper.Pv.{DecodedPv, decode_public_values, decode_twap, decode_mark}
use state_keeper.Pv.Schema.{PublicValuesStruct}
use state_keeper.Pv.Decode.{IsDecoded, decode_public_values_iff}
use state_keeper.Scan.{OpenRecord, unfolded_opens, paused_pairs_at}
use state_keeper.Scan.Chain.{Log, OpenLockCall, Abi, Provider}
use state_keeper.Scan.Chunks.{chunk_ranges, times_queried, chunk_ranges-once}
use state_keeper.Scan.Paused.{last_pause, paused_pairs_at_lem}
use state_keeper.Scan.Unfolded.{with_fold, unfolded_opens-with_fold}
use state_keeper.Scan.Signatures.{
  has_prefix, matching_call, embedded_call, find_call, open_sigs, find_call_complete,
}
use state_keeper.Replay.Open.{new_position_of, open_to_new_position}
use state_keeper.Replay.Open.Bounds.{open_to_new_position_lem}
use state_keeper.Tests.Samples.{terms_until, open_of, first_fold, first_history}

chunk_ranges-once_example :
    (rs : List (ℕ × ℕ)) × (chunk_ranges (200000 + 2) 1000 200000 ≡ some rs)
    × ((k : ℕ) → times_queried k rs ≡ (if leb 1000 k && leb k 200000 then 1 else 0))
chunk_ranges-once_example = chunk_ranges-once 1000 200000 (omega arith)

paused_pairs_at_lem_example :
    ((tag : ℕ)
      → contains (paused_pairs_at first_history 4) tag
        ≡ last_pause 4 tag first_history.market_sets false)
    × IsAscending (paused_pairs_at first_history 4)
paused_pairs_at_lem_example = paused_pairs_at_lem first_history 4

unfolded_opens-with_fold_example :
    unfolded_opens (with_fold first_history first_fold)
    ≡ filter
        (λ (o : OpenRecord). not (contains first_fold.pv.opened_position_ids o.id))
        (unfolded_opens first_history)
unfolded_opens-with_fold_example = unfolded_opens-with_fold first_history first_fold

open_to_new_position_lem_example : open_to_new_position (open_of 21 5000 3) 4 ≡ (
    if ltb 1000 (2 ^ 128)
    then if leb 32 (length (open_of 21 5000 3).terms.terms_data)
      then if ltb (from_be_bytes (take 32 (open_of 21 5000 3).terms.terms_data)) (2 ^ 128)
        then ok (
            new_position_of
              (open_of 21 5000 3)
              (from_be_bytes (take 32 (open_of 21 5000 3).terms.terms_data))
              4)
        else err (entry_rate_exceeds_u128 21)
      else err (data_too_short 21)
    else err quantity_exceeds_u128)
open_to_new_position_lem_example = open_to_new_position_lem (open_of 21 5000 3) 4 (omega arith)

-- A hash that keeps the last word, so that distinct Terms collide.
abbrev last_word : Bytes → ℕ
last_word b = from_be_bytes b % 2 ^ 256

last_word-lt : (b : Bytes) → last_word b < 2 ^ 256
last_word-lt b = omega arith

terms-InWidth :
    (expiry nonce : ℕ) → expiry < 2 ^ 40 → nonce < 2 ^ 64 → InWidth (terms_until expiry nonce)
terms-InWidth expiry nonce e n = record {
  party_a = omega arith;
  party_b = omega arith;
  oracle = omega arith;
  pair_tag = omega arith;
  quantity = omega arith;
  im_bps_a = omega arith;
  im_bps_b = omega arith;
  mm_pct = omega arith;
  expiry = e;
  nonce = n;
  cure_window = omega arith;
  payout_pref_a = omega arith;
  payout_pref_b = omega arith;
  side = omega arith;
}

one_identity :
    terms_rfq_id last_word (terms_until 5000 21) ≡ terms_rfq_id last_word (terms_until 1500 22)
unfolding terms_rfq_id terms_words concat addr_word u64_word instrument_word side_word be_bytes
    from_be_bytes from_be_on
one_identity = refl

terms_rfq_id-injective_example :
    (terms_until 5000 21 ≡ terms_until 1500 22)
    ⊎ (Collide last_word
          (concat (terms_words last_word (terms_until 5000 21)))
          (concat (terms_words last_word (terms_until 1500 22)))
        ⊎ Collide last_word (terms_until 5000 21).terms_data (terms_until 1500 22).terms_data)
terms_rfq_id-injective_example =
    terms_rfq_id-injective last_word (terms_until 5000 21) (terms_until 1500 22)
      (terms-InWidth 5000 21 (omega arith) (omega arith))
      (terms-InWidth 1500 22 (omega arith) (omega arith)) last_word-lt one_identity

-- A call is the selector's four bytes, of which the first is tested, and a byte for each signature.
abbrev decode_call : Bytes → Option OpenLockCall
decode_call [] = none
decode_call (b ∷ bs) =
    if b == 9
    then some
        (record { t = terms_until 5000 21; sig_a = take 1 (drop 3 bs); sig_b = take 1 (drop 4 bs) })
    else none

abbrev pub sample_abi : Abi
sample_abi = record {
  keccak = last_word;
  decode_terms_opened = λ l. some (record { id = 1; terms = terms_until 5000 21 });
  decode_twap_bound = λ l. none;
  decode_market_set = λ l. none;
  decode_open_lock = decode_call;
  decode_apply_state = λ b. none;
  decode_pv = λ b. none;
  open_lock_selector = 9 ∷ 0 ∷ 0 ∷ 1 ∷ [];
  terms_opened_hash = 1;
  twap_bound_hash = 2;
  market_set_hash = 3;
}

abbrev sample_log : Log
sample_log = record {
  topics = 1 ∷ [];
  body = [];
  block_number = some 7;
  log_index = some 0;
  transaction_hash = some 100;
}

-- The call stands behind the two bytes of a wrapper.
abbrev pub sample_provider : Provider
sample_provider = record {
  get_block_number = ok 9;
  get_logs = λ f. ok (sample_log ∷ []);
  get_transaction_by_hash = λ h. ok (some (4 ∷ 5 ∷ 9 ∷ 0 ∷ 0 ∷ 1 ∷ 7 ∷ 8 ∷ []));
}

sample_sigs : open_sigs sample_abi sample_provider 100 1 ≡ ok (7 ∷ [], 8 ∷ [])
unfolding open_sigs find_call embedded_call matching_call has_prefix terms_rfq_id terms_words concat
    addr_word u64_word instrument_word side_word be_bytes from_be_bytes from_be_on
sample_sigs = refl

other_identity : find_call sample_abi 6 (4 ∷ 5 ∷ 9 ∷ 0 ∷ 0 ∷ 1 ∷ 7 ∷ 8 ∷ []) ≡ none
unfolding find_call embedded_call matching_call has_prefix terms_rfq_id terms_words concat addr_word
    u64_word instrument_word side_word be_bytes from_be_bytes from_be_on
other_identity = refl

find_call_complete_example :
    (matching_call sample_abi 6 (4 ∷ 5 ∷ 9 ∷ 0 ∷ 0 ∷ 1 ∷ 7 ∷ 8 ∷ []) ≡ none)
    × ((n : ℕ)
        → n < length {A = ℕ} (4 ∷ 5 ∷ 9 ∷ 0 ∷ 0 ∷ 1 ∷ 7 ∷ 8 ∷ [])
        → has_prefix (9 ∷ 0 ∷ 0 ∷ 1 ∷ []) (drop n (4 ∷ 5 ∷ 9 ∷ 0 ∷ 0 ∷ 1 ∷ 7 ∷ 8 ∷ [])) ≡ true
        → matching_call sample_abi 6 (drop n (4 ∷ 5 ∷ 9 ∷ 0 ∷ 0 ∷ 1 ∷ 7 ∷ 8 ∷ [])) ≡ none)
find_call_complete_example =
    find_call_complete sample_abi 6 (4 ∷ 5 ∷ 9 ∷ 0 ∷ 0 ∷ 1 ∷ 7 ∷ 8 ∷ []) other_identity

-- A mark at the end of the range of `i128`.
abbrev sample_values : PublicValuesStruct
sample_values = record {
  roots = record { root_prev = 5; root_new = 1; accounts_root_prev = 6; accounts_root_new = 2 };
  defaults = [];
  consumed_twaps = record { feed_id = 1; close_time = 2; twap = negsuc 3; expo = negsuc 7 } ∷ [];
  novations = [];
  closeout_novations = [];
  events_commitment = 0;
  proof_time = 1000;
  domain_separator = 4;
  paused_holds = [];
  scenario_root = 8;
  consumed_marks =
      record { feed_id = 1; mark_time = 2; price = pos (2 ^ 127 - 1); expo = negsuc 7 } ∷ [];
  opened_position_ids = 21 ∷ [];
  im_requirements = [];
  settlements = [];
  unwinds = [];
}

abbrev decoded_sample : DecodedPv
decoded_sample = record {
  roots = record { root_prev = 5; root_new = 1; accounts_root_prev = 6; accounts_root_new = 2 };
  consumed_twaps = record { feed_id = 1; close_time = 2; twap = negsuc 3; expo = negsuc 7 } ∷ [];
  novations = [];
  proof_time = 1000;
  domain_separator = 4;
  scenario_root = 8;
  consumed_marks =
      record { feed_id = 1; mark_time = 2; price = pos (2 ^ 127 - 1); expo = negsuc 7 } ∷ [];
  opened_position_ids = 21 ∷ [];
  closeout_novations_len = 0;
  unwinds_len = 0;
}

sample_decodes : decode_public_values (λ b. some sample_values) [] ≡ ok decoded_sample
unfolding decode_public_values decode_twap decode_mark
sample_decodes = refl

decode_public_values_iff_example :
    (decode_public_values (λ b. some sample_values) [] ≡ ok decoded_sample)
    ↔ ((pv : PublicValuesStruct) × ((some sample_values ≡ some pv) × IsDecoded pv decoded_sample))
decode_public_values_iff_example =
    decode_public_values_iff (λ b. some sample_values) [] decoded_sample
