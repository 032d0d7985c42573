-- ===== src/Tests/Samples.antt =====
-- A chain with two opens and one fold. The second open is past its expiry at the third block.
use state_keeper.Prelude.{
  ℕ, pos, Bool, true, false, List, [], ◌∷◌, ◌++◌, replicate, Result, ok, err,
}
use state_keeper.Types.{Bytes}
use state_keeper.Events.{OpenLockTerms}
use state_keeper.Pv.{DecodedPv}
use state_keeper.Scan.{OpenRecord, FoldRecord, MarketSetRecord, ChainHistory}
use state_keeper.Replay.{EpochInputs, EpochOutcome, empty_tree}
use state_keeper.Replay.Inputs.{fold_inputs, opens_by_id}
use state_keeper.Replay.Resolve.{resolve_epoch}
use state_keeper.Frames.{AdvanceFrames, FrameValue, build_advance_frames}
use state_keeper.Tests.Toy.{toy}

abbrev pub or_else_value {ℓ} : {A : Type ℓ} → A → Result A → A
or_else_value a (ok b) = b
or_else_value a (err e) = a

-- Word 0 of the data is the entry rate 42.
abbrev pub sample_data : Bytes
sample_data = replicate 31 0 ++ 42 ∷ []

abbrev pub terms_until : ℕ → ℕ → OpenLockTerms
terms_until expiry nonce = record {
  party_a = 1;
  party_b = 2;
  oracle = 9;
  pair_tag = 77;
  quantity = 1000;
  im_bps_a = 500;
  im_bps_b = 500;
  mm_pct = 60;
  expiry = expiry;
  nonce = nonce;
  cure_window = 3600;
  payout_pref_a = 0;
  payout_pref_b = 0;
  terms_data = sample_data;
  instrument = 1;
  side = pos 1;
}

abbrev pub open_of : ℕ → ℕ → ℕ → OpenRecord
open_of id expiry block = record {
  id = id;
  terms = terms_until expiry id;
  sig_a = 1 ∷ [];
  sig_b = 2 ∷ [];
  block = block;
}

abbrev pub pv_of : ℕ → ℕ → ℕ → ℕ → List ℕ → DecodedPv
pv_of root_prev root_new accounts_root_new proof_time ids = record {
  roots = record {
    root_prev = root_prev;
    root_new = root_new;
    accounts_root_prev = 0;
    accounts_root_new = accounts_root_new;
  };
  consumed_twaps = [];
  novations = [];
  proof_time = proof_time;
  domain_separator = 4;
  scenario_root = 8;
  consumed_marks = [];
  opened_position_ids = ids;
  closeout_novations_len = 0;
  unwinds_len = 0;
}

abbrev pub market_set : ℕ → ℕ → Bool → MarketSetRecord
market_set block tag paused = record {
  block = block;
  log_index = 0;
  instrument = 1;
  pair_tag = tag;
  enabled = true;
  paused = paused;
}

-- The public values of the first fold open 21, and those of the second list 22, which has expired.
abbrev pub first_fold : FoldRecord
first_fold = record { block = 5; tx = 100; pv = pv_of 0 1312 202 1000 (21 ∷ []) }

abbrev pub late_fold : FoldRecord
late_fold = record { block = 9; tx = 101; pv = pv_of 1312 1312 202 2000 (22 ∷ []) }

abbrev pub first_history : ChainHistory
first_history = record {
  opens = open_of 21 5000 3 ∷ open_of 22 1500 7 ∷ [];
  folds = [];
  twaps = [];
  market_sets = market_set 2 77 true ∷ market_set 4 77 false ∷ market_set 4 50 true ∷ [];
  head = 8;
}

abbrev pub folded_history : ChainHistory
folded_history = record first_history { folds = first_fold ∷ [] }

abbrev pub no_inputs : EpochInputs
no_inputs = record {
  new_positions = [];
  proven_marks = [];
  proven_twaps = [];
  paused_pairs = [];
  proof_now = 0;
  domain_separator = 0;
}

abbrev pub no_outcome : EpochOutcome
no_outcome = record { post = empty_tree; steps = []; prior_rows = []; processed_open_ids = [] }

abbrev pub no_frames : AdvanceFrames
no_frames = record { frames = []; predicted_root = 0; predicted_accounts_root = 0; root_prev = 0 }

abbrev pub encode_nothing : FrameValue ℕ ℕ → Result Bytes
encode_nothing v = ok []

abbrev pub first_inputs : EpochInputs
first_inputs =
    or_else_value no_inputs (fold_inputs first_fold (opens_by_id first_history) first_history)

abbrev pub first_outcome : EpochOutcome
first_outcome = or_else_value no_outcome (resolve_epoch toy empty_tree first_inputs 8)

abbrev pub first_frames : AdvanceFrames
first_frames =
    or_else_value no_frames (build_advance_frames toy encode_nothing empty_tree first_inputs 8 0)
