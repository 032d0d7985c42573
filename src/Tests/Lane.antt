-- ===== src/Tests/Lane.antt =====
-- A lane whose chain answers two opens and one fold, for the commands of the keeper.
use state_keeper.Prelude.{
  ℕ, zero, suc, ◌+◌, ◌-◌, ◌%◌, true, false, ◌==◌, if◌then◌else◌, Option, none, some, List, [], ◌∷◌,
  ◌++◌, map, ok, be_bytes, from_be_bytes, codes, text_eq, length,
}
use state_keeper.Types.{Bytes}
use state_keeper.Events.{OpenLockTerms, terms_rfq_id}
use state_keeper.Pv.Schema.{PublicValuesStruct}
use state_keeper.Scan.Chain.{Abi, Provider, Log, OpenLockCall, TermsOpened, MarketSet}
use state_keeper.ProveExec.{Sp1}
use state_keeper.Keeper.Env.{Env}
use state_keeper.Keeper.Chain.{Lane, Hex, Contracts}
use state_keeper.Keeper.Context.{Codecs, Files}
use state_keeper.Keeper.Submit.{Broadcast, answer}
use state_keeper.Keeper.Attempt.{World, Job}
use state_keeper.Tests.Toy.{toy}
use state_keeper.Tests.Samples.{terms_until, encode_nothing}

abbrev pub small_hash : Bytes → ℕ
small_hash b = from_be_bytes b % 65521

-- The open 21 lives long, the open 22 does not.
abbrev pub terms_of : ℕ → OpenLockTerms
terms_of n = terms_until (if n == 21 then 5000 else 1500) n

abbrev pub id_of_terms : ℕ → ℕ
id_of_terms n = terms_rfq_id small_hash (terms_of n)

abbrev decode_opened : Bytes → Option TermsOpened
decode_opened [] = none
decode_opened (n ∷ bs) = some (record { id = id_of_terms n; terms = terms_of n })

abbrev decode_set : Bytes → Option MarketSet
decode_set [] = none
decode_set (n ∷ bs) = some (record { instrument = 1; pair_tag = n; enabled = true; paused = true })

abbrev decode_call : Bytes → Option OpenLockCall
decode_call [] = none
decode_call (b ∷ []) = none
decode_call (b ∷ n ∷ bs) =
    if b == 9 then some (record { t = terms_of n; sig_a = 1 ∷ []; sig_b = 2 ∷ [] }) else none

abbrev decode_apply : Bytes → Option Bytes
decode_apply [] = none
decode_apply (b ∷ bs) = if b == 7 then some bs else none

abbrev values_of : ℕ → ℕ → ℕ → List ℕ → PublicValuesStruct
values_of root_prev root_new proof_time ids = record {
  roots = record {
    root_prev = root_prev;
    root_new = root_new;
    accounts_root_prev = 0;
    accounts_root_new = 202;
  };
  defaults = [];
  consumed_twaps = [];
  novations = [];
  closeout_novations = [];
  events_commitment = 0;
  proof_time = proof_time;
  domain_separator = 4;
  paused_holds = [];
  scenario_root = 8;
  consumed_marks = [];
  opened_position_ids = ids;
  im_requirements = [];
  settlements = [];
  unwinds = [];
}

-- The first fold's values are `1`; others are those of the next advance.
abbrev decode_values : Bytes → Option PublicValuesStruct
decode_values [] = none
decode_values (n ∷ bs) = some (
    if n == 1
    then values_of 0 1312 1000 (id_of_terms 21 ∷ [])
    else values_of 1312 2322 1200 (id_of_terms 22 ∷ []))

abbrev pub lane_abi : Abi
lane_abi = record {
  keccak = small_hash;
  decode_terms_opened = λ l. decode_opened l.body;
  decode_twap_bound = λ l. none;
  decode_market_set = λ l. decode_set l.body;
  decode_open_lock = decode_call;
  decode_apply_state = decode_apply;
  decode_pv = decode_values;
  open_lock_selector = 9 ∷ 0 ∷ 0 ∷ 1 ∷ [];
  terms_opened_hash = 1;
  twap_bound_hash = 2;
  market_set_hash = 3;
}

abbrev log_at : ℕ → ℕ → ℕ → Bytes → Log
log_at topic block tx body = record {
  topics = topic ∷ [];
  body = body;
  block_number = some block;
  log_index = some 0;
  transaction_hash = some tx;
}

abbrev calldata_of : ℕ → Bytes
calldata_of tx =
    if tx == 103
    then 7 ∷ 2 ∷ []
    else if tx == 102
    then 7 ∷ 1 ∷ []
    else if tx == 100
    then 9 ∷ 21 ∷ []
    else 9 ∷ 22 ∷ []

-- The logs come out of order.
abbrev pub lane_logs : List Log
lane_logs =
    log_at 1 7 101 (22 ∷ [])
    ∷ log_at (small_hash (codes "RootAdvanced(bytes32,bytes32)")) 5 102 []
    ∷ log_at 3 2 99 (77 ∷ [])
    ∷ log_at 1 3 100 (21 ∷ [])
    ∷ []

abbrev pub lane_provider : Provider
lane_provider = record {
  get_block_number = ok 8;
  get_logs = λ f. ok lane_logs;
  get_transaction_by_hash = λ h. ok (some (calldata_of h));
}

-- The chain after the next advance, which transaction 103 has landed.
abbrev pub later_provider : Provider
later_provider = record {
  get_block_number = ok 9;
  get_logs =
      λ f. ok (log_at (small_hash (codes "RootAdvanced(bytes32,bytes32)")) 8 103 [] ∷ lane_logs);
  get_transaction_by_hash = λ h. ok (some (calldata_of h));
}

-- A byte is one character above the letters.
abbrev pub plain_hex : Hex
plain_hex = record { encode = map (λ b. b + 200); decode = λ s. some (map (λ ch. ch - 200) s) }

abbrev pub celo : Lane
celo = record {
  name = codes "celo";
  chain_id = 11142220;
  core = codes "core";
  lens = codes "lens";
  deploy_block = 1;
  vkey = codes "0x" ++ map (λ b. b + 200) (be_bytes 32 55);
  scenario_root = map (λ b. b + 200) (be_bytes 32 8);
  rpc_url = codes "https://forno";
}

abbrev pub lane_codecs : Codecs toy
lane_codecs = record {
  serialize = encode_nothing;
  deserialize = λ b. ok 8;
  abi = lane_abi;
  hex = plain_hex;
  addr_from_str = λ s. some (length s);
  url_parses = λ u. true;
  parse_chains = λ raw. ok (celo ∷ []);
}

abbrev pub lane_files : Files
lane_files = record {
  read_to_string = λ p. if text_eq p (codes "chains.json") then some [] else none;
  read = λ p. ok [];
}

abbrev pub lane_env : Env
lane_env = (codes "PRIVATE_KEY", codes "0x01") ∷ (codes "NETWORK_PRIVATE_KEY", codes "0x02") ∷ []

abbrev pub contracts_at : ℕ → Contracts
contracts_at r = record {
  lens_root = λ a. ok r;
  lens_root_at = λ a. ok 0;
  lens_accounts_root = λ a. ok 202;
  lens_scenario_root = λ a. ok 8;
  core_domain = λ a. ok 4;
  core_im_vkey = λ a. ok 55;
}

abbrev pub lane_sp1 : Sp1
lane_sp1 = record {
  execute = λ stdin. ok (2 ∷ []);
  setup = λ env. ok tt;
  groth16_prove = λ env stdin. ok (record { proof_bytes = 6 ∷ []; public_values = 2 ∷ [] });
  verify = λ env p. false;
}

abbrev pub mined_broadcast : Broadcast
mined_broadcast = record {
  key_parses = λ k. text_eq k (codes "01");
  url_parses = λ u. true;
  estimate = answer 1;
  send = answer 77;
  receipt = answer true;
}

abbrev pub world_at : ℕ → World
world_at r = record {
  contracts = contracts_at r;
  provider = lane_provider;
  clock = some 1200;
  env = lane_env;
  sp1 = lane_sp1;
  fresh = contracts_at r;
  broadcast = λ s. mined_broadcast;
  last = contracts_at 2322;
}

-- The first round meets another root.
abbrev pub lane_worlds : ℕ → World
lane_worlds zero = world_at 5
lane_worlds (suc zero) = world_at 5
lane_worlds (suc (suc n)) = world_at 1312

-- Every round meets another root.
abbrev pub drifting_worlds : ℕ → World
drifting_worlds n = world_at 5

abbrev pub lane_job : Job toy
lane_job = record {
  ctx = record { lane = celo; rpc_url = codes "https://forno"; table = 8; table_root = 8 };
  signer_key = codes "0x01";
  core_addr = 4;
}
