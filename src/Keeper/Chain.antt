-- ===== src/Keeper/Chain.antt =====
-- crates/state-keeper/src/chain.rs: the lane's presets, and one read of the chain. The `hex` crate, the
-- parser of addresses, serde's parser and the contract calls are parameters.
pub mod Parsing
use state_keeper.Prelude.{
  ℕ, Bool, Option, none, some, List, [], ◌∷◌, ◌==◌, length, from_be_bytes, Result, ok, guard, ok_or,
  ◌>>=◌, ◌>>◌, Text, codes, text_eq, trim_start_0x, chains_not_found, no_lane, bad_address,
  bad_bytes32, wrong_length, if◌then◌else◌,
}
use state_keeper.Types.{Bytes}

pub record Lane : Type 0 where
  pub name : Text
  pub chain_id : ℕ
  pub core : Text
  pub lens : Text
  pub deploy_block : ℕ
  pub vkey : Text
  pub scenario_root : Text
  pub rpc_url : Text

-- The `hex` crate.
pub record Hex : Type 0 where
  pub encode : Bytes → Text
  pub decode : Text → Option Bytes

abbrev pub candidates : List Text
candidates = codes "chains.json" ∷ codes "../chains.json" ∷ codes "../../chains.json" ∷ []

abbrev pub or_else_file : Option Text → Option Text → Option Text
or_else_file none o = o
or_else_file (some raw) o = some raw

-- `find_map(|p| read_to_string(p).ok())`
unfoldable pub first_readable : (Text → Option Text) → List Text → Option Text
first_readable read_to_string [] = none
first_readable read_to_string (p ∷ ps) =
    or_else_file (read_to_string p) (first_readable read_to_string ps)

-- `find(|l| l.name == name)`
unfoldable pub find_lane : Text → List Lane → Option Lane
find_lane name [] = none
find_lane name (l ∷ ls) =
    let rest = find_lane name ls in if text_eq l.name name then some l else rest

-- `parse_chains` is serde's parser of the file's `lanes`.
unfoldable pub load_lane : (Text → Option Text) → (Text → Result (List Lane)) → Text → Result Lane
load_lane read_to_string parse_chains name = do
  raw ← ok_or (first_readable read_to_string candidates) chains_not_found
  lanes ← parse_chains raw
  ok_or (find_lane name lanes) (no_lane name)

-- `s.parse()` for an `Address` is `from_str`.
unfoldable pub parse_addr : (Text → Option ℕ) → Text → Result ℕ
parse_addr from_str s = ok_or (from_str s) (bad_address s)

unfoldable pub parse_b32 : Hex → Text → Result ℕ
parse_b32 hex s = do
  v ← ok_or (hex.decode (trim_start_0x s)) (bad_bytes32 s)
  guard (length v == 32) (wrong_length s)
  ok (from_be_bytes v)

pub record ChainState : Type 0 where
  pub root : ℕ
  pub root_at : ℕ
  pub accounts_root : ℕ
  pub scenario_root : ℕ
  pub domain : ℕ
  pub vkey : ℕ

-- The answers of the lens and of the core at their addresses.
pub record Contracts : Type 0 where
  pub lens_root : ℕ → Result ℕ
  pub lens_root_at : ℕ → Result ℕ
  pub lens_accounts_root : ℕ → Result ℕ
  pub lens_scenario_root : ℕ → Result ℕ
  pub core_domain : ℕ → Result ℕ
  pub core_im_vkey : ℕ → Result ℕ

unfoldable pub read_chain : (Text → Option ℕ) → Contracts → Lane → Result ChainState
read_chain from_str contracts lane = do
  lens ← parse_addr from_str lane.lens
  core ← parse_addr from_str lane.core
  root ← contracts.lens_root lens
  root_at ← contracts.lens_root_at lens
  accounts_root ← contracts.lens_accounts_root lens
  scenario_root ← contracts.lens_scenario_root lens
  domain ← contracts.core_domain core
  vkey ← contracts.core_im_vkey core
  ok (record {
    root = root;
    root_at = root_at;
    accounts_root = accounts_root;
    scenario_root = scenario_root;
    domain = domain;
    vkey = vkey;
  })
