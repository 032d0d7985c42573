-- ===== src/Tests/Tools.antt =====
-- The environment, the arguments, hex, submission, the prover and the artifact's guard at concrete inputs.
use state_keeper.Prelude.{
  ℕ, ◌+◌, ◌-◌, true, if◌then◌else◌, none, some, [], ◌∷◌, ◌++◌, map, All, ok, err, panic, be_bytes,
  ◌≡◌, ◌≢◌, ◌↔◌, ◌⊎◌, false, refl, ap, arith, Text, codes, text_eq, lines, split_once, trim,
  trim_matches, trim_start_of, trim_end_of, trim_start_0x,
}
use state_keeper.Types.{Bytes}
use state_keeper.ProveExec.{prove_network}
use state_keeper.ProveExec.Prove.{IsProven, on_network, prove_network_iff}
use state_keeper.ProveExec.Artifact.{Machine, expected_sha256, guard_elf, IsExpected, guard_elf_iff}
use state_keeper.Keeper.Env.{Env, var, set_var, parse_line, load_lines, load_dotenv}
use state_keeper.Keeper.Env.Dotenv.{or_else_text, first_setting, load_dotenv-var}
use state_keeper.Keeper.Env.Panics.{has_bare_line, load_dotenv-panics}
use state_keeper.Keeper.Chain.{parse_b32}
use state_keeper.Keeper.Chain.Parsing.{IsHex, parse_b32-encode}
use state_keeper.Keeper.Submit.{Submission, submit_apply_state, mined}
use state_keeper.Keeper.Submit.Outcomes.{IsMined, submit_apply_state_iff}
use state_keeper.Keeper.Program.{chain_name_of}
use state_keeper.Tests.Samples.{or_else_value}
use state_keeper.Tests.Lane.{lane_env, lane_sp1, mined_broadcast, plain_hex, small_hash}

abbrev dotenv : Text
dotenv = codes "# keys\nRPC_URL = \"https://a\"\r\nPRIVATE_KEY=0x09\nRPC_URL=https://b"

abbrev loaded_env : Env
loaded_env = or_else_value [] (load_dotenv (some dotenv) lane_env)

loads : load_dotenv (some dotenv) lane_env ≡ ok loaded_env
unfolding load_dotenv load_lines parse_line lines split_once trim trim_matches trim_start_of
    trim_end_of var set_var text_eq
loads = refl

reads_url : var (codes "RPC_URL") loaded_env ≡ some (codes "https://a")
unfolding load_dotenv load_lines parse_line lines split_once trim trim_matches trim_start_of
    trim_end_of var set_var text_eq
reads_url = refl

load_dotenv-var_example :
    var (codes "RPC_URL") loaded_env
    ≡ or_else_text (var (codes "RPC_URL") lane_env) (first_setting (codes "RPC_URL") (lines dotenv))
load_dotenv-var_example = load_dotenv-var (codes "RPC_URL") dotenv lane_env loaded_env loads

abbrev nameless : Text
nameless = codes "A=1\n =2"

no_empty_name : var [] lane_env ≡ none
unfolding var text_eq
no_empty_name = refl

sets_none : has_bare_line (lines nameless) ≡ true
unfolding lines trim trim_matches trim_start_of trim_end_of
sets_none = refl

load_dotenv-panics_example :
    ((has_bare_line (lines nameless) ≡ true) × (load_dotenv (some nameless) lane_env ≡ err panic))
    ⊎ ((has_bare_line (lines nameless) ≡ false)
        × ((env' : Env) × (load_dotenv (some nameless) lane_env ≡ ok env')))
load_dotenv-panics_example = load_dotenv-panics nameless lane_env refl no_empty_name

parsed_args :
    chain_name_of (codes "-v" ∷ codes "--chain" ∷ codes "base" ∷ []) (codes "celo")
    ≡ ok (codes "base")
unfolding chain_name_of text_eq
parsed_args = refl

plain_back : (b : Bytes) → map (λ ch. ch - 200) (map (λ x. x + 200) b) ≡ b
plain_back [] = refl
plain_back (x ∷ b) = cc (plain_back b, back_one x)
  where
    back_one : (y : ℕ) → (y + 200) - 200 ≡ y
    back_one y = omega arith

plain_digits : (b : Bytes) → All (λ ch. ch ≢ b'x') (map (λ x. x + 200) b)
plain_digits [] = tt
plain_digits (x ∷ b) = (λ h. omega arith, plain_digits b)

plain-IsHex : IsHex plain_hex
plain-IsHex = record { decode-encode = λ b h. ap some (plain_back b); digits = plain_digits }

parse_b32-encode_example :
    (parse_b32 plain_hex (codes "0x" ++ plain_hex.encode (be_bytes 32 55)) ≡ ok 55)
    × (parse_b32 plain_hex (plain_hex.encode (be_bytes 32 55)) ≡ ok 55)
parse_b32-encode_example = parse_b32-encode plain_hex plain-IsHex 55 (omega arith)

prove_network_iff_example :
    (prove_network lane_sp1 lane_env ((3 ∷ []) ∷ []) ≡ ok ((6 ∷ [], 2 ∷ []), on_network lane_env))
    ↔ IsProven lane_sp1 lane_env ((3 ∷ []) ∷ []) (6 ∷ [], 2 ∷ [])
prove_network_iff_example = prove_network_iff lane_sp1 lane_env ((3 ∷ []) ∷ []) (6 ∷ [], 2 ∷ [])

-- The first tool is missing, and the second prints the digest and a name.
abbrev machine : Machine
machine = record {
  exists = λ p. true;
  read = λ p. ok [];
  run = λ prog args input.
      if text_eq prog (codes "shasum") then some (expected_sha256 ++ codes " *-") else none;
}

guard_elf_iff_example :
    (guard_elf machine (codes "elf/scenario-es-program") ≡ ok (codes "elf/scenario-es-program"))
    ↔ IsExpected machine (codes "elf/scenario-es-program")
guard_elf_iff_example = guard_elf_iff machine (codes "elf/scenario-es-program")

abbrev sample_submission : Submission
sample_submission = record {
  rpc_url = codes "https://forno";
  core_addr = 5;
  signer_key = codes "0x0x01";
  proof = 6 ∷ [];
  public_values = 2 ∷ [];
}

sample_mined :
    submit_apply_state plain_hex small_hash sample_submission mined_broadcast ≡ ok (mined (some 77))
unfolding submit_apply_state trim_start_0x text_eq
sample_mined = refl

submit_apply_state_iff_example :
    (submit_apply_state plain_hex small_hash sample_submission mined_broadcast
      ≡ ok (mined (some 77)))
    ↔ IsMined sample_submission mined_broadcast 77
submit_apply_state_iff_example =
    submit_apply_state_iff plain_hex small_hash sample_submission mined_broadcast 77
