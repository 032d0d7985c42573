-- ===== src/Keeper/Program.antt =====
-- `main` of main.rs: the environment file, the arguments, and the command.
pub mod Args
use state_keeper.Prelude.{
  ℕ, Bool, Option, none, some, List, [], ◌∷◌, Result, ok, err, ok_or, ◌>>=◌, if◌then◌else◌, Text,
  codes, text_eq, chain_needs_name, ◌≡◌, refl, arith,
}
use state_keeper.Engine.{Engine}
use state_keeper.Scan.Chain.{Provider}
use state_keeper.Replay.{TreeState}
use state_keeper.Keeper.Env.{Env, load_dotenv}
use state_keeper.Keeper.Chain.{ChainState, Contracts}
use state_keeper.Keeper.Context.{Codecs, Files}
use state_keeper.Keeper.Attempt.{World, Round}
use state_keeper.Keeper.Advance.{cmd_advance}
use state_keeper.Keeper.Commands.{cmd_rebuild, cmd_verify}

-- `args.next().unwrap_or_default()`, and the arguments after it.
abbrev pub take_verb : List Text → Text × List Text
take_verb [] = ([], [])
take_verb (a ∷ args) = (a, args)

-- The loop over the rest; `chain_name` is the value so far.
unfoldable pub chain_name_of : List Text → Text → Result Text
chain_name_of [] chain_name = ok chain_name
chain_name_of (a ∷ []) chain_name =
    if text_eq a (codes "--chain") then err chain_needs_name else ok chain_name
chain_name_of (a ∷ b ∷ rest) chain_name =
    let named = chain_name_of rest b in
    let skipped = chain_name_of (b ∷ rest) chain_name in
    if text_eq a (codes "--chain") then named else skipped

-- What a command answers; `usage` is the exit with status 2.
pub data Report : Type 0 where
  rebuilt : Result TreeState → Report
  advancing : Round → Report
  verified : Result ChainState → Report
  usage : Report

-- What is outside: the files, the chain for the commands that read it once, and the rounds of an advance.
pub record Outside : Type 0 where
  pub files : Files
  pub contracts : Contracts
  pub provider : Provider
  pub worlds : ℕ → World

module _ (e : Engine) (c : Codecs e) where
  abbrev pub dispatch : Text → Text → Env → Outside → Report
  dispatch verb chain_name env o =
      if text_eq verb (codes "rebuild")
      then rebuilt (cmd_rebuild e c o.files env chain_name o.contracts o.provider)
      else if text_eq verb (codes "advance")
      then advancing (cmd_advance e c o.files env chain_name o.worlds)
      else if text_eq verb (codes "verify")
      then verified (cmd_verify e c o.files env chain_name o.contracts)
      else usage

  unfoldable pub main : List Text → Env → Outside → Result Report
  main args env o = do
    env' ← load_dotenv (o.files.read_to_string (codes ".env")) env
    let verb_rest : Text × List Text = take_verb args
    chain_name ← chain_name_of verb_rest.1 (codes "celo")
    ok (dispatch verb_rest.0 chain_name env' o)
