-- ===== src/Keeper/Env/Dotenv.antt =====
-- What the environment holds after `load_dotenv`.
use state_keeper.Prelude.{
  true, if◌then◌else◌, Option, none, some, List, [], ◌∷◌, ok, >>=-eq-ok, ◌≡◌, refl, arith, Text,
  text_eq, text_eq_iff, lines,
}
use state_keeper.Keeper.Env.{Env, var, set_var, parse_line, apply_setting, load_lines, load_dotenv}

-- The value that the first setting of `k` gives.
unfoldable pub first_setting : Text → List Text → Option Text
first_setting k [] = none
first_setting k (line ∷ rest) =
    let later = first_setting k rest in
    elim (parse_line line) [ none ↦ later | some (j, v) ↦ if text_eq k j then some v else later ]

abbrev pub or_else_text : Option Text → Option Text → Option Text
or_else_text none o = o
or_else_text (some v) o = some v

text_eq_refl : (k : Text) → text_eq k k ≡ true
text_eq_refl k = (text_eq_iff k k).1 refl

-- What one line adds to the environment.
abbrev added : Text → Option (Text × Text) → Option Text
added k none = none
added k (some (j, v)) = if text_eq k j then some v else none

apply_setting-var :
    (k : Text) (s : Option (Text × Text)) (env env' : Env)
    → apply_setting s env ≡ ok env'
    → var k env' ≡ or_else_text (var k env) (added k s)
unfolding var set_var
apply_setting-var k none env env' h = ground arith
apply_setting-var k (some (j, v)) env env' h = ground (arith, text_eq_iff k j)

first_setting-cons :
    (k line : Text) (rest : List Text)
    → first_setting k (line ∷ rest)
      ≡ or_else_text (added k (parse_line line)) (first_setting k rest)
unfolding first_setting
first_setting-cons k line rest = ground arith

load_lines-var :
    (k : Text) (ls : List Text) (env env' : Env)
    → load_lines ls env ≡ ok env'
    → var k env' ≡ or_else_text (var k env) (first_setting k ls)
unfolding load_lines
load_lines-var k [] env env' h = unfold first_setting in ground arith
load_lines-var k (line ∷ rest) env env' h =
    let (middle, now, later) = >>=-eq-ok (apply_setting (parse_line line) env) _ h in
    ground (
      arith,
      load_lines-var k rest middle env' later,
      apply_setting-var k (parse_line line) env middle now,
      first_setting-cons k line rest,
    )

-- After the file is loaded, each variable has the value it had before; one that was not set has the value
-- of its first setting in the file, if there is one.
pub load_dotenv-var :
    (k raw : Text) (env env' : Env)
    → load_dotenv (some raw) env ≡ ok env'
    → var k env' ≡ or_else_text (var k env) (first_setting k (lines raw))
unfolding load_dotenv
load_dotenv-var k raw env env' h = load_lines-var k (lines raw) env env' h
