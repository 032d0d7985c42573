-- ===== src/Keeper/Env.antt =====
-- The environment of the process, and `now_secs`, `env_nonempty` and `load_dotenv` of main.rs. The
-- environment is its settings, the latest first; values are valid Unicode.
pub mod Dotenv
mod Trimmed
pub mod Panics
use state_keeper.Prelude.{
  ℕ, Bool, true, false, not, ◌&&◌, ◌==◌, if◌then◌else◌, any, Option, none, some, List, [], ◌∷◌,
  Result, ok, err, guard, ◌>>=◌, ◌>>◌, panic, Text, text_eq, codes, trim, trim_matches, is_blank,
  starts_with_char, lines, split_once,
}

abbrev pub Env : Type 0
Env = List (Text × Text)

-- `std::env::var(k).ok()`
unfoldable pub var : Text → Env → Option Text
var k [] = none
var k ((j, v) ∷ env) = let rest = var k env in if text_eq k j then some v else rest

abbrev pub is_set : Option Text → Bool
is_set none = false
is_set (some v) = true

abbrev pub has_char : ℕ → Text → Bool
has_char c s = any (λ d. d == c) s

-- `std::env::set_var`, which panics on a key that is empty or holds `=` or NUL, and on NUL in the value.
unfoldable pub set_var : Text → Text → Env → Result Env
set_var k v env =
    guard (not (is_blank k) && not (has_char b'=' k) && not (has_char 0 k) && not (has_char 0 v))
      panic
    >> ok ((k, v) ∷ env)

-- `duration_since(UNIX_EPOCH)`, `none` for a clock before the epoch.
abbrev pub now_secs : Option ℕ → ℕ
now_secs none = 0
now_secs (some secs) = secs

abbrev pub nonblank : Option Text → Option Text
nonblank none = none
nonblank (some v) = if is_blank (trim v) then none else some v

unfoldable pub env_nonempty : Text → Env → Option Text
env_nonempty k env = nonblank (var k env)

-- `trim().trim_matches('"')` of a value.
abbrev pub unquote : Text → Text
unquote v = trim_matches (λ c. c == b'"') (trim v)

-- A setting of the file: the trimmed key and the value without its quotes.
abbrev pub setting_of : Option (Text × Text) → Option (Text × Text)
setting_of none = none
setting_of (some (k, v)) = some (trim k, unquote v)

-- What one line says: nothing if it is empty, a comment, or without `=`.
unfoldable pub parse_line : Text → Option (Text × Text)
parse_line raw =
    let line = trim raw in
    if is_blank line
    then none
    else if starts_with_char b'#' line
    then none
    else setting_of (split_once b'=' line)

abbrev pub apply_setting : Option (Text × Text) → Env → Result Env
apply_setting none env = ok env
apply_setting (some (k, v)) env = if is_set (var k env) then ok env else set_var k v env

-- The loop over the lines.
unfoldable pub load_lines : List Text → Env → Result Env
load_lines [] env = ok env
load_lines (line ∷ rest) env = apply_setting (parse_line line) env >>= load_lines rest

-- `file` is `.env`, if it can be read.
unfoldable pub load_dotenv : Option Text → Env → Result Env
load_dotenv none env = ok env
load_dotenv (some raw) env = load_lines (lines raw) env
