-- ===== src/Keeper/Env/Panics.antt =====
-- When `load_dotenv` panics.
use state_keeper.Prelude.{
  ℕ, Bool, true, false, any, ◌==◌, if◌then◌else◌, Option, none, some, List, [], ◌∷◌, All, ok, err,
  panic, Bool-cases, ◌≡◌, ◌⊎◌, refl, sym, ap, ◌∙◌, inl, inr, arith, Text, text_eq, is_blank,
  starts_with_char, trim, is_whitespace, lines, split_once, after_char,
}
use state_keeper.Keeper.Env.{
  Env, var, is_set, has_char, set_var, unquote, setting_of, parse_line, apply_setting, load_lines,
  load_dotenv,
}
use state_keeper.Keeper.Env.Trimmed.{
  Lacks, trim-Lacks, unquote-Lacks, after_char-eq-some, split_once-Lacks, lines-Lacks, option_cases,
  trim_matches-head, trim_matches-kept,
}

-- A line that begins with `=`, after its blanks.
abbrev pub has_bare_line : List Text → Bool
has_bare_line ls = any (λ line. starts_with_char b'=' (trim line)) ls

-- A setting that `set_var` takes.
record IsPlain (k v : Text) : Type 0 where
  pub named : is_blank k ≡ false
  pub no_equals : Lacks b'=' k
  pub no_nul : Lacks 0 k
  pub no_nul_in_value : Lacks 0 v

-- `parse_line` after its trim.
abbrev parsed : Text → Option (Text × Text)
parsed t =
    if is_blank t
    then none
    else if starts_with_char b'#' t
    then none
    else setting_of (split_once b'=' t)

-- A line says nothing, sets the empty name, or has a setting that `set_var` takes.
abbrev LineCases : Text → Type 0
LineCases t =
    ((starts_with_char b'=' t ≡ true) × ((v : Text) × (parsed t ≡ some ([], v))))
    ⊎ ((starts_with_char b'=' t ≡ false)
        × ((parsed t ≡ none)
            ⊎ ((k : Text) × ((v : Text) × ((parsed t ≡ some (k, v)) × IsPlain k v)))))

setting_cases :
    (c : ℕ) (t k v : Text)
    → is_whitespace c ≡ false
    → (c == b'=') ≡ false
    → (c == b'#') ≡ false
    → Lacks 0 (c ∷ t)
    → split_once b'=' (c ∷ t) ≡ some (k, v)
    → LineCases (c ∷ t)
unfolding trim
setting_cases c t k v w n m l h =
    let (no_equals, no_nul, no_nul_v) = split_once-Lacks 0 b'=' (c ∷ t) k v h l in
    let later : after_char c (split_once b'=' t) ≡ some (k, v) =
      unfold split_once in ground arith in
    let (j, _found, whole) = after_char-eq-some c (split_once b'=' t) k v later in
    let (u, kept) = trim_matches-kept is_whitespace c j w in
    let name : trim k ≡ c ∷ u = ap trim (sym whole) ∙ kept in
    inr (
      n,
      inr (
        trim k,
        (
          unquote v,
          (
            rw (m, h) refl,
            record {
              named = rw name refl;
              no_equals = trim-Lacks b'=' k no_equals;
              no_nul = trim-Lacks 0 k no_nul;
              no_nul_in_value = unquote-Lacks 0 v no_nul_v;
            },
          ),
        ),
      ),
    )

trimmed_cases :
    (t : Text)
    → ((c : ℕ) (s : Text) → t ≡ c ∷ s → is_whitespace c ≡ false)
    → Lacks 0 t
    → LineCases t
trimmed_cases [] w l = inr (refl, inl refl)
trimmed_cases (c ∷ t) w l = elim (Bool-cases (c == b'=')) [
  | inl at ↦
      let text : (c == b'#') ≡ false = ground arith in
      inl (at, (unquote t, unfold split_once trim in rw (text, at) refl))
  | inr off ↦ elim (Bool-cases (c == b'#')) [
    | inl comment ↦ inr (off, inl (rw comment refl))
    | inr text ↦ elim (option_cases (split_once b'=' (c ∷ t))) [
      | inl nothing ↦ inr (off, inl (rw (text, nothing) refl))
      | inr ((k, v), found) ↦ setting_cases c t k v (w c t refl) off text l found
    ]
  ]
]

line_cases : (line : Text) → Lacks 0 line → LineCases (trim line)
line_cases line l =
    trimmed_cases (trim line) (λ c s h. trim_matches-head is_whitespace line c s (unfold trim in h))
      (trim-Lacks 0 line l)

-- `set_var` takes a plain setting, which leaves the empty name as it was.
apply_setting-IsPlain :
    (k v : Text) (env : Env)
    → var [] env ≡ none
    → IsPlain k v
    → (env' : Env) × ((apply_setting (some (k, v)) env ≡ ok env') × (var [] env' ≡ none))
unfolding var set_var text_eq
apply_setting-IsPlain [] v env n p = absurd (let named = p.named in cc)
apply_setting-IsPlain (c ∷ k) v env n p = elim (Bool-cases (is_set (var (c ∷ k) env))) [
  | inl set ↦ (env, (rw set refl, n))
  | inr unset ↦ ((c ∷ k, v) ∷ env, (rw (unset, p.no_equals, p.no_nul, p.no_nul_in_value) refl, n))
]

-- How the lines end: with a panic where one begins with `=`, else with an environment.
abbrev Ends : List Text → Env → Type 0
Ends ls env =
    ((has_bare_line ls ≡ true) × (load_lines ls env ≡ err panic))
    ⊎ ((has_bare_line ls ≡ false) × ((env' : Env) × (load_lines ls env ≡ ok env')))

-- The lines after one that sets no empty name decide.
Ends-cons :
    (line : Text) (ls : List Text) (env env' : Env)
    → starts_with_char b'=' (trim line) ≡ false
    → apply_setting (parse_line line) env ≡ ok env'
    → Ends ls env'
    → Ends (line ∷ ls) env
unfolding load_lines
Ends-cons line ls env env' named now (inl (bare, later)) = inl (rw (named, bare) refl, rw now later)
Ends-cons line ls env env' named now (inr (none_bare, (last, later))) =
    inr (rw (named, none_bare) refl, (last, rw now later))

parse_line_lem : (line : Text) → parse_line line ≡ parsed (trim line)
unfolding parse_line
parse_line_lem line = refl

load_lines_cases : (ls : List Text) (env : Env) → All (Lacks 0) ls → var [] env ≡ none → Ends ls env
load_lines_cases [] env l n = unfold load_lines in inr (refl, (env, refl))
load_lines_cases (line ∷ ls) env l n = elim (line_cases line l.0) [
  | inl (bare, (v, said)) ↦
      let reads = parse_line_lem line ∙ said in
      inl (rw bare refl, unfold load_lines set_var in rw (reads, n) refl)
  | inr (named, inl nothing) ↦
      Ends-cons line ls env env named (rw (parse_line_lem line, nothing) refl)
        (load_lines_cases ls env l.1 n)
  | inr (named, inr (k, (v, (said, plain)))) ↦
      let (env', (now, n')) = apply_setting-IsPlain k v env n plain in
      Ends-cons line ls env env' named (rw (parse_line_lem line, said) now)
        (load_lines_cases ls env' l.1 n')
]

-- For a file without NUL, and an environment without the empty name: `load_dotenv` panics exactly where a line
-- of the file begins with `=` after its blanks, whatever else the file sets; else it sets its variables.
pub load_dotenv-panics :
    (raw : Text) (env : Env)
    → has_char 0 raw ≡ false
    → var [] env ≡ none
    → ((has_bare_line (lines raw) ≡ true) × (load_dotenv (some raw) env ≡ err panic))
      ⊎ ((has_bare_line (lines raw) ≡ false)
          × ((env' : Env) × (load_dotenv (some raw) env ≡ ok env')))
unfolding load_dotenv
load_dotenv-panics raw env l n = load_lines_cases (lines raw) env (lines-Lacks 0 raw l) n
