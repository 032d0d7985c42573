-- ===== src/Prelude/Strings.antt =====
-- Text as its code points, and the `str` methods that the keeper calls.
use Prim.Native.String.{String}
use Prim.Native.Char.{code}
use Prim.Native.Nat.{ℕ}
use mathlib.Core.Path.{◌≡◌, refl}
use mathlib.Core.Logic.{◌↔◌}
use mathlib.Core.Bool.{Bool, true, false, ◌&&◌, ◌||◌}
use mathlib.Core.List.{List, [], ◌∷◌}
use mathlib.Core.Option.{Option, none, some}
use native.Mathlib.Omega.{arith}
use state_keeper.Prelude.Tests.{leb, ◌==◌, if◌then◌else◌}

abbrev pub Text : Type 0
Text = List ℕ

abbrev pub codes : String → Text
codes String.[] = []
codes (String.◌∷◌ c s) = code c ∷ codes s

unfoldable pub text_eq : Text → Text → Bool
text_eq [] [] = true
text_eq [] (b ∷ t) = false
text_eq (a ∷ s) [] = false
text_eq (a ∷ s) (b ∷ t) = a == b && text_eq s t

pub text_eq_iff : (s t : Text) → (text_eq s t ≡ true) ↔ (s ≡ t)
unfolding text_eq
text_eq_iff [] [] = (λ h. refl, λ h. refl)
text_eq_iff [] (b ∷ t) = (λ h. cc, λ h. cc)
text_eq_iff (a ∷ s) [] = (λ h. cc, λ h. cc)
text_eq_iff (a ∷ s) (b ∷ t) = ground (arith, text_eq_iff s t)

-- `char::is_whitespace`: the Unicode property White_Space.
abbrev pub is_whitespace : ℕ → Bool
is_whitespace c =
    (leb 9 c && leb c 13)
    || c == 32
    || c == 0x85
    || c == 0xa0
    || c == 0x1680
    || (leb 0x2000 c && leb c 0x200a)
    || c == 0x2028
    || c == 0x2029
    || c == 0x202f
    || c == 0x205f
    || c == 0x3000

-- `trim_start_matches` and `trim_end_matches` of a test on one character.
unfoldable pub trim_start_of : (ℕ → Bool) → Text → Text
trim_start_of p [] = []
trim_start_of p (c ∷ s) = let rest = trim_start_of p s in if p c then rest else c ∷ s

abbrev pub keep_last : (ℕ → Bool) → ℕ → Text → Text
keep_last p c [] = if p c then [] else c ∷ []
keep_last p c (d ∷ s) = c ∷ d ∷ s

unfoldable pub trim_end_of : (ℕ → Bool) → Text → Text
trim_end_of p [] = []
trim_end_of p (c ∷ s) = keep_last p c (trim_end_of p s)

unfoldable pub trim_matches : (ℕ → Bool) → Text → Text
unfolding trim_start_of trim_end_of
trim_matches p s = trim_end_of p (trim_start_of p s)

unfoldable pub trim : Text → Text
unfolding trim_matches
trim s = trim_matches is_whitespace s

-- `trim_start_matches("0x")`, which takes off every repetition.
unfoldable pub trim_start_0x : Text → Text
trim_start_0x [] = []
trim_start_0x (a ∷ []) = a ∷ []
trim_start_0x (a ∷ b ∷ s) =
    let rest = trim_start_0x s in if a == b'0' && b == b'x' then rest else a ∷ b ∷ s

abbrev pub starts_with_char : ℕ → Text → Bool
starts_with_char p [] = false
starts_with_char p (c ∷ s) = c == p

abbrev pub is_blank : Text → Bool
is_blank [] = true
is_blank (c ∷ s) = false

abbrev pub on_first_line : ℕ → List Text → List Text
on_first_line c [] = (c ∷ []) ∷ []
on_first_line c (l ∷ ls) = (c ∷ l) ∷ ls

-- `lines()`: a line ends at `\n` or `\r\n`, and the last one needs no end.
unfoldable pub lines : Text → List Text
lines [] = []
lines (c ∷ s) =
    let rest = lines s in
    if c == 10
    then [] ∷ rest
    else if c == 13 && starts_with_char 10 s
    then rest
    else on_first_line c rest

abbrev pub after_char : ℕ → Option (Text × Text) → Option (Text × Text)
after_char c none = none
after_char c (some (k, v)) = some (c ∷ k, v)

-- `split_once(sep)`
unfoldable pub split_once : ℕ → Text → Option (Text × Text)
split_once sep [] = none
split_once sep (c ∷ s) =
    let rest = after_char c (split_once sep s) in if c == sep then some ([], s) else rest
