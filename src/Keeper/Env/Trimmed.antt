-- ===== src/Keeper/Env/Trimmed.antt =====
-- Which characters `trim`, `split_once` and `lines` leave in a text, and how a trimmed text begins.
use state_keeper.Prelude.{
  ℕ, Bool, true, false, ◌==◌, ◌&&◌, if◌then◌else◌, Option, none, some, List, [], ◌∷◌, All,
  Bool-cases, ◌≡◌, ◌⊎◌, refl, ap, subst, inl, inr, arith, Text, starts_with_char, trim,
  trim_matches, trim_start_of, trim_end_of, keep_last, lines, on_first_line, split_once, after_char,
}
use state_keeper.Keeper.Env.{has_char, unquote}

-- A text without the character `c`.
abbrev pub Lacks : ℕ → Text → Type 0
Lacks c s = has_char c s ≡ false

trim_start_of-Lacks : (c : ℕ) (p : ℕ → Bool) (s : Text) → Lacks c s → Lacks c (trim_start_of p s)
unfolding trim_start_of
trim_start_of-Lacks c p [] h = refl
trim_start_of-Lacks c p (d ∷ s) h = ground (arith, trim_start_of-Lacks c p s)

keep_last-Lacks :
    (c : ℕ) (p : ℕ → Bool) (d : ℕ) (s : Text)
    → (d == c) ≡ false
    → Lacks c s
    → Lacks c (keep_last p d s)
keep_last-Lacks c p d [] h k = ground arith
keep_last-Lacks c p d (x ∷ s) h k = ground arith

trim_end_of-Lacks : (c : ℕ) (p : ℕ → Bool) (s : Text) → Lacks c s → Lacks c (trim_end_of p s)
unfolding trim_end_of
trim_end_of-Lacks c p [] h = refl
trim_end_of-Lacks c p (d ∷ s) h =
    keep_last-Lacks c p d (trim_end_of p s) (ground arith) (trim_end_of-Lacks c p s (ground arith))

trim_matches-Lacks : (c : ℕ) (p : ℕ → Bool) (s : Text) → Lacks c s → Lacks c (trim_matches p s)
unfolding trim_matches
trim_matches-Lacks c p s h = trim_end_of-Lacks c p (trim_start_of p s) (trim_start_of-Lacks c p s h)

pub trim-Lacks : (c : ℕ) (s : Text) → Lacks c s → Lacks c (trim s)
unfolding trim
trim-Lacks c s h = trim_matches-Lacks c _ s h

pub unquote-Lacks : (c : ℕ) (s : Text) → Lacks c s → Lacks c (unquote s)
unquote-Lacks c s h = trim_matches-Lacks c _ (trim s) (trim-Lacks c s h)

pub after_char-eq-some :
    (d : ℕ) (r : Option (Text × Text)) (k v : Text)
    → after_char d r ≡ some (k, v)
    → (j : Text) × (r ≡ some (j, v)) × (d ∷ j ≡ k)
after_char-eq-some d none k v h = absurd (cc)
after_char-eq-some d (some (j, w)) k v h = (j, cc, cc)

-- The part before the separator has none, and both parts lack what the text lacks.
pub split_once-Lacks :
    (c sep : ℕ) (s k v : Text)
    → split_once sep s ≡ some (k, v)
    → Lacks c s
    → Lacks sep k × Lacks c k × Lacks c v
unfolding split_once
split_once-Lacks c sep [] k v h n = absurd (cc)
split_once-Lacks c sep (d ∷ s) k v h n = elim (Bool-cases (d == sep)) [
  | inl at ↦
      let none_before : Text = [] in
      let first : Text × Text = (none_before, s) in
      let pair : Text × Text = (k, v) in
      let parts : some first ≡ some pair = ground arith in
      let key : none_before ≡ k = cc in
      let value : s ≡ v = cc in
      (subst (Lacks sep) key refl, subst (Lacks c) key refl, subst (Lacks c) value (ground arith))
  | inr off ↦
      let rest : after_char d (split_once sep s) ≡ some (k, v) = ground arith in
      let (j, later, whole) = after_char-eq-some d (split_once sep s) k v rest in
      let (a, b, t) = split_once-Lacks c sep s j v later (ground arith) in
      (subst (Lacks sep) whole (ground arith), subst (Lacks c) whole (ground arith), t)
]

on_first_line-Lacks :
    (c d : ℕ) (ls : List Text)
    → (d == c) ≡ false
    → All (Lacks c) ls
    → All (Lacks c) (on_first_line d ls)
on_first_line-Lacks c d [] h k = (ground arith, tt)
on_first_line-Lacks c d (l ∷ ls) h k = (ground (arith, k.0), k.1)

-- One of three lists, all of which have the property.
All-if3 :
    (P : Text → Type 0) (a b : Bool) (xs ys zs : List Text)
    → All P xs
    → All P ys
    → All P zs
    → All P (if a then xs else if b then ys else zs)
All-if3 P true b xs ys zs h j k = h
All-if3 P false true xs ys zs h j k = j
All-if3 P false false xs ys zs h j k = k

pub lines-Lacks : (c : ℕ) (s : Text) → Lacks c s → All (Lacks c) (lines s)
unfolding lines
lines-Lacks c [] h = tt
lines-Lacks c (d ∷ s) h =
    let rest = lines-Lacks c s (ground arith) in
    let first = on_first_line-Lacks c d (lines s) (ground arith) rest in
    All-if3 (Lacks c) (d == 10) (d == 13 && starts_with_char 10 s) ([] ∷ lines s) (lines s)
      (on_first_line d (lines s)) (refl, rest) rest first

pub option_cases {ℓ} : {A : Type ℓ} (o : Option A) → (o ≡ none) ⊎ ((a : A) × (o ≡ some a))
option_cases none = inl refl
option_cases (some a) = inr (a, refl)

trim_start_of-head :
    (p : ℕ → Bool) (s : Text) (c : ℕ) (t : Text) → trim_start_of p s ≡ c ∷ t → p c ≡ false
unfolding trim_start_of
trim_start_of-head p [] c t h = absurd (cc)
trim_start_of-head p (d ∷ s) c t h = elim (Bool-cases (p d)) [
  | inl gone ↦ trim_start_of-head p s c t (ground arith)
  | inr kept ↦ ground arith
]

keep_last-head :
    (p : ℕ → Bool) (d : ℕ) (s : Text) (c : ℕ) (t : Text) → keep_last p d s ≡ c ∷ t → d ≡ c
keep_last-head p d [] c t h = ground arith
keep_last-head p d (x ∷ s) c t h = cc

trim_end_of-head :
    (p : ℕ → Bool) (s : Text) (c : ℕ) (t : Text)
    → trim_end_of p s ≡ c ∷ t
    → (rest : Text) × (s ≡ c ∷ rest)
unfolding trim_end_of
trim_end_of-head p [] c t h = absurd (cc)
trim_end_of-head p (d ∷ s) c t h = (s, ap (λ x. x ∷ s) (keep_last-head p d (trim_end_of p s) c t h))

-- A trimmed text does not begin with what is taken off.
pub trim_matches-head :
    (p : ℕ → Bool) (s : Text) (c : ℕ) (t : Text) → trim_matches p s ≡ c ∷ t → p c ≡ false
unfolding trim_matches
trim_matches-head p s c t h =
    let (rest, began) = trim_end_of-head p (trim_start_of p s) c t h in
    trim_start_of-head p s c rest began

keep_last-kept :
    (p : ℕ → Bool) (c : ℕ) (s : Text) → p c ≡ false → (t : Text) × (keep_last p c s ≡ c ∷ t)
keep_last-kept p c [] h = ([], rw h refl)
keep_last-kept p c (x ∷ s) h = (x ∷ s, refl)

-- A text that begins with something else keeps its first character.
pub trim_matches-kept :
    (p : ℕ → Bool) (c : ℕ) (s : Text) → p c ≡ false → (t : Text) × (trim_matches p (c ∷ s) ≡ c ∷ t)
unfolding trim_matches trim_start_of trim_end_of
trim_matches-kept p c s h = let (t, kept) = keep_last-kept p c (trim_end_of p s) h in (t, rw h kept)
