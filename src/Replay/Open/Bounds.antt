-- ===== src/Replay/Open/Bounds.antt =====
-- `open_to_new_position` against the 256-bit word 0 of `Terms.data`.
use state_keeper.Prelude.{
  ℕ, zero, suc, ◌+◌, ◌*◌, ◌^◌, ◌≤◌, ◌<◌, true, false, leb, ltb, if◌then◌else◌, List, [], ◌∷◌, ◌++◌,
  any, take, drop, length, from_be_on, from_be_bytes, from_be_bytes-append, from_be_bytes-lt,
  IsBytes, ok, err, quantity_exceeds_u128, data_too_short, entry_rate_exceeds_u128, ◌≡◌, refl, sym,
  subst, ap, ◌∙◌, arith,
}
use native.Mathlib.Nat.{zero-add, suc-add}
use state_keeper.Scan.{OpenRecord}
use state_keeper.Replay.Open.{nonzero, new_position_of, open_to_new_position}

from_be_on-ge : (acc : ℕ) (bs : List ℕ) → acc ≤ from_be_on acc bs
unfolding from_be_on
from_be_on-ge acc [] = omega arith
from_be_on-ge acc (b ∷ bs) = omega (arith, from_be_on-ge (acc * 256 + b) bs)

-- Leading bytes that are all zero have value 0, others do not.
value_of_zeros : (bs : List ℕ) → any nonzero bs ≡ false → from_be_bytes bs ≡ 0
unfolding from_be_bytes from_be_on
value_of_zeros [] h = refl
value_of_zeros (zero ∷ bs) h = value_of_zeros bs h
value_of_zeros (suc b ∷ bs) h = ground arith

value_of_nonzero : (bs : List ℕ) → any nonzero bs ≡ true → 0 < from_be_bytes bs
unfolding from_be_bytes from_be_on
value_of_nonzero [] h = cc
value_of_nonzero (zero ∷ bs) h = value_of_nonzero bs h
value_of_nonzero (suc b ∷ bs) h = omega (arith, from_be_on-ge (0 * 256 + suc b) bs)

take-nil : (n : ℕ) → take {A = ℕ} n [] ≡ []
take-nil zero = refl
take-nil (suc n) = refl

take-split : (n m : ℕ) (xs : List ℕ) → take (n + m) xs ≡ take n xs ++ take m (drop n xs)
take-split zero m xs = ap (λ k. take k xs) (zero-add m)
take-split (suc n) m [] = take-nil (suc n + m) ∙ sym (take-nil m)
take-split (suc n) m (x ∷ xs) = rw (suc-add n m) (ap (λ l. x ∷ l) (take-split n m xs))

length-take_le : (n : ℕ) (xs : List ℕ) → n ≤ length xs → length (take n xs) ≡ n
length-take_le zero xs h = refl
length-take_le (suc n) [] h = absurd (omega arith)
length-take_le (suc n) (x ∷ xs) h = ap suc (length-take_le n xs (omega arith))

length-drop_le : (n m : ℕ) (xs : List ℕ) → n + m ≤ length xs → m ≤ length (drop n xs)
length-drop_le zero m xs h = omega arith
length-drop_le (suc n) m [] h = absurd (omega arith)
length-drop_le (suc n) m (x ∷ xs) h = length-drop_le n m xs (omega arith)

IsBytes-take : (n : ℕ) (xs : List ℕ) → IsBytes xs → IsBytes (take n xs)
IsBytes-take zero xs h = tt
IsBytes-take (suc n) [] h = tt
IsBytes-take (suc n) (x ∷ xs) h = (h.0, IsBytes-take n xs h.1)

IsBytes-drop : (n : ℕ) (xs : List ℕ) → IsBytes xs → IsBytes (drop n xs)
IsBytes-drop zero xs h = h
IsBytes-drop (suc n) [] h = tt
IsBytes-drop (suc n) (x ∷ xs) h = IsBytes-drop n xs h.1

-- Word 0 is its high half, weighted, and its low half, which is a `u128`.
word_halves :
    (d : List ℕ)
    → 32 ≤ length d
    → IsBytes d
    → (from_be_bytes (take 32 d)
        ≡ from_be_bytes (take 16 d) * 2 ^ 128 + from_be_bytes (take 16 (drop 16 d)))
      × (from_be_bytes (take 16 (drop 16 d)) < 2 ^ 128)
word_halves d n b =
    let low = take 16 (drop 16 d) in
    let width : length low ≡ 16 = length-take_le 16 (drop 16 d) (length-drop_le 16 16 d n) in
    (
      ap from_be_bytes (take-split 16 16 d)
          ∙ from_be_bytes-append (take 16 d) low
          ∙ ap (λ k. from_be_bytes (take 16 d) * 256 ^ k + from_be_bytes low) width,
      subst (λ k. from_be_bytes low < 256 ^ k) width
          (from_be_bytes-lt low (IsBytes-take 16 (drop 16 d) (IsBytes-drop 16 d b))),
    )

-- On every branch: a quantity that is no `u128` is refused first, then data shorter than a word, then a
-- word 0 that is no `u128`; any other open becomes the position with word 0 as its entry rate.
pub open_to_new_position_lem :
    (o : OpenRecord) (domain_separator : ℕ)
    → IsBytes o.terms.terms_data
    → open_to_new_position o domain_separator ≡ (
        if ltb o.terms.quantity (2 ^ 128)
        then if leb 32 (length o.terms.terms_data)
          then if ltb (from_be_bytes (take 32 o.terms.terms_data)) (2 ^ 128)
            then ok
                (new_position_of o (from_be_bytes (take 32 o.terms.terms_data)) domain_separator)
            else err (entry_rate_exceeds_u128 o.id)
          else err (data_too_short o.id)
        else err quantity_exceeds_u128)
unfolding open_to_new_position
open_to_new_position_lem o domain_separator b = ground (
  arith,
  word_halves o.terms.terms_data,
  value_of_zeros (take 16 o.terms.terms_data),
  value_of_nonzero (take 16 o.terms.terms_data),
)
