-- ===== src/Prelude/Bytes.antt =====
-- Big-endian bytes of a number, `to_be_bytes` and `from_be_bytes`.
use Prim.Native.Nat.{ℕ, zero, suc, ◌+◌, ◌*◌, ◌/◌, ◌%◌, ◌^◌, ◌<◌}
use mathlib.Core.Path.{◌≡◌, refl, ap, sym, ◌∙◌}
use mathlib.Core.List.{List, [], ◌∷◌, ◌++◌}
use native.Mathlib.Omega.{arith}
use native.Mathlib.Nat.{pow-suc}
use state_keeper.Prelude.Lists.{length, length-append}

unfoldable pub be_bytes : ℕ → ℕ → List ℕ
be_bytes zero n = []
be_bytes (suc w) n = be_bytes w (n / 256) ++ (n % 256) ∷ []

-- Digits in base 256 on top of what is read already.
unfoldable pub from_be_on : ℕ → List ℕ → ℕ
from_be_on acc [] = acc
from_be_on acc (b ∷ bs) = from_be_on (acc * 256 + b) bs

unfoldable pub from_be_bytes : List ℕ → ℕ
unfolding from_be_on
from_be_bytes bs = from_be_on 0 bs

pub length-be_bytes : (w n : ℕ) → length (be_bytes w n) ≡ w
unfolding be_bytes
length-be_bytes zero n = refl
length-be_bytes (suc w) n =
    omega
      (arith, length-append (be_bytes w (n / 256)) ((n % 256) ∷ []), length-be_bytes w (n / 256))

pub from_be_on-append :
    (acc : ℕ) (xs ys : List ℕ) → from_be_on acc (xs ++ ys) ≡ from_be_on (from_be_on acc xs) ys
unfolding from_be_on
from_be_on-append acc [] ys = refl
from_be_on-append acc (x ∷ xs) ys = from_be_on-append (acc * 256 + x) xs ys

from_be_bytes-snoc :
    (xs : List ℕ) (b : ℕ) → from_be_bytes (xs ++ b ∷ []) ≡ from_be_bytes xs * 256 + b
unfolding from_be_bytes from_be_on
from_be_bytes-snoc xs b = from_be_on-append 0 xs (b ∷ [])

-- A number below `256 ^ w` is read back from its `w` bytes.
pub from_be_bytes-be_bytes : (w n : ℕ) → n < 256 ^ w → from_be_bytes (be_bytes w n) ≡ n
unfolding be_bytes
from_be_bytes-be_bytes zero n h = unfold from_be_bytes in omega arith
from_be_bytes-be_bytes (suc w) n h =
    let below : n / 256 < 256 ^ w = omega (arith, pow-suc 256 w) in
    omega (
      arith,
      from_be_bytes-snoc (be_bytes w (n / 256)) (n % 256),
      from_be_bytes-be_bytes w (n / 256) below,
    )

-- Equal bytes at one width are equal numbers.
unfoldable pub be_bytes-injective :
    (w m n : ℕ) → m < 256 ^ w → n < 256 ^ w → be_bytes w m ≡ be_bytes w n → m ≡ n
be_bytes-injective w m n hm hn e =
    sym (from_be_bytes-be_bytes w m hm) ∙ ap from_be_bytes e ∙ from_be_bytes-be_bytes w n hn

shift_digit : (a b p : ℕ) → (a * 256 + b) * p ≡ a * (p * 256) + b * p
shift_digit a b p = grind arith

drop_zero : (b p : ℕ) → (0 * 256 + b) * p ≡ b * p
drop_zero b p = grind arith

-- The value of leading bytes weighs `256 ^ k` above `k` further bytes.
pub from_be_on-lem :
    (acc : ℕ) (bs : List ℕ) → from_be_on acc bs ≡ acc * 256 ^ length bs + from_be_bytes bs
unfolding from_be_bytes from_be_on
from_be_on-lem acc [] = omega arith
from_be_on-lem acc (b ∷ bs) = rw (pow-suc 256 (length bs)) (
    omega (
      arith,
      from_be_on-lem (acc * 256 + b) bs,
      from_be_on-lem (0 * 256 + b) bs,
      shift_digit acc b (256 ^ length bs),
      drop_zero b (256 ^ length bs),
    ))

-- Every item is a byte.
abbrev pub IsBytes : List ℕ → Type 0
IsBytes [] = Unit
IsBytes (b ∷ bs) = (b < 256) × IsBytes bs

pub from_be_bytes-lt : (bs : List ℕ) → IsBytes bs → from_be_bytes bs < 256 ^ length bs
unfolding from_be_bytes from_be_on
from_be_bytes-lt [] h = omega arith
from_be_bytes-lt (b ∷ bs) h = rw (pow-suc 256 (length bs)) (
    grind (
      arith,
      from_be_on-lem (0 * 256 + b) bs,
      drop_zero b (256 ^ length bs),
      from_be_bytes-lt bs h.1,
    ))

pub from_be_bytes-append :
    (xs ys : List ℕ)
    → from_be_bytes (xs ++ ys) ≡ from_be_bytes xs * 256 ^ length ys + from_be_bytes ys
unfolding from_be_bytes
from_be_bytes-append xs ys = from_be_on-append 0 xs ys ∙ from_be_on-lem (from_be_on 0 xs) ys

IsBytes-snoc : (bs : List ℕ) (b : ℕ) → IsBytes bs → b < 256 → IsBytes (bs ++ b ∷ [])
IsBytes-snoc [] b h l = (l, tt)
IsBytes-snoc (x ∷ bs) b h l = (h.0, IsBytes-snoc bs b h.1 l)

pub IsBytes-be_bytes : (w n : ℕ) → IsBytes (be_bytes w n)
unfolding be_bytes
IsBytes-be_bytes zero n = tt
IsBytes-be_bytes (suc w) n =
    IsBytes-snoc (be_bytes w (n / 256)) (n % 256) (IsBytes-be_bytes w (n / 256)) (omega arith)
