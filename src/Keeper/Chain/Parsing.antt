-- ===== src/Keeper/Chain/Parsing.antt =====
-- `parse_b32` on what `hex::encode` prints, and the lane that `load_lane` finds.
use state_keeper.Prelude.{
  ℕ, ◌^◌, ◌<◌, some, [], ◌∷◌, ◌++◌, All, be_bytes, length-be_bytes, IsBytes, IsBytes-be_bytes,
  from_be_bytes-be_bytes, ok, ◌≡◌, ◌≢◌, refl, ap, arith, Text, codes, trim_start_0x,
}
use state_keeper.Types.{Bytes}
use state_keeper.Keeper.Chain.{Hex, parse_b32}

-- What the `hex` crate documents: `decode` reads what `encode` prints, and `encode` prints no `x`, since
-- `x` is no digit.
pub record IsHex (hex : Hex) : Type 0 where
  pub decode-encode : (b : Bytes) → IsBytes b → hex.decode (hex.encode b) ≡ some b
  pub digits : (b : Bytes) → All (λ c. c ≢ b'x') (hex.encode b)

trim_start_0x-digits : (s : Text) → All (λ c. c ≢ b'x') s → trim_start_0x s ≡ s
unfolding trim_start_0x
trim_start_0x-digits [] h = refl
trim_start_0x-digits (a ∷ []) h = refl
trim_start_0x-digits (a ∷ b ∷ s) h = ground (arith, h.1.0)

module _ (hex : Hex) (l : IsHex hex) where
  -- A 32-byte number that is printed in hex is read back, with its `0x` prefix and without.
  pub parse_b32-encode :
      (n : ℕ)
      → n < 2 ^ 256
      → (parse_b32 hex (codes "0x" ++ hex.encode (be_bytes 32 n)) ≡ ok n)
        × (parse_b32 hex (hex.encode (be_bytes 32 n)) ≡ ok n)
  unfolding parse_b32
  parse_b32-encode n h =
      let text = hex.encode (be_bytes 32 n) in
      let decoded = l.decode-encode (be_bytes 32 n) (IsBytes-be_bytes 32 n) in
      let bare : trim_start_0x text ≡ text = trim_start_0x-digits text (l.digits (be_bytes 32 n)) in
      let prefixed : trim_start_0x (codes "0x" ++ text) ≡ text = (unfold trim_start_0x in bare) in
      (
        rw (prefixed, decoded, length-be_bytes 32 n) (ap ok (from_be_bytes-be_bytes 32 n h)),
        rw (bare, decoded, length-be_bytes 32 n) (ap ok (from_be_bytes-be_bytes 32 n h)),
      )
