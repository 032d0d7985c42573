-- ===== src/Events.antt =====
-- crates/crx-tree/src/events.rs: the Terms of an open, and the identity that the keeper recomputes.
-- `keccak` is tiny_keccak's hash of a byte string, as a number.
pub mod Identity
use state_keeper.Prelude.{
  ℕ, suc, ◌-◌, ◌^◌, ℤ, pos, negsuc, List, [], ◌∷◌, ◌++◌, replicate, be_bytes, if◌then◌else◌, ltb,
}
use state_keeper.Types.{Bytes}

pub record OpenLockTerms : Type 0 where
  pub party_a : ℕ
  pub party_b : ℕ
  pub oracle : ℕ
  pub pair_tag : ℕ
  pub quantity : ℕ
  pub im_bps_a : ℕ
  pub im_bps_b : ℕ
  pub mm_pct : ℕ
  pub expiry : ℕ
  pub nonce : ℕ
  pub cure_window : ℕ
  pub payout_pref_a : ℕ
  pub payout_pref_b : ℕ
  pub terms_data : Bytes
  pub instrument : ℕ
  pub side : ℤ

abbrev pub terms_typehash : ℕ
terms_typehash = 0x41aa73c5b957e9b7ac0f62e276c3d71b35cfec660f61675e6fb16835e3465fe4

unfoldable pub addr_word : ℕ → Bytes
addr_word a = replicate 12 0 ++ be_bytes 20 a

unfoldable pub u64_word : ℕ → Bytes
u64_word v = replicate 24 0 ++ be_bytes 8 v

-- `u64::try_from(e).unwrap_or(0)`
abbrev pub u64_or_zero : ℕ → ℕ
u64_or_zero e = if ltb e (2 ^ 64) then e else 0

unfoldable pub instrument_word : ℕ → Bytes
instrument_word i = replicate 31 0 ++ i ∷ []

-- `side` sign-extended; `as u8` of an `i8` is its two's complement.
unfoldable pub side_word : ℤ → Bytes
side_word (pos n) = replicate 31 0 ++ n ∷ []
side_word (negsuc n) = replicate 31 0xff ++ (256 - suc n) ∷ []

-- The 17 words, in the order in which they are appended to `buf`.
unfoldable pub terms_words : (Bytes → ℕ) → OpenLockTerms → List Bytes
terms_words keccak t =
    be_bytes 32 terms_typehash
    ∷ addr_word t.party_a
    ∷ addr_word t.party_b
    ∷ addr_word t.oracle
    ∷ be_bytes 32 t.pair_tag
    ∷ be_bytes 32 t.quantity
    ∷ u64_word t.im_bps_a
    ∷ u64_word t.im_bps_b
    ∷ u64_word t.mm_pct
    ∷ u64_word (u64_or_zero t.expiry)
    ∷ u64_word t.nonce
    ∷ u64_word t.cure_window
    ∷ u64_word t.payout_pref_a
    ∷ u64_word t.payout_pref_b
    ∷ be_bytes 32 (keccak t.terms_data)
    ∷ instrument_word t.instrument
    ∷ side_word t.side
    ∷ []

-- `buf`, word by word.
unfoldable pub concat : List Bytes → Bytes
concat [] = []
concat (w ∷ ws) = w ++ concat ws

unfoldable pub terms_rfq_id : (Bytes → ℕ) → OpenLockTerms → ℕ
unfolding terms_words concat
terms_rfq_id keccak t = keccak (concat (terms_words keccak t))
