-- ===== src/Events/Identity.antt =====
-- The identity of an open and its Terms: the encoding of events.rs read back.
use native.Mathlib.Decide.{ℕ_discrete}
use state_keeper.Prelude.{
  ℕ, ◌^◌, ◌<◌, ℤ, pos, negsuc, List, [], ◌∷◌, ◌++◌, replicate, length, length-be_bytes,
  be_bytes-injective, All, ◌≡◌, ◌≢◌, ◌⊎◌, inl, inr, refl, ap, ap₂, arith, sym, ◌∙◌,
}
use state_keeper.Types.{Bytes}
use state_keeper.Events.{
  OpenLockTerms, addr_word, u64_word, u64_or_zero, instrument_word, side_word, terms_words, concat,
  terms_rfq_id,
}

-- The range of an `i8`.
abbrev pub SideFits : ℤ → Type 0
SideFits (pos n) = n < 128
SideFits (negsuc n) = n < 128

-- Each field is within the width of its ABI type.
pub record InWidth (t : OpenLockTerms) : Type 0 where
  pub party_a : t.party_a < 2 ^ 160
  pub party_b : t.party_b < 2 ^ 160
  pub oracle : t.oracle < 2 ^ 160
  pub pair_tag : t.pair_tag < 2 ^ 256
  pub quantity : t.quantity < 2 ^ 256
  pub im_bps_a : t.im_bps_a < 2 ^ 16
  pub im_bps_b : t.im_bps_b < 2 ^ 16
  pub mm_pct : t.mm_pct < 2 ^ 16
  pub expiry : t.expiry < 2 ^ 40
  pub nonce : t.nonce < 2 ^ 64
  pub cure_window : t.cure_window < 2 ^ 64
  pub payout_pref_a : t.payout_pref_a < 2 ^ 8
  pub payout_pref_b : t.payout_pref_b < 2 ^ 8
  pub side : SideFits t.side

append-injective :
    (xs zs : Bytes) {ys ws : Bytes}
    → length xs ≡ length zs
    → xs ++ ys ≡ zs ++ ws
    → (xs ≡ zs) × (ys ≡ ws)
append-injective [] [] n e = (refl, e)
append-injective [] (z ∷ zs) n e = absurd (omega arith)
append-injective (x ∷ xs) [] n e = absurd (omega arith)
append-injective (x ∷ xs) (z ∷ zs) {ys} {ws} n e =
    let tails : xs ++ ys ≡ zs ++ ws = cc in
    let rest : (xs ≡ zs) × (ys ≡ ws) = append-injective xs zs (omega arith) tails in
    let heads : x ≡ z = cc in (ap₂ (λ a l. a ∷ l) heads rest.0, rest.1)

concat-injective :
    (us vs : List Bytes)
    → length us ≡ length vs
    → All (λ w. length w ≡ 32) us
    → All (λ w. length w ≡ 32) vs
    → concat us ≡ concat vs
    → us ≡ vs
unfolding concat
concat-injective [] [] n h k e = refl
concat-injective [] (v ∷ vs) n h k e = absurd (omega arith)
concat-injective (u ∷ us) [] n h k e = absurd (omega arith)
concat-injective (u ∷ us) (v ∷ vs) n h k e =
    let (p, q) = append-injective u v (omega arith) e in
    let r : us ≡ vs = concat-injective us vs (omega arith) h.1 k.1 q in cc

addr_word-injective : (a b : ℕ) → a < 2 ^ 160 → b < 2 ^ 160 → addr_word a ≡ addr_word b → a ≡ b
unfolding addr_word
addr_word-injective a b ha hb e =
    be_bytes-injective 20 a b ha hb (append-injective (replicate 12 0) (replicate 12 0) refl e).1

u64_word-injective : (a b : ℕ) → a < 2 ^ 64 → b < 2 ^ 64 → u64_word a ≡ u64_word b → a ≡ b
unfolding u64_word
u64_word-injective a b ha hb e =
    be_bytes-injective 8 a b ha hb (append-injective (replicate 24 0) (replicate 24 0) refl e).1

instrument_word-injective : (i j : ℕ) → instrument_word i ≡ instrument_word j → i ≡ j
unfolding instrument_word
instrument_word-injective i j e = ground arith

side_word-injective : (s r : ℤ) → SideFits s → SideFits r → side_word s ≡ side_word r → s ≡ r
unfolding side_word
side_word-injective (pos m) (pos n) hs hr e = ground arith
side_word-injective (pos m) (negsuc n) hs hr e = ground arith
side_word-injective (negsuc m) (pos n) hs hr e = ground arith
side_word-injective (negsuc m) (negsuc n) hs hr e = ground arith

u64_or_zero-lem : (n : ℕ) → n < 2 ^ 40 → u64_or_zero n ≡ n
u64_or_zero-lem n h = ground arith

expiry_of_word :
    (m n : ℕ)
    → m < 2 ^ 40
    → n < 2 ^ 40
    → u64_word (u64_or_zero m) ≡ u64_word (u64_or_zero n)
    → m ≡ n
expiry_of_word m n hm hn e =
    u64_word-injective m n (omega arith) (omega arith)
      (ap u64_word (sym (u64_or_zero-lem m hm)) ∙ e ∙ ap u64_word (u64_or_zero-lem n hn))

length-addr_word : (a : ℕ) → length (addr_word a) ≡ 32
unfolding addr_word
length-addr_word a = omega (arith, length-be_bytes 20 a)

length-u64_word : (a : ℕ) → length (u64_word a) ≡ 32
unfolding u64_word
length-u64_word a = omega (arith, length-be_bytes 8 a)

length-side_word : (s : ℤ) → length (side_word s) ≡ 32
unfolding side_word
length-side_word (pos n) = refl
length-side_word (negsuc n) = refl

length-instrument_word : (i : ℕ) → length (instrument_word i) ≡ 32
unfolding instrument_word
length-instrument_word i = refl

-- These two byte strings differ, and have one hash.
abbrev pub Collide : (Bytes → ℕ) → Bytes → Bytes → Type 0
Collide keccak x y = (x ≢ y) × (keccak x ≡ keccak y)

Bytes-discrete : Discrete Bytes
Bytes-discrete = hlevel ℕ_discrete

module _ (keccak : Bytes → ℕ) where
  -- Equal hashes are of equal strings, or collide.
  preimages : (x y : Bytes) → keccak x ≡ keccak y → (x ≡ y) ⊎ Collide keccak x y
  preimages x y e = elim (Bytes-discrete x y) [ yes p ↦ inl p | no n ↦ inr (n, e) ]

  words_are_32_bytes : (t : OpenLockTerms) → All (λ w. length w ≡ 32) (terms_words keccak t)
  unfolding terms_words
  words_are_32_bytes t = omega (
    arith, length-be_bytes, length-addr_word, length-u64_word, length-instrument_word,
    length-side_word,
  )

  hashed_data :
      (t u : OpenLockTerms)
      → ((b : Bytes) → keccak b < 2 ^ 256)
      → terms_words keccak t ≡ terms_words keccak u
      → keccak t.terms_data ≡ keccak u.terms_data
  unfolding terms_words
  hashed_data t u range e =
      be_bytes-injective 32 (keccak t.terms_data) (keccak u.terms_data) (range t.terms_data)
        (range u.terms_data) (cc)

  -- Equal words of Terms in width are equal Terms, if their data hash alike.
  terms_words-injective :
      (t u : OpenLockTerms)
      → InWidth t
      → InWidth u
      → t.terms_data ≡ u.terms_data
      → terms_words keccak t ≡ terms_words keccak u
      → t ≡ u
  unfolding terms_words
  terms_words-injective t u ht hu d e =
      let party_a_eq : t.party_a ≡ u.party_a =
        addr_word-injective t.party_a u.party_a ht.party_a hu.party_a (cc) in
      let party_b_eq : t.party_b ≡ u.party_b =
        addr_word-injective t.party_b u.party_b ht.party_b hu.party_b (cc) in
      let oracle_eq : t.oracle ≡ u.oracle =
        addr_word-injective t.oracle u.oracle ht.oracle hu.oracle (cc) in
      let pair_tag_eq : t.pair_tag ≡ u.pair_tag =
        be_bytes-injective 32 t.pair_tag u.pair_tag ht.pair_tag hu.pair_tag (cc) in
      let quantity_eq : t.quantity ≡ u.quantity =
        be_bytes-injective 32 t.quantity u.quantity ht.quantity hu.quantity (cc) in
      let im_bps_a_eq : t.im_bps_a ≡ u.im_bps_a =
        u64_word-injective t.im_bps_a u.im_bps_a (omega arith) (omega arith) (cc) in
      let im_bps_b_eq : t.im_bps_b ≡ u.im_bps_b =
        u64_word-injective t.im_bps_b u.im_bps_b (omega arith) (omega arith) (cc) in
      let mm_pct_eq : t.mm_pct ≡ u.mm_pct =
        u64_word-injective t.mm_pct u.mm_pct (omega arith) (omega arith) (cc) in
      let nonce_eq : t.nonce ≡ u.nonce =
        u64_word-injective t.nonce u.nonce (omega arith) (omega arith) (cc) in
      let cure_window_eq : t.cure_window ≡ u.cure_window =
        u64_word-injective t.cure_window u.cure_window (omega arith) (omega arith) (cc) in
      let payout_pref_a_eq : t.payout_pref_a ≡ u.payout_pref_a =
        u64_word-injective t.payout_pref_a u.payout_pref_a (omega arith) (omega arith) (cc) in
      let payout_pref_b_eq : t.payout_pref_b ≡ u.payout_pref_b =
        u64_word-injective t.payout_pref_b u.payout_pref_b (omega arith) (omega arith) (cc) in
      let expiry_eq : t.expiry ≡ u.expiry =
        expiry_of_word t.expiry u.expiry ht.expiry hu.expiry (cc) in
      let instrument_eq : t.instrument ≡ u.instrument =
        instrument_word-injective t.instrument u.instrument (cc) in
      let side_eq : t.side ≡ u.side = side_word-injective t.side u.side ht.side hu.side (cc) in
      λ i. record {
        party_a = party_a_eq i;
        party_b = party_b_eq i;
        oracle = oracle_eq i;
        pair_tag = pair_tag_eq i;
        quantity = quantity_eq i;
        im_bps_a = im_bps_a_eq i;
        im_bps_b = im_bps_b_eq i;
        mm_pct = mm_pct_eq i;
        expiry = expiry_eq i;
        nonce = nonce_eq i;
        cure_window = cure_window_eq i;
        payout_pref_a = payout_pref_a_eq i;
        payout_pref_b = payout_pref_b_eq i;
        terms_data = d i;
        instrument = instrument_eq i;
        side = side_eq i;
      }

  -- Where two Terms are in width, the hash is below 2^256, and the two have one identity, they are the same
  -- Terms, or it is their own encodings that differ and have one hash, or their own terms data.
  pub terms_rfq_id-injective :
      (t u : OpenLockTerms)
      → InWidth t
      → InWidth u
      → ((b : Bytes) → keccak b < 2 ^ 256)
      → terms_rfq_id keccak t ≡ terms_rfq_id keccak u
      → (t ≡ u)
        ⊎ (Collide keccak (concat (terms_words keccak t)) (concat (terms_words keccak u))
            ⊎ Collide keccak t.terms_data u.terms_data)
  unfolding terms_rfq_id
  terms_rfq_id-injective t u ht hu range e =
      elim (preimages (concat (terms_words keccak t)) (concat (terms_words keccak u)) e) [
        | inr c ↦ inr (inl c)
        | inl p ↦
            let words : terms_words keccak t ≡ terms_words keccak u =
              concat-injective (terms_words keccak t) (terms_words keccak u)
                (unfold terms_words in refl) (words_are_32_bytes t) (words_are_32_bytes u) p in
            elim (preimages t.terms_data u.terms_data (hashed_data t u range words)) [
              | inl d ↦ inl (terms_words-injective t u ht hu d words)
              | inr c ↦ inr (inr c)
            ]
      ]
