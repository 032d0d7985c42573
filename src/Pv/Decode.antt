-- ===== src/Pv/Decode.antt =====
-- What `decode_public_values` answers, field by field.
use state_keeper.Prelude.{
  ℤ, pos, negsuc, ◌<◌, ◌^◌, true, Option, some, List, [], ◌∷◌, map, length, fits_i128, guard,
  guard-eq-ok, >>=-eq-ok, Result, ok, ok_or, ok_or-eq-ok, ok-injective, traverse, traverse-eq-ok,
  twap_exceeds_i128, mark_exceeds_i128, public_values_decode, ◌≡◌, ◌↔◌, refl, sym, ap, ap₂, ◌∙◌,
  subst, arith,
}
use state_keeper.Types.{Bytes, Roots, ConsumedTwap, ConsumedMark, Novation}
use state_keeper.Pv.Schema.{
  PublicValuesStruct, RootsSol, ConsumedTwapSol, ConsumedMarkSol, NovationSol,
}
use state_keeper.Pv.{
  DecodedPv, roots_of, novation_of, decode_twap, decode_mark, decode_public_values,
}

-- The range of an `i128`.
abbrev pub InI128 : ℤ → Type 0
InI128 (pos n) = n < 2 ^ 127
InI128 (negsuc n) = n < 2 ^ 127

-- The two lists are of one length, and their items are related one by one.
unfoldable pub Pairwise : {A B : Type 0} → (A → B → Type 0) → List A → List B → Type 0
Pairwise R [] [] = Unit
Pairwise R [] (y ∷ ys) = ⊥
Pairwise R (x ∷ xs) [] = ⊥
Pairwise R (x ∷ xs) (y ∷ ys) = R x y × Pairwise R xs ys

pub record IsRoots (r : RootsSol) (d : Roots) : Type 0 where
  pub root_prev : d.root_prev ≡ r.root_prev
  pub root_new : d.root_new ≡ r.root_new
  pub accounts_root_prev : d.accounts_root_prev ≡ r.accounts_root_prev
  pub accounts_root_new : d.accounts_root_new ≡ r.accounts_root_new

pub record IsTwap (t : ConsumedTwapSol) (d : ConsumedTwap) : Type 0 where
  pub feed_id : d.feed_id ≡ t.feed_id
  pub close_time : d.close_time ≡ t.close_time
  pub twap : d.twap ≡ t.twap
  pub expo : d.expo ≡ t.expo
  pub in_range : InI128 t.twap

pub record IsMark (m : ConsumedMarkSol) (d : ConsumedMark) : Type 0 where
  pub feed_id : d.feed_id ≡ m.feed_id
  pub mark_time : d.mark_time ≡ m.mark_time
  pub price : d.price ≡ m.price
  pub expo : d.expo ≡ m.expo
  pub in_range : InI128 m.price

pub record IsNovation (n : NovationSol) (d : Novation) : Type 0 where
  pub old_id : d.old_id ≡ n.old_id
  pub new_id : d.new_id ≡ n.new_id
  pub party_a : d.party_a ≡ n.party_a
  pub party_b : d.party_b ≡ n.party_b
  pub party_c : d.party_c ≡ n.party_c
  pub c_im : d.c_im ≡ n.c_im
  pub forced : d.forced ≡ n.forced
  pub transfer_price : d.transfer_price ≡ n.transfer_price
  pub spread : d.spread ≡ n.spread
  pub nonce : d.nonce ≡ n.nonce
  pub deadline : d.deadline ≡ n.deadline

-- The engine's values have the rows of the committed struct.
pub record IsDecoded (pv : PublicValuesStruct) (d : DecodedPv) : Type 0 where
  pub roots : IsRoots pv.roots d.roots
  pub consumed_twaps : Pairwise IsTwap pv.consumed_twaps d.consumed_twaps
  pub novations : Pairwise IsNovation pv.novations d.novations
  pub proof_time : d.proof_time ≡ pv.proof_time
  pub domain_separator : d.domain_separator ≡ pv.domain_separator
  pub scenario_root : d.scenario_root ≡ pv.scenario_root
  pub consumed_marks : Pairwise IsMark pv.consumed_marks d.consumed_marks
  pub opened_position_ids : d.opened_position_ids ≡ pv.opened_position_ids
  pub closeout_novations_len : d.closeout_novations_len ≡ length pv.closeout_novations
  pub unwinds_len : d.unwinds_len ≡ length pv.unwinds

fits_i128_iff : (z : ℤ) → (fits_i128 z ≡ true) ↔ InI128 z
fits_i128_iff (pos n) = ground arith
fits_i128_iff (negsuc n) = ground arith

module _ {A B : Type 0} (R : A → B → Type 0) where
  -- A checked map answers the list of what it answers for each item.
  traverse_iff :
      (f : A → Result B)
      → ((x : A) (y : B) → (f x ≡ ok y) ↔ R x y)
      → (xs : List A) (ys : List B) → (traverse f xs ≡ ok ys) ↔ Pairwise R xs ys
  unfolding Pairwise
  traverse_iff f each [] [] = (λ h. tt, λ h. refl)
  traverse_iff f each [] (y ∷ ys) = (λ h. absurd (cc), λ h. absurd h)
  traverse_iff f each (x ∷ xs) [] =
      (λ h. let (y, vs, first, rest, shown) = traverse-eq-ok f x xs h in absurd (cc), λ h. absurd h)
  traverse_iff f each (x ∷ xs) (y ∷ ys) = (
    λ h.
        let (z, zs, first, rest, shown) = traverse-eq-ok f x xs h in
        let same : z ≡ y = cc in
        let later : zs ≡ ys = cc in
        ((each x y).0 (first ∙ ap ok same), (traverse_iff f each xs ys).0 (rest ∙ ap ok later)),
    λ h. rw ((each x y).1 h.0, (traverse_iff f each xs ys).1 h.1) refl,
  )

  map_iff :
      (g : A → B)
      → ((x : A) (y : B) → (g x ≡ y) ↔ R x y)
      → (xs : List A) (ys : List B) → (map g xs ≡ ys) ↔ Pairwise R xs ys
  unfolding Pairwise
  map_iff g each [] [] = (λ h. tt, λ h. refl)
  map_iff g each [] (y ∷ ys) = (λ h. absurd (cc), λ h. absurd h)
  map_iff g each (x ∷ xs) [] = (λ h. absurd (cc), λ h. absurd h)
  map_iff g each (x ∷ xs) (y ∷ ys) = (
    λ h. ((each x y).0 (cc), (map_iff g each xs ys).0 (cc)),
    λ h. ap₂ (λ a l. a ∷ l) ((each x y).1 h.0) ((map_iff g each xs ys).1 h.1),
  )

roots_of_iff : (r : RootsSol) (d : Roots) → (roots_of r ≡ d) ↔ IsRoots r d
roots_of_iff r d = (
  λ h. subst (IsRoots r) h (record {
    root_prev = refl;
    root_new = refl;
    accounts_root_prev = refl;
    accounts_root_new = refl;
  }),
  λ k i. record {
    root_prev = sym k.root_prev i;
    root_new = sym k.root_new i;
    accounts_root_prev = sym k.accounts_root_prev i;
    accounts_root_new = sym k.accounts_root_new i;
  },
)

novation_of_iff : (n : NovationSol) (d : Novation) → (novation_of n ≡ d) ↔ IsNovation n d
novation_of_iff n d = (
  λ h. subst (IsNovation n) h (record {
    old_id = refl;
    new_id = refl;
    party_a = refl;
    party_b = refl;
    party_c = refl;
    c_im = refl;
    forced = refl;
    transfer_price = refl;
    spread = refl;
    nonce = refl;
    deadline = refl;
  }),
  λ k i. record {
    old_id = sym k.old_id i;
    new_id = sym k.new_id i;
    party_a = sym k.party_a i;
    party_b = sym k.party_b i;
    party_c = sym k.party_c i;
    c_im = sym k.c_im i;
    forced = sym k.forced i;
    transfer_price = sym k.transfer_price i;
    spread = sym k.spread i;
    nonce = sym k.nonce i;
    deadline = sym k.deadline i;
  },
)

decode_twap_iff : (t : ConsumedTwapSol) (d : ConsumedTwap) → (decode_twap t ≡ ok d) ↔ IsTwap t d
unfolding decode_twap
decode_twap_iff t d = (
  λ h.
      let (_u, fits, same) = >>=-eq-ok (guard (fits_i128 t.twap) twap_exceeds_i128) _ h in
      let in_range = (fits_i128_iff t.twap).0 (guard-eq-ok _ _ fits) in
      subst (IsTwap t) (ok-injective same) (record {
        feed_id = refl;
        close_time = refl;
        twap = refl;
        expo = refl;
        in_range = in_range;
      }),
  λ k.
      let fits = (fits_i128_iff t.twap).1 k.in_range in
      rw fits (λ i. ok (record {
        feed_id = sym k.feed_id i;
        close_time = sym k.close_time i;
        twap = sym k.twap i;
        expo = sym k.expo i;
      })),
)

decode_mark_iff : (m : ConsumedMarkSol) (d : ConsumedMark) → (decode_mark m ≡ ok d) ↔ IsMark m d
unfolding decode_mark
decode_mark_iff m d = (
  λ h.
      let (_u, fits, same) = >>=-eq-ok (guard (fits_i128 m.price) mark_exceeds_i128) _ h in
      let in_range = (fits_i128_iff m.price).0 (guard-eq-ok _ _ fits) in
      subst (IsMark m) (ok-injective same) (record {
        feed_id = refl;
        mark_time = refl;
        price = refl;
        expo = refl;
        in_range = in_range;
      }),
  λ k.
      let fits = (fits_i128_iff m.price).1 k.in_range in
      rw fits (λ i. ok (record {
        feed_id = sym k.feed_id i;
        mark_time = sym k.mark_time i;
        price = sym k.price i;
        expo = sym k.expo i;
      })),
)

-- `decode_public_values` answers `d` exactly when the ABI decoder answers a struct of which every twap and
-- every mark is in the range of an `i128`, and `d` has its rows: each root, each field of each twap, mark and
-- novation, in their order, the opened ids, the times and roots, and the counts of the closeouts and unwinds.
pub decode_public_values_iff :
    (abi_decode : Bytes → Option PublicValuesStruct) (b : Bytes) (d : DecodedPv)
    → (decode_public_values abi_decode b ≡ ok d)
      ↔ ((pv : PublicValuesStruct) × ((abi_decode b ≡ some pv) × IsDecoded pv d))
unfolding decode_public_values
decode_public_values_iff abi_decode b d = (
  λ h.
      let (pv, read, h1) = >>=-eq-ok (ok_or (abi_decode b) public_values_decode) _ h in
      let (twaps, of_twaps, h2) = >>=-eq-ok (traverse decode_twap pv.consumed_twaps) _ h1 in
      let (marks, of_marks, h3) = >>=-eq-ok (traverse decode_mark pv.consumed_marks) _ h2 in
      (
        pv,
        (
          ok_or-eq-ok _ _ pv read,
          subst (IsDecoded pv) (ok-injective h3) (record {
            roots = (roots_of_iff pv.roots (roots_of pv.roots)).0 refl;
            consumed_twaps = (traverse_iff IsTwap decode_twap decode_twap_iff _ twaps).0 of_twaps;
            novations = (map_iff IsNovation novation_of novation_of_iff pv.novations _).0 refl;
            proof_time = refl;
            domain_separator = refl;
            scenario_root = refl;
            consumed_marks = (traverse_iff IsMark decode_mark decode_mark_iff _ marks).0 of_marks;
            opened_position_ids = refl;
            closeout_novations_len = refl;
            unwinds_len = refl;
          }),
        ),
      ),
  λ (pv, (read, k)).
      let twaps = (traverse_iff IsTwap decode_twap decode_twap_iff _ _).1 k.consumed_twaps in
      let marks = (traverse_iff IsMark decode_mark decode_mark_iff _ _).1 k.consumed_marks in
      let roots = (roots_of_iff pv.roots d.roots).1 k.roots in
      let novations =
        (map_iff IsNovation novation_of novation_of_iff pv.novations d.novations).1 k.novations in
      rw (read, twaps, marks)
        (λ i. ok (record {
          roots = roots i;
          consumed_twaps = d.consumed_twaps;
          novations = novations i;
          proof_time = sym k.proof_time i;
          domain_separator = sym k.domain_separator i;
          scenario_root = sym k.scenario_root i;
          consumed_marks = d.consumed_marks;
          opened_position_ids = sym k.opened_position_ids i;
          closeout_novations_len = sym k.closeout_novations_len i;
          unwinds_len = sym k.unwinds_len i;
        })),
)
