-- ===== src/Keeper/Fresh/Due.antt =====
-- The settle prices that the keeper gives to an epoch.
use state_keeper.Prelude.{
  ℕ, Bool, true, ◌&&◌, ◌||◌, ◌==◌, nonneg, some, List, [], ◌∷◌, ◌++◌, map, filter, any, flatten, ok,
  traverse, >>=-eq-ok, ok-injective, ◌≡◌, refl, sym, ap, ◌∙◌, arith,
}
use state_keeper.BTreeMap.{BTreeMap, get, values}
use state_keeper.Types.{PositionRecord, ProvenTwap}
use state_keeper.Engine.{Engine}
use state_keeper.Scan.{ChainHistory, TwapBoundRecord, unfolded_opens}
use state_keeper.Replay.{AccountState, TreeState, EpochInputs}
use state_keeper.Replay.Open.{open_to_new_position}
use state_keeper.Replay.Resolve.{resolve_epoch, twap_binds}
use state_keeper.Replay.Resolve.Prices.{twap_binds_some, resolve_epoch-SameEpoch}
use state_keeper.Keeper.Fresh.{twap_of_price, due_twaps, fresh_epoch_inputs}

any-append {ℓ} :
    {A : Type ℓ} (p : A → Bool) (xs ys : List A) → any p (xs ++ ys) ≡ (any p xs || any p ys)
any-append p [] ys = refl
any-append p (x ∷ xs) ys = ground (arith, any-append p xs ys)

abbrev due_at : ℕ → ℕ → ℕ × ℕ → Bool
due_at close_time oracle x = x.0 == close_time && x.1 == oracle

abbrev expiry_of : PositionRecord → ℕ × ℕ
expiry_of p = (p.expiry, p.oracle)

abbrev expiries_of : List AccountState → List (ℕ × ℕ)
expiries_of accounts = flatten (map (λ (a : AccountState). map expiry_of a.positions) accounts)

module _ (e : Engine) where
  any-positions :
      (t : ProvenTwap) (ps : List PositionRecord)
      → any (λ b. twap_binds e t b) ps
        ≡ any (due_at t.close_time (e.feed_id_oracle t.feed_id)) (map expiry_of ps)
  any-positions t [] = refl
  any-positions t (p ∷ ps) = ground (arith, any-positions t ps)

  -- A price that binds a position of an account is due.
  due_of_binds :
      (t : ProvenTwap) (aid : ℕ) (a : AccountState) (m : BTreeMap AccountState)
      → get aid m ≡ some a
      → twap_binds_some e a t ≡ true
      → any (due_at t.close_time (e.feed_id_oracle t.feed_id)) (expiries_of (values m)) ≡ true
  unfolding get mathlib.Core.List.flatten
  due_of_binds t aid a [] h b = cc
  due_of_binds t aid a ((j, w) ∷ m) h b =
      let due = due_at t.close_time (e.feed_id_oracle t.feed_id) in
      ground (
        arith,
        any-append due (map expiry_of w.positions) (expiries_of (values m)),
        any-positions t w.positions,
        due_of_binds t aid a m,
      )

  -- The prices of the history that bind an account's positions are all among the due ones.
  due_twaps-enough :
      (aid : ℕ) (a : AccountState) (state : TreeState) (ts : List TwapBoundRecord)
      → get aid state.accounts ≡ some a
      → filter (twap_binds_some e a) (due_twaps e ts state)
        ≡ filter
            (twap_binds_some e a)
            (map twap_of_price (filter (λ (t : TwapBoundRecord). nonneg t.twap) ts))
  unfolding due_twaps
  due_twaps-enough aid a state [] h = refl
  due_twaps-enough aid a state (t ∷ ts) h = ground (
    arith,
    due_twaps-enough aid a state ts h,
    due_of_binds (twap_of_price t) aid a state.accounts h,
  )

  -- The inputs with every price of the history that is not negative, in place of the due ones.
  abbrev pub with_all_prices : ChainHistory → EpochInputs → EpochInputs
  with_all_prices history inputs = record inputs {
    proven_twaps =
        map twap_of_price (filter (λ (t : TwapBoundRecord). nonneg t.twap) history.twaps);
  }

  twaps-fresh_epoch_inputs :
      (history : ChainHistory) (state : TreeState) (domain now : ℕ) (inputs : EpochInputs)
      → fresh_epoch_inputs e history state domain now ≡ ok inputs
      → inputs.proven_twaps ≡ due_twaps e history.twaps state
  unfolding fresh_epoch_inputs
  twaps-fresh_epoch_inputs history state domain now inputs h =
      let (ps, mapped, h1) =
        >>=-eq-ok (traverse (λ o. open_to_new_position o domain) (unfolded_opens history)) _ h in
      ap (λ (i : EpochInputs). i.proven_twaps) (sym (ok-injective h1))

  -- The choice of due prices loses nothing: the next epoch resolves as it would with every price of the
  -- history that is not negative.
  pub fresh_epoch_inputs-SameEpoch :
      (history : ChainHistory) (state : TreeState) (domain now : ℕ) (inputs : EpochInputs)
      (table : e.ScenarioTable)
      → fresh_epoch_inputs e history state domain now ≡ ok inputs
      → resolve_epoch e state inputs table
        ≡ resolve_epoch e state (with_all_prices history inputs) table
  fresh_epoch_inputs-SameEpoch history state domain now inputs table h =
      resolve_epoch-SameEpoch e state inputs (with_all_prices history inputs) table (record {
        new_positions = refl;
        paused_pairs = refl;
        proof_now = refl;
        twaps = λ aid a found.
            ap (filter (twap_binds_some e a))
              (twaps-fresh_epoch_inputs history state domain now inputs h)
            ∙ due_twaps-enough aid a state history.twaps found;
        marks = λ aid a found. refl;
      })
