-- ===== src/Engine/Order.antt =====
-- That the engine does not look at the order of positions, from the documentation of im-crypto and
-- crxvm: a key names one owner; the open pre-pass pushes a record for each new position; a settlement
-- is found for each position by itself; the variation margin is a sum, as long as it does not saturate;
-- and an account's survivors are answered "in canonical `terms_id` order".
use state_keeper.Prelude.{ℕ, ℤ, List, [], ◌∷◌, Permᴰ, ok, ◌≡◌}
use state_keeper.Types.{
  PositionRecord, PositionSettlement, NewPosition, ProvenMark, ProvenTwap, ConsumedMark,
  ConsumedTwap, BookOpenOutcome, AccountResolve,
}
use state_keeper.Engine.{Engine, Row}

-- One account with the same prices and with the same positions, in any order.
pub record IsAlike (r s : Row) : Type 0 where
  pub account : r.0 ≡ s.0
  pub positions : Permᴰ r.1.positions s.1.positions
  pub twaps : r.1.proven_twaps ≡ s.1.proven_twaps
  pub marks : r.1.proven_marks ≡ s.1.proven_marks

abbrev pub AllAlike : List Row → List Row → Type 0
AllAlike [] [] = Unit
AllAlike [] (s ∷ ss) = ⊥
AllAlike (r ∷ rs) [] = ⊥
AllAlike (r ∷ rs) (s ∷ ss) = IsAlike r s × AllAlike rs ss

module _ (e : Engine) where
  pub record IsOrderFree : Type 1 where
    pub account_id_single-injective :
        (p q : ℕ) → e.account_id_single p ≡ e.account_id_single q → p ≡ q
    pub apply-Permᴰ :
        (rows : List Row) (ps qs : List NewPosition) (now : ℕ) (r : List Row × BookOpenOutcome)
        → Permᴰ ps qs
        → e.apply_new_boxes_to_book rows ps now ≡ ok r
        → (s : List Row × BookOpenOutcome) × (e.apply_new_boxes_to_book rows qs now ≡ ok s)
          × AllAlike r.0 s.0
          × Permᴰ r.1.opened s.1.opened
          × Permᴰ r.1.rejected s.1.rejected
    pub settlements-Permᴰ :
        (ps qs : List PositionRecord) (ts : List ProvenTwap)
        (r : List PositionSettlement × List ConsumedTwap)
        → Permᴰ ps qs
        → e.position_settlements_from_twaps ps ts ≡ ok r
        → (s : List PositionSettlement × List ConsumedTwap) × (e.position_settlements_from_twaps qs
              ts
            ≡ ok s)
          × Permᴰ r.0 s.0
    -- the sum over the positions stays within an i128, whatever its order
    pub Unsaturated : List PositionRecord → List ProvenMark → Type 0
    pub vm-Permᴰ :
        (ps qs : List PositionRecord) (ms : List ProvenMark) (r : ℤ × List ConsumedMark)
        → Permᴰ ps qs
        → Unsaturated ps ms
        → e.account_vm_from_marks ps ms ≡ ok r
        → (s : ℤ × List ConsumedMark) × (e.account_vm_from_marks qs ms ≡ ok s) × (r.0 ≡ s.0)
    pub resolve-Permᴰ :
        (owner : ℕ) (ps qs : List PositionRecord) (ss ts : List PositionSettlement) (vm : ℤ)
        (paused : List ℕ) (now : ℕ) (table : e.ScenarioTable) (r : AccountResolve)
        → Permᴰ ps qs
        → Permᴰ ss ts
        → e.resolve_account owner ps ss vm paused now table ≡ ok r
        → e.resolve_account owner qs ts vm paused now table ≡ ok r
