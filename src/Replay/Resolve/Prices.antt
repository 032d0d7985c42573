-- ===== src/Replay/Resolve/Prices.antt =====
-- What `resolve_epoch` reads of the prices of its inputs.
use state_keeper.Prelude.{
  ℕ, Bool, List, [], ◌∷◌, Option, none, some, any, filter, ok, traverse, ◌>>=◌, ok_or, panic, ◌≡◌,
  refl, ap, ap₂, Result, ◌++◌,
}
use state_keeper.BTreeMap.{BTreeMap, empty, get, keys}
use state_keeper.Types.{ProvenMark, ProvenTwap}
use state_keeper.Engine.{Engine, Row}
use state_keeper.Replay.{AccountState, TreeState, EpochInputs}
use state_keeper.Replay.Resolve.Run.{is_marking}
use state_keeper.Replay.Resolve.{
  twap_binds, row_of, touched_set, owners_map, build_row, default_account, no_risk, resolve_row,
  resolve_rows, resolve_epoch, place, live_state, step_of,
}

>>=-cong {ℓ κ} :
    {A : Type ℓ} {B : Type κ} {m n : Result A} {k h : A → Result B}
    → m ≡ n
    → ((a : A) → k a ≡ h a)
    → (m >>= k) ≡ (n >>= h)
>>=-cong p q = λ x. p x >>= λ a. q a x

module _ (e : Engine) where
  abbrev pub twap_binds_some : AccountState → ProvenTwap → Bool
  twap_binds_some a t = any (λ b. twap_binds e t b) a.positions

  abbrev pub mark_binds_some : AccountState → ProvenMark → Bool
  mark_binds_some a m = any (λ b. e.mark_binds_position b m) a.positions

  -- Inputs that differ in their domain separators at most, and in prices that bind no position of the
  -- tree.
  pub record SameEpoch (prior : TreeState) (i j : EpochInputs) : Type 0 where
    pub new_positions : i.new_positions ≡ j.new_positions
    pub paused_pairs : i.paused_pairs ≡ j.paused_pairs
    pub proof_now : i.proof_now ≡ j.proof_now
    pub twaps :
        (aid : ℕ) (a : AccountState)
        → get aid prior.accounts ≡ some a
        → filter (twap_binds_some a) i.proven_twaps ≡ filter (twap_binds_some a) j.proven_twaps
    pub marks :
        (aid : ℕ) (a : AccountState)
        → get aid prior.accounts ≡ some a
        → filter (mark_binds_some a) i.proven_marks ≡ filter (mark_binds_some a) j.proven_marks

  row_of-SameEpoch :
      (prior : TreeState) (i j : EpochInputs) (aid : ℕ) (a : AccountState)
      → SameEpoch prior i j
      → get aid prior.accounts ≡ some a
      → row_of e i a ≡ row_of e j a
  unfolding row_of
  row_of-SameEpoch prior i j aid a s found = rw (s.twaps aid a found, s.marks aid a found) refl

  owners_map-SameEpoch :
      (prior : TreeState) (i j : EpochInputs)
      → SameEpoch prior i j
      → owners_map e prior i ≡ owners_map e prior j
  unfolding owners_map
  owners_map-SameEpoch prior i j s = rw s.new_positions refl

  touched_set-SameEpoch :
      (prior : TreeState) (i j : EpochInputs)
      → SameEpoch prior i j
      → touched_set e prior i ≡ touched_set e prior j
  unfolding touched_set
  touched_set-SameEpoch prior i j s = rw s.new_positions refl

  build_row-SameEpoch :
      (prior : TreeState) (i j : EpochInputs) (aid : ℕ)
      → SameEpoch prior i j
      → build_row e prior i aid ≡ build_row e prior j aid
  unfolding build_row
  build_row-SameEpoch prior i j aid s =
      elim (get aid prior.accounts)
          as (λ o.
            (get aid prior.accounts ≡ o)
            → Path (Result Row)
                (elim o [
                  | some a ↦ ok (row_of e i a)
                  | none ↦ ok_or (get aid (owners_map e prior i)) panic >>= λ x.
                      ok (default_account x, no_risk)
                ])
                (elim o [
                  | some a ↦ ok (row_of e j a)
                  | none ↦ ok_or (get aid (owners_map e prior j)) panic >>= λ x.
                      ok (default_account x, no_risk)
                ])) [
                  | none ↦ λ absent.
                      ap (λ m. ok_or (get aid m) panic >>= λ x. ok (default_account x, no_risk))
                        (owners_map-SameEpoch prior i j s)
                  | some a ↦ λ found. ap ok (row_of-SameEpoch prior i j aid a s found)
                ]
        refl

  rows-SameEpoch :
      (prior : TreeState) (i j : EpochInputs) (aids : List ℕ)
      → SameEpoch prior i j
      → traverse (build_row e prior i) aids ≡ traverse (build_row e prior j) aids
  rows-SameEpoch prior i j [] s = refl
  rows-SameEpoch prior i j (aid ∷ aids) s =
      rw (build_row-SameEpoch prior i j aid s, rows-SameEpoch prior i j aids s) refl

  resolve_row-SameEpoch :
      (prior : TreeState) (i j : EpochInputs) (table : e.ScenarioTable) (marking : Bool) (row : Row)
      → SameEpoch prior i j
      → resolve_row e i table marking row ≡ resolve_row e j table marking row
  unfolding resolve_row
  resolve_row-SameEpoch prior i j table marking row s = rw (s.paused_pairs, s.proof_now) refl

  resolve_rows-SameEpoch :
      (prior : TreeState) (i j : EpochInputs) (table : e.ScenarioTable) (marking : Bool)
      (aids : List ℕ) (rows : List Row) (post : BTreeMap AccountState) (steps : List (ℕ × Option ℕ))
      → SameEpoch prior i j
      → resolve_rows e i table marking aids rows post steps
        ≡ resolve_rows e j table marking aids rows post steps
  unfolding resolve_rows
  resolve_rows-SameEpoch prior i j table marking [] rows post steps s = refl
  resolve_rows-SameEpoch prior i j table marking (aid ∷ aids) [] post steps s = refl
  resolve_rows-SameEpoch prior i j table marking (aid ∷ aids) (row ∷ rows) post steps s =
      >>=-cong (resolve_row-SameEpoch prior i j table marking row s) λ r.
        resolve_rows-SameEpoch prior i j table marking aids rows (place aid (live_state row r) post)
          (steps ++ step_of e aid (live_state row r) ∷ []) s

  -- An epoch resolves alike, to one outcome or one refusal, on inputs that differ in their domain
  -- separators at most, and in prices that bind no position of the tree.
  pub resolve_epoch-SameEpoch :
      (prior : TreeState) (i j : EpochInputs) (table : e.ScenarioTable)
      → SameEpoch prior i j
      → resolve_epoch e prior i table ≡ resolve_epoch e prior j table
  unfolding resolve_epoch
  resolve_epoch-SameEpoch prior i j table s =
      let touched = keys (touched_set e prior j) in
      rw (touched_set-SameEpoch prior i j s) (
        >>=-cong (rows-SameEpoch prior i j touched s) λ rows.
          >>=-cong (ap₂ (e.apply_new_boxes_to_book rows) s.new_positions s.proof_now) λ pre.
            >>=-cong
              (resolve_rows-SameEpoch prior i j table (is_marking rows) touched pre.0 empty [] s)
              λ out. refl)
