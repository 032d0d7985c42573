-- ===== src/Replay/Resolve.antt =====
-- `resolve_epoch`: one epoch of the guest's pipeline on the host.
pub mod Booked
pub mod Books
pub mod Parties
pub mod Prices
pub mod Reordered
pub mod Run
pub mod Settles
pub mod Steps
use state_keeper.Prelude.{
  ℕ, ℤ, pos, Bool, true, false, not, ◌&&◌, ◌||◌, Option, none, some, List, [], ◌∷◌, ◌++◌, ◌==◌,
  if◌then◌else◌, any, filter, contains, Result, ok, err, panic, ◌>>=◌, ◌>>◌, ok_or, traverse, map,
}
use state_keeper.BTreeMap.{BTreeMap, BTreeSet, empty, insert, insert_all, get, keys, as_entries}
use state_keeper.Types.{
  PositionRecord, PositionSettlement, NewPosition, ProvenMark, ProvenTwap, Account, RiskInputs,
  AccountResolve,
}
use state_keeper.Engine.{Engine, Row}
use state_keeper.Replay.{AccountState, TreeState, EpochInputs, EpochOutcome, empty_tree, leaf_of}

abbrev pub owner_entry : ℕ × AccountState → ℕ × ℕ
owner_entry (aid, a) = (aid, a.owner)

-- `Account { account_owner, ..Default::default() }`
abbrev pub default_account : ℕ → Account
default_account owner = record {
  account_owner = owner;
  positions = [];
  vm_equity = pos 0;
  prev_vm_equity = pos 0;
  positions_root = 0;
}

abbrev pub no_risk : RiskInputs
no_risk = record {
  unconsumed_settle_residual = none;
  positions = [];
  position_settlements = [];
  proven_twaps = [];
  proven_marks = [];
}

abbrev pub is_nonempty {ℓ} : {A : Type ℓ} → List A → Bool
is_nonempty [] = false
is_nonempty (x ∷ xs) = true

-- What an answer puts in the tree: the account if it is live.
abbrev pub live_state : Row → AccountResolve → Option AccountState
live_state row r =
    if r.positions_live
    then some
        (record { owner = row.0.account_owner; vm_equity = r.vm_equity; positions = r.surviving })
    else none

abbrev pub place : ℕ → Option AccountState → BTreeMap AccountState → BTreeMap AccountState
place aid none m = m
place aid (some a) m = insert aid a m

module _ (e : Engine) where
  -- The two parties of each new position, as keys of accounts.
  abbrev pub party_entries : List NewPosition → List (ℕ × ℕ)
  party_entries [] = []
  party_entries (np ∷ nps) =
      (e.account_id_single np.party_a, np.party_a)
      ∷ (e.account_id_single np.party_b, np.party_b)
      ∷ party_entries nps

  -- `touched` and `owners`, filled by the same two loops.
  unfoldable pub touched_set : TreeState → EpochInputs → BTreeSet
  touched_set prior inputs =
      insert_all (as_entries (map (λ (x : ℕ × ℕ). x.0) (party_entries inputs.new_positions)))
        (insert_all (as_entries (keys prior.accounts)) empty)

  unfoldable pub owners_map : TreeState → EpochInputs → BTreeMap ℕ
  owners_map prior inputs =
      insert_all (party_entries inputs.new_positions)
        (insert_all (map owner_entry prior.accounts) empty)

  abbrev pub twap_binds : ProvenTwap → PositionRecord → Bool
  twap_binds tw b = e.feed_id_oracle tw.feed_id == b.oracle && b.expiry == tw.close_time

  -- The row of an account of the prior tree, with the marks and twaps that bind its positions.
  unfoldable pub row_of : EpochInputs → AccountState → Row
  row_of inputs a = (
    record {
      account_owner = a.owner;
      positions = [];
      vm_equity = a.vm_equity;
      prev_vm_equity = a.vm_equity;
      positions_root = e.positions_root a.positions;
    },
    record {
      unconsumed_settle_residual = none;
      positions = a.positions;
      position_settlements = [];
      proven_twaps = filter (λ tw. any (λ b. twap_binds tw b) a.positions) inputs.proven_twaps;
      proven_marks =
          filter (λ m. any (λ b. e.mark_binds_position b m) a.positions) inputs.proven_marks;
    },
  )

  -- One row; `owners[aid]` panics on a missing key.
  unfoldable pub build_row : TreeState → EpochInputs → ℕ → Result Row
  build_row prior inputs aid = elim (get aid prior.accounts) [
    | some a ↦ ok (row_of inputs a)
    | none ↦
        ok_or (get aid (owners_map prior inputs)) panic >>= λ o. ok (default_account o, no_risk)
  ]

  -- Positions that stay for the variation margin: paused, or without a settlement.
  abbrev pub survivors_for_vm :
      EpochInputs → List PositionRecord → List PositionSettlement → List PositionRecord
  survivors_for_vm inputs positions settlements =
      filter
        (λ b.
          contains inputs.paused_pairs (e.pair_tag_of b.oracle)
          || not (any (λ s. s.terms_id == b.terms_id) settlements))
        positions

  -- The body of the resolve loop, up to the engine's answer.
  unfoldable pub resolve_row : EpochInputs → e.ScenarioTable → Bool → Row → Result AccountResolve
  resolve_row inputs table marking_epoch (a, ri) = do
    settled ← e.position_settlements_from_twaps ri.positions ri.proven_twaps
    let survivors : List PositionRecord = survivors_for_vm inputs ri.positions settled.0
    vm ←
        (if marking_epoch
          then (e.account_vm_from_marks survivors ri.proven_marks >>= λ v. ok v.0)
          else ok a.prev_vm_equity)
    e.resolve_account a.account_owner ri.positions settled.0 vm inputs.paused_pairs inputs.proof_now
        table

  abbrev pub post_leaf : ℕ → Option AccountState → Option ℕ
  post_leaf aid none = none
  post_leaf aid (some a) = some (leaf_of e aid a)

  abbrev pub step_of : ℕ → Option AccountState → ℕ × Option ℕ
  step_of aid o = (aid, post_leaf aid o)

  -- The resolve loop over the touched accounts and their rows; `rows[idx]` panics out of range.
  unfoldable pub resolve_rows :
      EpochInputs
      → e.ScenarioTable
      → Bool
      → List ℕ
      → List Row
      → BTreeMap AccountState
      → List (ℕ × Option ℕ)
      → Result (BTreeMap AccountState × List (ℕ × Option ℕ))
  resolve_rows inputs table marking [] rows post steps = ok (post, steps)
  resolve_rows inputs table marking (aid ∷ aids) [] post steps = err panic
  resolve_rows inputs table marking (aid ∷ aids) (row ∷ rows) post steps =
      resolve_row inputs table marking row >>= λ r.
      resolve_rows inputs table marking aids rows (place aid (live_state row r) post)
        (steps ++ step_of aid (live_state row r) ∷ [])

  unfoldable pub resolve_epoch : TreeState → EpochInputs → e.ScenarioTable → Result EpochOutcome
  resolve_epoch prior inputs table = do
    let touched : List ℕ = keys (touched_set prior inputs)
    rows ← traverse (build_row prior inputs) touched
    let marking : Bool = any (λ (r : Row). is_nonempty r.1.proven_marks) rows
    pre ← e.apply_new_boxes_to_book rows inputs.new_positions inputs.proof_now
    let processed : List ℕ = pre.1.opened ++ pre.1.rejected
    out ← resolve_rows inputs table marking touched pre.0 empty []
    ok (record {
      post = record { accounts = out.0 };
      steps = out.1;
      prior_rows = rows;
      processed_open_ids = processed;
    })
