-- ===== src/Keeper/Fresh/Recorded.antt =====
-- The new positions and the pauses of the next epoch's inputs, read back from the history.
use state_keeper.Prelude.{
  All-filter, All-imp, ℕ, ◌-◌, ◌^◌, ◌≤◌, false, not, ◌==◌, leb, if◌then◌else◌, Option, none, some,
  List, [], ◌∷◌, map, filter, contains, All, ok, traverse, traverse-eq-ok, >>=-eq-ok, ok-injective,
  ◌≡◌, refl, sym, ap, ◌∙◌, subst, arith, ==_iff,
}
use state_keeper.BTreeMap.{empty, get}
use state_keeper.BTreeMap.Lookup.{last_of, get-insert_all}
use state_keeper.Types.{NewPosition}
use state_keeper.Engine.{Engine}
use state_keeper.Scan.{
  ChainHistory, FoldRecord, OpenRecord, MarketSetRecord, unfolded_opens, paused_pairs_at,
}
use state_keeper.Scan.Unfolded.{is_folded, unfolded_opens_lem}
use state_keeper.Replay.{TreeState, EpochInputs}
use state_keeper.Replay.Open.{open_to_new_position}
use state_keeper.Replay.Inputs.{open_entry, opens_by_id}
use state_keeper.Replay.Rebuild.Growth.{open_id, last_of_other}
use state_keeper.Replay.Rebuild.Recovered.{IsRecorded}
use state_keeper.Replay.Rebuild.Surfaced.{terms_id-open_to_new_position}
use state_keeper.Keeper.Fresh.{fresh_epoch_inputs}

-- No id stands twice among the opens.
abbrev pub IsUnique : List OpenRecord → Type 0
IsUnique [] = Unit
IsUnique (o ∷ os) = (contains (map open_id os) o.id ≡ false) × IsUnique os

-- The record is the last for its id, whatever came before.
abbrev IsLast : List OpenRecord → OpenRecord → Type 0
IsLast os o = (before : Option OpenRecord) → last_of o.id (map open_entry os) before ≡ some o

unique-IsLast : (os : List OpenRecord) → IsUnique os → All (IsLast os) os
unfolding last_of
unique-IsLast [] u = tt
unique-IsLast (o ∷ os) u = (
  λ before.
      ap (λ b. last_of o.id (map open_entry os) (if b then some o else before))
        ((==_iff o.id o.id).1 refl)
      ∙ last_of_other o.id os (some o) u.0,
  All-imp (IsLast os) (IsLast (o ∷ os)) os
      (λ r h before. h (if r.id == o.id then some o else before)) (unique-IsLast os u.1),
)

-- Each open is found under its id.
get_unique :
    (history : ChainHistory)
    → IsUnique history.opens
    → All (λ (o : OpenRecord). get o.id (opens_by_id history) ≡ some o) history.opens
unfolding opens_by_id get
get_unique history u =
    All-imp (IsLast history.opens) (λ (o : OpenRecord). get o.id (opens_by_id history) ≡ some o)
      history.opens (λ o h. get-insert_all o.id (map open_entry history.opens) empty ∙ h none)
      (unique-IsLast history.opens u)

traverse-IsRecorded :
    (history : ChainHistory) (domain : ℕ) (os : List OpenRecord) (ps : List NewPosition)
    → All (λ (o : OpenRecord). get o.id (opens_by_id history) ≡ some o) os
    → traverse (λ o. open_to_new_position o domain) os ≡ ok ps
    → All (IsRecorded history domain) ps
traverse-IsRecorded history domain [] ps f h =
    subst (All (IsRecorded history domain)) (ok-injective h) tt
traverse-IsRecorded history domain (o ∷ os) ps f h =
    let (q, qs, here, rest, same) = traverse-eq-ok (λ o. open_to_new_position o domain) o os h in
    let named : q.terms_id ≡ o.id = terms_id-open_to_new_position o domain q here in
    subst (All (IsRecorded history domain)) (sym same) (
      (o, ap (λ k. get k (opens_by_id history)) named ∙ f.0, here),
      traverse-IsRecorded history domain os qs f.1 rest,
    )

-- Every market set stands up to the block before the fold's.
abbrev pub SetsBefore : List MarketSetRecord → FoldRecord → Type 0
SetsBefore sets f = All (λ (m : MarketSetRecord). m.block ≤ f.block - 1) sets

filter_whole :
    (block : ℕ) (sets : List MarketSetRecord)
    → All (λ (m : MarketSetRecord). m.block ≤ block) sets
    → filter (λ (m : MarketSetRecord). leb m.block block) sets ≡ sets
filter_whole block [] h = refl
filter_whole block (m ∷ ms) h = ground (arith, filter_whole block ms h.1)

All-later :
    (block bound : ℕ) (sets : List MarketSetRecord)
    → block ≤ bound
    → All (λ (m : MarketSetRecord). m.block ≤ block) sets
    → All (λ (m : MarketSetRecord). m.block ≤ bound) sets
All-later block bound sets h a =
    All-imp (λ (m : MarketSetRecord). m.block ≤ block) (λ m. m.block ≤ bound) sets
      (λ m k. omega arith) a

-- With no later market set, the pauses of a block are those of any block after it.
pub paused_pairs_at_later :
    (history : ChainHistory) (block bound : ℕ)
    → block ≤ bound
    → All (λ (m : MarketSetRecord). m.block ≤ block) history.market_sets
    → paused_pairs_at history block ≡ paused_pairs_at history bound
unfolding paused_pairs_at
paused_pairs_at_later history block bound h a =
    rw
      (
        filter_whole block history.market_sets a,
        filter_whole bound history.market_sets (All-later block bound history.market_sets h a),
      )
      refl

-- What the chain makes of the history between the scan and the fold that lands: an id is opened once,
-- the fold's block is a `u64`, and no market set stands in its block or after.
pub record Follows (history : ChainHistory) (fold : FoldRecord) : Type 0 where
  pub unique : IsUnique history.opens
  pub in_u64 : fold.block - 1 ≤ 2 ^ 64 - 1
  pub sets_before : SetsBefore history.market_sets fold

module _ (e : Engine) where
  pub fresh_epoch_inputs-IsRecorded :
      (history : ChainHistory) (state : TreeState) (domain now : ℕ) (inputs : EpochInputs)
      → IsUnique history.opens
      → fresh_epoch_inputs e history state domain now ≡ ok inputs
      → All (IsRecorded history inputs.domain_separator) inputs.new_positions
  unfolding fresh_epoch_inputs
  fresh_epoch_inputs-IsRecorded history state domain now inputs u h =
      let (ps, mapped, same) =
        >>=-eq-ok (traverse (λ o. open_to_new_position o domain) (unfolded_opens history)) _ h in
      let open_unfolded = λ (o : OpenRecord). not (is_folded o.id history.folds) in
      let known =
        All-filter (λ (o : OpenRecord). get o.id (opens_by_id history) ≡ some o) open_unfolded
          history.opens (get_unique history u) in
      let read =
        ap (traverse (λ o. open_to_new_position o domain)) (sym (unfolded_opens_lem history))
        ∙ mapped in
      subst (λ (i : EpochInputs). All (IsRecorded history i.domain_separator) i.new_positions)
        (ok-injective same) (traverse-IsRecorded history domain _ ps known read)

  pub paused-fresh_epoch_inputs :
      (history : ChainHistory) (state : TreeState) (domain now : ℕ) (inputs : EpochInputs)
      → fresh_epoch_inputs e history state domain now ≡ ok inputs
      → inputs.paused_pairs ≡ paused_pairs_at history (2 ^ 64 - 1)
  unfolding fresh_epoch_inputs
  paused-fresh_epoch_inputs history state domain now inputs h =
      let (ps, mapped, same) =
        >>=-eq-ok (traverse (λ o. open_to_new_position o domain) (unfolded_opens history)) _ h in
      ap (λ (i : EpochInputs). i.paused_pairs) (sym (ok-injective same))
