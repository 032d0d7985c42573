-- ===== src/Replay/Rebuild/Growth.antt =====
-- A history that has grown, and the replay of its folds.
use mathlib.Core.List.{map-append}
use state_keeper.Prelude.{
  filter-append, ℕ, ◌-◌, ◌<◌, true, false, leb, ◌==◌, if◌then◌else◌, Option, none, some, List, [],
  ◌∷◌, ◌++◌, map, filter, contains, All, ok, ok_or, guard, traverse, >>=-eq-ok, >>=-ok,
  traverse-eq-ok, ok_or-eq-ok, ◌≡◌, refl, sym, ap, ◌∙◌, subst, arith, append-nil, ==_iff,
  Bool-cases, inl, inr, unmodelled_rows, open_not_recorded,
}
use state_keeper.BTreeMap.{empty, get, insert_all}
use state_keeper.BTreeMap.Lookup.{last_of, get-insert_all}
use state_keeper.Engine.{Engine}
use state_keeper.Types.{NewPosition}
use state_keeper.Scan.{
  ChainHistory, FoldRecord, OpenRecord, MarketSetRecord, paused_pairs_at, paused_tags, pause_entry,
}
use state_keeper.Replay.{TreeState, EpochInputs}
use state_keeper.Replay.Inputs.{
  open_entry, opens_by_id, fold_inputs, recover_open, is_modelled, proven_mark, proven_twap,
}
use state_keeper.Replay.Rebuild.Accepts.{Accepts, Replays}

abbrev pub open_id : OpenRecord → ℕ
open_id o = o.id

-- Every market set stands in a later block than the one before the fold's.
abbrev pub SetsAfter : List MarketSetRecord → FoldRecord → Type 0
SetsAfter sets f = All (λ (m : MarketSetRecord). f.block - 1 < m.block) sets

-- `later` is the history that has grown by the folds, and by opens of other ids and market sets that come
-- after every fold. The prices and the head may be any.
pub record Grows (history : ChainHistory) (new : List FoldRecord) (later : ChainHistory)
    : Type 0 where
  pub new_opens : List OpenRecord
  pub new_sets : List MarketSetRecord
  pub folds : later.folds ≡ history.folds ++ new
  pub opens : later.opens ≡ history.opens ++ new_opens
  pub other_ids :
      All (λ (o : OpenRecord). contains (map open_id history.opens) o.id ≡ false) new_opens
  pub market_sets : later.market_sets ≡ history.market_sets ++ new_sets
  pub after : All (SetsAfter new_sets) (history.folds ++ new)

last_of-append :
    (k : ℕ) (xs ys : List (ℕ × OpenRecord)) (o : Option OpenRecord)
    → last_of k (xs ++ ys) o ≡ last_of k ys (last_of k xs o)
unfolding last_of
last_of-append k [] ys o = refl
last_of-append k ((j, v) ∷ xs) ys o = last_of-append k xs ys (if k == j then some v else o)

-- An id that is not among the opens is not changed by them.
pub last_of_other :
    (k : ℕ) (os : List OpenRecord) (o : Option OpenRecord)
    → contains (map open_id os) k ≡ false
    → last_of k (map open_entry os) o ≡ o
unfolding last_of
last_of_other k [] o h = refl
last_of_other k (x ∷ os) o h = ground (arith, last_of_other k os o)

other_of_others :
    (old : List ℕ) (k : ℕ) (os : List OpenRecord)
    → All (λ (o : OpenRecord). contains old o.id ≡ false) os
    → contains old k ≡ true
    → contains (map open_id os) k ≡ false
other_of_others old k [] h c = refl
other_of_others old k (o ∷ os) h c = elim (Bool-cases (o.id == k)) [
  | inl e ↦
      let clash : contains old k ≡ false =
        subst (λ j. contains old j ≡ false) ((==_iff o.id k).0 e) h.0 in
      absurd (ground (arith, clash, c))
  | inr n ↦ rw n (other_of_others old k os h.1 c)
]

filter-SetsAfter :
    (f : FoldRecord) (sets : List MarketSetRecord)
    → SetsAfter sets f
    → filter (λ (m : MarketSetRecord). leb m.block (f.block - 1)) sets ≡ []
filter-SetsAfter f [] h = refl
filter-SetsAfter f (m ∷ ms) h = ground (arith, filter-SetsAfter f ms h.1)

-- An open that is found in the history is found in the grown one.
get-opens_by_id :
    (history later : ChainHistory) (new : List FoldRecord) (id : ℕ) (o : OpenRecord)
    → Grows history new later
    → get id (opens_by_id history) ≡ some o
    → get id (opens_by_id later) ≡ some o
unfolding opens_by_id get
get-opens_by_id history later new id o g found =
    let here = last_of id (map open_entry history.opens) none in
    let known : here ≡ some o =
      sym (get-insert_all id (map open_entry history.opens) empty) ∙ found in
    let listed : contains (map open_id history.opens) id ≡ true =
      elim (Bool-cases (contains (map open_id history.opens) id)) [
        | inl t ↦ t
        | inr f ↦ absurd (ground (arith, last_of_other id history.opens none f, known))
      ] in
    get-insert_all id (map open_entry later.opens) empty
    ∙ ap (λ os. last_of id (map open_entry os) none) g.opens
    ∙ ap (λ es. last_of id es none) (map-append open_entry history.opens g.new_opens)
    ∙ last_of-append id (map open_entry history.opens) (map open_entry g.new_opens) none
    ∙ last_of_other id g.new_opens here
        (other_of_others (map open_id history.opens) id g.new_opens g.other_ids listed)
    ∙ known

recover_opens-Grows :
    (history later : ChainHistory) (new : List FoldRecord) (fold : FoldRecord) (ids : List ℕ)
    (ps : List NewPosition)
    → Grows history new later
    → traverse (recover_open (opens_by_id history) fold) ids ≡ ok ps
    → traverse (recover_open (opens_by_id later) fold) ids ≡ ok ps
unfolding recover_open
recover_opens-Grows history later new fold [] ps g h = h
recover_opens-Grows history later new fold (id ∷ ids) ps g h =
    let (q, qs, here, rest, same) =
      traverse-eq-ok (recover_open (opens_by_id history) fold) id ids h in
    let (o, found, mapped) =
      >>=-eq-ok (ok_or (get id (opens_by_id history)) (open_not_recorded fold.block id)) _ here in
    let still : get id (opens_by_id later) ≡ some o =
      get-opens_by_id history later new id o g
        (ok_or-eq-ok (get id (opens_by_id history)) (open_not_recorded fold.block id) o found) in
    let first : recover_open (opens_by_id later) fold id ≡ ok q =
      >>=-ok _ (ap (λ x. ok_or x (open_not_recorded fold.block id)) still) mapped in
    >>=-ok _ first
      (>>=-ok _ (recover_opens-Grows history later new fold ids qs g rest) (ap ok (sym same)))

paused-Grows :
    (history later : ChainHistory) (new : List FoldRecord) (fold : FoldRecord)
    (g : Grows history new later)
    → SetsAfter g.new_sets fold
    → paused_pairs_at later (fold.block - 1) ≡ paused_pairs_at history (fold.block - 1)
unfolding paused_pairs_at
paused-Grows history later new fold g after =
    let p = λ (m : MarketSetRecord). leb m.block (fold.block - 1) in
    ap (λ (sets : List MarketSetRecord). paused_tags (insert_all (map pause_entry sets) empty))
      (ap (filter p) g.market_sets
        ∙ filter-append p history.market_sets g.new_sets
        ∙ ap (λ l. filter p history.market_sets ++ l) (filter-SetsAfter fold g.new_sets after)
        ∙ append-nil (filter p history.market_sets))

-- The inputs of a fold that was replayed are recovered from the grown history too.
pub fold_inputs-Grows :
    (history later : ChainHistory) (new : List FoldRecord) (fold : FoldRecord)
    (inputs : EpochInputs) (g : Grows history new later)
    → SetsAfter g.new_sets fold
    → fold_inputs fold (opens_by_id history) history ≡ ok inputs
    → fold_inputs fold (opens_by_id later) later ≡ ok inputs
unfolding fold_inputs
fold_inputs-Grows history later new fold inputs g after h =
    let opens = opens_by_id history in
    let ids = fold.pv.opened_position_ids in
    let (_u, modelled, h1) =
      >>=-eq-ok (guard (is_modelled fold) (unmodelled_rows fold.block)) _ h in
    let (ps, recovered, h2) = >>=-eq-ok (traverse (recover_open opens fold) ids) _ h1 in
    let (marks, found, h3) = >>=-eq-ok (traverse proven_mark fold.pv.consumed_marks) _ h2 in
    let (twaps, read, h4) = >>=-eq-ok (traverse proven_twap fold.pv.consumed_twaps) _ h3 in
    >>=-ok _ modelled (
      >>=-ok _ (recover_opens-Grows history later new fold ids ps g recovered)
        (>>=-ok _ found (>>=-ok _ read (rw (paused-Grows history later new fold g after) h4))))

module _ (e : Engine) (table : e.ScenarioTable) where
  Accepts-Grows :
      (history later : ChainHistory) (new : List FoldRecord) (fold : FoldRecord)
      (state state' : TreeState) (g : Grows history new later)
      → SetsAfter g.new_sets fold
      → Accepts e table history fold state state'
      → Accepts e table later fold state state'
  Accepts-Grows history later new fold state state' g after a = record {
    inputs = a.inputs;
    outcome = a.outcome;
    recovered = fold_inputs-Grows history later new fold a.inputs g after a.recovered;
    committed = a.committed;
    root_prev = a.root_prev;
    resolved = a.resolved;
    surfaced = a.surfaced;
    root_new = a.root_new;
    accounts_root_new = a.accounts_root_new;
    next = a.next;
  }

  pub Replays-Grows :
      (history later : ChainHistory) (new : List FoldRecord) (g : Grows history new later)
      {folds : List FoldRecord} {state last : TreeState}
      → All (SetsAfter g.new_sets) folds
      → Replays e table history folds state last
      → Replays e table later folds state last
  Replays-Grows history later new g after Replays.done = Replays.done
  Replays-Grows history later new g after (Replays.next {fold = f} {state = s} {middle = m} a r) =
      Replays.next (Accepts-Grows history later new f s m g after.0 a)
        (Replays-Grows history later new g after.1 r)
