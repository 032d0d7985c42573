-- ===== src/Frames/Roots.antt =====
-- The roots of the two trees before and after the loop of `build_advance_frames`.
use state_keeper.Prelude.{
  ℕ, Bool, true, false, Option, none, some, List, [], ◌∷◌, if◌then◌else◌, contains, map,
  length-traverse, ◌≡◌, refl, sym, ap, ◌∙◌, arith,
}
use state_keeper.BTreeMap.{BTreeMap, get, keys, contains_key, insert_all, as_entries, empty}
use state_keeper.BTreeMap.Lookup.{last_of, contains_key-collect, contains_key-extend}
use state_keeper.BTreeMap.Order.{IsSorted, Ascends-IsAscending, get-Ascends, contains-keys}
use state_keeper.Engine.{Engine}
use state_keeper.Engine.Laws.{IsTree, insert_leaves}
use state_keeper.Engine.Leaves.{at_each, get-from_leaves, get-insert_each}
use state_keeper.Replay.{
  AccountState, TreeState, EpochInputs, EpochOutcome, leaf_of, leaves_of, leaves, root,
  accounts_root,
}
use state_keeper.Replay.Resolve.{post_leaf, touched_set, party_entries}
use state_keeper.Replay.Resolve.Steps.{EpochShape}
use state_keeper.Frames.{final_trees, first_trees, prior_keys_of, insert_registry}
use state_keeper.Frames.Mirror.{marker, Fresh, Mirrors, touch_all-Mirrors}

if_same : (c : Bool) (x y : Option ℕ) → (c ≡ false → x ≡ y) → (if c then y else x) ≡ y
if_same true x y h = refl
if_same false x y h = h refl

module _ (e : Engine) (l : IsTree e) where
  last_of-leaves_of :
      (k : ℕ) (m : BTreeMap AccountState) (o : Option ℕ)
      → IsSorted m
      → last_of k (leaves_of e m) o ≡ (elim (get k m) [ none ↦ o | some a ↦ some (leaf_of e k a) ])
  unfolding last_of get
  last_of-leaves_of k [] o s = refl
  last_of-leaves_of k ((j, a) ∷ m) o s = ground (
    arith,
    last_of-leaves_of k m o (Ascends-IsAscending j (keys m) s),
    last_of-leaves_of k m (some (leaf_of e j a)) (Ascends-IsAscending j (keys m) s),
    get-Ascends j k m s,
  )

  contains-leaf_keys :
      (k : ℕ) (m : BTreeMap AccountState)
      → contains (map (λ (x : ℕ × ℕ). x.0) (leaves_of e m)) k ≡ contains (keys m) k
  contains-leaf_keys k [] = refl
  contains-leaf_keys k ((j, a) ∷ m) = ground (arith, contains-leaf_keys k m)

  -- The set of prior keys holds the accounts of the tree.
  prior_keys_lem :
      (k : ℕ) (state : TreeState)
      → contains_key k (prior_keys_of e state) ≡ contains_key k state.accounts
  unfolding leaves
  prior_keys_lem k state =
      contains_key-collect k (map (λ (x : ℕ × ℕ). x.0) (leaves_of e state.accounts))
      ∙ contains-leaf_keys k state.accounts
      ∙ contains-keys k state.accounts

  insert_registry_lem :
      (ks : List ℕ) (t : e.Smt2)
      → insert_registry e ks t ≡ insert_leaves e (at_each e.registry_leaf ks) t
  unfolding insert_registry
  insert_registry_lem [] t = refl
  insert_registry_lem (k ∷ ks) t = insert_registry_lem ks (e.insert k e.registry_leaf t)

  get-leaves :
      (k : ℕ) (state : TreeState)
      → IsSorted state.accounts
      → e.get k (e.from_leaves (leaves e state)) ≡ post_leaf e k (get k state.accounts)
  unfolding leaves
  get-leaves k state s =
      get-from_leaves e l k (leaves_of e state.accounts)
      ∙ last_of-leaves_of k state.accounts none s
      ∙ same_cases (get k state.accounts)
    where
      same_cases :
          (o : Option AccountState)
          → (elim o [ none ↦ none | some a ↦ some (leaf_of e k a) ]) ≡ post_leaf e k o
      same_cases none = refl
      same_cases (some a) = refl

  absent_leaf :
      (k : ℕ) (m : BTreeMap AccountState)
      → contains_key k m ≡ false
      → post_leaf e k (get k m) ≡ none
  absent_leaf k m h = ground arith

  first_trees-Fresh :
      (state : TreeState) (k : ℕ)
      → IsSorted state.accounts
      → Fresh e l (prior_keys_of e state) (first_trees e state) k
  first_trees-Fresh state k s = record {
    absent =
        λ c. get-leaves k state s ∙ absent_leaf k state.accounts (sym (prior_keys_lem k state) ∙ c);
    member =
        ap (e.get k) (insert_registry_lem (keys (prior_keys_of e state)) e.new)
        ∙ get-insert_each e l k e.registry_leaf (keys (prior_keys_of e state))
        ∙ ground (arith, contains-keys k (prior_keys_of e state));
  }

  -- Every account of the prior tree is touched.
  contains-touched :
      (k : ℕ) (prior : TreeState) (inputs : EpochInputs)
      → contains (keys (touched_set e prior inputs)) k ≡ false
      → contains_key k prior.accounts ≡ false
  unfolding touched_set
  contains-touched k prior inputs h =
      let parties = map (λ (x : ℕ × ℕ). x.0) (party_entries e inputs.new_positions) in
      ground (
        arith,
        contains-keys k (touched_set e prior inputs),
        contains_key-extend k parties (insert_all (as_entries (keys prior.accounts)) empty),
        contains_key-collect k (keys prior.accounts),
        contains-keys k prior.accounts,
      )

  absent_marker :
      (k : ℕ) (m : BTreeMap AccountState) → get k m ≡ none → marker e l (contains_key k m) ≡ none
  absent_marker k m h = ground arith

  marker_of_key :
      (k : ℕ) (m : BTreeMap AccountState)
      → marker e l (contains_key k m) ≡ (if contains (keys m) k then some e.registry_leaf else none)
  marker_of_key k m = ground (arith, contains-keys k m)

  final_trees-Mirrors :
      (state : TreeState) (inputs : EpochInputs) (out : EpochOutcome)
      → IsSorted state.accounts
      → EpochShape e state inputs out
      → Mirrors e l out.post.accounts
          (keys (touched_set e state inputs))
          (first_trees e state)
          (final_trees e state out)
  final_trees-Mirrors state inputs out s shape = rw shape.shown (
      touch_all-Mirrors e l (prior_keys_of e state) out.post.accounts
        (keys (touched_set e state inputs)) out.prior_rows (first_trees e state)
        (length-traverse _ (keys (touched_set e state inputs)) _ shape.rows) shape.ascending
        (λ k c. first_trees-Fresh state k s))

  -- The state tree that the loop ends with has the root of the post tree.
  pub final_state_root :
      (state : TreeState) (inputs : EpochInputs) (out : EpochOutcome)
      → IsSorted state.accounts
      → EpochShape e state inputs out
      → e.root (final_trees e state out).smt ≡ root e out.post
  unfolding root
  final_state_root state inputs out s shape =
      let mirrors = final_trees-Mirrors state inputs out s shape in
      let before = first_trees-Fresh state in
      l.root_ext _ _ λ k.
        mirrors.state k
        ∙ if_same (contains (keys (touched_set e state inputs)) k) _ _ (λ c.
          (before k s).absent (prior_keys_lem k state ∙ contains-touched k state inputs c)
          ∙ ap (post_leaf e k) (sym (shape.outside k c)))
        ∙ sym (get-leaves k out.post shape.sorted)

  pub final_registry_root :
      (state : TreeState) (inputs : EpochInputs) (out : EpochOutcome)
      → IsSorted state.accounts
      → EpochShape e state inputs out
      → e.root (final_trees e state out).registry ≡ accounts_root e out.post
  unfolding accounts_root
  final_registry_root state inputs out s shape =
      let mirrors = final_trees-Mirrors state inputs out s shape in
      let before = first_trees-Fresh state in
      let after = insert_leaves e (at_each e.registry_leaf (keys out.post.accounts)) e.new in
      l.root_ext (final_trees e state out).registry after (λ k.
        mirrors.members k
        ∙ if_same (contains (keys (touched_set e state inputs)) k) _ _ (λ c.
          (before k s).member
          ∙ ap (marker e l) (prior_keys_lem k state ∙ contains-touched k state inputs c)
          ∙ sym (absent_marker k out.post.accounts (shape.outside k c)))
        ∙ marker_of_key k out.post.accounts
        ∙ sym (get-insert_each e l k e.registry_leaf (keys out.post.accounts)))
      ∙ sym (l.credited_deposit_registry_lem (keys out.post.accounts))

  pub first_registry_root :
      (state : TreeState) → e.root (first_trees e state).registry ≡ accounts_root e state
  unfolding accounts_root
  first_registry_root state =
      l.root_ext _ (insert_leaves e (at_each e.registry_leaf (keys state.accounts)) e.new) (λ k.
        ap (e.get k) (insert_registry_lem (keys (prior_keys_of e state)) e.new)
        ∙ get-insert_each e l k e.registry_leaf (keys (prior_keys_of e state))
        ∙ ground (
          arith,
          contains-keys k (prior_keys_of e state),
          contains-keys k state.accounts,
          prior_keys_lem k state,
        )
        ∙ sym (get-insert_each e l k e.registry_leaf (keys state.accounts)))
      ∙ sym (l.credited_deposit_registry_lem (keys state.accounts))
