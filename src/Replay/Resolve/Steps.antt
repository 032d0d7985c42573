-- ===== src/Replay/Resolve/Steps.antt =====
-- The steps of an epoch against its post tree.
use state_keeper.Prelude.{
  ℕ, Bool, true, false, Option, none, some, List, [], ◌∷◌, ◌++◌, ◌==◌, if◌then◌else◌, contains, map,
  ok, >>=-eq-ok, traverse, append_assoc, append-nil, ◌≡◌, refl, sym, subst, ap, ◌∙◌, arith,
}
use state_keeper.BTreeMap.{BTreeMap, empty, insert_all, get, keys, as_entries}
use state_keeper.BTreeMap.Lookup.{get-insert}
use state_keeper.BTreeMap.Order.{
  Ascends, IsAscending, IsSorted, insert-IsSorted, insert_all-IsSorted, contains-Ascends,
  Ascends-IsAscending,
}
use state_keeper.Engine.{Engine, Row}
use state_keeper.Replay.{AccountState, TreeState, EpochInputs, EpochOutcome}
use state_keeper.Replay.Resolve.Run.{EpochRun, outcome_of, is_marking, resolve_epoch-EpochRun}
use state_keeper.Replay.Resolve.{
  resolve_row, resolve_rows, resolve_epoch, live_state, step_of, place, touched_set, party_entries,
  build_row,
}

module _ (e : Engine) where
  -- The step that the tree `m` shows at `aid`.
  abbrev pub step_at : BTreeMap AccountState → ℕ → ℕ × Option ℕ
  step_at m aid = step_of e aid (get aid m)

  get-place :
      (aid k : ℕ) (o : Option AccountState) (m : BTreeMap AccountState)
      → get k (place aid o m)
        ≡ (if k == aid then (elim o [ none ↦ get k m | some a ↦ some a ]) else get k m)
  get-place aid k none m = ground arith
  get-place aid k (some a) m = ground (arith, get-insert aid k a m)

  -- None of the accounts is in the tree.
  abbrev Avoids : List ℕ → BTreeMap AccountState → Type 0
  Avoids aids m = (k : ℕ) → contains aids k ≡ true → get k m ≡ none

  Avoids-place :
      (aid : ℕ) (aids : List ℕ) (o : Option AccountState) (m : BTreeMap AccountState)
      → Ascends aid aids
      → Avoids (aid ∷ aids) m
      → Avoids aids (place aid o m)
  Avoids-place aid aids o m s h k c =
      ground (arith, get-place aid k o m, h k, contains-Ascends aid aids s)

  -- What the loop over `aids` from `post` and `steps` has done when it returns `out`.
  record Resolved (aids : List ℕ) (post : BTreeMap AccountState) (steps : List (ℕ × Option ℕ))
      (out : BTreeMap AccountState × List (ℕ × Option ℕ)) : Type 0 where
    shown : out.1 ≡ steps ++ map (step_at out.0) aids
    outside : (k : ℕ) → contains aids k ≡ false → get k out.0 ≡ get k post
    sorted : IsSorted post → IsSorted out.0

  place-IsSorted :
      (aid : ℕ) (o : Option AccountState) (m : BTreeMap AccountState)
      → IsSorted m
      → IsSorted (place aid o m)
  place-IsSorted aid none m s = s
  place-IsSorted aid (some a) m s = insert-IsSorted aid a m s

  Resolved-cons :
      (aid : ℕ) (aids : List ℕ) (o : Option AccountState) (post : BTreeMap AccountState)
      (steps : List (ℕ × Option ℕ)) (out : BTreeMap AccountState × List (ℕ × Option ℕ))
      → Ascends aid aids
      → get aid post ≡ none
      → Resolved aids (place aid o post) (steps ++ step_of e aid o ∷ []) out
      → Resolved (aid ∷ aids) post steps out
  Resolved-cons aid aids o post steps out s absent r =
      let here : get aid out.0 ≡ o =
        r.outside aid (contains-Ascends aid aids s) ∙ ground (arith, get-place aid aid o post) in
      record {
        shown =
            r.shown
            ∙ append_assoc steps (step_of e aid o ∷ []) (map (step_at out.0) aids)
            ∙ ap (λ x. steps ++ step_of e aid x ∷ map (step_at out.0) aids) (sym here);
        outside = λ k c. ground (arith, r.outside k, get-place aid k o post);
        sorted = λ sp. r.sorted (place-IsSorted aid o post sp);
      }

  resolve_rows-Resolved :
      (inputs : EpochInputs) (table : e.ScenarioTable) (marking : Bool) (aids : List ℕ)
      (rows : List Row) (post : BTreeMap AccountState) (steps : List (ℕ × Option ℕ))
      (out : BTreeMap AccountState × List (ℕ × Option ℕ))
      → IsAscending aids
      → Avoids aids post
      → resolve_rows e inputs table marking aids rows post steps ≡ ok out
      → Resolved aids post steps out
  unfolding resolve_rows
  resolve_rows-Resolved inputs table marking [] rows post steps out s a h =
      let same : (post, steps) ≡ out = ground arith in
      subst (Resolved [] post steps) same
        (record { shown = sym (append-nil steps); outside = λ k c. refl; sorted = λ sp. sp })
  resolve_rows-Resolved inputs table marking (aid ∷ aids) [] post steps out s a h = cc
  resolve_rows-Resolved inputs table marking (aid ∷ aids) (row ∷ rows) post steps out s a h =
      let (r, found, rest) = >>=-eq-ok (resolve_row e inputs table marking row) _ h in
      let o = live_state row r in
      Resolved-cons aid aids o post steps out s (a aid (ground arith)) (
        resolve_rows-Resolved inputs table marking aids rows (place aid o post)
          (steps ++ step_of e aid o ∷ []) out (Ascends-IsAscending aid aids s)
          (Avoids-place aid aids o post s a) rest)

  -- What an epoch's outcome shows of its touched accounts: every account of the prior tree and every
  -- party of a new position.
  pub record EpochShape (prior : TreeState) (inputs : EpochInputs) (out : EpochOutcome)
      : Type 0 where
    pub shown : out.steps ≡ map (step_at out.post.accounts) (keys (touched_set e prior inputs))
    pub outside :
        (k : ℕ)
        → contains (keys (touched_set e prior inputs)) k ≡ false
        → get k out.post.accounts ≡ none
    pub sorted : IsSorted out.post.accounts
    pub ascending : IsAscending (keys (touched_set e prior inputs))
    pub rows :
        traverse (build_row e prior inputs) (keys (touched_set e prior inputs)) ≡ ok out.prior_rows

  touched_set-IsSorted :
      (prior : TreeState) (inputs : EpochInputs) → IsSorted (touched_set e prior inputs)
  unfolding touched_set
  touched_set-IsSorted prior inputs =
      insert_all-IsSorted
        (as_entries (map (λ (x : ℕ × ℕ). x.0) (party_entries e inputs.new_positions)))
        (insert_all (as_entries (keys prior.accounts)) empty)
        (insert_all-IsSorted (as_entries (keys prior.accounts)) empty tt)

  run_shape :
      (prior : TreeState) (inputs : EpochInputs) (table : e.ScenarioTable) (out : EpochOutcome)
      (run : EpochRun e prior inputs table out)
      → EpochShape prior inputs (outcome_of run.rows run.pre run.res)
  run_shape prior inputs table out run =
      let sorted_touched = touched_set-IsSorted prior inputs in
      let shape =
        resolve_rows-Resolved inputs table (is_marking run.rows) (keys (touched_set e prior inputs))
          run.pre.0 empty [] run.res sorted_touched (λ k c. unfold get in refl) run.resolved in
      record {
        shown = shape.shown;
        outside = λ k c. shape.outside k c ∙ (unfold get in refl);
        sorted = shape.sorted tt;
        ascending = sorted_touched;
        rows = run.built;
      }

  -- Every epoch that resolves emits one step for each touched account, in ascending order: the
  -- account's leaf in the post tree, or `None` where it is not in it. The post tree holds touched
  -- accounts only, in ascending order.
  pub resolve_epoch-EpochShape :
      (prior : TreeState) (inputs : EpochInputs) (table : e.ScenarioTable) (out : EpochOutcome)
      → resolve_epoch e prior inputs table ≡ ok out
      → EpochShape prior inputs out
  resolve_epoch-EpochShape prior inputs table out h =
      let run = resolve_epoch-EpochRun e prior inputs table out h in
      subst (EpochShape prior inputs) run.result (run_shape prior inputs table out run)
