-- ===== src/Frames/Mirror.antt =====
-- The two trees after the loop of `build_advance_frames`, read against the post tree.
use state_keeper.Prelude.{
  ℕ, Bool, true, false, Option, none, some, List, [], ◌∷◌, ◌==◌, if◌then◌else◌, contains, length,
  map, ◌≡◌, refl, ap, ◌∙◌, arith, Bool-cases, inl, inr,
}
use state_keeper.BTreeMap.{BTreeMap, BTreeSet, get, contains_key}
use state_keeper.BTreeMap.Order.{IsAscending, Ascends, contains-Ascends, Ascends-IsAscending}
use state_keeper.Engine.{Engine, Row}
use state_keeper.Engine.Laws.{IsTree, assign}
use state_keeper.Replay.{AccountState}
use state_keeper.Replay.Resolve.{post_leaf}
use state_keeper.Replay.Resolve.Steps.{step_at}
use state_keeper.Frames.{Trees, is_some, registry_step, touch, touch_all}

module _ (e : Engine) (l : IsTree e) where
  open l use {get-insert, get-remove, step_lem}

  get-assign :
      (k j : ℕ) (o : Option ℕ) (t : e.Smt2)
      → e.get j (assign e k o t) ≡ (if j == k then o else e.get j t)
  get-assign k j none t = get-remove k j t
  get-assign k j (some v) t = get-insert k v j t

  get-step :
      (k j : ℕ) (o : Option ℕ) (t : e.Smt2)
      → e.get j (e.step k o t).1 ≡ (if j == k then o else e.get j t)
  get-step k j o t = ap (e.get j) (step_lem k o t) ∙ get-assign k j o t

  -- The registry's entry of an account that is there.
  abbrev pub marker : Bool → Option ℕ
  marker true = some e.registry_leaf
  marker false = none

  get-registry_step :
      (aid j : ℕ) (was final : Bool) (t : e.Smt2)
      → e.get aid t ≡ marker was
      → e.get j (registry_step e aid was final t).1 ≡ (if j == aid then marker final else e.get j t)
  get-registry_step aid j true true t h = ground (arith)
  get-registry_step aid j true false t h = get-step aid j none t
  get-registry_step aid j false true t h = get-step aid j (some e.registry_leaf) t
  get-registry_step aid j false false t h = ground (arith)

  -- The trees agree with the prior keys at an account that no round has touched yet.
  pub record Fresh (prior_keys : BTreeSet) (t : Trees e) (aid : ℕ) : Type 0 where
    pub absent : contains_key aid prior_keys ≡ false → e.get aid t.smt ≡ none
    pub member : e.get aid t.registry ≡ marker (contains_key aid prior_keys)

  get-touch :
      (prior_keys : BTreeSet) (aid k : ℕ) (post : Option ℕ) (row : Row) (t : Trees e)
      → Fresh prior_keys t aid
      → (e.get k (touch e prior_keys aid post row t).smt
          ≡ (if k == aid then post else e.get k t.smt))
        × (e.get k (touch e prior_keys aid post row t).registry
            ≡ (if k == aid then marker (is_some e post) else e.get k t.registry))
  unfolding touch
  get-touch prior_keys aid k (some v) row t f = elim (Bool-cases (contains_key aid prior_keys)) [
    | inl was ↦ rw was (
      get-step aid k (some v) t.smt,
      get-registry_step aid k true true t.registry (f.member ∙ ap marker was),
    )
    | inr not_was ↦ rw not_was (
      get-step aid k (some v) t.smt,
      get-registry_step aid k false true t.registry (f.member ∙ ap marker not_was),
    )
  ]
  get-touch prior_keys aid k none row t f = elim (Bool-cases (contains_key aid prior_keys)) [
    | inl was ↦ rw was (
      get-step aid k none t.smt,
      get-registry_step aid k true false t.registry (f.member ∙ ap marker was),
    )
    | inr not_was ↦
        rw not_was (ground (arith, f.absent not_was), ground (arith, f.member ∙ ap marker not_was))
  ]

  Fresh-touch :
      (prior_keys : BTreeSet) (aid k : ℕ) (post : Option ℕ) (row : Row) (t : Trees e)
      → (k == aid) ≡ false
      → Fresh prior_keys t aid
      → Fresh prior_keys t k
      → Fresh prior_keys (touch e prior_keys aid post row t) k
  Fresh-touch prior_keys aid k post row t ne f g =
      let after = get-touch prior_keys aid k post row t f in
      record { absent = λ c. after.0 ∙ rw ne (g.absent c); member = after.1 ∙ rw ne g.member }

  -- What the loop leaves in the two trees, when the steps are those that the tree `m` shows.
  abbrev pub leaf_in : BTreeMap AccountState → ℕ → Option ℕ
  leaf_in m k = (step_at e m k).1

  is_some-post_leaf :
      (k : ℕ) (o : Option AccountState)
      → is_some e (post_leaf e k o) ≡ (elim o [ none ↦ false | some _ ↦ true ])
  is_some-post_leaf k none = refl
  is_some-post_leaf k (some a) = refl

  is_some-leaf_in : (m : BTreeMap AccountState) (k : ℕ) → is_some e (leaf_in m k) ≡ contains_key k m
  is_some-leaf_in m k = is_some-post_leaf k (get k m)

  pub record Mirrors (m : BTreeMap AccountState) (aids : List ℕ) (t t' : Trees e) : Type 0 where
    pub state : (k : ℕ) → e.get k t'.smt ≡ (if contains aids k then leaf_in m k else e.get k t.smt)
    pub members :
        (k : ℕ)
        → e.get k t'.registry
          ≡ (if contains aids k then marker (contains_key k m) else e.get k t.registry)

  Mirrors-cons :
      (prior_keys : BTreeSet) (m : BTreeMap AccountState) (aid : ℕ) (aids : List ℕ) (row : Row)
      (t t' : Trees e)
      → Ascends aid aids
      → Fresh prior_keys t aid
      → Mirrors m aids (touch e prior_keys aid (leaf_in m aid) row t) t'
      → Mirrors m (aid ∷ aids) t t'
  Mirrors-cons prior_keys m aid aids row t t' s f r = record {
    state = λ k. ground (
      arith,
      r.state k,
      (get-touch prior_keys aid k (leaf_in m aid) row t f).0,
      contains-Ascends aid aids s,
    );
    members = λ k. ground (
      arith,
      r.members k,
      (get-touch prior_keys aid k (leaf_in m aid) row t f).1,
      is_some-leaf_in m aid,
      contains-Ascends aid aids s,
    );
  }

  pub touch_all-Mirrors :
      (prior_keys : BTreeSet) (m : BTreeMap AccountState) (aids : List ℕ) (rows : List Row)
      (t : Trees e)
      → length rows ≡ length aids
      → IsAscending aids
      → ((k : ℕ) → contains aids k ≡ true → Fresh prior_keys t k)
      → Mirrors m aids t (touch_all e prior_keys (map (step_at e m) aids) rows t)
  unfolding touch_all
  touch_all-Mirrors prior_keys m [] rows t n s f = record { state = λ k. refl; members = λ k. refl }
  touch_all-Mirrors prior_keys m (aid ∷ aids) [] t n s f = absurd (omega arith)
  touch_all-Mirrors prior_keys m (aid ∷ aids) (row ∷ rows) t n s f =
      let ne : (k : ℕ) → contains aids k ≡ true → (k == aid) ≡ false =
        λ k c. ground (arith, contains-Ascends aid aids s) in
      let fresh = f aid (ground arith) in
      Mirrors-cons prior_keys m aid aids row t
        (touch_all e prior_keys (map (step_at e m) aids) rows
          (touch e prior_keys aid (leaf_in m aid) row t))
        s fresh
        (touch_all-Mirrors prior_keys m aids rows (touch e prior_keys aid (leaf_in m aid) row t)
          (omega arith) (Ascends-IsAscending aid aids s)
          (λ k c.
            Fresh-touch prior_keys aid k (leaf_in m aid) row t (ne k c) fresh (f k (ground arith))))
