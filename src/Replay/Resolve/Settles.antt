-- ===== src/Replay/Resolve/Settles.antt =====
-- The prices of an account's row in an epoch that resolves.
use mathlib.Core.List.{head-eq_of_cons-eq, tail-eq_of_cons-eq}
use state_keeper.Prelude.{
  ℕ, ◌≤◌, Bool, true, ◌==◌, ==_iff, Bool-cases, inl, inr, Option, some, List, [], ◌∷◌, ◌++◌, map,
  filter, length, contains, ok, >>=-eq-ok, ok-injective, traverse, traverse-eq-ok, ◌≡◌, refl, sym,
  ap, ◌∙◌, subst, arith,
}
use state_keeper.BTreeMap.{BTreeMap, empty, get, keys, insert_all, as_entries}
use state_keeper.BTreeMap.Lookup.{contains-keys, contains_key-extend}
use state_keeper.Types.{ProvenTwap}
use state_keeper.Engine.{Engine, Row}
use state_keeper.Engine.Laws.{settles_at, row_twaps, IsSettling}
use state_keeper.Replay.{AccountState, TreeState, EpochInputs, EpochOutcome}
use state_keeper.Replay.Resolve.{
  touched_set, build_row, row_of, resolve_row, resolve_rows, place, live_state, step_of,
  party_entries,
}
use state_keeper.Replay.Resolve.Run.{EpochRun, is_marking}

-- An account of the tree is touched.
pub touched-prior :
    (e : Engine) (prior : TreeState) (i : EpochInputs) (aid : ℕ) (a : AccountState)
    → get aid prior.accounts ≡ some a
    → contains (keys (touched_set e prior i)) aid ≡ true
unfolding touched_set
touched-prior e prior i aid a found =
    let parties = map (λ (x : ℕ × ℕ). x.0) (party_entries e i.new_positions) in
    let known = insert_all (as_entries (keys prior.accounts)) empty in
    ground (
      arith,
      contains-keys aid (insert_all (as_entries parties) known),
      contains_key-extend aid parties known,
      contains_key-extend aid (keys prior.accounts) empty,
      contains-keys aid prior.accounts,
    )

-- The row of an account of the tree.
pub build_row-prior :
    (e : Engine) (prior : TreeState) (i : EpochInputs) (aid : ℕ) (a : AccountState)
    → get aid prior.accounts ≡ some a
    → build_row e prior i aid ≡ ok (row_of e i a)
unfolding build_row
build_row-prior e prior i aid a found = rw (found, build_row) refl

module _ (e : Engine) (s : IsSettling e) where
  abbrev OnePrice : ℕ → ℕ → List ProvenTwap → Type 0
  OnePrice oracle expiry ts = length (filter (settles_at e oracle expiry) ts) ≤ 1

  resolve_row-OnePrice :
      (i : EpochInputs) (table : e.ScenarioTable) (marking : Bool) (r : Row) (x : _)
      (oracle expiry : ℕ)
      → resolve_row e i table marking r ≡ ok x
      → OnePrice oracle expiry r.1.proven_twaps
  unfolding resolve_row
  resolve_row-OnePrice i table marking r x oracle expiry h =
      let (settled, found, _u) =
        >>=-eq-ok (e.position_settlements_from_twaps r.1.positions r.1.proven_twaps) _ h in
      s.one-price r.1.positions r.1.proven_twaps settled oracle expiry found

  resolve_rows-OnePrice :
      (i : EpochInputs) (prior : TreeState) (table : e.ScenarioTable) (marking : Bool)
      (oracle expiry aid : ℕ) (row : Row) (aids : List ℕ) (built rows : List Row)
      (post : BTreeMap AccountState) (steps : List (ℕ × Option ℕ))
      (out : BTreeMap AccountState × List (ℕ × Option ℕ))
      → traverse (build_row e prior i) aids ≡ ok built
      → map (row_twaps e) rows ≡ map (row_twaps e) built
      → resolve_rows e i table marking aids rows post steps ≡ ok out
      → contains aids aid ≡ true
      → build_row e prior i aid ≡ ok row
      → OnePrice oracle expiry row.1.proven_twaps
  unfolding resolve_rows
  resolve_rows-OnePrice i prior table marking oracle expiry aid row [] built rows post steps out t m
        h c b =
      cc
  resolve_rows-OnePrice i prior table marking oracle expiry aid row (k ∷ aids) built [] post steps
        out t m h c b =
      cc
  resolve_rows-OnePrice i prior table marking oracle expiry aid row (k ∷ aids) built (r ∷ rows) post
        steps out t m h c b =
      let (q, qs, here, rest, same) = traverse-eq-ok (build_row e prior i) k aids t in
      let (x, resolved, later) = >>=-eq-ok (resolve_row e i table marking r) _ h in
      let paired : row_twaps e r ∷ map (row_twaps e) rows ≡ row_twaps e q ∷ map (row_twaps e) qs =
        m ∙ ap (map (row_twaps e)) same in
      elim (Bool-cases (k == aid)) [
        | inl eq ↦
            let mine : q ≡ row =
              ok-injective (sym here ∙ ap (build_row e prior i) ((==_iff k aid).0 eq) ∙ b) in
            let twaps : r.1.proven_twaps ≡ row.1.proven_twaps =
              head-eq_of_cons-eq paired ∙ ap (row_twaps e) mine in
            subst (OnePrice oracle expiry) twaps
              (resolve_row-OnePrice i table marking r x oracle expiry resolved)
        | inr ne ↦
            resolve_rows-OnePrice i prior table marking oracle expiry aid row aids qs rows
              (place k (live_state r x) post) (steps ++ step_of e k (live_state r x) ∷ []) out rest
              (tail-eq_of_cons-eq paired) later (ground arith) b
      ]

  -- In an epoch that resolves, the row of each account of the tree has one price at most for each oracle
  -- and expiry.
  pub row-OnePrice :
      (prior : TreeState) (i : EpochInputs) (table : e.ScenarioTable) (out : EpochOutcome)
      (run : EpochRun e prior i table out) (aid : ℕ) (a : AccountState) (oracle expiry : ℕ)
      → get aid prior.accounts ≡ some a
      → OnePrice oracle expiry ((row_of e i a).1.proven_twaps)
  unfolding build_row
  row-OnePrice prior i table out run aid a oracle expiry found =
      resolve_rows-OnePrice i prior table (is_marking run.rows) oracle expiry aid (row_of e i a)
        (keys (touched_set e prior i)) run.rows run.pre.0 empty [] run.res run.built
        (s.twaps-apply run.rows run.pre.0 i.new_positions i.proof_now run.pre.1 run.opened)
        run.resolved (touched-prior e prior i aid a found) (build_row-prior e prior i aid a found)
