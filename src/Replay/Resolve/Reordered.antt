-- ===== src/Replay/Resolve/Reordered.antt =====
-- An epoch whose new positions come in another order.
use mathlib.Core.List.Permᴰ
use state_keeper.Prelude.{
  ℕ, ℤ, Bool, true, false, not, ◌||◌, ◌==◌, Option, List, [], ◌∷◌, ◌++◌, filter-ext, filter-Permᴰ,
  any-Permᴰ, Permᴰ, contains, Result, ok, ◌>>=◌, >>=-ok, >>=-eq-ok, traverse, All, ◌≡◌, refl, sym,
  ap, ◌∙◌, subst, if◌then◌else◌,
}
use state_keeper.BTreeMap.{BTreeMap, empty, keys}
use state_keeper.Types.{
  Account, NewPosition, PositionRecord, PositionSettlement, AccountResolve, BookOpenOutcome,
}
use state_keeper.Engine.{Engine, Row}
use state_keeper.Engine.Order.{IsAlike, AllAlike, IsOrderFree}
use state_keeper.Replay.{AccountState, TreeState, EpochInputs, EpochOutcome}
use state_keeper.Replay.Resolve.{
  touched_set, build_row, survivors_for_vm, resolve_row, resolve_rows, resolve_epoch, live_state,
  place, step_of,
}
use state_keeper.Replay.Resolve.Run.{EpochRun, is_marking, outcome_of}
use state_keeper.Replay.Resolve.Parties.{with_positions, touched_set-Permᴰ, build_rows-Permᴰ}

module _ (e : Engine) (o : IsOrderFree e) where
  survivors-Permᴰ :
      (i : EpochInputs) {ps qs : List PositionRecord} {ss ts : List PositionSettlement}
      → Permᴰ ps qs
      → Permᴰ ss ts
      → Permᴰ (survivors_for_vm e i ps ss) (survivors_for_vm e i qs ts)
  survivors-Permᴰ i {ps} {qs} {ss} {ts} d f =
      subst (λ l. Permᴰ (survivors_for_vm e i ps ss) l)
        (filter-ext _ _ qs (λ b.
          ap (λ c. contains i.paused_pairs (e.pair_tag_of b.oracle) || not c)
            (any-Permᴰ (λ (s : PositionSettlement). s.terms_id == b.terms_id) f)))
        (filter-Permᴰ _ d)

  -- The margin of the positions that stay in the row is a sum that does not saturate.
  abbrev pub IsUnsaturated : EpochInputs → Row → Type 0
  IsUnsaturated i row =
      (settled : List PositionSettlement × _)
      → e.position_settlements_from_twaps row.1.positions row.1.proven_twaps ≡ ok settled
      → o.Unsaturated (survivors_for_vm e i row.1.positions settled.0) row.1.proven_marks

  vm_of : Bool → Row → List PositionRecord → Result ℤ
  vm_of marking row survivors =
      if marking
      then (e.account_vm_from_marks survivors row.1.proven_marks >>= λ v. ok v.0)
      else ok row.0.prev_vm_equity

  vm_of-alike :
      (marking : Bool) (r s : Row) (ps qs : List PositionRecord) (vm : ℤ)
      → IsAlike r s
      → Permᴰ ps qs
      → (marking ≡ true → o.Unsaturated ps r.1.proven_marks)
      → vm_of marking r ps ≡ ok vm
      → vm_of marking s qs ≡ ok vm
  unfolding vm_of
  vm_of-alike false r s ps qs vm a d u h = ap (λ x. ok x.prev_vm_equity) (sym a.account) ∙ h
  vm_of-alike true r s ps qs vm a d u h =
      let (v, sum, same) = >>=-eq-ok (e.account_vm_from_marks ps r.1.proven_marks) _ h in
      let (w, sum', same') = o.vm-Permᴰ ps qs r.1.proven_marks v d (u refl) sum in
      >>=-ok _ (ap (e.account_vm_from_marks qs) (sym a.marks) ∙ sum') (ap ok (sym same') ∙ same)

  resolve_row-alike :
      (i : EpochInputs) (qs : List NewPosition) (table : e.ScenarioTable) (marking : Bool)
      (r s : Row) (x : AccountResolve)
      → IsAlike r s
      → (marking ≡ true → IsUnsaturated i r)
      → resolve_row e i table marking r ≡ ok x
      → resolve_row e (with_positions i qs) table marking s ≡ ok x
  unfolding resolve_row vm_of
  resolve_row-alike i qs table marking r s x a u h =
      let (settled, found, h1) =
        >>=-eq-ok (e.position_settlements_from_twaps r.1.positions r.1.proven_twaps) _ h in
      let (vm, sum, h2) =
        >>=-eq-ok (vm_of marking r (survivors_for_vm e i r.1.positions settled.0)) _ h1 in
      let (settled', found', d) =
        o.settlements-Permᴰ r.1.positions s.1.positions r.1.proven_twaps settled a.positions
          found in
      let kept = survivors-Permᴰ i a.positions d in
      let sum' = vm_of-alike marking r s _ _ vm a kept (λ m. u m settled found) sum in
      >>=-ok _ (ap (e.position_settlements_from_twaps s.1.positions) (sym a.twaps) ∙ found') (
        >>=-ok _ sum' (
          ap
            (λ (q : Account).
              e.resolve_account q.account_owner s.1.positions settled'.0 vm i.paused_pairs
                i.proof_now table)
            (sym a.account)
          ∙ o.resolve-Permᴰ r.0.account_owner r.1.positions s.1.positions settled.0 settled'.0 vm
              i.paused_pairs i.proof_now table x a.positions d h2))

  resolve_rows-alike :
      (i : EpochInputs) (qs : List NewPosition) (table : e.ScenarioTable) (marking : Bool)
      (aids : List ℕ) (rows rows' : List Row) (post : BTreeMap AccountState)
      (steps : List (ℕ × Option ℕ)) (out : BTreeMap AccountState × List (ℕ × Option ℕ))
      → AllAlike rows rows'
      → (marking ≡ true → All (IsUnsaturated i) rows)
      → resolve_rows e i table marking aids rows post steps ≡ ok out
      → resolve_rows e (with_positions i qs) table marking aids rows' post steps ≡ ok out
  unfolding resolve_rows
  resolve_rows-alike i qs table marking [] rows rows' post steps out a u h = h
  resolve_rows-alike i qs table marking (aid ∷ aids) [] [] post steps out a u h = h
  resolve_rows-alike i qs table marking (aid ∷ aids) [] (s ∷ ss) post steps out a u h = absurd a
  resolve_rows-alike i qs table marking (aid ∷ aids) (r ∷ rs) [] post steps out a u h = absurd a
  resolve_rows-alike i qs table marking (aid ∷ aids) (r ∷ rs) (s ∷ ss) post steps out a u h =
      let (x, here, rest) = >>=-eq-ok (resolve_row e i table marking r) _ h in
      let same : live_state r x ≡ live_state s x =
        ap (λ (q : Account). live_state (q, r.1) x) a.0.account in
      let placed = place aid (live_state s x) post in
      let stepped = steps ++ step_of e aid (live_state s x) ∷ [] in
      >>=-ok _ (resolve_row-alike i qs table marking r s x a.0 (λ m. (u m).0) here) (
        resolve_rows-alike i qs table marking aids rs ss placed stepped out a.1 (λ m. (u m).1)
          (subst
            (λ l.
              resolve_rows e i table marking aids rs (place aid l post)
                (steps ++ step_of e aid l ∷ [])
              ≡ ok out)
            same rest))

  -- What two epochs with reordered positions share.
  pub record SameOutcome (out out' : EpochOutcome) : Type 0 where
    pub post : out'.post ≡ out.post
    pub steps : out'.steps ≡ out.steps
    pub prior_rows : out'.prior_rows ≡ out.prior_rows
    pub processed : Permᴰ out.processed_open_ids out'.processed_open_ids

  SameOutcome-run :
      (rows : List Row) (pre pre' : List Row × BookOpenOutcome)
      (res : BTreeMap AccountState × List (ℕ × Option ℕ))
      → Permᴰ pre.1.opened pre'.1.opened
      → Permᴰ pre.1.rejected pre'.1.rejected
      → SameOutcome (outcome_of rows pre res) (outcome_of rows pre' res)
  SameOutcome-run rows pre pre' res d f = record {
    post = refl;
    steps = refl;
    prior_rows = refl;
    processed =
        Permᴰ.trans (Permᴰ.append_right pre.1.rejected d) (Permᴰ.append_left pre'.1.opened f);
  }

  -- For an engine that does not look at the order of positions: an epoch that resolves, and in which no
  -- margin saturates, resolves with its new positions in any other order to the same post tree, the same
  -- steps and the same rows, and processes the same ids in another order.
  pub resolve_epoch-SameOutcome :
      (prior : TreeState) (i : EpochInputs) (qs : List NewPosition) (table : e.ScenarioTable)
      (out : EpochOutcome) (run : EpochRun e prior i table out)
      → Permᴰ i.new_positions qs
      → (is_marking run.rows ≡ true → All (IsUnsaturated i) run.pre.0)
      → (out' : EpochOutcome) × (resolve_epoch e prior (with_positions i qs) table ≡ ok out')
        × SameOutcome out out'
  unfolding resolve_epoch
  resolve_epoch-SameOutcome prior i qs table out run d u =
      let j = with_positions i qs in
      let touched = ap keys (touched_set-Permᴰ e o prior i qs d) in
      let (pre', opened', alike, d1, d2) =
        o.apply-Permᴰ run.rows i.new_positions qs i.proof_now run.pre d run.opened in
      let built' : traverse (build_row e prior j) (keys (touched_set e prior j)) ≡ ok run.rows =
        sym (build_rows-Permᴰ e o prior i qs d (keys (touched_set e prior j)))
        ∙ ap (traverse (build_row e prior i)) (sym touched)
        ∙ run.built in
      let resolved' : resolve_rows e j table (is_marking run.rows) (keys (touched_set e prior j))
            pre'.0 empty []
          ≡ ok run.res =
        subst
          (λ aids. resolve_rows e j table (is_marking run.rows) aids pre'.0 empty [] ≡ ok run.res)
          touched
          (resolve_rows-alike i qs table (is_marking run.rows) (keys (touched_set e prior i))
            run.pre.0 pre'.0 empty [] run.res alike u run.resolved) in
      (
        outcome_of run.rows pre' run.res,
        >>=-ok _ built' (>>=-ok _ opened' (>>=-ok _ resolved' refl)),
        subst (λ x. SameOutcome x (outcome_of run.rows pre' run.res)) run.result
            (SameOutcome-run run.rows run.pre pre' run.res d1 d2),
      )
