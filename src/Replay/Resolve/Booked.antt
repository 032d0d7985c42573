-- ===== src/Replay/Resolve/Booked.antt =====
-- The owners and the books of an epoch's post tree.
use state_keeper.Prelude.{
  ◌>>=◌, ℕ, Bool, true, false, if◌then◌else◌, Option, some, none, List, [], ◌∷◌, ◌++◌, All, ok,
  >>=-eq-ok, ok-injective, ◌≡◌, subst,
}
use state_keeper.BTreeMap.{BTreeMap, empty, keys}
use state_keeper.BTreeMap.Each.{insert-All}
use state_keeper.Types.{PositionRecord, NewPosition, AccountResolve}
use state_keeper.Engine.{Engine, Row}
use state_keeper.Engine.Laws.{IsPrePass, IsBooking}
use state_keeper.Replay.{AccountState, TreeState, EpochInputs, EpochOutcome}
use state_keeper.Replay.Resolve.{
  touched_set, resolve_row, resolve_rows, resolve_epoch, place, live_state, step_of,
  survivors_for_vm,
}
use state_keeper.Replay.Resolve.Books.{
  IsBooked, RowFor, RowsFor, built-RowsFor, books_of_rows, RowsFor-owners,
}
use state_keeper.Replay.Resolve.Run.{is_marking, resolve_epoch-EpochRun}

module _ (e : Engine) (k : IsBooking e) (P : ℕ → Type 0) where
  resolve_row-holds :
      (i : EpochInputs) (table : e.ScenarioTable) (marking : Bool) (r : Row) (x : AccountResolve)
      → resolve_row e i table marking r ≡ ok x
      → All (λ (b : PositionRecord). P b.terms_id) r.1.positions
      → All (λ (b : PositionRecord). P b.terms_id) x.surviving
  unfolding resolve_row
  resolve_row-holds i table marking r x h book =
      let (settled, found, h1) =
        >>=-eq-ok (e.position_settlements_from_twaps r.1.positions r.1.proven_twaps) _ h in
      let (vm, sum, h2) =
        >>=-eq-ok
          (if marking
            then (e.account_vm_from_marks (survivors_for_vm e i r.1.positions settled.0)
                  r.1.proven_marks
                >>= λ v. ok v.0)
            else ok r.0.prev_vm_equity)
          _ h1 in
      k.surviving-resolve (λ (b : PositionRecord). P b.terms_id) r.0.account_owner r.1.positions
        settled.0 vm i.paused_pairs i.proof_now table x h2 book

  place-IsBooked :
      (aid : ℕ) (r : Row) (x : AccountResolve) (post : BTreeMap AccountState)
      → RowFor e P aid r
      → All (λ (b : PositionRecord). P b.terms_id) x.surviving
      → All (IsBooked e P) post
      → All (IsBooked e P) (place aid (live_state r x) post)
  place-IsBooked aid r x post row book h =
      let here : AccountState = record {
        owner = r.0.account_owner;
        vm_equity = x.vm_equity;
        positions = x.surviving;
      } in
      elim x.positions_live
        as (λ b. All (IsBooked e P) (place aid (if b then some here else none) post)) [
          | true ↦ insert-All (IsBooked e P) aid here post (row.0, book) h
          | false ↦ h
        ]

  resolve_rows-IsBooked :
      (i : EpochInputs) (table : e.ScenarioTable) (marking : Bool) (aids : List ℕ) (rows : List Row)
      (post : BTreeMap AccountState) (steps : List (ℕ × Option ℕ))
      (out : BTreeMap AccountState × List (ℕ × Option ℕ))
      → RowsFor e P aids rows
      → All (IsBooked e P) post
      → resolve_rows e i table marking aids rows post steps ≡ ok out
      → All (IsBooked e P) out.0
  unfolding resolve_rows
  resolve_rows-IsBooked i table marking [] rows post steps out h p r =
      subst (λ (x : BTreeMap AccountState × List (ℕ × Option ℕ)). All (IsBooked e P) x.0)
        (ok-injective r) p
  resolve_rows-IsBooked i table marking (aid ∷ aids) [] post steps out h p r = absurd (cc)
  resolve_rows-IsBooked i table marking (aid ∷ aids) (row ∷ rows) post steps out h p r =
      let (x, resolved, rest) = >>=-eq-ok (resolve_row e i table marking row) _ r in
      resolve_rows-IsBooked i table marking aids rows (place aid (live_state row x) post)
        (steps ++ step_of e aid (live_state row x) ∷ []) out h.1
        (place-IsBooked aid row x post h.0 (resolve_row-holds i table marking row x resolved h.0.1)
          p)
        rest

  -- An epoch keeps each account at its owner's key, and its books hold only positions that they held, or
  -- that are opened.
  pub resolve_epoch-IsBooked :
      (p : IsPrePass e) (prior : TreeState) (i : EpochInputs) (table : e.ScenarioTable)
      (out : EpochOutcome)
      → resolve_epoch e prior i table ≡ ok out
      → All (λ (q : NewPosition). P q.terms_id) i.new_positions
      → All (IsBooked e P) prior.accounts
      → All (IsBooked e P) out.post.accounts
  resolve_epoch-IsBooked p prior i table out h new booked =
      let run = resolve_epoch-EpochRun e prior i table out h in
      let aids = keys (touched_set e prior i) in
      let rows = built-RowsFor e P prior i aids run.rows booked run.built in
      let books =
        k.positions-apply P run.rows run.pre.0 i.new_positions i.proof_now run.pre.1 run.opened new
          (books_of_rows e P aids run.rows rows prior i run.built) in
      let owners =
        p.owners-apply run.rows run.pre.0 i.new_positions i.proof_now run.pre.1 run.opened in
      subst (λ (x : EpochOutcome). All (IsBooked e P) x.post.accounts) run.result
        (resolve_rows-IsBooked i table (is_marking run.rows) aids run.pre.0 empty [] run.res
          (RowsFor-owners e P aids run.rows run.pre.0 rows owners books) tt run.resolved)
