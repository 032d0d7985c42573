-- ===== src/Replay/Resolve/Parties.antt =====
-- The accounts that new positions touch, whatever order the positions come in.
use state_keeper.Prelude.{
  ℕ, none, some, List, [], ◌∷◌, map, Permᴰ, Result, ok, ok_or, panic, ◌>>=◌, traverse, ◌≡◌, refl,
  sym, ap, ◌∙◌, subst,
}
use state_keeper.BTreeMap.{BTreeMap, empty, get, keys, insert_all, as_entries}
use state_keeper.BTreeMap.Permuted.{insert_all-Permᴰ}
use state_keeper.Types.{NewPosition}
use state_keeper.Engine.{Engine, Row}
use state_keeper.Engine.Order.{IsOrderFree}
use state_keeper.Replay.{TreeState, EpochInputs}
use state_keeper.Replay.Resolve.{
  owner_entry, touched_set, owners_map, party_entries, row_of, build_row, default_account, no_risk,
}

-- The inputs with these new positions.
abbrev pub with_positions : EpochInputs → List NewPosition → EpochInputs
with_positions i ps = record i { new_positions = ps }

-- Both parties of each position.
abbrev parties : List NewPosition → List ℕ
parties [] = []
parties (p ∷ ps) = p.party_a ∷ p.party_b ∷ parties ps

move_pair : (a b c d : ℕ) (l : List ℕ) → Permᴰ (a ∷ b ∷ c ∷ d ∷ l) (c ∷ d ∷ a ∷ b ∷ l)
move_pair a b c d l = Permᴰ.trans (Permᴰ.cons refl (Permᴰ.swap refl refl)) (
    Permᴰ.trans (Permᴰ.swap refl refl) (
      Permᴰ.cons refl
        (Permᴰ.trans (Permᴰ.cons refl (Permᴰ.swap refl refl)) (Permᴰ.swap refl refl))))

parties-Permᴰ : {ps qs : List NewPosition} → Permᴰ ps qs → Permᴰ (parties ps) (parties qs)
parties-Permᴰ Permᴰ.nil = Permᴰ.nil
parties-Permᴰ (Permᴰ.cons e d) =
    Permᴰ.cons (ap (λ p. p.party_a) e) (Permᴰ.cons (ap (λ p. p.party_b) e) (parties-Permᴰ d))
parties-Permᴰ (Permᴰ.swap {a = a} {b = b} {l = l} e f) =
    subst (λ (x : NewPosition × NewPosition). Permᴰ (parties (a ∷ b ∷ l)) (parties (x.0 ∷ x.1 ∷ l)))
      (λ i. (f i, e i)) (move_pair a.party_a a.party_b b.party_a b.party_b (parties l))
parties-Permᴰ (Permᴰ.trans d f) = Permᴰ.trans (parties-Permᴰ d) (parties-Permᴰ f)

module _ (e : Engine) (o : IsOrderFree e) where
  entries_of_parties :
      (ps : List NewPosition)
      → party_entries e ps ≡ map (λ p. (e.account_id_single p, p)) (parties ps)
  entries_of_parties [] = refl
  entries_of_parties (p ∷ ps) =
      ap
        (λ l.
          (e.account_id_single p.party_a, p.party_a)
          ∷ (e.account_id_single p.party_b, p.party_b)
          ∷ l)
        (entries_of_parties ps)

  keys_of_parties :
      (ps : List NewPosition)
      → as_entries (map (λ (x : ℕ × ℕ). x.0) (party_entries e ps))
        ≡ map (λ p. (e.account_id_single p, tt)) (parties ps)
  keys_of_parties [] = refl
  keys_of_parties (p ∷ ps) =
      ap (λ l. (e.account_id_single p.party_a, tt) ∷ (e.account_id_single p.party_b, tt) ∷ l)
        (keys_of_parties ps)

  module _ (prior : TreeState) (i : EpochInputs) (qs : List NewPosition)
      (d : Permᴰ i.new_positions qs) where
    pub touched_set-Permᴰ : touched_set e prior i ≡ touched_set e prior (with_positions i qs)
    unfolding touched_set
    touched_set-Permᴰ =
        let m = insert_all (as_entries (keys prior.accounts)) empty in
        ap (λ l. insert_all l m) (keys_of_parties i.new_positions)
        ∙ insert_all-Permᴰ e.account_id_single (λ p. tt) (λ a b h. refl) m (parties-Permᴰ d)
        ∙ ap (λ l. insert_all l m) (sym (keys_of_parties qs))

    owners_map-Permᴰ : owners_map e prior i ≡ owners_map e prior (with_positions i qs)
    unfolding owners_map
    owners_map-Permᴰ =
        let m = insert_all (map owner_entry prior.accounts) empty in
        ap (λ l. insert_all l m) (entries_of_parties i.new_positions)
        ∙ insert_all-Permᴰ e.account_id_single (λ p. p) o.account_id_single-injective m
            (parties-Permᴰ d)
        ∙ ap (λ l. insert_all l m) (sym (entries_of_parties qs))

    build_row-Permᴰ :
        (aid : ℕ) → build_row e prior i aid ≡ build_row e prior (with_positions i qs) aid
    unfolding build_row row_of
    build_row-Permᴰ aid =
        ap
          (λ (m : BTreeMap ℕ). elim (get aid prior.accounts) as (λ _. Result Row) [
            | some a ↦ ok (row_of e i a)
            | none ↦ ok_or (get aid m) panic >>= λ x. ok (default_account x, no_risk)
          ])
          owners_map-Permᴰ

    pub build_rows-Permᴰ :
        (aids : List ℕ)
        → traverse (build_row e prior i) aids
          ≡ traverse (build_row e prior (with_positions i qs)) aids
    build_rows-Permᴰ aids = ap (λ f. traverse f aids) (λ x aid. build_row-Permᴰ aid x)
