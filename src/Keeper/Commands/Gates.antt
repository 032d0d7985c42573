-- ===== src/Keeper/Commands/Gates.antt =====
-- What `cmd_rebuild` confirms.
use state_keeper.Prelude.{
  ℕ, true, ◌==◌, ok, guard, guard-eq-ok, refused, >>=-eq-ok, ok-injective, ==_iff, ◌≡◌, ◌↔◌, ◌∙◌,
  refl, sym, ap, subst, Text,
}
use state_keeper.Gate.{
  table_artifact_not_this_generation, rebuild_root_mismatch, rebuild_registry_mismatch,
  rebuild_scenario_root_mismatch,
}
use state_keeper.Engine.{Engine}
use state_keeper.Scan.{ChainHistory}
use state_keeper.Scan.Chain.{Provider}
use state_keeper.Scan.Logs.{scan}
use state_keeper.Replay.{TreeState, root, accounts_root, empty_tree}
use state_keeper.Replay.Rebuild.{rebuild}
use state_keeper.Replay.Rebuild.Accepts.{Replays, rebuild_iff}
use state_keeper.Keeper.Env.{Env}
use state_keeper.Keeper.Chain.{ChainState, Contracts, load_lane, read_chain, parse_addr, parse_b32}
use state_keeper.Keeper.Context.{
  Codecs, Files, Ctx, load_scenario_table, build_ctx, connect, scan_and_rebuild, hex32,
}
use state_keeper.Keeper.Commands.{cmd_rebuild}

module _ (e : Engine) (c : Codecs e) where
  -- The lane has this name, and the table is committed by its root, which is the lane's.
  pub record IsContext (files : Files) (chain_name : Text) (ctx : Ctx e) : Type 0 where
    pub lane : load_lane files.read_to_string c.parse_chains chain_name ≡ ok ctx.lane
    pub committed : e.scenario_root ctx.table ≡ ok ctx.table_root
    pub pinned : parse_b32 c.hex ctx.lane.scenario_root ≡ ok ctx.table_root

  pub build_ctx-IsContext :
      (files : Files) (env : Env) (chain_name : Text) (ctx : Ctx e)
      → build_ctx e c files env chain_name ≡ ok ctx
      → IsContext files chain_name ctx
  unfolding build_ctx load_scenario_table
  build_ctx-IsContext files env chain_name ctx h =
      let (lane, found, h1) =
        >>=-eq-ok (load_lane files.read_to_string c.parse_chains chain_name) _ h in
      let (loaded, h2, h3) = >>=-eq-ok (load_scenario_table e c (files.read _)) _ h1 in
      let (expect, pinned, h4) = >>=-eq-ok (parse_b32 c.hex lane.scenario_root) _ h3 in
      let (_u, same, h5) =
        >>=-eq-ok
          (guard (loaded.1 == expect)
            (refused (table_artifact_not_this_generation (hex32 e c loaded.1) (hex32 e c expect))))
          _ h4 in
      let (bytes, read, g1) = >>=-eq-ok (files.read _) _ h2 in
      let (table, decoded, g2) = >>=-eq-ok (c.deserialize bytes) _ g1 in
      let (table_root, committed, g3) = >>=-eq-ok (e.scenario_root table) _ g2 in
      subst (IsContext files chain_name) (ok-injective h5) (record {
        lane = found;
        committed =
            subst (λ (l : e.ScenarioTable × ℕ). e.scenario_root l.0 ≡ ok l.1) (ok-injective g3)
              committed;
        pinned = pinned ∙ ap ok (sym ((==_iff _ _).0 (guard-eq-ok _ _ same)));
      })

  -- What the command confirms of the chain's state and of the scanned history.
  pub record Confirms (files : Files) (env : Env) (chain_name : Text) (contracts : Contracts)
      (provider : Provider) (state : TreeState) : Type 0 where
    pub ctx : Ctx e
    pub chain : ChainState
    pub core : ℕ
    pub history : ChainHistory
    pub built : build_ctx e c files env chain_name ≡ ok ctx
    pub context : IsContext files chain_name ctx
    pub reachable : c.url_parses ctx.rpc_url ≡ true
    pub read : read_chain c.addr_from_str contracts ctx.lane ≡ ok chain
    pub located : parse_addr c.addr_from_str ctx.lane.core ≡ ok core
    pub scanned : scan c.abi provider core ctx.lane.deploy_block ≡ ok history
    pub replayed : Replays e ctx.table history history.folds empty_tree state
    pub state_root : root e state ≡ chain.root
    pub members_root : accounts_root e state ≡ chain.accounts_root
    pub table_root : ctx.table_root ≡ chain.scenario_root

  -- `cmd_rebuild` reports a match on a tree exactly when the context is the lane's of that name, with a table
  -- that its root and the lane commit to; every fold of the scanned history is accepted up to that tree; and
  -- the chain holds the tree's two roots and the table's.
  pub cmd_rebuild_iff :
      (files : Files) (env : Env) (chain_name : Text) (contracts : Contracts) (provider : Provider)
      (state : TreeState)
      → (cmd_rebuild e c files env chain_name contracts provider ≡ ok state)
        ↔ Confirms files env chain_name contracts provider state
  unfolding cmd_rebuild scan_and_rebuild
  cmd_rebuild_iff files env chain_name contracts provider state = (
    λ h.
        let (ctx, built, h1) = >>=-eq-ok (build_ctx e c files env chain_name) _ h in
        let (_l, url, h2) = >>=-eq-ok (connect e c ctx) _ h1 in
        let (chain, read, h3) = >>=-eq-ok (read_chain c.addr_from_str contracts ctx.lane) _ h2 in
        let (found, replayed, h4) = >>=-eq-ok (scan_and_rebuild e c ctx provider) _ h3 in
        let (_u, g1, h5) =
          >>=-eq-ok (guard (root e found.1 == chain.root) (refused rebuild_root_mismatch)) _ h4 in
        let (_v, g2, h6) =
          >>=-eq-ok
            (guard (accounts_root e found.1 == chain.accounts_root)
              (refused rebuild_registry_mismatch))
            _ h5 in
        let (_w, g3, h7) =
          >>=-eq-ok
            (guard (ctx.table_root == chain.scenario_root) (refused rebuild_scenario_root_mismatch))
            _ h6 in
        let (core, located, k1) = >>=-eq-ok (parse_addr c.addr_from_str ctx.lane.core) _ replayed in
        let (history, scanned, k2) =
          >>=-eq-ok (scan c.abi provider core ctx.lane.deploy_block) _ k1 in
        let (s, rebuilt, k3) = >>=-eq-ok (rebuild e ctx.table history) _ k2 in
        let same : s ≡ found.1 = ap (λ (q : ChainHistory × TreeState). q.1) (ok-injective k3) in
        subst (Confirms files env chain_name contracts provider) (ok-injective h7) (record {
          ctx = ctx;
          chain = chain;
          core = core;
          history = history;
          built = built;
          context = build_ctx-IsContext files env chain_name ctx built;
          reachable = guard-eq-ok _ _ url;
          read = read;
          located = located;
          scanned = scanned;
          replayed = (rebuild_iff e ctx.table history found.1).0 (rebuilt ∙ ap ok same);
          state_root = (==_iff _ _).0 (guard-eq-ok _ _ g1);
          members_root = (==_iff _ _).0 (guard-eq-ok _ _ g2);
          table_root = (==_iff _ _).0 (guard-eq-ok _ _ g3);
        }),
    λ x.
        let rebuilt : rebuild e x.ctx.table x.history ≡ ok state =
          (rebuild_iff e x.ctx.table x.history state).1 x.replayed in
        let g1 = (==_iff _ _).1 x.state_root in
        let g2 = (==_iff _ _).1 x.members_root in
        let g3 = (==_iff _ _).1 x.table_root in
        rw (x.built, x.reachable, x.read, x.located, x.scanned, rebuilt, g1, g2, g3) refl,
  )
