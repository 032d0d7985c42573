-- ===== src/Keeper/Commands/Verify.antt =====
-- What `cmd_verify` confirms.
use state_keeper.Prelude.{
  true, ◌==◌, ok, guard, guard-eq-ok, refused, >>=-eq-ok, ok-injective, ==_iff, ◌≡◌, ◌↔◌, ◌∙◌, refl,
  sym, ap, subst, Text,
}
use state_keeper.Gate.{verify_vkey_drift, verify_scenario_root_drift}
use state_keeper.Engine.{Engine}
use state_keeper.Keeper.Env.{Env}
use state_keeper.Keeper.Chain.{ChainState, Contracts, read_chain, parse_b32}
use state_keeper.Keeper.Context.{Codecs, Files, Ctx, build_ctx, connect}
use state_keeper.Keeper.Commands.{cmd_verify}
use state_keeper.Keeper.Commands.Gates.{IsContext, build_ctx-IsContext}

module _ (e : Engine) (c : Codecs e) where
  -- The chain's state is read in the lane's context, and the chain holds the lane's key and the table's
  -- root.
  pub record Verifies (files : Files) (env : Env) (chain_name : Text) (contracts : Contracts)
      (chain : ChainState) : Type 0 where
    pub ctx : Ctx e
    pub built : build_ctx e c files env chain_name ≡ ok ctx
    pub context : IsContext e c files chain_name ctx
    pub reachable : c.url_parses ctx.rpc_url ≡ true
    pub read : read_chain c.addr_from_str contracts ctx.lane ≡ ok chain
    pub vkey : parse_b32 c.hex ctx.lane.vkey ≡ ok chain.vkey
    pub table_root : ctx.table_root ≡ chain.scenario_root

  -- `cmd_verify` confirms a state of the chain exactly when that state is read in the context of the
  -- lane of that name, the verifying key on the chain is the lane's, and the table's root on the chain
  -- is that of the local table, which the lane commits to.
  pub cmd_verify_iff :
      (files : Files) (env : Env) (chain_name : Text) (contracts : Contracts) (chain : ChainState)
      → (cmd_verify e c files env chain_name contracts ≡ ok chain)
        ↔ Verifies files env chain_name contracts chain
  unfolding cmd_verify
  cmd_verify_iff files env chain_name contracts chain = (
    λ h.
        let (ctx, built, h1) = >>=-eq-ok (build_ctx e c files env chain_name) _ h in
        let (_l, url, h2) = >>=-eq-ok (connect e c ctx) _ h1 in
        let (state, read, h3) = >>=-eq-ok (read_chain c.addr_from_str contracts ctx.lane) _ h2 in
        let (pinned, parsed, h4) = >>=-eq-ok (parse_b32 c.hex ctx.lane.vkey) _ h3 in
        let (_u, g1, h5) =
          >>=-eq-ok (guard (state.vkey == pinned) (refused verify_vkey_drift)) _ h4 in
        let (_v, g2, h6) =
          >>=-eq-ok
            (guard (ctx.table_root == state.scenario_root) (refused verify_scenario_root_drift)) _
            h5 in
        subst (Verifies files env chain_name contracts) (ok-injective h6) (record {
          ctx = ctx;
          built = built;
          context = build_ctx-IsContext e c files env chain_name ctx built;
          reachable = guard-eq-ok _ _ url;
          read = read;
          vkey = parsed ∙ ap ok (sym ((==_iff _ _).0 (guard-eq-ok _ _ g1)));
          table_root = (==_iff _ _).0 (guard-eq-ok _ _ g2);
        }),
    λ x.
        let g1 = (==_iff x.ctx.table_root chain.scenario_root).1 x.table_root in
        let g2 = (==_iff chain.vkey chain.vkey).1 refl in
        rw (x.built, x.reachable, x.read, x.vkey, g2, g1) refl,
  )
