-- ===== src/Keeper/Attempt/Rebuilds.antt =====
-- The advance of one round and the rebuild of the next.
use state_keeper.Prelude.{[], ◌∷◌, ok, >>=-ok, ◌≡◌, refl}
use state_keeper.Engine.{Engine}
use state_keeper.Engine.Laws.{IsTree, IsPrePass}
use state_keeper.Engine.Order.{IsOrderFree}
use state_keeper.Scan.{ChainHistory, FoldRecord}
use state_keeper.Scan.Chain.{Provider}
use state_keeper.Scan.Logs.{scan}
use state_keeper.Replay.{EpochOutcome, root, accounts_root}
use state_keeper.Replay.Rebuild.Advance.{Commits, NoneRejected}
use state_keeper.Keeper.Plain.{rebuild-advanced}
use state_keeper.Replay.Rebuild.Growth.{Grows}
use state_keeper.Replay.Resolve.{resolve_epoch}
use state_keeper.Frames.{AdvanceFrames}
use state_keeper.Keeper.Context.{Codecs, scan_and_rebuild}
use state_keeper.Keeper.Env.{now_secs}
use state_keeper.Keeper.Fresh.Recorded.{Follows}
use state_keeper.Keeper.Attempt.{Job, World}
use state_keeper.Keeper.Attempt.Sound.{Ready}

module _ (e : Engine) (c : Codecs e) (l : IsTree e) (p : IsPrePass e) (o : IsOrderFree e) where
  -- For an engine that keeps its trees as maps, surfaces each new position once in `opened`, and does not
  -- look at the order of positions: where a round has prepared an advance from a history in which no id
  -- stands twice, its pre-pass rejects no open, and a later provider answers this history with a fold that
  -- commits the advance, after all its market sets, and with later opens of other ids, later market sets,
  -- any prices and any head,
  -- `scan_and_rebuild` answers that history and the tree that the round has resolved, with the state root
  -- and the accounts root that it predicted.
  pub scan_and_rebuild-advanced :
      (job : Job e) (w : World) (adv : AdvanceFrames) (ready : Ready e c job w adv)
      (provider : Provider) (later : ChainHistory) (fold : FoldRecord)
      → Commits e o job.ctx.table ready.state ready.inputs adv fold
      → NoneRejected e o job.ctx.table ready.state ready.inputs
      → Follows ready.history fold
      → Grows ready.history (fold ∷ []) later
      → scan c.abi provider ready.core job.ctx.lane.deploy_block ≡ ok later
      → (out : EpochOutcome) × (resolve_epoch e ready.state ready.inputs job.ctx.table ≡ ok out)
        × (scan_and_rebuild e c job.ctx provider ≡ ok (later, out.post))
        × (root e out.post ≡ adv.predicted_root)
        × (accounts_root e out.post ≡ adv.predicted_accounts_root)
  unfolding scan_and_rebuild
  scan_and_rebuild-advanced job w adv ready provider later fold commits none follows grows scanned =
      let (out, resolved, rebuilt, state_root, members_root) =
        rebuild-advanced e o job.ctx.table c.serialize l p ready.history later ready.state
          ready.inputs ready.chain.domain (now_secs w.clock) ready.chain.accounts_root adv fold
          ready.rebuilt ready.recovered ready.built commits none follows grows in
      (
        out,
        resolved,
        >>=-ok _ ready.located (>>=-ok _ scanned (>>=-ok _ rebuilt refl)),
        state_root,
        members_root,
      )
