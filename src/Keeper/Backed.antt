-- ===== src/Keeper/Backed.antt =====
-- What stands behind the tree that the keeper works on.
use state_keeper.Prelude.{All, ok, >>=-eq-ok, ok-injective, ◌≡◌, subst}
use state_keeper.Engine.{Engine}
use state_keeper.Engine.Laws.{IsPrePass, IsBooking}
use state_keeper.Scan.{ChainHistory}
use state_keeper.Scan.Chain.{Provider}
use state_keeper.Scan.Logs.{scan}
use state_keeper.Scan.Logs.Authentic.{IsAuthentic, scan-IsAuthentic}
use state_keeper.Replay.{TreeState}
use state_keeper.Replay.Rebuild.{rebuild}
use state_keeper.Replay.Rebuild.Backed.{IsBacked, rebuild-IsBooked}
use state_keeper.Replay.Resolve.Books.{IsBooked}
use state_keeper.Keeper.Chain.{parse_addr}
use state_keeper.Keeper.Context.{Codecs, Ctx, scan_and_rebuild}

-- For an engine whose pre-pass works on the rows in place and books new positions only, and whose
-- accounts keep no other positions than they had: in the tree that `scan_and_rebuild` answers, each account
-- stands at its owner's key, and each position of its book has the identity of Terms whose hash it is and
-- that were sent in an openLock call with the signatures that the scan has recovered.
pub scan_and_rebuild-IsBooked :
    (e : Engine) (c : Codecs e) (p : IsPrePass e) (k : IsBooking e) (ctx : Ctx e)
    (provider : Provider) (history : ChainHistory) (state : TreeState)
    → scan_and_rebuild e c ctx provider ≡ ok (history, state)
    → All (IsBooked e (IsBacked (IsAuthentic c.abi provider))) state.accounts
unfolding scan_and_rebuild
scan_and_rebuild-IsBooked e c p k ctx provider history state h =
    let (core, located, h1) = >>=-eq-ok (parse_addr c.addr_from_str ctx.lane.core) _ h in
    let (found, scanned, h2) = >>=-eq-ok (scan c.abi provider core ctx.lane.deploy_block) _ h1 in
    let (tree, rebuilt, same) = >>=-eq-ok (rebuild e ctx.table found) _ h2 in
    subst
      (λ (x : ChainHistory × TreeState).
        All (IsBooked e (IsBacked (IsAuthentic c.abi provider))) x.1.accounts)
      (ok-injective same)
      (rebuild-IsBooked (IsAuthentic c.abi provider) e p k ctx.table found tree
        (scan-IsAuthentic c.abi provider core ctx.lane.deploy_block found scanned) rebuilt)
