-- ===== src/Scan.antt =====
-- crates/crx-tree/src/scan.rs: the records of the chain's history, and the two readings of it that
-- the replay uses. Children: the loops of `scan` (Chunks, Logs, Signatures) and the proofs.
pub mod Chain
pub mod Chunks
pub mod Signatures
pub mod Logs
pub mod Paused
pub mod Unfolded
use state_keeper.Prelude.{
  ℕ, ℤ, Bool, true, false, List, [], ◌∷◌, ◌++◌, map, filter, not, leb, ◌&&◌, if◌then◌else◌,
}
use state_keeper.BTreeMap.{BTreeMap, BTreeSet, empty, insert_all, contains_key, as_entries, get}
use state_keeper.Types.{Bytes}
use state_keeper.Events.{OpenLockTerms}
use state_keeper.Pv.{DecodedPv}

pub record OpenRecord : Type 0 where
  pub id : ℕ
  pub terms : OpenLockTerms
  pub sig_a : Bytes
  pub sig_b : Bytes
  pub block : ℕ

pub record FoldRecord : Type 0 where
  pub block : ℕ
  pub tx : ℕ
  pub pv : DecodedPv

pub record TwapBoundRecord : Type 0 where
  pub feed_id : ℕ
  pub close_time : ℕ
  pub twap : ℤ
  pub expo : ℤ
  pub block : ℕ

pub record MarketSetRecord : Type 0 where
  pub block : ℕ
  pub log_index : ℕ
  pub instrument : ℕ
  pub pair_tag : ℕ
  pub enabled : Bool
  pub paused : Bool

pub record ChainHistory : Type 0 where
  pub opens : List OpenRecord
  pub folds : List FoldRecord
  pub twaps : List TwapBoundRecord
  pub market_sets : List MarketSetRecord
  pub head : ℕ

-- `filter_map(|(tag, paused)| paused.then_some(tag))`
unfoldable pub paused_tags : BTreeMap Bool → List ℕ
paused_tags [] = []
paused_tags ((tag, paused) ∷ m) = let rest = paused_tags m in if paused then tag ∷ rest else rest

abbrev pub pause_entry : MarketSetRecord → ℕ × Bool
pause_entry m = (m.pair_tag, m.enabled && m.paused)

unfoldable pub paused_pairs_at : ChainHistory → ℕ → List ℕ
unfolding paused_tags
paused_pairs_at h block = paused_tags (
    insert_all (map pause_entry (filter (λ (m : MarketSetRecord). leb m.block block) h.market_sets))
      empty)

-- `flat_map(|f| f.pv.opened_position_ids)`
unfoldable pub folded_ids : List FoldRecord → List ℕ
folded_ids [] = []
folded_ids (f ∷ fs) = f.pv.opened_position_ids ++ folded_ids fs

unfoldable pub unfolded_opens : ChainHistory → List OpenRecord
unfolding folded_ids
unfolded_opens h =
    let folded : BTreeSet = insert_all (as_entries (folded_ids h.folds)) empty in
    filter (λ (o : OpenRecord). not (contains_key o.id folded)) h.opens
