-- ===== src/Types.antt =====
-- The engine's wire types that the keeper builds and reads (crates/vendor/im-types/src/lib.rs, and
-- the result types of crates/vendor/crxvm/src/{resolve,open_lock}.rs). A `[u8; 32]` or `[u8; 20]` is
-- its big-endian number, an unsigned integer a native number, `Vec<u8>` a list of byte values.
use state_keeper.Prelude.{ℕ, ℤ, Option, List, Bool}

abbrev pub Bytes : Type 0
Bytes = List ℕ

pub record RiskLeg : Type 0 where
  pub factor : ℕ
  pub signed_qty : ℤ

pub record Account : Type 0 where
  pub account_owner : ℕ
  pub positions : List RiskLeg
  pub vm_equity : ℤ
  pub prev_vm_equity : ℤ
  pub positions_root : ℕ

pub record Roots : Type 0 where
  pub root_prev : ℕ
  pub root_new : ℕ
  pub accounts_root_prev : ℕ
  pub accounts_root_new : ℕ

pub record PositionSettlement : Type 0 where
  pub terms_id : ℕ
  pub vm_realized : ℤ

pub record PositionRecord : Type 0 where
  pub terms_id : ℕ
  pub counterparty : ℕ
  pub oracle : ℕ
  pub notional : ℕ
  pub entry_rate : ℕ
  pub side : ℤ
  pub expiry : ℕ
  pub pushed_im : ℕ
  pub market_key : ℕ

pub record ProvenTwap : Type 0 where
  pub feed_id : ℕ
  pub close_time : ℕ
  pub settle_price : ℕ
  pub expo : ℤ

pub record ConsumedTwap : Type 0 where
  pub feed_id : ℕ
  pub close_time : ℕ
  pub twap : ℤ
  pub expo : ℤ

pub record ProvenMark : Type 0 where
  pub feed_id : ℕ
  pub mark_time : ℕ
  pub price : ℕ
  pub expo : ℤ

pub record ConsumedMark : Type 0 where
  pub feed_id : ℕ
  pub mark_time : ℕ
  pub price : ℤ
  pub expo : ℤ

pub record RiskInputs : Type 0 where
  pub unconsumed_settle_residual : Option ℤ
  pub positions : List PositionRecord
  pub position_settlements : List PositionSettlement
  pub proven_twaps : List ProvenTwap
  pub proven_marks : List ProvenMark

pub record NewPosition : Type 0 where
  pub terms_id : ℕ
  pub party_a : ℕ
  pub party_b : ℕ
  pub oracle : ℕ
  pub quantity : ℕ
  pub entry_rate : ℕ
  pub side_a : ℤ
  pub expiry : ℕ
  pub im_bps_a : ℕ
  pub im_bps_b : ℕ
  pub instrument : ℕ
  pub pair_tag : ℕ
  pub mm_pct : ℕ
  pub nonce : ℕ
  pub cure_window : ℕ
  pub payout_pref_a : ℕ
  pub payout_pref_b : ℕ
  pub terms_data : Bytes
  pub sig_a : Bytes
  pub sig_b : Bytes
  pub domain_separator : ℕ

pub record Novation : Type 0 where
  pub old_id : ℕ
  pub new_id : ℕ
  pub party_a : ℕ
  pub party_b : ℕ
  pub party_c : ℕ
  pub c_im : ℕ
  pub forced : ℕ
  pub transfer_price : ℕ
  pub spread : ℕ
  pub nonce : ℕ
  pub deadline : ℕ

-- One touched account; `W` is the type of tree witnesses.
pub record TouchedAccount (W : Type 0) : Type 0 where
  pub account : Account
  pub risk : RiskInputs
  pub state_witness : W
  pub registry_witness : Option W

-- `BookOpenOutcome` of open_lock.rs.
pub record BookOpenOutcome : Type 0 where
  pub rejected : List ℕ
  pub opened : List ℕ

-- The three fields of `AccountResolve` (resolve.rs) that the keeper reads.
pub record AccountResolve : Type 0 where
  pub vm_equity : ℤ
  pub positions_live : Bool
  pub surviving : List PositionRecord
