-- ===== src/Pv/Schema.antt =====
-- The ABI structs of crates/crx-tree/src/pv.rs, as `abi_decode` returns them: `bytes32`, `address` and
-- `uint` fields are numbers, `int256` and `int32` fields are integers.
use state_keeper.Prelude.{ℕ, ℤ, List}

pub record RootsSol : Type 0 where
  pub root_prev : ℕ
  pub root_new : ℕ
  pub accounts_root_prev : ℕ
  pub accounts_root_new : ℕ

pub record DefaultSol : Type 0 where
  pub id : ℕ
  pub account_owner : ℕ
  pub counterparty : ℕ
  pub usd : ℕ

pub record ConsumedTwapSol : Type 0 where
  pub feed_id : ℕ
  pub close_time : ℕ
  pub twap : ℤ
  pub expo : ℤ

pub record NovationSol : Type 0 where
  pub old_id : ℕ
  pub new_id : ℕ
  pub party_a : ℕ
  pub party_b : ℕ
  pub party_c : ℕ
  pub c_im : ℕ
  pub forced : ℕ
  pub transfer_price : ℕ
  pub spread : ℕ
  pub nonce : ℕ
  pub deadline : ℕ

pub record CloseoutNovationSol : Type 0 where
  pub old_id : ℕ
  pub new_id : ℕ
  pub party_a : ℕ
  pub party_b : ℕ
  pub party_c : ℕ
  pub feed_id : ℕ
  pub close_time : ℕ
  pub handoff_mark : ℤ
  pub spread : ℕ
  pub c_im : ℕ
  pub a_residual : ℕ
  pub shortfall : ℕ
  pub nonce : ℕ
  pub domain_separator : ℕ
  pub m_a_authorized : ℕ

pub record PausedHoldSol : Type 0 where
  pub market_key : ℕ
  pub position_id : ℕ

pub record ConsumedMarkSol : Type 0 where
  pub feed_id : ℕ
  pub mark_time : ℕ
  pub price : ℤ
  pub expo : ℤ

pub record ImRequirementSol : Type 0 where
  pub acct : ℕ
  pub cp : ℕ
  pub usd : ℕ

pub record SettlementSol : Type 0 where
  pub payer : ℕ
  pub payee : ℕ
  pub usd : ℕ
  pub id : ℕ

pub record UnwindSol : Type 0 where
  pub old_id : ℕ
  pub party_a : ℕ
  pub party_b : ℕ
  pub close_price : ℕ
  pub nonce : ℕ
  pub deadline : ℕ

-- The 15 rows that the guest commits, in their order.
pub record PublicValuesStruct : Type 0 where
  pub roots : RootsSol
  pub defaults : List DefaultSol
  pub consumed_twaps : List ConsumedTwapSol
  pub novations : List NovationSol
  pub closeout_novations : List CloseoutNovationSol
  pub events_commitment : ℕ
  pub proof_time : ℕ
  pub domain_separator : ℕ
  pub paused_holds : List PausedHoldSol
  pub scenario_root : ℕ
  pub consumed_marks : List ConsumedMarkSol
  pub opened_position_ids : List ℕ
  pub im_requirements : List ImRequirementSol
  pub settlements : List SettlementSol
  pub unwinds : List UnwindSol
