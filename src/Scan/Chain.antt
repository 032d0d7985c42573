-- ===== src/Scan/Chain.antt =====
-- What `scan` calls outside the repository: the RPC provider and alloy's ABI decoders, as parameters.
-- A chain is read at one state of it: a call's answer depends on its arguments alone.
use state_keeper.Prelude.{ℕ, ℤ, Bool, Option, List, Result}
use state_keeper.Types.{Bytes}
use state_keeper.Events.{OpenLockTerms}
use state_keeper.Pv.Schema.{PublicValuesStruct}

-- alloy's `rpc::types::Log`; `body` is the ABI-encoded part that the decoders read.
pub record Log : Type 0 where
  pub topics : List ℕ
  pub body : Bytes
  pub block_number : Option ℕ
  pub log_index : Option ℕ
  pub transaction_hash : Option ℕ

-- alloy's `Filter`, with the fields that `scan` sets.
pub record Filter : Type 0 where
  pub address : ℕ
  pub from_block : ℕ
  pub to_block : ℕ
  pub event_signature : List ℕ

pub record Provider : Type 0 where
  pub get_block_number : Result ℕ
  pub get_logs : Filter → Result (List Log)
  -- the calldata of a transaction
  pub get_transaction_by_hash : ℕ → Result (Option Bytes)

-- The events and calls of the `sol!` blocks of events.rs and scan.rs.
pub record TermsOpened : Type 0 where
  pub id : ℕ
  pub terms : OpenLockTerms

pub record TwapBound : Type 0 where
  pub feed_id : ℕ
  pub close_time : ℕ
  pub twap : ℤ
  pub expo : ℤ

pub record MarketSet : Type 0 where
  pub instrument : ℕ
  pub pair_tag : ℕ
  pub enabled : Bool
  pub paused : Bool

pub record OpenLockCall : Type 0 where
  pub t : OpenLockTerms
  pub sig_a : Bytes
  pub sig_b : Bytes

pub record Abi : Type 0 where
  pub keccak : Bytes → ℕ
  pub decode_terms_opened : Log → Option TermsOpened
  pub decode_twap_bound : Log → Option TwapBound
  pub decode_market_set : Log → Option MarketSet
  pub decode_open_lock : Bytes → Option OpenLockCall
  pub decode_apply_state : Bytes → Option Bytes
  pub decode_pv : Bytes → Option PublicValuesStruct
  pub open_lock_selector : Bytes
  -- `SIGNATURE_HASH` of the events
  pub terms_opened_hash : ℕ
  pub twap_bound_hash : ℕ
  pub market_set_hash : ℕ
