-- ===== src/Keeper/Submit.antt =====
-- crates/state-keeper/src/submit.rs: one broadcast of `applyState`. A message is its code points; the
-- provider's answers are parameters.
pub mod Outcomes
use state_keeper.Prelude.{
  ℕ, Text, codes, trim_start_0x, ◌+◌, Bool, true, false, ◌&&◌, ◌||◌, leb, if◌then◌else◌, Option,
  none, some, [], ◌∷◌, map, take, Result, ok, err, guard, ◌>>◌, bad_key, bad_url, be_bytes,
  estimate_gas, send_apply_state, await_receipt, reverted, ◌/◌, ◌%◌, ◌-◌, ltb,
}
use state_keeper.Types.{Bytes}
use state_keeper.Keeper.Chain.{Hex}
use state_keeper.Scan.Signatures.{has_prefix}

pub data SubmitOutcome : Type 0 where
  -- the transaction's hash; `none` stands for a transaction that was in the mempool already
  mined : Option ℕ → SubmitOutcome
  stale_root : SubmitOutcome

-- `to_ascii_lowercase`
abbrev pub to_lower : ℕ → ℕ
to_lower c = if leb b'A' c && leb c b'Z' then c + 32 else c

-- `haystack.contains(needle)`
unfoldable pub contains_text : Bytes → Bytes → Bool
contains_text needle [] = has_prefix needle []
contains_text needle (c ∷ cs) = has_prefix needle (c ∷ cs) || contains_text needle cs

unfoldable pub is_already_known : Bytes → Bool
is_already_known msg =
    let l = map to_lower msg in
    contains_text (codes "already known") l
    || contains_text (codes "alreadyknown") l
    || contains_text (codes "already imported") l
    || contains_text (codes "known transaction") l
    || contains_text (codes "transaction already in pool") l

unfoldable pub is_stale_root_revert : Hex → (Bytes → ℕ) → Bytes → Bool
is_stale_root_revert hex keccak msg =
    let selector = hex.encode (take 4 (be_bytes 32 (keccak (codes "StaleRoot()")))) in
    let lower = map to_lower msg in
    contains_text (codes "staleroot") lower || contains_text selector lower

-- The provider's answers to the three calls of a submission: an error message, or the answer.
pub data Reply {ℓ} (A : Type ℓ) : Type ℓ where
  answer : A → Reply A
  failure : Bytes → Reply A

-- The arguments of `submit_apply_state`.
pub record Submission : Type 0 where
  pub rpc_url : Text
  pub core_addr : ℕ
  pub signer_key : Text
  pub proof : Bytes
  pub public_values : Bytes

-- `PrivateKeySigner::from_str` and the URL's parser, whether they accept a text, and what the provider
-- answers.
pub record Broadcast : Type 0 where
  pub key_parses : Text → Bool
  pub url_parses : Text → Bool
  pub estimate : Reply ℕ
  pub send : Reply ℕ
  -- whether the receipt's status is a success
  pub receipt : Reply Bool

abbrev pub await_status : ℕ → Reply Bool → Result SubmitOutcome
await_status tx_hash (failure msg) = err await_receipt
await_status tx_hash (answer true) = ok (mined (some tx_hash))
await_status tx_hash (answer false) = err reverted

abbrev pub after_send : Hex → (Bytes → ℕ) → Reply ℕ → Reply Bool → Result SubmitOutcome
after_send hex keccak (failure msg) receipt =
    if is_already_known msg
    then ok (mined none)
    else if is_stale_root_revert hex keccak msg
    then ok stale_root
    else err send_apply_state
after_send hex keccak (answer tx_hash) receipt = await_status tx_hash receipt

abbrev pub after_estimate :
    Hex → (Bytes → ℕ) → Reply ℕ → Reply ℕ → Reply Bool → Result SubmitOutcome
after_estimate hex keccak (failure msg) send receipt =
    if is_stale_root_revert hex keccak msg then ok stale_root else err estimate_gas
after_estimate hex keccak (answer gas) send receipt = after_send hex keccak send receipt

unfoldable pub submit_apply_state :
    Hex → (Bytes → ℕ) → Submission → Broadcast → Result SubmitOutcome
submit_apply_state hex keccak s b = do
  guard (b.key_parses (trim_start_0x s.signer_key)) bad_key
  guard (b.url_parses s.rpc_url) bad_url
  after_estimate hex keccak b.estimate b.send b.receipt
