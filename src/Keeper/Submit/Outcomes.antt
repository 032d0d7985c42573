-- ===== src/Keeper/Submit/Outcomes.antt =====
-- When a submission is mined, and when it asks for a rebase.
use state_keeper.Prelude.{
  ℕ, trim_start_0x, Bool, true, false, some, ok, guard, guard-eq-ok, >>=-eq-ok, bad_key, bad_url,
  ◌≡◌, ◌↔◌, refl, arith,
}
use state_keeper.Types.{Bytes}
use state_keeper.Keeper.Chain.{Hex}
use state_keeper.Keeper.Submit.{
  mined, Reply, answer, failure, Submission, Broadcast, submit_apply_state, after_estimate,
}

-- The key, without each `0x` at its start, and the URL parse; the transaction was estimated, sent with this
-- hash, and its receipt is a success.
pub record IsMined (s : Submission) (b : Broadcast) (tx : ℕ) : Type 0 where
  pub key : b.key_parses (trim_start_0x s.signer_key) ≡ true
  pub url : b.url_parses s.rpc_url ≡ true
  pub gas : ℕ
  pub estimated : b.estimate ≡ answer gas
  pub sent : b.send ≡ answer tx
  pub receipt : b.receipt ≡ answer true

after_estimate-mined :
    (hex : Hex) (keccak : Bytes → ℕ) (estimate send : Reply ℕ) (receipt : Reply Bool) (tx : ℕ)
    → after_estimate hex keccak estimate send receipt ≡ ok (mined (some tx))
    → (gas : ℕ) × (estimate ≡ answer gas) × (send ≡ answer tx) × (receipt ≡ answer true)
after_estimate-mined hex keccak (failure m) send receipt tx h = absurd (ground arith)
after_estimate-mined hex keccak (answer g) (failure m) receipt tx h = absurd (ground arith)
after_estimate-mined hex keccak (answer g) (answer t) (failure m) tx h = absurd (cc)
after_estimate-mined hex keccak (answer g) (answer t) (answer false) tx h = absurd (cc)
after_estimate-mined hex keccak (answer g) (answer t) (answer true) tx h = (g, refl, cc, refl)

-- A submission answers a transaction's hash exactly when the key, without each `0x` at its start, and the URL
-- parse, the estimate succeeds, the broadcast answers that hash, and the receipt is a success.
pub submit_apply_state_iff :
    (hex : Hex) (keccak : Bytes → ℕ) (s : Submission) (b : Broadcast) (tx : ℕ)
    → (submit_apply_state hex keccak s b ≡ ok (mined (some tx))) ↔ IsMined s b tx
unfolding submit_apply_state
submit_apply_state_iff hex keccak s b tx = (
  λ h.
      let (_u, key, h1) =
        >>=-eq-ok (guard (b.key_parses (trim_start_0x s.signer_key)) bad_key) _ h in
      let (_v, url, h2) = >>=-eq-ok (guard (b.url_parses s.rpc_url) bad_url) _ h1 in
      let (gas, estimated, sent, receipt) =
        after_estimate-mined hex keccak b.estimate b.send b.receipt tx h2 in
      record {
        key = guard-eq-ok _ _ key;
        url = guard-eq-ok _ _ url;
        gas = gas;
        estimated = estimated;
        sent = sent;
        receipt = receipt;
      },
  λ m. rw (m.key, m.url, m.estimated, m.sent, m.receipt) refl,
)
