-- ===== src/Scan/Signatures.antt =====
-- `open_sigs` of scan.rs: the two signatures of an open, from the calldata of its transaction.
use state_keeper.Prelude.{
  ℕ, zero, suc, Bool, true, false, ◌&&◌, Option, none, some, [], ◌∷◌, ◌==◌, if◌then◌else◌, Result,
  ok, ◌>>=◌, ok_or, ok_or-eq-ok, >>=-eq-ok, length, ◌<◌, tx_not_found, no_open_signatures, drop,
  ◌≡◌, arith, inl, inr, ◌⊎◌, ap,
}
use state_keeper.Types.{Bytes}
use state_keeper.Events.{terms_rfq_id}
use state_keeper.Scan.Chain.{Abi, Provider, OpenLockCall}

-- `window == selector`, for the window at the front of the calldata.
unfoldable pub has_prefix : Bytes → Bytes → Bool
has_prefix [] bs = true
has_prefix (p ∷ ps) [] = false
has_prefix (p ∷ ps) (b ∷ bs) = p == b && has_prefix ps bs

-- The Terms and both signatures of a genuine `openLock`, kept as the decoded call.
abbrev pub terms_from_open_calldata : Abi → Bytes → Option OpenLockCall
terms_from_open_calldata abi calldata = abi.decode_open_lock calldata

-- A decoded call whose Terms have the expected identity.
abbrev pub if_matches : Abi → ℕ → Option OpenLockCall → Option OpenLockCall
if_matches abi expect_id none = none
if_matches abi expect_id (some c) =
    if terms_rfq_id abi.keccak c.t == expect_id then some c else none

-- `terms_from_open_calldata` and the test on the identity.
unfoldable pub matching_call : Abi → ℕ → Bytes → Option OpenLockCall
matching_call abi expect_id calldata =
    if_matches abi expect_id (terms_from_open_calldata abi calldata)

abbrev pub or_else : Option OpenLockCall → Option OpenLockCall → Option OpenLockCall
or_else none o = o
or_else (some c) o = some c

-- The loop over the windows: every suffix of the calldata that begins with the selector.
unfoldable pub embedded_call : Abi → ℕ → Bytes → Option OpenLockCall
unfolding has_prefix matching_call
embedded_call abi expect_id [] = none
embedded_call abi expect_id (b ∷ bs) =
    let rest = embedded_call abi expect_id bs in
    if has_prefix abi.open_lock_selector (b ∷ bs)
    then or_else (matching_call abi expect_id (b ∷ bs)) rest
    else rest

unfoldable pub find_call : Abi → ℕ → Bytes → Option OpenLockCall
unfolding matching_call embedded_call
find_call abi expect_id input =
    or_else (matching_call abi expect_id input) (embedded_call abi expect_id input)

unfoldable pub open_sigs : Abi → Provider → ℕ → ℕ → Result (Bytes × Bytes)
open_sigs abi p tx_hash expect_id = do
  tx ← p.get_transaction_by_hash tx_hash
  input ← ok_or tx (tx_not_found tx_hash)
  c ← ok_or (find_call abi expect_id input) (no_open_signatures expect_id)
  ok (c.sig_a, c.sig_b)

-- A call stands in the calldata at an offset, and its Terms have the identity.
pub record StandsIn (abi : Abi) (expect_id : ℕ) (input : Bytes) (c : OpenLockCall) : Type 0 where
  pub offset : ℕ
  pub decoded : abi.decode_open_lock (drop offset input) ≡ some c
  pub identity : terms_rfq_id abi.keccak c.t ≡ expect_id

module _ (abi : Abi) (expect_id : ℕ) where
  matching_call-some :
      (calldata : Bytes) (c : OpenLockCall)
      → matching_call abi expect_id calldata ≡ some c
      → (abi.decode_open_lock calldata ≡ some c) × (terms_rfq_id abi.keccak c.t ≡ expect_id)
  unfolding matching_call
  matching_call-some calldata c h = ground arith

  stands_at :
      (n : ℕ) (input : Bytes) (c : OpenLockCall)
      → matching_call abi expect_id (drop n input) ≡ some c
      → StandsIn abi expect_id input c
  stands_at n input c h =
      let found = matching_call-some (drop n input) c h in
      record { offset = n; decoded = found.0; identity = found.1 }

  stands_later :
      (b : ℕ) (bs : Bytes) (c : OpenLockCall)
      → StandsIn abi expect_id bs c
      → StandsIn abi expect_id (b ∷ bs) c
  stands_later b bs c s = record {
    offset = suc s.offset;
    decoded = s.decoded;
    identity = s.identity;
  }

  -- Either the front of a non-empty calldata gives the call, or the rest does.
  embedded_call-cases :
      (b : ℕ) (bs : Bytes) (c : OpenLockCall)
      → embedded_call abi expect_id (b ∷ bs) ≡ some c
      → (matching_call abi expect_id (b ∷ bs) ≡ some c) ⊎ (embedded_call abi expect_id bs ≡ some c)
  unfolding embedded_call
  embedded_call-cases b bs c h = ground arith

  embedded_call-StandsIn :
      (input : Bytes) (c : OpenLockCall)
      → embedded_call abi expect_id input ≡ some c
      → StandsIn abi expect_id input c
  embedded_call-StandsIn [] c h = unfold embedded_call in cc
  embedded_call-StandsIn (b ∷ bs) c h = elim (embedded_call-cases b bs c h) [
    | inl now ↦ stands_at 0 (b ∷ bs) c now
    | inr later ↦ stands_later b bs c (embedded_call-StandsIn bs c later)
  ]

  find_call-cases :
      (input : Bytes) (c : OpenLockCall)
      → find_call abi expect_id input ≡ some c
      → (matching_call abi expect_id input ≡ some c) ⊎ (embedded_call abi expect_id input ≡ some c)
  unfolding find_call
  find_call-cases input c h = ground arith

  -- A call that is found stands in the calldata and has the identity that the event announced.
  pub find_call-StandsIn :
      (input : Bytes) (c : OpenLockCall)
      → find_call abi expect_id input ≡ some c
      → StandsIn abi expect_id input c
  find_call-StandsIn input c h = elim (find_call-cases input c h) [
    | inl top ↦ stands_at 0 input c top
    | inr wrapped ↦ embedded_call-StandsIn input c wrapped
  ]

  embedded_call_complete :
      (input : Bytes) (n : ℕ)
      → embedded_call abi expect_id input ≡ none
      → n < length input
      → has_prefix abi.open_lock_selector (drop n input) ≡ true
      → matching_call abi expect_id (drop n input) ≡ none
  unfolding embedded_call
  embedded_call_complete [] n h l p = absurd (omega arith)
  embedded_call_complete (b ∷ bs) zero h l p = ground arith
  embedded_call_complete (b ∷ bs) (suc n) h l p =
      embedded_call_complete bs n (ground arith) (omega arith) p

  -- Where no call is found, the calldata is no `openLock` of that identity at its front, nor at any
  -- place at which the selector stands.
  pub find_call_complete :
      (input : Bytes)
      → find_call abi expect_id input ≡ none
      → (matching_call abi expect_id input ≡ none)
        × ((n : ℕ)
            → n < length input
            → has_prefix abi.open_lock_selector (drop n input) ≡ true
            → matching_call abi expect_id (drop n input) ≡ none)
  unfolding find_call
  find_call_complete input h = (ground arith, λ n. embedded_call_complete input n (ground arith))

-- Signatures that `open_sigs` answers are those of an `openLock` call in the calldata of the open's
-- transaction, whose Terms have the announced identity.
pub record IsSigned (abi : Abi) (p : Provider) (id : ℕ) (sig_a sig_b : Bytes) : Type 0 where
  pub tx_hash : ℕ
  pub input : Bytes
  pub call : OpenLockCall
  pub fetched : p.get_transaction_by_hash tx_hash ≡ ok (some input)
  pub stands : StandsIn abi id input call
  pub first : call.sig_a ≡ sig_a
  pub second : call.sig_b ≡ sig_b

-- The three calls that a success went through.
open_sigs-steps :
    (abi : Abi) (p : Provider) (tx_hash id : ℕ) (sigs : Bytes × Bytes)
    → open_sigs abi p tx_hash id ≡ ok sigs
    → (input : Bytes) × (c : OpenLockCall) × (p.get_transaction_by_hash tx_hash ≡ ok (some input))
      × (find_call abi id input ≡ some c)
      × ((c.sig_a, c.sig_b) ≡ sigs)
unfolding open_sigs
open_sigs-steps abi p tx_hash id sigs h =
    let (tx, fetched, h1) = >>=-eq-ok (p.get_transaction_by_hash tx_hash) _ h in
    let (input, e1, h2) = >>=-eq-ok (ok_or tx (tx_not_found tx_hash)) _ h1 in
    let (c, e2, h3) = >>=-eq-ok (ok_or (find_call abi id input) (no_open_signatures id)) _ h2 in
    (
      input,
      c,
      ground (arith, ok_or-eq-ok tx (tx_not_found tx_hash) input e1),
      ok_or-eq-ok _ _ c e2,
      ground arith,
    )

pub open_sigs-IsSigned :
    (abi : Abi) (p : Provider) (tx_hash id : ℕ) (sigs : Bytes × Bytes)
    → open_sigs abi p tx_hash id ≡ ok sigs
    → IsSigned abi p id sigs.0 sigs.1
open_sigs-IsSigned abi p tx_hash id sigs h =
    let (input, c, fetched, found, e) = open_sigs-steps abi p tx_hash id sigs h in
    record {
      tx_hash = tx_hash;
      input = input;
      call = c;
      fetched = fetched;
      stands = find_call-StandsIn abi id input c found;
      first = ap (λ s. s.0) e;
      second = ap (λ s. s.1) e;
    }
