-- ===== src/Bridge/Requests.antt =====
-- The requests of the relayer to the L2 (crates/node/src/bridge.rs): view calls, transactions and their
-- receipts. A transaction is signed by the sender's library.
use podseq.Prelude.{
  Option, none, some, ℕ, zero, suc, max, Bool, false, not, none, some, [], ◌∷◌, Result, ok, err,
  length, ◌==◌, leb, ltb, if◌then◌else◌,
}
use podseq.Call.{Call, pure, lift, within, attempt, ◌>>=◌, focus}
use podseq.Core.Octets.{Bytes}
use podseq.Bridge.Abi.{
  RelayError, same_bytes, trim_0x, rpc, reverted, timed_out, short_data, ensure, ok_or, slice,
  from_be_bytes,
}
use podseq.Bridge.{
  Calldata, Selector, last_minted_deposit_nonce, minted_any, Receipt, Relayer, State,
}

unfoldable pub ensure_receipt_success : Receipt → Result RelayError (Unit {0})
ensure_receipt_success receipt = ensure (same_bytes (trim_0x receipt.status) (49 ∷ [])) reverted

abbrev pub last_is_set : Bytes → Bool
last_is_set [] = false
last_is_set (b ∷ []) = not (b == 0)
last_is_set (b ∷ c ∷ bytes) = last_is_set (c ∷ bytes)

module _ {W : Type 0} (r : Relayer W) where
  abbrev pub Step : Type 0 → Type 0
  Step A = Call (State W) RelayError A

  abbrev pub put_world : W → State W → State W
  put_world w st = record st { world = w }

  unfoldable pub on_world : {E A : Type 0} → Call W E A → Call (State W) E A
  on_world m = focus (λ st. st.world) put_world m

  -- A request, whose error is logged only.
  unfoldable pub request : {A : Type 0} → Call W (Unit {0}) A → Step A
  unfolding on_world
  request m = within (λ _. rpc) (on_world m)

  unfoldable pub eth_call_u64 : ℕ → Selector → Step ℕ
  unfolding slice from_be_bytes
  eth_call_u64 token selector = do
    bytes ← request (r.eth_call token selector)
    _ ← lift (ensure (leb 32 (length bytes)) short_data)
    low ← lift (slice 24 32 bytes)
    pure (from_be_bytes 0 low)

  unfoldable pub eth_call_bool : ℕ → Selector → Step Bool
  eth_call_bool token selector = do
    bytes ← request (r.eth_call token selector)
    pure (last_is_set bytes)

  abbrev pub or_zero : Result RelayError ℕ → ℕ
  or_zero (ok n) = n
  or_zero (err _) = 0

  -- `mintedAny` and `lastMintedDepositNonce`; the latter is read first.
  unfoldable pub eth_mint_cursor : ℕ → Step (Bool × ℕ)
  unfolding eth_call_u64 eth_call_bool
  eth_mint_cursor token = do
    last ← attempt (eth_call_u64 token last_minted_deposit_nonce)
    any ← eth_call_bool token minted_any
    pure (any, or_zero last)

  unfoldable pub send_l2_tx : ℕ → Calldata → ℕ → Step ℕ
  send_l2_tx to calldata gas_limit = do
    nonce_tx ← request r.transaction_count
    answered ← request r.gas_price
    let price = max answered 1000000000
    request (
        r.send_raw_transaction (record {
          nonce = nonce_tx;
          gas_limit = gas_limit;
          max_fee_per_gas = price;
          max_priority_fee_per_gas = if ltb price 2000000000 then price else 2000000000;
          to = to;
          input = calldata;
        }))

  -- `return` where there is a value, and go on otherwise.
  unfoldable pub found_or : {A : Type 0} → Step A → Option A → Step A
  found_or rest (some a) = pure a
  found_or rest none = rest

  -- One poll, and `n` more before the deadline.
  unfoldable pub poll_receipt : ℕ → ℕ → Step Receipt
  unfolding found_or
  poll_receipt zero tx_hash = do
    receipt ← request (r.transaction_receipt tx_hash)
    lift (ok_or timed_out receipt)
  poll_receipt (suc n) tx_hash = do
    receipt ← request (r.transaction_receipt tx_hash)
    found_or (poll_receipt n tx_hash) receipt

  unfoldable pub wait_for_receipt : ℕ → Step Receipt
  unfolding poll_receipt
  wait_for_receipt tx_hash = poll_receipt r.polls tx_hash

  unfoldable pub wait_for_receipt_success : ℕ → Step (Unit {0})
  unfolding wait_for_receipt
  wait_for_receipt_success tx_hash = do
    receipt ← wait_for_receipt tx_hash
    lift (ensure_receipt_success receipt)
