-- ===== src/Bridge/Deposits.antt =====
-- The deposit pass of the relayer (crates/node/src/bridge.rs): each deposit of Sui is minted on the L2.
use podseq.Prelude.{
  ℕ, zero, suc, ◌-◌, Bool, true, false, ◌&&◌, Option, none, some, List, [], ◌∷◌, Result, ok, err,
  length, ◌==◌, leb, if◌then◌else◌,
}
use podseq.Call.{pure, lift, gets, select, modify, attempt, ◌>>=◌}
use podseq.Core.Octets.{Bytes}
use podseq.Bridge.Abi.{
  RelayError, no_created_log, no_canonical_token, not_utf8, recipient_length, RpcLog, ensure, ok_or,
  from_be_bytes, parse_bridge_created_log,
}
use podseq.Bridge.Registry.{TokenRegistry, token_for, add_token, snapshot}
use podseq.Bridge.{
  DepositRecord, mint, create_bridge, Relayer, State, mint_gas_limit, create_bridge_gas_limit,
}
use podseq.Bridge.Requests.{
  Step, request, send_l2_tx, wait_for_receipt, wait_for_receipt_success, ensure_receipt_success,
  eth_mint_cursor, found_or,
}

-- What follows when `a ∷ text` starts with "::".
after_colons : ℕ → Bytes → Option Bytes
after_colons a [] = none
after_colons a (b ∷ rest) = if (a == 58) && (b == 58) then some rest else none

or_else : {A : Type 0} → Option A → Option A → Option A
or_else (some a) o = some a
or_else none o = o

-- What follows the last "::".
last_part : Bytes → Option Bytes
unfolding after_colons or_else
last_part [] = none
last_part (a ∷ text) = or_else (last_part text) (after_colons a text)

-- The name and the symbol.
unfoldable pub derive_token_metadata : Bytes → Bytes × Bytes
unfolding last_part
derive_token_metadata coin_type =
    (coin_type, elim (last_part coin_type) [ some symbol ↦ symbol | none ↦ coin_type ])

module _ {W : Type 0} (r : Relayer W) where
  -- The token of the first log that parses.
  unfoldable pub created_token : List RpcLog → Option ℕ
  unfolding parse_bridge_created_log
  created_token [] = none
  created_token (log ∷ logs) = elim (parse_bridge_created_log r.texts r.created_topic log) [
    | ok (coin, token) ↦ some token
    | err _ ↦ created_token logs
  ]

  abbrev pub set_tokens : TokenRegistry → State W → State W
  set_tokens tokens st = record st { tokens = tokens }

  unfoldable pub register : Bytes → ℕ → Step r ℕ
  register coin_type token = do
    tokens ← gets (λ st. st.tokens)
    _ ← modify (set_tokens (add_token coin_type token tokens).0)
    select (add_token coin_type token tokens).1 (pure token)
        (lift (ok_or no_canonical_token (token_for coin_type tokens)))

  unfoldable pub create_token : Bytes → Step r ℕ
  unfolding send_l2_tx wait_for_receipt register created_token derive_token_metadata
  create_token coin_type = do
    _ ← lift (ensure (r.texts.is_utf8 coin_type) not_utf8)
    let metadata = derive_token_metadata coin_type
    tx_hash ←
        send_l2_tx r r.factory (create_bridge metadata.0 metadata.1 coin_type)
          create_bridge_gas_limit
    receipt ← wait_for_receipt r tx_hash
    _ ← lift (ensure_receipt_success receipt)
    token ← lift (ok_or no_created_log (created_token receipt.logs))
    register coin_type token

  unfoldable pub ensure_token : Bytes → Step r ℕ
  unfolding create_token
  ensure_token coin_type = do
    known ← gets (λ st. token_for coin_type st.tokens)
    found_or r (create_token coin_type) known

  unfoldable pub mint_on_l2 : ℕ → ℕ → Bytes → ℕ → Step r (Unit {0})
  unfolding send_l2_tx wait_for_receipt_success from_be_bytes
  mint_on_l2 token nonce recipient amount = do
    _ ← lift (ensure (length recipient == 20) recipient_length)
    tx_hash ← send_l2_tx r token (mint (from_be_bytes 0 recipient) amount nonce) mint_gas_limit
    wait_for_receipt_success r tx_hash

  abbrev pub set_next_deposit : ℕ → State W → State W
  set_next_deposit nonce st = record st {
    cursors = record st.cursors {
      next_deposit_nonce = suc nonce;
      tokens = snapshot r.spelling st.tokens;
    };
  }

  abbrev pub persist_cursors : State W → State W
  persist_cursors st = record st { world = r.write_cursors st.cursors st.world }

  -- Whether the loop goes on.
  unfoldable pub advance : ℕ → Step r Bool
  advance nonce = do _ ← modify (set_next_deposit nonce); _ ← modify persist_cursors; pure true

  unfoldable pub after_mint : ℕ → Result RelayError (Unit {0}) → Step r Bool
  unfolding advance
  after_mint nonce (ok _) = advance nonce
  after_mint nonce (err _) = pure false

  abbrev pub already_minted : ℕ → Result RelayError (Bool × ℕ) → Bool
  already_minted nonce (ok (any, last)) = any && leb nonce last
  already_minted nonce (err _) = false

  unfoldable pub with_token : ℕ → DepositRecord → Result RelayError ℕ → Step r Bool
  unfolding eth_mint_cursor mint_on_l2 after_mint advance
  with_token nonce rec (err _) = pure false
  with_token nonce rec (ok token) = do
    read ← attempt (eth_mint_cursor r token)
    select (already_minted nonce read) (advance nonce) (do
      minted ← attempt (mint_on_l2 token nonce rec.recipient_l2 rec.amount)
      after_mint nonce minted)

  unfoldable pub with_deposit : ℕ → Result RelayError (Option DepositRecord) → Step r Bool
  unfolding ensure_token with_token
  with_deposit nonce (err _) = pure false
  with_deposit nonce (ok none) = pure false
  with_deposit nonce (ok (some rec)) = do
    token ← attempt (ensure_token rec.coin_type)
    with_token nonce rec token

  unfoldable pub relay_next : ℕ → Step r Bool
  unfolding with_deposit
  relay_next latest = do
    nonce ← gets (λ st. st.cursors.next_deposit_nonce)
    select (leb latest nonce) (pure false)
        (do read ← attempt (request r (r.deposit_at nonce)); with_deposit nonce read)

  -- At most `n` rounds of the loop.
  unfoldable pub relay_up_to : ℕ → ℕ → Step r (Unit {0})
  unfolding relay_next
  relay_up_to latest zero = pure tt
  relay_up_to latest (suc n) = do
    more ← relay_next latest
    select more (relay_up_to latest n) (pure tt)

  unfoldable pub with_status : Result RelayError ℕ → Step r (Unit {0})
  unfolding relay_up_to
  with_status (err _) = pure tt
  with_status (ok latest) = do
    nonce ← gets (λ st. st.cursors.next_deposit_nonce)
    relay_up_to latest (suc (latest - nonce))

  unfoldable pub relay_deposits : Step r (Unit {0})
  unfolding with_status
  relay_deposits = do read ← attempt (request r r.vault_status); with_status read
