-- ===== src/Bridge/Withdrawals.antt =====
-- The withdrawal pass of the relayer (crates/node/src/bridge.rs): new tokens of the factory are taken
-- in, then each burn that a registered token logged is released on Sui.
use podseq.Prelude.{
  ℕ, suc, Bool, true, false, not, List, [], ◌∷◌, Result, ok, err, ltb, map_err, length,
}
use podseq.Call.{pure, lift, gets, select, modify, attempt, ◌>>=◌}
use podseq.Bridge.Abi.{
  RelayError, short_data, unknown_token, not_utf8, coin_type_unparsed, RpcLog, ensure, ok_or,
  parse_bridge_created_log, parse_log_address, parse_withdrawal_log,
}
use podseq.Core.Octets.{Bytes}
use podseq.Bridge.Registry.{TokenRegistry, add_token, coin_for, addresses, snapshot}
use podseq.Bridge.{Relayer, State}
use podseq.Bridge.Requests.{Step, request}
use podseq.Bridge.Deposits.{relay_deposits, persist_cursors}

abbrev pub is_nil : {A : Type 0} → List A → Bool
is_nil [] = true
is_nil (x ∷ xs) = false

unfoldable pub add_normal : Result (Unit {0}) Bytes → ℕ → TokenRegistry → TokenRegistry
add_normal (ok key) token tokens = (add_token key token tokens).0
add_normal (err _) token tokens = tokens

module _ {W : Type 0} (r : Relayer W) where
  unfoldable pub eth_get_logs : List ℕ → Bytes → ℕ → ℕ → Step r (List RpcLog)
  eth_get_logs tokens topic0 from_block to_block = do
    _ ← lift (ensure (not (is_nil tokens)) short_data)
    request r (r.get_logs tokens topic0 from_block to_block)

  -- A token for a coin type that has one, and a log that does not parse, are left out.
  unfoldable pub absorb_parsed : Result RelayError (Bytes × ℕ) → TokenRegistry → TokenRegistry
  unfolding add_normal
  absorb_parsed (err _) tokens = tokens
  absorb_parsed (ok (coin, token)) tokens = add_normal (r.normalize_coin_type coin) token tokens

  unfoldable pub absorb_logs : List RpcLog → TokenRegistry → TokenRegistry
  unfolding absorb_parsed
  absorb_logs [] tokens = tokens
  absorb_logs (log ∷ logs) tokens =
      absorb_logs logs (absorb_parsed (parse_bridge_created_log r.texts r.created_topic log) tokens)

  abbrev pub take_in : List RpcLog → State W → State W
  take_in logs st = record st { tokens = absorb_logs logs st.tokens }

  -- The number of logs.
  unfoldable pub absorb_creations : ℕ → ℕ → Step r ℕ
  unfolding eth_get_logs absorb_logs
  absorb_creations from_block to_block = do
    logs ← eth_get_logs (r.factory ∷ []) r.created_topic from_block to_block
    _ ← modify (take_in logs)
    pure (length logs)

  unfoldable pub process_withdrawal_log : RpcLog → Step r (Unit {0})
  process_withdrawal_log log = do
    emitter ← lift (parse_log_address r.texts log.address)
    tokens ← gets (λ st. st.tokens)
    coin_type ← lift (ok_or unknown_token (coin_for emitter tokens))
    _ ← lift (ensure (r.texts.is_utf8 coin_type) not_utf8)
    tag ← lift (map_err (λ _. coin_type_unparsed) (r.coin_type_tag coin_type))
    parsed ← lift (parse_withdrawal_log r.texts log)
    request r (r.withdraw tag parsed.sui_recipient parsed.amount parsed.nonce)

  unfoldable pub process_logs : List RpcLog → Step r (Unit {0})
  unfolding process_withdrawal_log
  process_logs [] = pure tt
  process_logs (log ∷ logs) = do _ ← process_withdrawal_log log; process_logs logs

  unfoldable pub release_burns : List ℕ → ℕ → ℕ → Step r (Unit {0})
  unfolding process_logs eth_get_logs
  release_burns tokens from_block latest =
      select (is_nil tokens) (pure tt)
        (do logs ← eth_get_logs tokens r.withdrawal_topic from_block latest; process_logs logs)

  abbrev pub set_next_block : ℕ → State W → State W
  set_next_block latest st = record st {
    cursors = record st.cursors {
      next_l2_block = suc latest;
      tokens = snapshot r.spelling st.tokens;
    };
  }

  unfoldable pub relay_blocks : ℕ → ℕ → Step r (Unit {0})
  unfolding release_burns absorb_creations
  relay_blocks from_block latest = do
    _ ← absorb_creations from_block latest
    known ← gets (λ st. addresses st.tokens)
    _ ← release_burns known from_block latest
    _ ← modify (set_next_block latest)
    modify (persist_cursors r)

  unfoldable pub relay_withdrawals : Step r (Unit {0})
  unfolding relay_blocks
  relay_withdrawals = do
    from_block ← gets (λ st. st.cursors.next_l2_block)
    latest ← request r r.block_number
    select (ltb latest from_block) (pure tt) (relay_blocks from_block latest)

  -- One round of `run`, which only logs an error.
  unfoldable pub pass : Step r (Unit {0})
  unfolding relay_withdrawals
  pass = do
    _ ← attempt {E = RelayError} (relay_deposits r)
    _ ← attempt {E = RelayError} relay_withdrawals
    pure tt

-- A round of the loop, or the end of a process and the start of another.
pub data Round : Type 0 where
  passes restarts : Round

module _ {W : Type 0} (r : Relayer W) (start : Step r (Unit {0})) where
  unfoldable pub started : Result RelayError (Unit {0}) × State W → Bool × State W
  started (ok _, st) = (true, st)
  started (err _, st) = (false, st)

  -- The relayer works once a start has succeeded.
  unfoldable pub round : Round → Bool × State W → Bool × State W
  unfolding started pass
  round restarts (working, st) = started (start st)
  round passes (true, st) = (true, (pass r st).1)
  round passes (false, st) = (false, st)

  unfoldable pub rounds : List Round → Bool × State W → Bool × State W
  unfolding round
  rounds [] s = s
  rounds (x ∷ xs) s = rounds xs (round x s)
