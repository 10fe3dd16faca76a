-- ===== src/Bridge/Burns/Tests.antt =====
-- A pass that releases one burn of the token 77, and is served by the vault of the contract.
use podseq.Prelude.{
  ℕ, Result, Bool, some, ◌≡◌, refl, ◌⊎◌, sym, ap, none, List, [], ◌∷◌, ok, err, if◌then◌else◌,
  ok_injective,
}
use mathlib.Core.Path.{subst}
use podseq.Call.Ensures.{Post}
use podseq.Call.{◌>>=◌, gets, modify, select, within, focus, lift, pure}
use podseq.Store.Map.{get}
use podseq.Bridge.Requests.{request, on_world}
use podseq.Bridge.Abi.{
  RpcLog, same_bytes, parse_log_address, parse_withdrawal_log, log_data_u64, hex_to_fixed32,
  decode_hex, trim_0x, slice, word_u64, from_be_bytes,
}
use podseq.Bridge.Registry.{default_cursors, find, put, coin_for, addresses}
use podseq.Bridge.{Relayer, State}
use podseq.Bridge.Withdrawals.{
  relay_withdrawals, relay_blocks, release_burns, process_logs, process_withdrawal_log,
  absorb_creations, absorb_logs, eth_get_logs,
}
use podseq.Bridge.Vault.{Vault, Abort, do_withdraw, reserve, withdraw_key}
use podseq.Bridge.Vault.Ledger.{do_withdraw-marks, do_withdraw-keeps}
use podseq.Bridge.Burns.{Pays, Stays, Answers, Moved}
use podseq.Bridge.Burns.Passes.{relay_withdrawals-Moves}
use podseq.Bridge.Tests.{outside, word, repeat}

-- Nonce 5, recipient 9, amount 30.
burn : RpcLog
burn = record {
  address = repeat 0 20;
  topics = word 2 ∷ word 5 ∷ word 0 ∷ word 9 ∷ [];
  contents = word 30;
}

burns : List ℕ → ℕ → ℕ → List RpcLog
burns [] from to = []
burns (a ∷ tokens) from to = burn ∷ []

abbrev told : Vault → Result Abort (Vault × Bool) → Result (Unit {0}) (Unit {0}) × Vault
told v (ok (u, _)) = (ok tt, u)
told v (err _) = (err tt, v)

abbrev node : Relayer Vault
node = record {
  vault_status = λ w. (err tt, w);
  deposit_at = λ _ w. (err tt, w);
  transaction_count = λ w. (err tt, w);
  gas_price = λ w. (err tt, w);
  send_raw_transaction = λ _ w. (err tt, w);
  transaction_receipt = λ _ w. (err tt, w);
  eth_call = λ _ _ w. (err tt, w);
  block_number = λ w. (ok 1, w);
  get_logs = λ tokens topic0 from to w.
      (ok (if same_bytes topic0 (word 2) then burns tokens from to else []), w);
  withdraw = λ tag recipient amount nonce v. told v (do_withdraw (65 ∷ []) amount nonce v);
  write_cursors = λ _ w. w;
  read_cursors = λ _. none;
  texts = outside.texts;
  spelling = outside.spelling;
  normalize_coin_type = outside.normalize_coin_type;
  coin_type_tag = outside.coin_type_tag;
  created_topic = outside.created_topic;
  withdrawal_topic = outside.withdrawal_topic;
  factory = 16;
  polls = 0;
}

abbrev Processed : ℕ → ℕ → Vault → Type 0
Processed tag nonce v = find (withdraw_key (65 ∷ []) nonce) v.processed_withdrawals ≡ some tt

refused : {A : Type 0} {a : A} → ◌≡◌ {A = Result (Unit {0}) A} (err tt) (ok a) → ⊥
refused e = cc

told-marks :
    (amount nonce : ℕ) (v v' : Vault) (x : Result Abort (Vault × Bool))
    → do_withdraw (65 ∷ []) amount nonce v ≡ x
    → told v x ≡ (ok tt, v')
    → Processed 0 nonce v'
told-marks amount nonce v v' (ok (u, b)) e t =
    subst (λ z. Processed 0 nonce z) (ap (λ p. p.1) t)
      (do_withdraw-marks (65 ∷ []) amount nonce v u b e)
told-marks amount nonce v v' (err _) e t = absurd (refused (ap (λ p. p.0) t))

told-keeps :
    (amount n nonce : ℕ) (v : Vault) (x : Result Abort (Vault × Bool))
    → do_withdraw (65 ∷ []) amount n v ≡ x
    → Processed 0 nonce v
    → Processed 0 nonce (told v x).1
told-keeps amount n nonce v (ok (u, b)) e h =
    do_withdraw-keeps (65 ∷ []) amount n v u b (withdraw_key (65 ∷ []) nonce) e h
told-keeps amount n nonce v (err _) e h = h

node-Pays : Pays node Processed
node-Pays tag amount nonce recipient v v' e =
    told-marks amount nonce v v' (do_withdraw (65 ∷ []) amount nonce v) refl e

node-Stays : Stays node Processed
node-Stays tag nonce = (
  λ _ amount n _ v h. told-keeps amount n nonce v (do_withdraw (65 ∷ []) amount n v) refl h,
  λ _ _ h. h,
)

node-Answers : Answers node Processed burns
unfolding burns
node-Answers = (λ tokens from to w w' logs _ e. sym (ok_injective (ap (λ x. x.0) e)), λ _ _. refl)

abbrev started : State Vault
started = record {
  cursors = default_cursors;
  tokens = record { by_coin_type = (65 ∷ [], 0) ∷ []; by_address = (0, 65 ∷ []) ∷ [] };
  world = record {
    deposit_nonce = 1;
    withdraw_nonce = 0;
    reserves = (65 ∷ [], 50) ∷ [];
    deposits = [];
    processed_withdrawals = [];
  };
}

-- 30 of the 50 coins are released.
released_five : reserve (65 ∷ []) (relay_withdrawals node started).1.world ≡ 20
unfolding reserve find put do_withdraw withdraw_key burns burn repeat relay_withdrawals relay_blocks
    release_burns process_logs process_withdrawal_log absorb_creations absorb_logs eth_get_logs
    parse_log_address parse_withdrawal_log log_data_u64 hex_to_fixed32 decode_hex trim_0x slice
    word_u64 from_be_bytes coin_for addresses get request on_world within focus lift gets modify
    select pure ◌>>=◌
released_five = refl

relay_withdrawals-Moves_example :
    Post
      (λ _ s. (s.cursors ≡ default_cursors) ⊎ Moved node Processed burns 0 s)
      (λ _ s. s.cursors ≡ default_cursors)
      (relay_withdrawals node started)
relay_withdrawals-Moves_example =
    relay_withdrawals-Moves node Processed node-Pays node-Stays burns node-Answers started
