-- ===== src/Bridge/History/Tests.antt =====
-- A registry indexed from two blocks by requests of which every second one fails.
use podseq.Prelude.{
  ℕ, ◌-◌, suc, ◌≡◌, refl, sym, ap, Bool, true, false, none, List, [], ◌∷◌, Result, ok, err, ◌==◌,
  arith, if◌then◌else◌, ok_injective,
}
use podseq.Call.Ensures.{Post}
use podseq.Bridge.Abi.{RpcLog, scan_unfinished}
use podseq.Bridge.Registry.{default_cursors, empty_registry}
use podseq.Bridge.{Relayer, State}
use podseq.Bridge.Restore.{restore_token_registry, has_entries}
use podseq.Bridge.History.Blocks.{logs_of}
use podseq.Bridge.History.{FactoryLogs, HeadsFit, Indexed, restore_token_registry-Indexed}
use podseq.Bridge.Tests.{outside, created}

chain : ℕ → List RpcLog
chain n = if n == 1 then created ∷ [] else []

answer : ℕ → ℕ → Bool → Result (Unit {0}) (List RpcLog) × Bool
answer from to true = (err tt, false)
answer from to false = (ok (logs_of chain from (suc to - from)), true)

-- Whether the next request of logs fails.
abbrev node : Relayer Bool
node = record {
  vault_status = λ w. (err tt, w);
  deposit_at = λ _ w. (err tt, w);
  transaction_count = λ w. (err tt, w);
  gas_price = λ w. (err tt, w);
  send_raw_transaction = λ _ w. (err tt, w);
  transaction_receipt = λ _ w. (err tt, w);
  eth_call = λ _ _ w. (err tt, w);
  block_number = λ w. (ok 1, w);
  get_logs = λ _ _ from to w. answer from to w;
  withdraw = λ _ _ _ _ w. (err tt, w);
  write_cursors = λ _ w. w;
  read_cursors = λ _. none;
  texts = outside.texts;
  spelling = outside.spelling;
  normalize_coin_type = outside.normalize_coin_type;
  coin_type_tag = outside.coin_type_tag;
  created_topic = outside.created_topic;
  withdrawal_topic = outside.withdrawal_topic;
  factory = 16;
  polls = 0;
}

node-FactoryLogs : FactoryLogs node chain
unfolding answer
node-FactoryLogs from to true w' logs e = absurd (no_answer (ap (λ x. x.0) e))
  where
    no_answer : ◌≡◌ {A = Result (Unit {0}) (List RpcLog)} (err tt) (ok logs) → ⊥
    no_answer h = cc
node-FactoryLogs from to false w' logs e = sym (ok_injective (ap (λ x. x.0) e))

node-HeadsFit : HeadsFit node chain
node-HeadsFit w w' head e = omega (arith, ok_injective (ap (λ x. x.0) e))

abbrev blank : State Bool
blank = record { cursors = default_cursors; tokens = empty_registry; world = true }

restore_token_registry-Indexed_example :
    Post
      (λ _. Indexed node chain node-FactoryLogs)
      (λ e _. ¬ (e ≡ scan_unfinished))
      (restore_token_registry node blank)
unfolding has_entries
restore_token_registry-Indexed_example =
    restore_token_registry-Indexed node chain node-FactoryLogs node-HeadsFit blank refl
