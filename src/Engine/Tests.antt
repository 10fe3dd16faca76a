-- ===== src/Engine/Tests.antt =====
-- An instance of the theorem on the Engine API facade: a client that is syncing at its first answer.
use podseq.Prelude.{ℕ, zero, suc, refl, none, some, [], ok}
use podseq.Call.{◌>>=◌, pure}
use podseq.Engine.{
  EngineClient, ForkchoiceUpdated, ExecutionPayload, valid, syncing, forkchoice, accept,
  wait_for_forkchoice, forkchoice_attempts, after_update, accepted_status,
}
use podseq.Engine.Confirmed.{Accepted, accept-Accepted}

abbrev payload : ExecutionPayload
payload = record {
  block_hash = 107;
  block_number = 7;
  timestamp = 1007;
  parent_hash = [];
  state_root = [];
  transactions = [];
}

-- The state of the world counts the updates that are answered `syncing`.
abbrev update_at : ℕ → ForkchoiceUpdated
update_at zero = record { payload_status = valid; payload_id = none }
update_at (suc n) = record { payload_status = syncing; payload_id = none }

abbrev left_after : ℕ → ℕ
left_after zero = zero
left_after (suc n) = n

abbrev slow : EngineClient ℕ
slow = record {
  fork_choice_updated_v3 = λ fc attributes w. (ok (update_at w), left_after w);
  new_payload_v4 = λ p w. (ok valid, w);
  get_payload_v4 = λ id w. (ok payload, w);
  block_number = λ w. (ok 7, w);
  block_by_number = λ n w. (ok (some 107), w);
}

accept-Accepted_example : Accepted slow payload (forkchoice 107 103 103) 0
unfolding accept wait_for_forkchoice forkchoice_attempts after_update accepted_status ◌>>=◌ pure
accept-Accepted_example = accept-Accepted slow payload 107 103 103 1 0 refl
