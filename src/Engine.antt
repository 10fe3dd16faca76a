-- ===== src/Engine.antt =====
-- crates/engine/src/lib.rs: the facade over the Engine API client, whose requests
-- (crates/engine/src/client.rs) are parameters over the state `W` of the world outside. A hash that is
-- only compared is a number; the sleeps between attempts are left out.
pub mod Confirmed
mod Tests
use podseq.Prelude.{
  ℕ, zero, suc, Bool, true, false, Option, none, some, List, [], ◌∷◌, Result, ok, err, ◌==◌,
  if◌then◌else◌,
}
use podseq.Call.{Call, pure, throw, lift, attempt, ◌>>=◌}
use podseq.Core.{Block}
use podseq.Core.Octets.{Bytes}

pub data PayloadStatusEnum : Type 0 where
  valid invalid syncing accepted : PayloadStatusEnum

-- The code of a JSON-RPC error, an `i64`.
pub data Code : Type 0 where
  minus plus : ℕ → Code

-- The message of an RPC error: one that this crate writes, or the server's.
pub data Message : Type 0 where
  block_not_found : ℕ → Message  -- "block {height} not found; is the EL initialized?"
  no_payload_id still_syncing : Message
  rejected_payload forkchoice_returned : PayloadStatusEnum → Message
  message_text : Bytes → Message

pub data EngineError : Type 0 where
  rpc : Code → Message → EngineError
  decode transport jwt auth_secret url : EngineError

pub record ForkchoiceState : Type 0 where
  pub head_block_hash : ℕ
  pub safe_block_hash : ℕ
  pub finalized_block_hash : ℕ

pub record ForkchoiceUpdated : Type 0 where
  pub payload_status : PayloadStatusEnum
  pub payload_id : Option ℕ

pub record PayloadAttributes : Type 0 where
  pub timestamp : ℕ
  pub prev_randao : Bytes
  pub suggested_fee_recipient : ℕ

pub record ExecutionPayload : Type 0 where
  pub block_hash : ℕ
  pub block_number : ℕ
  pub timestamp : ℕ
  pub parent_hash : Bytes
  pub state_root : Bytes
  pub transactions : List Bytes

-- The requests of the client.
pub record EngineClient (W : Type 0) : Type 0 where
  pub fork_choice_updated_v3 :
      ForkchoiceState → Option PayloadAttributes → Call W EngineError ForkchoiceUpdated
  pub new_payload_v4 : ExecutionPayload → Call W EngineError PayloadStatusEnum
  pub get_payload_v4 : ℕ → Call W EngineError ExecutionPayload
  pub block_number : Call W EngineError ℕ
  pub block_by_number : ℕ → Call W EngineError (Option ℕ)

pub record BuiltPayload : Type 0 where
  pub payload_id : ℕ
  pub payload : ExecutionPayload
  pub block_hash : ℕ
  pub height : ℕ
  pub timestamp : ℕ

abbrev pub require : {E A : Type 0} → E → Option A → Result E A
require e (some a) = ok a
require e none = err e

abbrev pub forkchoice : ℕ → ℕ → ℕ → ForkchoiceState
forkchoice head safe finalized = record {
  head_block_hash = head;
  safe_block_hash = safe;
  finalized_block_hash = finalized;
}

-- `message.starts_with("block ")` for the server's own messages.
starts_with : Bytes → Bytes → Bool
starts_with [] s = true
starts_with (p ∷ ps) [] = false
starts_with (p ∷ ps) (c ∷ cs) = if p == c then starts_with ps cs else false

abbrev block_prefix : Bytes
block_prefix = 98 ∷ 108 ∷ 111 ∷ 99 ∷ 107 ∷ 32 ∷ []

block_message : Message → Bool
unfolding starts_with
block_message (block_not_found _) = true
block_message (message_text s) = starts_with block_prefix s
block_message _ = false

unfoldable pub is_transient : EngineError → Bool
unfolding block_message
is_transient transport = true
is_transient (rpc (minus n) message) = if n == 1 then block_message message else false
is_transient _ = false

module _ {W : Type 0} (client : EngineClient W) where
  -- The status of one answer; `rest` is the remaining attempts.
  unfoldable pub after_update :
      Call W EngineError ForkchoiceUpdated
      → ForkchoiceUpdated
      → PayloadStatusEnum
      → Call W EngineError ForkchoiceUpdated
  after_update rest updated valid = pure updated
  after_update rest updated syncing = rest
  after_update rest updated other = throw (rpc (minus 32001) (forkchoice_returned other))

  unfoldable pub forkchoice_attempts :
      ℕ → ForkchoiceState → Option PayloadAttributes → Call W EngineError ForkchoiceUpdated
  unfolding after_update
  forkchoice_attempts zero fc attributes = throw (rpc (minus 32001) still_syncing)
  forkchoice_attempts (suc n) fc attributes = do
    updated ← client.fork_choice_updated_v3 fc attributes
    after_update (forkchoice_attempts n fc attributes) updated updated.payload_status

  abbrev max_retries : ℕ
  max_retries = 10

  unfoldable pub wait_for_forkchoice :
      ForkchoiceState → Option PayloadAttributes → Call W EngineError ForkchoiceUpdated
  wait_for_forkchoice = forkchoice_attempts max_retries

  unfoldable pub build : ForkchoiceState → PayloadAttributes → Call W EngineError BuiltPayload
  unfolding wait_for_forkchoice
  build fc attributes = do
    updated ← wait_for_forkchoice fc (some attributes)
    payload_id ← lift (require (rpc (minus 32000) no_payload_id) updated.payload_id)
    payload ← client.get_payload_v4 payload_id
    pure (record {
      payload_id = payload_id;
      payload = payload;
      block_hash = payload.block_hash;
      height = payload.block_number;
      timestamp = payload.timestamp;
    })

  unfoldable pub accepted_status : PayloadStatusEnum → Call W EngineError (Unit {0})
  accepted_status valid = pure tt
  accepted_status other = throw (rpc (minus 32002) (rejected_payload other))

  unfoldable pub finalize : ℕ → ℕ → ℕ → Call W EngineError (Unit {0})
  unfolding wait_for_forkchoice
  finalize head safe finalized = do
    _ ← wait_for_forkchoice (forkchoice head safe finalized) none
    pure tt

  unfoldable pub accept : ExecutionPayload → ℕ → ℕ → ℕ → Call W EngineError (Unit {0})
  unfolding wait_for_forkchoice accepted_status
  accept payload new_head safe finalized = do
    status ← client.new_payload_v4 payload
    _ ← accepted_status status
    _ ← wait_for_forkchoice (forkchoice new_head safe finalized) none
    pure tt

  unfoldable pub current_head_inner : Call W EngineError (ℕ × ℕ)
  current_head_inner = do
    height ← client.block_number
    found ← client.block_by_number height
    hash ← lift (require (rpc (minus 1) (block_not_found height)) found)
    pure (hash, height)

  head_answer : Call W EngineError (ℕ × ℕ) → Result EngineError (ℕ × ℕ) → Call W EngineError (ℕ × ℕ)
  unfolding is_transient
  head_answer rest (ok r) = pure r
  head_answer rest (err e) = if is_transient e then rest else throw e

  -- `retries` is the number of failures that are answered before the deadline of 60 seconds.
  unfoldable pub current_head_with_height : ℕ → Call W EngineError (ℕ × ℕ)
  unfolding head_answer current_head_inner
  current_head_with_height zero = current_head_inner
  current_head_with_height (suc retries) = do
    answer ← attempt current_head_inner
    head_answer (current_head_with_height retries) answer

-- `to_vec` is the encoding of the payload as JSON, which may fail.
unfoldable pub payload_into_block :
    (ExecutionPayload → Result (Unit {0}) Bytes) → BuiltPayload → Result (Unit {0}) Block
payload_into_block to_vec built = elim (to_vec built.payload) [
  | err e ↦ err e
  | ok contents ↦ ok (record {
    header = record {
      height = built.height;
      parent_hash = built.payload.parent_hash;
      state_root = built.payload.state_root;
      timestamp = built.timestamp;
    };
    contents = contents;
    signature = none;
  })
]
