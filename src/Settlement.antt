-- ===== src/Settlement.antt =====
-- The settlement of a block: `do_settle` of move/sources/settlement.move, the commit calls of
-- crates/sui/src/settlement.rs, and the retries of crates/node/src/inbox.rs and runner.rs that drive
-- them. Building, signing and sending a transaction are a call on the state `W` of the world outside;
-- a blob id is a number.
pub mod Ledger
pub mod Gate
pub mod Conflict
mod Tests
use podseq.Prelude.{
  ℕ, zero, suc, ◌+◌, ◌*◌, max, ltb, u64_max, Bool, true, false, Option, none, some, List, Result,
  ok, err, ◌==◌, if◌then◌else◌,
}
use podseq.Call.{Call, pure, select, attempt, ◌>>=◌}
use podseq.Core.{Header}
use podseq.Store.Map.{get, insert}
use podseq.Deadline.Inbox as Inbox
use podseq.Deadline.Inbox.{enforce_settle}
use podseq.Tracker.{TrackerError, HaltCheck}
use podseq.Tracker.Halt.{wait_inclusion_gate}

pub record Registry : Type 0 where
  pub latest_height : ℕ
  pub commitments : List (ℕ × ℕ)
  pub inbox : Inbox.Inbox

pub data SettleAbort : Type 0 where
  conflicting_blob invalid_height missing_commitment : SettleAbort
  inbox_abort : Inbox.Abort → SettleAbort

unfoldable same_blob : Registry → ℕ → Option ℕ → Result SettleAbort Registry
same_blob r blob_id none = err missing_commitment
same_blob r blob_id (some settled) = if settled == blob_id then ok r else err conflicting_blob

unfoldable add_commitment :
    Registry → ℕ → ℕ → Result Inbox.Abort Inbox.Inbox → Result SettleAbort Registry
add_commitment r blob_id height (err e) = err (inbox_abort e)
add_commitment r blob_id height (ok i) = ok (record {
  latest_height = height;
  commitments = insert height blob_id r.commitments;
  inbox = i;
})

unfoldable pub do_settle : Registry → ℕ → ℕ → ℕ → ℕ → Result SettleAbort Registry
unfolding same_blob add_commitment enforce_settle
do_settle r blob_id height block_ts inbox_cursor =
    if height == r.latest_height
    then same_blob r blob_id (get height r.commitments)
    else if height == r.latest_height + 1
    then add_commitment r blob_id height (enforce_settle r.inbox block_ts inbox_cursor)
    else err invalid_height

-- What the client sends: the read of the inbox cursor, and a settle transaction with a cursor.
pub record Signer (W : Type 0) : Type 0 where
  pub inbox_cursor : Call W (Unit {0}) ℕ
  pub execute : Header → ℕ → ℕ → Call W (Unit {0}) (Unit {0})

pub data Outcome : Type 0 where
  committed interrupted exhausted : Outcome

module _ {W : Type 0} (s : Signer W) where
  unfoldable pub commit_with_cursor : Header → ℕ → ℕ → Call W (Unit {0}) (Unit {0})
  commit_with_cursor header blob tracked_cursor = do
    on_chain ← s.inbox_cursor
    s.execute header blob (max tracked_cursor on_chain)

  unfoldable pub commit : Header → ℕ → Call W (Unit {0}) (Unit {0})
  unfolding commit_with_cursor
  commit header blob = do cursor ← s.inbox_cursor; commit_with_cursor header blob cursor

  unfoldable pub commit_tracked : Header → ℕ → Result TrackerError ℕ → Call W (Unit {0}) (Unit {0})
  unfolding commit commit_with_cursor
  commit_tracked header blob (ok cursor) = commit_with_cursor header blob cursor
  commit_tracked header blob (err e) = commit header blob

  -- `none` is a node without an inbox; otherwise what `settle_cursor` answers.
  unfoldable pub commit_with_inbox :
      Header → ℕ → Option (Result TrackerError ℕ) → Call W (Unit {0}) (Unit {0})
  unfolding commit_tracked
  commit_with_inbox header blob none = commit header blob
  commit_with_inbox header blob (some cursor) = commit_tracked header blob cursor

module _ {W : Type 0} (shutting_down : W → Bool) where
  unfoldable pub after_op :
      Call W (Unit {0}) Outcome → Result (Unit {0}) (Unit {0}) → Call W (Unit {0}) Outcome
  after_op rest (ok _) = pure committed
  after_op rest (err _) = rest

  -- The loop asks for the shutdown and then tries; the model makes `n` rounds.
  unfoldable pub retry_with_backoff : ℕ → Call W (Unit {0}) (Unit {0}) → Call W (Unit {0}) Outcome
  unfolding after_op
  retry_with_backoff zero op = pure exhausted
  retry_with_backoff (suc n) op = do
    stopping ← podseq.Call.gets shutting_down
    select stopping (pure interrupted)
        (do answer ← attempt {E = Unit {0}} op; after_op (retry_with_backoff n op) answer)

  unfoldable pub after_gate :
      ℕ → Call W (Unit {0}) (Unit {0}) → Option Bool → Call W (Unit {0}) Outcome
  unfolding retry_with_backoff
  after_gate n op none = pure exhausted
  after_gate n op (some false) = pure interrupted
  after_gate n op (some true) = retry_with_backoff n op

  -- `committed` is `true` there and `interrupted` is `false`. The rounds of the gate are those of
  -- `wait_inclusion_gate`.
  unfoldable pub settle_with_gate :
      Signer W
      → Option (Result TrackerError ℕ)
      → Header
      → ℕ
      → List (Bool × Result TrackerError HaltCheck)
      → ℕ
      → Call W (Unit {0}) Outcome
  unfolding after_gate wait_inclusion_gate commit_with_inbox
  settle_with_gate s cursor header blob rounds n =
      after_gate n (commit_with_inbox s header blob cursor)
        (wait_inclusion_gate (has_inbox cursor) rounds)
    where
      has_inbox : Option (Result TrackerError ℕ) → Bool
      has_inbox none = false
      has_inbox (some _) = true

unfoldable answered :
    Registry → Result SettleAbort Registry → Result (Unit {0}) (Unit {0}) × Registry
answered r (ok r') = (ok tt, r')
answered r (err e) = (err tt, r)

-- Seconds to the milliseconds of the inbox's deadlines.
unfoldable pub settle_block_ts : ℕ → ℕ
settle_block_ts header_timestamp_secs =
    if ltb u64_max (header_timestamp_secs * 1000) then u64_max else header_timestamp_secs * 1000

-- The signer against the contract: an abort changes nothing.
unfoldable pub contract_signer : Signer Registry
unfolding answered do_settle settle_block_ts
contract_signer = record {
  inbox_cursor = λ r. (ok r.inbox.included_count, r);
  execute = λ header blob cursor r.
      answered r (do_settle r blob header.height (settle_block_ts header.timestamp) cursor);
}
