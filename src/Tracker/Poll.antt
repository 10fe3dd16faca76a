-- ===== src/Tracker/Poll.antt =====
-- `poll_pass` of crates/node/src/inbox.rs: one pass of the poller. The two calls of the execution
-- client, a receipt's height and the submission to the pool, are parameters that may change the
-- same outside world as the reads of the chain.
use podseq.Prelude.{ℕ, Option, none, some, List, [], ◌∷◌, Result, ok, err}
use podseq.Store.Disk.{Disk, Codec}
use podseq.Store.Inbox.{Nonces}
use podseq.Tracker.{
  Bytes, TrackerError, TrackedSubmission, Hex, pending_submissions, observe_inclusion,
}
use podseq.Tracker.Sync.{InboxTracker, TrackerState, sync}

pub data PollError : Type 0 where
  tracker : TrackerError → PollError
  rpc : PollError

pub record EthClient (S : Type 0) : Type 0 where
  pub receipt_height : Bytes → S → Result (Unit {0}) (Option ℕ) × S
  pub send_raw_transaction : Bytes → S → Result (Unit {0}) (Unit {0}) × S

module _ {S : Type 0} (t : InboxTracker S) (c : Codec Nonces) (hex : Hex) (eth : EthClient S) where
  abbrev pub Passed : Type 0
  Passed = Result PollError (Unit {0}) × TrackerState S

  inclusion_synced :
      (TrackerState S → Passed) → TrackerState S → Result TrackerError (Unit {0}) × Disk → Passed
  inclusion_synced rest st (err e, d) = (err (tracker e), record st { disk = d })
  inclusion_synced rest st (ok _, d) = rest (record st { disk = d })

  sent : (TrackerState S → Passed) → TrackerState S → Result (Unit {0}) (Unit {0}) × S → Passed
  sent rest st (err _, s) = (err rpc, record st { chain = s })
  sent rest st (ok _, s) = rest (record st { chain = s })

  -- A mined transaction has its marker set, and is not sent again.
  receipt_read :
      TrackedSubmission
      → (TrackerState S → Passed)
      → TrackerState S
      → Result (Unit {0}) (Option ℕ) × S
      → Passed
  unfolding inclusion_synced sent
  receipt_read x rest st (err _, s) = (err rpc, record st { chain = s })
  receipt_read x rest st (ok (some height), s) =
      inclusion_synced rest (record st { chain = s }) (observe_inclusion c x.nonce height st.disk)
  receipt_read x rest st (ok none, s) =
      sent rest (record st { chain = s }) (eth.send_raw_transaction x.tx_bytes s)

  unfoldable pub submit_each : List TrackedSubmission → TrackerState S → Passed
  unfolding receipt_read
  submit_each [] st = (ok tt, st)
  submit_each (x ∷ xs) st =
      receipt_read x (submit_each xs) st (eth.receipt_height x.tx_hash st.chain)

  submit_pending : TrackerState S → Result TrackerError (List TrackedSubmission) × Disk → Passed
  unfolding submit_each
  submit_pending st (err e, d) = (err (tracker e), record st { disk = d })
  submit_pending st (ok xs, d) = submit_each xs (record st { disk = d })

  after_sync : Result TrackerError (List TrackedSubmission) × TrackerState S → Passed
  unfolding submit_pending
  after_sync (err e, st) = (err (tracker e), st)
  after_sync (ok fresh, st) = submit_pending st (pending_submissions hex c st.disk)

  unfoldable pub poll_pass : ℕ → TrackerState S → Passed
  unfolding after_sync
  poll_pass at_height st = after_sync (sync t c at_height st)
