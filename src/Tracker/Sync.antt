-- ===== src/Tracker/Sync.antt =====
-- `sync` and `refresh_window` of crates/node/src/inbox.rs: new nonces are read from the chain and
-- recorded as submitted. The chain is a transport whose reads may change its state.
pub mod Recorded
use podseq.Prelude.{
  ℕ, zero, suc, ◌+◌, ◌-◌, Option, none, some, List, [], ◌∷◌, ◌++◌, saturating_add, if◌then◌else◌,
  Result, ok, err,
}
use podseq.Deadline.{InboxStatus, PendingTx}
use podseq.Deadline.Monitor.{Bytes, InboxError, InboxTransport, Decoders, sui_clock_id}
use podseq.Store.Disk.{Text, StoreError, Disk, Codec}
use podseq.Store.Map.{contains_key}
use podseq.Store.Inbox.{Submission, Nonces, snapshot, record_submitted}
use podseq.Window.{WindowView, WindowFields, window}
use podseq.Tracker.{TrackerError, transport, store, TrackedSubmission, deadline_blocks_for}

-- The configured part of the tracker; `window_package` says whether a package id is configured, and
-- `fields` are the window fields of the inbox under it.
pub record InboxTracker (S : Type 0) : Type 0 where
  pub transport : InboxTransport S
  pub decode : Decoders
  pub keccak256 : Bytes → Bytes
  pub hash_text : Bytes → Text  -- `format!("{tx_hash:#x}")`
  pub encode : Bytes → Text  -- `hex::encode`
  pub inbox_id : ℕ
  pub block_time_ms : ℕ
  pub window_package : Option WindowFields

-- What the tracker changes: the chain that it reads, the store's disk and the budget.
pub record TrackerState (S : Type 0) : Type 0 where
  pub chain : S
  pub disk : Disk
  pub deadline_blocks : ℕ

module _ {S : Type 0} (t : InboxTracker S) (c : Codec Nonces) where
  swap_budget : ℕ → Result InboxError WindowView × S → ℕ × S
  swap_budget old (err e, s) = (old, s)
  swap_budget old (ok view, s) = (deadline_blocks_for view.effective_ms t.block_time_ms, s)

  at_clock : WindowFields → ℕ → Result InboxError ℕ → S → ℕ × S
  unfolding swap_budget
  at_clock fields old (err e) s = (old, s)
  at_clock fields old (ok now_ms) s = swap_budget old (window t.transport fields now_ms s)

  read_clock : WindowFields → ℕ → Result InboxError Bytes × S → ℕ × S
  unfolding at_clock
  read_clock fields old (err e, s) = (old, s)
  read_clock fields old (ok bytes, s) = at_clock fields old (t.decode.clock bytes) s

  -- The budget and the chain after `refresh_window`: a failed read keeps the budget.
  unfoldable pub refresh_window : ℕ → S → ℕ × S
  unfolding read_clock
  refresh_window old s = elim t.window_package [
    | none ↦ (old, s)
    | some fields ↦ read_clock fields old (t.transport.object_contents sui_clock_id s)
  ]

  abbrev pub Synced : Type 0
  Synced = Result TrackerError (List TrackedSubmission) × S × Disk

  abbrev pub submission : ℕ → ℕ → PendingTx → Submission
  submission at_height deadline_height pending = record {
    deadline_height = deadline_height;
    deadline_ms = pending.deadline_ms;
    first_seen_height = at_height;
    tx_hash = t.hash_text (t.keccak256 pending.tx_bytes);
    tx_bytes = t.encode pending.tx_bytes;
  }

  abbrev pub fresh_one : ℕ → ℕ → ℕ → PendingTx → TrackedSubmission
  fresh_one nonce at_height deadline_height pending = record {
    nonce = nonce;
    tx_bytes = pending.tx_bytes;
    tx_hash = t.keccak256 pending.tx_bytes;
    deadline_ms = pending.deadline_ms;
    deadline_height = deadline_height;
    first_seen_height = at_height;
  }

  -- After the store's answer for one entry; `rest` is what follows.
  recorded :
      TrackedSubmission
      → (List TrackedSubmission → S → Disk → Synced)
      → List TrackedSubmission
      → S
      → Result StoreError (Unit {0}) × Disk
      → Synced
  recorded x rest fresh s (err e, d) = (err (store e), s, d)
  recorded x rest fresh s (ok _, d) = rest (fresh ++ x ∷ []) s d

  decoded :
      ℕ
      → ℕ
      → ℕ
      → (List TrackedSubmission → S → Disk → Synced)
      → List TrackedSubmission
      → S
      → Disk
      → Result InboxError PendingTx
      → Synced
  unfolding recorded
  decoded nonce at_height deadline_height rest fresh s d (err e) = (err transport, s, d)
  decoded nonce at_height deadline_height rest fresh s d (ok pending) =
      recorded (fresh_one nonce at_height deadline_height pending) rest fresh s
        (record_submitted c nonce (submission at_height deadline_height pending) d)

  -- After the read of one entry; an entry that is gone is left for the next pass.
  entry_read :
      ℕ
      → ℕ
      → ℕ
      → (List TrackedSubmission → S → Disk → Synced)
      → List TrackedSubmission
      → Disk
      → Result InboxError (Option Bytes) × S
      → Synced
  unfolding decoded
  entry_read nonce at_height deadline_height rest fresh d (err e, s) = (err transport, s, d)
  entry_read nonce at_height deadline_height rest fresh d (ok none, s) = rest fresh s d
  entry_read nonce at_height deadline_height rest fresh d (ok (some bytes), s) =
      decoded nonce at_height deadline_height rest fresh s d (t.decode.pending_tx bytes)

  -- The loop over `count` nonces from `nonce` on.
  unfoldable pub sync_each : ℕ → ℕ → ℕ → ℕ → Nonces → ℕ → List TrackedSubmission → S → Disk → Synced
  unfolding entry_read
  sync_each table at_height deadline_height zero tracked nonce fresh s d = (ok fresh, s, d)
  sync_each table at_height deadline_height (suc count) tracked nonce fresh s d =
      let rest = sync_each table at_height deadline_height count tracked (suc nonce) in
      if contains_key nonce tracked
      then rest fresh s d
      else entry_read nonce at_height deadline_height rest fresh d
          (t.transport.field_contents table nonce s)

  finish_sync : ℕ → Synced → Result TrackerError (List TrackedSubmission) × TrackerState S
  finish_sync budget (r, s, d) = (r, record { chain = s; disk = d; deadline_blocks = budget })

  loop_snapshot :
      ℕ
      → InboxStatus
      → ℕ
      → S
      → Result StoreError Nonces × Disk
      → Result TrackerError (List TrackedSubmission) × TrackerState S
  unfolding finish_sync sync_each
  loop_snapshot at_height status budget s (err e, d) = finish_sync budget (err (store e), s, d)
  loop_snapshot at_height status budget s (ok tracked, d) = finish_sync budget (
      sync_each status.pending_table_uid at_height (saturating_add at_height budget)
        (status.next_nonce - status.included_count) tracked status.included_count [] s d)

  refreshed :
      ℕ → InboxStatus → Disk → ℕ × S → Result TrackerError (List TrackedSubmission) × TrackerState S
  unfolding loop_snapshot
  refreshed at_height status d (budget, s) = loop_snapshot at_height status budget s (snapshot c d)

  status_read :
      ℕ
      → TrackerState S
      → Result InboxError InboxStatus
      → S
      → Result TrackerError (List TrackedSubmission) × TrackerState S
  unfolding refreshed refresh_window
  status_read at_height st (err e) s = (err transport, record st { chain = s })
  status_read at_height st (ok status) s =
      refreshed at_height status st.disk (refresh_window st.deadline_blocks s)

  contents_read :
      ℕ
      → TrackerState S
      → Result InboxError Bytes × S
      → Result TrackerError (List TrackedSubmission) × TrackerState S
  unfolding status_read
  contents_read at_height st (err e, s) = (err transport, record st { chain = s })
  contents_read at_height st (ok bytes, s) =
      status_read at_height st (t.decode.inbox_status bytes) s

  unfoldable pub sync :
      ℕ → TrackerState S → Result TrackerError (List TrackedSubmission) × TrackerState S
  unfolding contents_read
  sync at_height st = contents_read at_height st (t.transport.object_contents t.inbox_id st.chain)
