-- ===== src/Tracker/Tests.antt =====
-- Runs and instances of the tracker's theorems.
use podseq.Prelude.{
  ℕ, suc, saturating_add, ◌+◌, ◌*◌, max, ◌≤◌, ◌<◌, ◌≡◌, refl, none, some, [], ◌∷◌, map, arith, ◌==◌,
  if◌then◌else◌, Result, ok, err,
}
use podseq.Store.Disk.{
  Disk, mutate, load_raw, save_raw, read_to_string, write_tmp, rename_tmp, is_blank, is_whitespace,
}
use podseq.Store.Disk.Atomic.{contents}
use podseq.Store.Map.{get, contains_key, insert}
use podseq.Store.Inbox.{
  Submission, Nonces, submitted, add_submitted, set_included, record_submitted, mark_included,
  snapshot,
}
use podseq.Store.Inbox.Memory.{nonces_codec, nonces_codec-IsRoundTrip}
use podseq.Tracker.{
  Bytes, Hex, HaltCheck, TrackedSubmission, div_ceil, deadline_blocks_for, trim_0x, decode_tx_bytes,
  parse_tx_hash, contains_hash, same_bytes,
}
use podseq.Deadline.{InboxStatus, PendingTx}
use podseq.Deadline.Monitor.{InboxError, parse, not_found, InboxTransport, sui_clock_id}
use podseq.Window.{PendingWindow, window, effective_window_ms}
use podseq.Tracker.Sync.{InboxTracker, TrackerState, refresh_window, sync_each, sync}
use podseq.Tracker.Sync.Recorded.{Records, sync-Records}
use podseq.Tracker.Budget.{deadline_blocks_for-bounds}
use podseq.Tracker.Halt.{halt_check, is_halt, any_overdue, halt_check-any_overdue}
use podseq.Tracker.Observe.{observe_each, observe_transactions, observed}
use podseq.Tracker.Observe.Contents.{observe_transactions-contents}

deadline_blocks_for-bounds_example :
    (600000 ≤ deadline_blocks_for 600000 7000 * max 7000 1)
    × (deadline_blocks_for 600000 7000 * max 7000 1 < 600000 + max 7000 1)
deadline_blocks_for-bounds_example = deadline_blocks_for-bounds 600000 7000

-- A hash of 32 bytes that repeats the first byte of the transaction; a decoder that is the identity.
abbrev repeat : ℕ → Bytes
repeat b =
    b ∷ b ∷ b ∷ b ∷ b ∷ b ∷ b ∷ b ∷ b ∷ b ∷ b ∷ b ∷ b ∷ b ∷ b ∷ b ∷ b ∷ b ∷ b ∷ b ∷ b ∷ b ∷ b ∷ b
    ∷ b ∷ b ∷ b ∷ b ∷ b ∷ b ∷ b ∷ b ∷ []

abbrev hash_first : Bytes → Bytes
hash_first [] = repeat 0
hash_first (b ∷ bs) = repeat b

abbrev plain_hex : Hex
plain_hex = record { keccak256 = hash_first; decode = λ text. some text }

abbrev forced : ℕ → ℕ → Submission
forced b deadline = record {
  deadline_height = deadline;
  deadline_ms = 1600000;
  first_seen_height = 10;
  tx_hash = repeat b;
  tx_bytes = b ∷ [];
}

abbrev tracked : Nonces
tracked = (3, submitted (forced 7 300)) ∷ (4, submitted (forced 8 310)) ∷ []

abbrev empty_disk : Disk
empty_disk = record { main = none; tmp = none; healthy = 20; torn = none }

abbrev tracked_disk : Disk
tracked_disk =
    (record_submitted nonces_codec 4 (forced 8 310)
      (record_submitted nonces_codec 3 (forced 7 300) empty_disk).1).1

tracked-contents : contents nonces_codec tracked_disk ≡ ok tracked
unfolding record_submitted mutate load_raw save_raw read_to_string write_tmp rename_tmp contents
    nonces_codec add_submitted contains_key get insert is_blank is_whitespace
tracked-contents = refl

tracked_disk-healthy : 1 ≤ tracked_disk.healthy
unfolding record_submitted mutate load_raw save_raw read_to_string write_tmp rename_tmp nonces_codec
    add_submitted contains_key get insert is_blank is_whitespace
tracked_disk-healthy = omega arith

observes_four :
    (observe_transactions plain_hex nonces_codec 42 ((8 ∷ 1 ∷ []) ∷ []) tracked_disk).0
    ≡ ok (4 ∷ [])
unfolding observe_transactions observe_each mark_included set_included snapshot parse_tx_hash
    decode_tx_bytes trim_0x contains_hash same_bytes record_submitted mutate load_raw save_raw
    read_to_string write_tmp rename_tmp contents nonces_codec add_submitted contains_key get insert
    is_blank is_whitespace
observes_four = refl

observe_transactions-contents_example :
    (m' : Nonces) × (contents nonces_codec
        (observe_transactions plain_hex nonces_codec 42 ((8 ∷ 1 ∷ []) ∷ []) tracked_disk).1
      ≡ ok m')
    × ((n : ℕ)
        → get n m' ≡ elim (get n tracked) [
          | none ↦ none
          | some r ↦
              some (observed plain_hex nonces_codec 42 (map hash_first ((8 ∷ 1 ∷ []) ∷ [])) r)
        ])
observe_transactions-contents_example =
    observe_transactions-contents plain_hex nonces_codec nonces_codec-IsRoundTrip 42
      ((8 ∷ 1 ∷ []) ∷ []) tracked (4 ∷ []) tracked_disk tracked-contents
      (omega arith, (omega arith, tt)) observes_four

halt_check-any_overdue_example :
    (check : HaltCheck) × ((halt_check nonces_codec 305 tracked_disk).0 ≡ ok check)
    × (is_halt check ≡ any_overdue 305 tracked)
halt_check-any_overdue_example =
    halt_check-any_overdue nonces_codec tracked_disk tracked 305 tracked-contents
      tracked_disk-healthy (omega arith, (omega arith, tt))

abbrev status_of : Bytes → Result InboxError InboxStatus
status_of (n ∷ k ∷ []) =
    ok (record { next_nonce = n; included_count = k; last_settled_ts = 50; pending_table_uid = 9 })
status_of _ = err parse

abbrev clock_of : Bytes → Result InboxError ℕ
clock_of (t ∷ []) = ok t
clock_of _ = err parse

abbrev entry_of : Bytes → Result InboxError PendingTx
entry_of (d ∷ bytes) = ok (record { deadline_ms = d; tx_bytes = bytes })
entry_of _ = err parse

abbrev override_of : Bytes → Result InboxError ℕ
override_of (v ∷ []) = ok v
override_of _ = err parse

abbrev staged_of : Bytes → Result InboxError PendingWindow
staged_of _ = err parse

-- A chain with two pending nonces, 3 and 4, and a window that was narrowed to 90 seconds; it counts
-- its reads.
abbrev chain_of_two : InboxTransport ℕ
chain_of_two = record {
  object_contents = λ id s. (
    if id == 1
        then ok (5 ∷ 3 ∷ [])
        else if id == sui_clock_id
        then ok (700000 ∷ [])
        else if id == 2
        then ok (90000 ∷ [])
        else err not_found,
    suc s,
  );
  field_contents = λ table key s. (ok (some (800000 ∷ key ∷ 1 ∷ [])), suc s);
}

abbrev tracker : InboxTracker ℕ
tracker = record {
  transport = chain_of_two;
  decode = record { inbox_status = status_of; clock = clock_of; pending_tx = entry_of };
  keccak256 = hash_first;
  hash_text = λ h. h;
  encode = λ b. b;
  inbox_id = 1;
  block_time_ms = 7000;
  window_package = some (record {
    window_field_id = 2;
    pending_window_field_id = 3;
    parse_window_override = override_of;
    parse_pending_window = staged_of;
  });
}

abbrev one_known : Disk
one_known = (record_submitted nonces_codec 3 (forced 7 300) empty_disk).1

abbrev before_sync : TrackerState ℕ
before_sync = record { chain = 0; disk = one_known; deadline_blocks = 86 }

abbrev fresh_four : TrackedSubmission
fresh_four = record {
  nonce = 4;
  tx_bytes = 4 ∷ 1 ∷ [];
  tx_hash = repeat 4;
  deadline_ms = 800000;
  deadline_height = 33;
  first_seen_height = 20;
}

one_known-contents : contents nonces_codec one_known ≡ ok ((3, submitted (forced 7 300)) ∷ [])
unfolding record_submitted mutate load_raw save_raw read_to_string write_tmp rename_tmp contents
    nonces_codec add_submitted contains_key get insert is_blank is_whitespace
one_known-contents = refl

syncs_four : (sync tracker nonces_codec 20 before_sync).0 ≡ ok (fresh_four ∷ [])
unfolding sync refresh_window sync_each window effective_window_ms deadline_blocks_for div_ceil
    snapshot record_submitted mutate load_raw save_raw read_to_string write_tmp rename_tmp contents
    nonces_codec add_submitted contains_key get insert is_blank is_whitespace
syncs_four = refl

sync-Records_example :
    let st' = (sync tracker nonces_codec 20 before_sync).1 in
    Records tracker nonces_codec 20
      (saturating_add 20 st'.deadline_blocks)
      ((3, submitted (forced 7 300)) ∷ [])
      (fresh_four ∷ [])
      st'.disk
sync-Records_example =
    sync-Records tracker nonces_codec nonces_codec-IsRoundTrip 20 before_sync
      ((3, submitted (forced 7 300)) ∷ []) (fresh_four ∷ []) one_known-contents syncs_four
