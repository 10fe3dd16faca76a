-- ===== src/Deadline/Tests.antt =====
-- Runs and instances of the theorems on the deadline status.
use podseq.Prelude.{
  ℕ, suc, ◌≡◌, ◌≢◌, refl, none, some, [], ◌∷◌, arith, Result, ok, err, ◌==◌, if◌then◌else◌,
}
use podseq.Deadline.{InboxStatus, PendingTx, active, halted, violated, is_halted, classify}
use podseq.Deadline.Monitor.{
  Bytes, InboxError, parse, InboxTransport, Decoders, DeadlineMonitor, Snapshot, sui_clock_id,
  read_inbox, read_snapshot, agrees, confirm_unchanged, verdict, attempt, attempts, status,
}
use podseq.Deadline.Confirm.{Confirmed, Retried, status-Confirmed}
use podseq.Deadline.Gate.{HaltGate}
use podseq.Deadline.Inbox.{Inbox, oldest, view, submit, enforce_settle, gate}
use podseq.Deadline.Witness.{
  submits, settles, Reach, here, next, StepInTime, AllInTime, empty_inbox, Reach-never_violated,
}

abbrev status_of : Bytes → Result InboxError InboxStatus
status_of (n ∷ c ∷ t ∷ []) =
    ok (record { next_nonce = n; included_count = c; last_settled_ts = t; pending_table_uid = 9 })
status_of _ = err parse

abbrev clock_of : Bytes → Result InboxError ℕ
clock_of (t ∷ []) = ok t
clock_of _ = err parse

abbrev entry_of : Bytes → Result InboxError PendingTx
entry_of (d ∷ bytes) = ok (record { deadline_ms = d; tx_bytes = bytes })
entry_of _ = err parse

abbrev number_decoders : Decoders
number_decoders = record { inbox_status = status_of; clock = clock_of; pending_tx = entry_of }

-- A chain at rest: its inbox with one entry, whose deadline was 100; and the clock.
abbrev resting : InboxTransport ℕ
resting = record {
  object_contents = λ id now. (ok (if id == sui_clock_id then now ∷ [] else 1 ∷ 0 ∷ 50 ∷ []), now);
  field_contents = λ table key now. (ok (some (100 ∷ 7 ∷ [])), now);
}

-- A chain on which the entry is settled while the inbox is read for the second time.
abbrev moving : InboxTransport ℕ
moving = record {
  object_contents = λ id reads. (
    ok (
        if id == sui_clock_id
        then 500 ∷ []
        else if reads == 0
        then 1 ∷ 0 ∷ 50 ∷ []
        else 1 ∷ 1 ∷ 90 ∷ []),
    suc reads,
  );
  field_contents = λ table key reads. (ok (if key == 0 then some (100 ∷ 7 ∷ []) else none), reads);
}

abbrev monitor : DeadlineMonitor
monitor = record { inbox = 1; margin_ms = 10 }

abbrev expected : Snapshot
expected = record {
  status = record {
    next_nonce = 1;
    included_count = 0;
    last_settled_ts = 50;
    pending_table_uid = 9;
  };
  now_ms = 111;
  oldest = some (record { deadline_ms = 100; tx_bytes = 7 ∷ [] });
}

moves_on : status moving number_decoders monitor 0 ≡ (ok active, 5)
unfolding status attempts attempt read_snapshot read_inbox confirm_unchanged verdict classify
    is_halted agrees
moves_on = refl

rests : status resting number_decoders monitor 111 ≡ (ok (halted 0 100), 111)
unfolding status attempts attempt read_snapshot read_inbox confirm_unchanged verdict classify
    is_halted agrees
rests = refl

status-Confirmed_example :
    (u : ℕ) × Retried resting number_decoders monitor 111 u
    × Confirmed resting number_decoders monitor u (halted 0 100)
status-Confirmed_example =
    status-Confirmed resting number_decoders monitor 111 111 (halted 0 100) rests
      (unfold is_halted in refl)

abbrev entry : PendingTx
entry = record { deadline_ms = 100; tx_bytes = 7 ∷ [] }

abbrev open_gate : HaltGate
open_gate = record { last = none }

abbrev one_pending : Inbox
one_pending = record {
  included_count = 0;
  last_settled_ts = 0;
  pending = record { deadline_ms = 110; tx_bytes = 7 ∷ [] } ∷ [];
}

abbrev settled_before : Inbox
settled_before = record one_pending { last_settled_ts = 90 }

submits_one : submit empty_inbox 10 100 (7 ∷ []) ≡ ok one_pending
unfolding submit
submits_one = refl

settles_none : enforce_settle one_pending 90 0 ≡ ok settled_before
unfolding enforce_settle gate
settles_none = refl

abbrev history : Reach empty_inbox settled_before
history = next (next here (submits 10 100 (7 ∷ []) submits_one)) (settles 90 0 settles_none)

history-AllInTime : AllInTime history
unfolding AllInTime StepInTime
history-AllInTime = ((tt, omega arith), tt)

Reach-never_violated_example :
    classify 500 10 (view settled_before 9) (oldest settled_before) ≢ violated 0 110 90
Reach-never_violated_example =
    Reach-never_violated settled_before 500 10 9 0 110 90 history history-AllInTime
