-- ===== src/Deadline/Monitor.antt =====
-- `DeadlineMonitor` of crates/sui/src/deadline.rs. The transport is a parameter: each read answers
-- from a state that it may change, so that the chain moves between two reads.
use podseq.Prelude.{
  ℕ, zero, suc, Bool, ◌&&◌, Option, none, some, List, ◌==◌, if◌then◌else◌, Result, ok, err,
}
use podseq.Deadline.{InboxStatus, PendingTx, DeadlineStatus, is_halted, classify}

pub data InboxError : Type 0 where
  rpc parse not_found : InboxError

pub data DeadlineError : Type 0 where
  inbox : InboxError → DeadlineError
  inconsistent_snapshot : ℕ → DeadlineError

abbrev pub Bytes : Type 0
Bytes = List ℕ

pub record InboxTransport (S : Type 0) : Type 0 where
  pub object_contents : ℕ → S → Result InboxError Bytes × S
  pub field_contents : ℕ → ℕ → S → Result InboxError (Option Bytes) × S

-- `parse_inbox_status`, `parse_clock` and `parse_pending_tx`.
pub record Decoders : Type 0 where
  pub inbox_status : Bytes → Result InboxError InboxStatus
  pub clock : Bytes → Result InboxError ℕ
  pub pending_tx : Bytes → Result InboxError PendingTx

abbrev pub sui_clock_id : ℕ
sui_clock_id = 6

abbrev pub confirm_limit : ℕ
confirm_limit = 3

pub record DeadlineMonitor : Type 0 where
  pub inbox : ℕ
  pub margin_ms : ℕ

pub record Snapshot : Type 0 where
  pub status : InboxStatus
  pub now_ms : ℕ
  pub oldest : Option PendingTx

unfoldable pub agrees : InboxStatus → InboxStatus → Bool
agrees confirm read =
    (confirm.included_count == read.included_count)
    && (confirm.last_settled_ts == read.last_settled_ts)

unfoldable pub verdict : DeadlineMonitor → Snapshot → DeadlineStatus
verdict m snap = classify snap.now_ms m.margin_ms snap.status snap.oldest

module _ {S : Type 0} (transport : InboxTransport S) (decode : Decoders) where
  -- The state is passed along; `?` returns the error with the state that the read left.
  abbrev pub Read : Type 0 → Type 0
  Read A = S → Result InboxError A × S

  abbrev pub feed :
      {A B : Type 0} → (A → Read B) → Result InboxError A × S → Result InboxError B × S
  feed f (ok a, s) = f a s
  feed f (err e, s) = (err e, s)

  infixl 5 ◌>>=◌
  abbrev pub ◌>>=◌ : {A B : Type 0} → Read A → (A → Read B) → Read B
  ◌>>=◌ m f s = feed f (m s)

  lift : {A : Type 0} → Result InboxError A → Read A
  lift r s = (r, s)

  decode_oldest : Option Bytes → Result InboxError (Option PendingTx)
  decode_oldest none = ok none
  decode_oldest (some bytes) = elim (decode.pending_tx bytes) [
    | ok tx ↦ ok (some tx)
    | err e ↦ err e
  ]

  unfoldable pub read_inbox : ℕ → Read InboxStatus
  unfolding lift
  read_inbox id = do bytes ← transport.object_contents id; lift (decode.inbox_status bytes)

  unfoldable pub read_snapshot : DeadlineMonitor → Read Snapshot
  unfolding lift decode_oldest
  read_snapshot m = do
    status ← read_inbox m.inbox
    clock_bytes ← transport.object_contents sui_clock_id
    now_ms ← lift (decode.clock clock_bytes)
    entry ← transport.field_contents status.pending_table_uid status.included_count
    oldest ← lift (decode_oldest entry)
    lift (ok (record { status = status; now_ms = now_ms; oldest = oldest }))

  unfoldable pub confirm_unchanged : DeadlineMonitor → InboxStatus → Read Bool
  unfolding lift agrees
  confirm_unchanged m read = do confirm ← read_inbox m.inbox; lift (ok (agrees confirm read))

  -- The body of the loop: `some` is a `return`, `none` goes on to the next attempt. The
  -- confirmation is read for a halting verdict only.
  unfoldable pub attempt : DeadlineMonitor → Read (Option DeadlineStatus)
  unfolding lift verdict is_halted
  attempt m = do
    snap ← read_snapshot m
    let confirmed =
        (confirm_unchanged m snap.status >>= λ same.
        lift (ok (if same then some (verdict m snap) else none)))
    (if is_halted (verdict m snap) then confirmed else lift (ok (some (verdict m snap))))

  -- What follows an attempt; `again` runs the attempts that are left.
  abbrev pub settle :
      (S → Result DeadlineError DeadlineStatus × S)
      → Result InboxError (Option DeadlineStatus) × S
      → Result DeadlineError DeadlineStatus × S
  settle again (ok (some status), s) = (ok status, s)
  settle again (ok none, s) = again s
  settle again (err e, s) = (err (inbox e), s)

  unfoldable pub attempts : ℕ → DeadlineMonitor → S → Result DeadlineError DeadlineStatus × S
  attempts zero m s = (err (inconsistent_snapshot confirm_limit), s)
  attempts (suc n) m s = settle (attempts n m) (attempt m s)

  unfoldable pub status : DeadlineMonitor → S → Result DeadlineError DeadlineStatus × S
  unfolding attempts
  status m s = attempts confirm_limit m s
