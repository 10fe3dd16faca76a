-- ===== src/Deadline/Inbox.antt =====
-- move/sources/inbox.move, `submit` and `enforce_settle`: the state that the monitor reads. The table
-- of pending entries is their list from nonce `included_count` on, which is where the contract
-- keeps them; `window_ms` is the effective window at the call. Events carry no state.
use podseq.Prelude.{
  ℕ, ◌+◌, ◌-◌, Option, none, some, List, [], ◌∷◌, ◌++◌, ltb, leb, if◌then◌else◌, length, drop,
  Result, ok, err,
}
use podseq.Deadline.{InboxStatus, PendingTx}

pub data Abort : Type 0 where
  empty_tx cursor_regression cursor_too_high timestamp_regression deadline_exceeded : Abort

pub record Inbox : Type 0 where
  pub included_count : ℕ
  pub last_settled_ts : ℕ
  pub pending : List PendingTx

abbrev pub next_nonce : Inbox → ℕ
next_nonce i = i.included_count + length i.pending

abbrev pub oldest : Inbox → Option PendingTx
oldest i = elim i.pending [ [] ↦ none | tx ∷ rest ↦ some tx ]

-- What `parse_inbox_status` decodes of it.
abbrev pub view : Inbox → ℕ → InboxStatus
view i table = record {
  next_nonce = next_nonce i;
  included_count = i.included_count;
  last_settled_ts = i.last_settled_ts;
  pending_table_uid = table;
}

unfoldable pub submit : Inbox → ℕ → ℕ → List ℕ → Result Abort Inbox
submit i now_ms window_ms [] = err empty_tx
submit i now_ms window_ms (b ∷ bytes) = ok (record i {
  pending = i.pending ++ record { deadline_ms = now_ms + window_ms; tx_bytes = b ∷ bytes } ∷ [];
})

-- The check of the oldest entry that is left.
unfoldable pub gate : List PendingTx → ℕ → Inbox → Result Abort Inbox
gate [] block_ts i = ok i
gate (tx ∷ rest) block_ts i = if leb block_ts tx.deadline_ms then ok i else err deadline_exceeded

unfoldable pub enforce_settle : Inbox → ℕ → ℕ → Result Abort Inbox
enforce_settle i block_ts cursor =
    if ltb cursor i.included_count
    then err cursor_regression
    else if ltb (next_nonce i) cursor
    then err cursor_too_high
    else if ltb block_ts i.last_settled_ts
    then err timestamp_regression
    else let left = drop (cursor - i.included_count) i.pending in
      gate left block_ts
        (record { included_count = cursor; last_settled_ts = block_ts; pending = left })
