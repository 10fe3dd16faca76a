-- ===== src/Deadline/Classify.antt =====
-- The classification against the times that it compares.
use podseq.Prelude.{ℕ, ◌+◌, ◌≤◌, ◌<◌, ◌≡◌, ◌↔◌, true, some, arith, u64_max}
use podseq.Deadline.{InboxStatus, PendingTx, halted, violated, is_halted, classify}

-- With a pending entry whose grace does not pass the largest u64, the status halts exactly when the
-- clock is strictly past the deadline and the margin, and is then a violation exactly when a block
-- newer than the deadline was settled.
pub classify-cases :
    (now margin : ℕ) (inbox : InboxStatus) (tx : PendingTx)
    → tx.deadline_ms + margin ≤ u64_max
    → ((is_halted (classify now margin inbox (some tx)) ≡ true) ↔ (tx.deadline_ms + margin < now))
      × ((classify now margin inbox (some tx)
            ≡ violated inbox.included_count tx.deadline_ms inbox.last_settled_ts)
          ↔ ((tx.deadline_ms + margin < now) × (tx.deadline_ms < inbox.last_settled_ts)))
      × ((classify now margin inbox (some tx) ≡ halted inbox.included_count tx.deadline_ms)
          ↔ ((tx.deadline_ms + margin < now) × (inbox.last_settled_ts ≤ tx.deadline_ms)))
unfolding classify is_halted
classify-cases now margin inbox tx h = (
  (λ k. ground arith, λ k. ground arith),
  (λ k. ground arith, λ k. ground arith),
  (λ k. ground arith, λ k. ground arith),
)
