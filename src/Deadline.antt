-- ===== src/Deadline.antt =====
-- crates/sui/src/deadline.rs: the deadline status that a full node decides from Sui state, and the
-- gate in crates/node/src/full_node.rs that turns it into a pause. Of an object's contents the
-- decoders (bcs, a library) are parameters; an address is the number that its bytes spell.
pub mod Monitor
mod Classify
pub mod Confirm
pub mod Gate
pub mod Inbox
mod Witness
mod Tests
use podseq.Prelude.{
  ℕ, Bool, true, false, Option, none, some, List, leb, if◌then◌else◌, saturating_add,
}

-- `InboxStatus` and `PendingTx` of crates/sui/src/inbox.rs.
pub record InboxStatus : Type 0 where
  pub next_nonce : ℕ
  pub included_count : ℕ
  pub last_settled_ts : ℕ
  pub pending_table_uid : ℕ

pub record PendingTx : Type 0 where
  pub deadline_ms : ℕ
  pub tx_bytes : List ℕ

pub data DeadlineStatus : Type 0 where
  active : DeadlineStatus
  halted : ℕ → ℕ → DeadlineStatus  -- the nonce and its deadline
  violated : ℕ → ℕ → ℕ → DeadlineStatus  -- the nonce, its deadline and the settled timestamp

unfoldable pub is_halted : DeadlineStatus → Bool
is_halted active = false
is_halted (halted n d) = true
is_halted (violated n d t) = true

unfoldable pub classify : ℕ → ℕ → InboxStatus → Option PendingTx → DeadlineStatus
classify now_ms margin_ms inbox none = active
classify now_ms margin_ms inbox (some tx) =
    if leb now_ms (saturating_add tx.deadline_ms margin_ms)
    then active
    else if leb inbox.last_settled_ts tx.deadline_ms
    then halted inbox.included_count tx.deadline_ms
    else violated inbox.included_count tx.deadline_ms inbox.last_settled_ts
