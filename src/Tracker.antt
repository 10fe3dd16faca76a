-- ===== src/Tracker.antt =====
-- crates/node/src/inbox.rs: the sequencer's view of the inbox, kept in the inbox store. A height or
-- a time is a number; a hash is its list of bytes. The hash function and the hex library are
-- parameters.
pub mod Observe
pub mod Halt
pub mod Sync
pub mod Poll
mod Budget
mod Tests
use podseq.Prelude.{
  ℕ, ◌+◌, ◌/◌, ◌%◌, max, Bool, true, false, ◌&&◌, ◌||◌, Option, none, some, List, [], ◌∷◌, ◌==◌,
  if◌then◌else◌, length, Result, ok, err, ◌>>=◌,
}
use podseq.Store.Disk.{Text, StoreError, conflict, Disk, Codec}
use podseq.Store.Inbox.{
  NonceRecord, Nonces, submitted, included, mark_included, get_record, submitted_records,
  included_count,
}

abbrev pub Bytes : Type 0
Bytes = List ℕ

pub data TrackerError : Type 0 where
  transport : TrackerError
  store : StoreError → TrackerError
  corrupt : Text → TrackerError
  untracked : ℕ → TrackerError  -- the `Corrupt` of a nonce

pub data HaltCheck : Type 0 where
  clear : HaltCheck
  halt : ℕ → ℕ → ℕ → HaltCheck  -- the nonce, its deadline and the next height

pub record TrackedSubmission : Type 0 where
  pub nonce : ℕ
  pub tx_bytes : Bytes
  pub tx_hash : Bytes
  pub deadline_ms : ℕ
  pub deadline_height : ℕ
  pub first_seen_height : ℕ

-- `u64::div_ceil`.
unfoldable pub div_ceil : ℕ → ℕ → ℕ
div_ceil a b = if a % b == 0 then a / b else a / b + 1

unfoldable pub deadline_blocks_for : ℕ → ℕ → ℕ
unfolding div_ceil
deadline_blocks_for window_ms block_time_ms = div_ceil window_ms (max block_time_ms 1)

-- The keccak hash of a transaction, and `hex::decode`.
pub record Hex : Type 0 where
  pub keccak256 : Bytes → Bytes
  pub decode : Text → Option Bytes

-- `trim_start_matches("0x")`: every leading `0x` goes.
unfoldable pub trim_0x : Text → Text
trim_0x [] = []
trim_0x (a ∷ []) = a ∷ []
trim_0x (a ∷ b ∷ text) =
    let rest = trim_0x text in if (a == 48) && (b == 120) then rest else a ∷ b ∷ text

unfoldable pub same_bytes : Bytes → Bytes → Bool
same_bytes [] [] = true
same_bytes (a ∷ xs) (b ∷ ys) = (a == b) && same_bytes xs ys
same_bytes _ _ = false

-- `HashSet::contains`.
unfoldable pub contains_hash : Bytes → List Bytes → Bool
unfolding same_bytes
contains_hash h [] = false
contains_hash h (x ∷ xs) = same_bytes h x || contains_hash h xs

abbrev pub hash_of : NonceRecord → Text
hash_of (submitted s) = s.tx_hash
hash_of (included height x) = x

abbrev pub is_new : NonceRecord → Bool
is_new (submitted s) = true
is_new (included height x) = false

-- The operator `?` on a store's result.
abbrev pub from_store : {A : Type 0} → Result StoreError A × Disk → Result TrackerError A × Disk
from_store (ok a, d) = (ok a, d)
from_store (err e, d) = (err (store e), d)

module _ (hex : Hex) where
  unfoldable pub decode_tx_bytes : Text → Result TrackerError Bytes
  unfolding trim_0x
  decode_tx_bytes text = elim (hex.decode (trim_0x text)) [
    | none ↦ err (corrupt text)
    | some b ↦ ok b
  ]

  unfoldable pub parse_tx_hash : Text → Result TrackerError Bytes
  unfolding decode_tx_bytes
  parse_tx_hash text = do
    bytes ← decode_tx_bytes text
    (if length bytes == 32 then ok bytes else err (corrupt text))

  -- The closure of `pending_submissions`.
  as_submission : ℕ × NonceRecord → Result TrackerError TrackedSubmission
  unfolding parse_tx_hash
  as_submission (nonce, included height x) = err (untracked nonce)
  as_submission (nonce, submitted s) = do
    tx_hash ← parse_tx_hash s.tx_hash
    tx_bytes ← decode_tx_bytes s.tx_bytes
    ok (record {
      nonce = nonce;
      tx_bytes = tx_bytes;
      tx_hash = tx_hash;
      deadline_ms = s.deadline_ms;
      deadline_height = s.deadline_height;
      first_seen_height = s.first_seen_height;
    })

  -- `collect` into a `Result`: the first error ends it.
  unfoldable pub collect : Nonces → Result TrackerError (List TrackedSubmission)
  unfolding as_submission
  collect [] = ok []
  collect (r ∷ rs) = do x ← as_submission r; xs ← collect rs; ok (x ∷ xs)

  module _ (c : Codec Nonces) where
    unfoldable pub pending_submissions : Disk → Result TrackerError (List TrackedSubmission) × Disk
    pending_submissions d = let (r, d') = from_store (submitted_records c d) in (r >>= collect, d')

module _ (c : Codec Nonces) where
  inclusion_of :
      ℕ
      → ℕ
      → Result TrackerError (Option NonceRecord) × Disk
      → Result TrackerError (Unit {0}) × Disk
  inclusion_of nonce height (err e, d) = (err e, d)
  inclusion_of nonce height (ok none, d) = (err (untracked nonce), d)
  inclusion_of nonce height (ok (some (submitted s)), d) =
      from_store (mark_included c nonce height d)
  inclusion_of nonce height (ok (some (included existing x)), d) =
      if existing == height then (ok tt, d) else (err (store (conflict nonce)), d)

  unfoldable pub observe_inclusion : ℕ → ℕ → Disk → Result TrackerError (Unit {0}) × Disk
  unfolding inclusion_of
  observe_inclusion nonce height d = inclusion_of nonce height (from_store (get_record c nonce d))

  unfoldable pub settle_cursor : Disk → Result TrackerError ℕ × Disk
  settle_cursor d = from_store (included_count c d)
