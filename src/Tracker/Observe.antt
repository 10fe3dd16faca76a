-- ===== src/Tracker/Observe.antt =====
-- `observe_transactions` of crates/node/src/inbox.rs, which marks the forced transactions of a
-- built block in the store, record by record.
pub mod Contents
use podseq.Prelude.{ℕ, ◌+◌, Bool, false, List, [], ◌∷◌, ◌++◌, map, if◌then◌else◌, Result, ok, err}
use podseq.Store.Disk.{Disk, Codec}
use podseq.Store.Inbox.{NonceRecord, Nonces, included, mark_included, snapshot}
use podseq.Tracker.{
  Bytes, TrackerError, Hex, hash_of, is_new, contains_hash, parse_tx_hash, from_store,
}

module _ (hex : Hex) (c : Codec Nonces) where
  abbrev pub Marked : Type 0
  Marked = Result TrackerError (List ℕ) × Disk

  -- After the store's answer for one nonce: `marked` grows by a nonce that was submitted before.
  go_on :
      Bool → ℕ → List ℕ → (List ℕ → Disk → Marked) → Result TrackerError (Unit {0}) × Disk → Marked
  go_on newly nonce marked rest (err e, d) = (err e, d)
  go_on newly nonce marked rest (ok _, d) = rest (if newly then marked ++ nonce ∷ [] else marked) d

  -- What is done with one record, whose hash was parsed.
  observe_record :
      ℕ
      → List Bytes
      → ℕ × NonceRecord
      → (List ℕ → Disk → Marked)
      → Result TrackerError Bytes
      → List ℕ
      → Disk
      → Marked
  unfolding go_on
  observe_record height hashes (nonce, r) rest (err e) marked d = (err e, d)
  observe_record height hashes (nonce, r) rest (ok h) marked d =
      if contains_hash h hashes
      then go_on (is_new r) nonce marked rest (from_store (mark_included c nonce height d))
      else rest marked d

  unfoldable pub observe_each : ℕ → List Bytes → Nonces → List ℕ → Disk → Marked
  unfolding observe_record
  observe_each height hashes [] marked d = (ok marked, d)
  observe_each height hashes ((nonce, r) ∷ l) marked d =
      observe_record height hashes (nonce, r) (observe_each height hashes l)
        (parse_tx_hash hex (hash_of r)) marked d

  observe_snapshot : ℕ → List Bytes → Result TrackerError Nonces × Disk → Marked
  unfolding observe_each
  observe_snapshot height hashes (err e, d) = (err e, d)
  observe_snapshot height hashes (ok l, d) = observe_each height hashes l [] d

  unfoldable pub observe_transactions : ℕ → List Bytes → Disk → Result TrackerError (List ℕ) × Disk
  unfolding observe_snapshot
  observe_transactions height raw_txs d =
      observe_snapshot height (map hex.keccak256 raw_txs) (from_store (snapshot c d))

  abbrev pub in_block : List Bytes → NonceRecord → Bool
  in_block hashes r = elim (parse_tx_hash hex (hash_of r)) [
    | ok h ↦ contains_hash h hashes
    | err e ↦ false
  ]

  -- What a record becomes.
  abbrev pub observed : ℕ → List Bytes → NonceRecord → NonceRecord
  observed height hashes r = if in_block hashes r then included height (hash_of r) else r
