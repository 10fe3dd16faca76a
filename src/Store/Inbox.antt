-- ===== src/Store/Inbox.antt =====
-- crates/node/src/store/inbox_store.rs: the persisted markers of forced inclusion. The contents of
-- the file `inbox.json` are the map from nonces to records; serde_json is a `Codec` for them.
pub mod Lifecycle
pub mod Queries
pub mod Memory
use podseq.Prelude.{
  ℕ, Bool, true, false, Option, none, some, List, ◌==◌, if◌then◌else◌, length, retain, Result, ok,
  err,
}
use podseq.Store.Disk.{Text, StoreError, conflict, Disk, Io, Codec, mutate, load_raw}
use podseq.Store.Map.{get, contains_key, insert}

-- The two hex strings are lists of code points.
pub record Submission : Type 0 where
  pub deadline_height : ℕ
  pub deadline_ms : ℕ
  pub first_seen_height : ℕ
  pub tx_hash : Text
  pub tx_bytes : Text

pub data NonceRecord : Type 0 where
  submitted : Submission → NonceRecord
  included : ℕ → Text → NonceRecord  -- the height and the hash

abbrev pub Nonces : Type 0
Nonces = List (ℕ × NonceRecord)

-- The closure of `record_submitted`.
unfoldable pub add_submitted : ℕ → Submission → Nonces → Result StoreError Nonces
add_submitted nonce s nonces =
    if contains_key nonce nonces
    then err (conflict nonce)
    else ok (insert nonce (submitted s) nonces)

-- The `match` on the record that `get_mut` found.
include_record : ℕ → ℕ → Nonces → Option NonceRecord → Result StoreError Nonces
include_record nonce height nonces none = err (conflict nonce)
include_record nonce height nonces (some (included existing h)) =
    if existing == height then ok nonces else err (conflict nonce)
include_record nonce height nonces (some (submitted s)) =
    ok (insert nonce (included height s.tx_hash) nonces)

-- The closure of `mark_included`.
unfoldable pub set_included : ℕ → ℕ → Nonces → Result StoreError Nonces
unfolding include_record
set_included nonce height nonces = include_record nonce height nonces (get nonce nonces)

abbrev pub is_submitted : ℕ × NonceRecord → Bool
is_submitted (n, submitted s) = true
is_submitted (n, included h x) = false

abbrev pub is_included : ℕ × NonceRecord → Bool
is_included (n, submitted s) = false
is_included (n, included h x) = true

-- A query changes no file, and keeps a read error.
abbrev pub over : {A B : Type 0} → (A → B) → Result StoreError A × Disk → Result StoreError B × Disk
over f (ok a, d) = (ok (f a), d)
over f (err e, d) = (err e, d)

module _ (c : Codec Nonces) where
  unfoldable pub record_submitted : ℕ → Submission → Io (Unit {0})
  record_submitted nonce s = mutate c (add_submitted nonce s)

  unfoldable pub mark_included : ℕ → ℕ → Io (Unit {0})
  mark_included nonce height = mutate c (set_included nonce height)

  unfoldable pub snapshot : Io Nonces
  snapshot d = load_raw c d

  unfoldable pub get_record : ℕ → Io (Option NonceRecord)
  get_record nonce d = over (get nonce) (load_raw c d)

  unfoldable pub submitted_records : Io Nonces
  submitted_records d = over (retain is_submitted) (load_raw c d)

  unfoldable pub included_count : Io ℕ
  included_count d = over (λ m. length (retain is_included m)) (load_raw c d)
