-- ===== src/Core.antt =====
-- crates/core/src/lib.rs: headers and blocks, and the signature check of crates/sui/src/lib.rs. An
-- array of bytes is a list of numbers; ed25519 is a parameter.
pub mod Octets
pub mod Wire
pub mod Gossip
mod Signing
mod Tests
use podseq.Prelude.{ℕ, ◌≡◌, ◌<◌, ◌^◌, ◌++◌, Option, none, some, Result, ok, err, length}
use podseq.Core.Octets.{Bytes, to_le_bytes}

pub record Header : Type 0 where
  pub height : ℕ
  pub parent_hash : Bytes
  pub state_root : Bytes
  pub timestamp : ℕ

pub record Block : Type 0 where
  pub header : Header
  pub contents : Bytes  -- the field `data`
  pub signature : Option Bytes

pub data Error : Type 0 where
  unsigned invalid_signature : ℕ → Error  -- the two messages of `InvalidBlock`, by the block
  execution data_availability settlement network : Error

-- What the types `u64` and `[u8; 32]` promise.
pub record IsHeader (h : Header) : Type 0 where
  pub height_fits : h.height < 256 ^ 8
  pub timestamp_fits : h.timestamp < 256 ^ 8
  pub parent_length : length h.parent_hash ≡ 32
  pub root_length : length h.state_root ≡ 32

unfoldable pub signing_message : Header → Bytes
unfolding to_le_bytes
signing_message h =
    to_le_bytes 8 h.height ++ (h.parent_hash ++ (h.state_root ++ to_le_bytes 8 h.timestamp))

-- The verifying key, as the check of a signature of a message.
abbrev pub Verifier : Type 0
Verifier = Bytes → Bytes → Result (Unit {0}) (Unit {0})

check_signature : ℕ → Result (Unit {0}) (Unit {0}) → Result Error (Unit {0})
check_signature height (ok _) = ok tt
check_signature height (err _) = err (invalid_signature height)

unfoldable pub verify_block_signature : Verifier → Block → Result Error (Unit {0})
unfolding check_signature
verify_block_signature verify b = elim b.signature [
  | none ↦ err (unsigned b.header.height)
  | some sig ↦ check_signature b.header.height (verify (signing_message b.header) sig)
]
