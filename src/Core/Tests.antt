-- ===== src/Core/Tests.antt =====
-- Instances of the theorems on headers, batches and announcements.
use podseq.Prelude.{
  ℕ, zero, suc, ◌≡◌, ◌≢◌, refl, none, some, Option, List, [], ◌∷◌, ok, err, Result, arith,
  ok_injective,
}
use mathlib.Core.Path.{subst}
use podseq.Core.{Block}
use podseq.Core.Octets.{Bytes}
use podseq.Core.Wire.{
  WireBlock, Bcs, to_wire, Decoded, encode, decode, checked, collect, from_wire, decode-encode,
  decode-Decoded,
}
use podseq.Core.Gossip.{BlockAnnounce}

repeat : ℕ → Bytes
repeat zero = []
repeat (suc n) = 7 ∷ repeat n

abbrev block : Block
block = record {
  header = record { height = 258; parent_hash = []; state_root = []; timestamp = 1600000 };
  contents = [];
  signature = some (repeat 64);
}

-- A codec of batches of one signed block, whose hashes and contents are empty.
one_block : ℕ → ℕ → Bytes → Bytes → Bytes → Option Bytes → Result (Unit {0}) Bytes
one_block h t [] [] [] (some s) = ok (h ∷ t ∷ s)
one_block _ _ _ _ _ _ = err tt

to_bytes : List WireBlock → Result (Unit {0}) Bytes
unfolding one_block
to_bytes (w ∷ []) = one_block w.height w.timestamp w.parent_hash w.state_root w.contents w.signature
to_bytes _ = err tt

abbrev wire_block : ℕ → ℕ → Bytes → Bytes → Bytes → Option Bytes → WireBlock
wire_block h t p r c s = record {
  height = h;
  parent_hash = p;
  state_root = r;
  timestamp = t;
  contents = c;
  signature = s;
}

from_bytes : Bytes → Result (Unit {0}) (List WireBlock)
from_bytes (h ∷ t ∷ s) = ok (wire_block h t [] [] [] (some s) ∷ [])
from_bytes _ = err tt

abbrev bcs : Bcs
bcs = record { to_bytes = to_bytes; from_bytes = from_bytes }

one_block-reads :
    (h t : ℕ) (p r c : Bytes) (s : Option Bytes) (bytes : Bytes)
    → one_block h t p r c s ≡ ok bytes
    → from_bytes bytes ≡ ok (wire_block h t p r c s ∷ [])
unfolding one_block from_bytes
one_block-reads h t [] [] [] (some s) bytes e =
    subst (λ b. from_bytes b ≡ ok (wire_block h t [] [] [] (some s) ∷ [])) (ok_injective e) refl
one_block-reads h t [] [] [] none bytes e = ground arith
one_block-reads h t [] [] (x ∷ c) s bytes e = ground arith
one_block-reads h t [] (x ∷ r) c s bytes e = ground arith
one_block-reads h t (x ∷ p) r c s bytes e = ground arith

reads_back :
    (ws : List WireBlock) (bytes : Bytes) → to_bytes ws ≡ ok bytes → from_bytes bytes ≡ ok ws
unfolding to_bytes
reads_back [] bytes e = ground arith
reads_back (w ∷ []) bytes e =
    one_block-reads w.height w.timestamp w.parent_hash w.state_root w.contents w.signature bytes e
reads_back (w ∷ v ∷ ws) bytes e = ground arith

decode-encode_example : decode bcs (258 ∷ 1600000 ∷ repeat 64) ≡ ok (block ∷ [])
unfolding encode to_wire to_bytes one_block repeat
decode-encode_example =
    decode-encode bcs reads_back block [] (258 ∷ 1600000 ∷ repeat 64) (refl, tt) refl

decode-Decoded_example : (block ∷ [] ≢ []) × Decoded (to_wire block ∷ []) (block ∷ [])
unfolding decode to_wire from_wire checked collect from_bytes repeat
decode-Decoded_example =
    decode-Decoded bcs (258 ∷ 1600000 ∷ repeat 64) (to_wire block ∷ []) (block ∷ []) refl refl

abbrev announce : BlockAnnounce
announce = record { height = 258; digest = repeat 32 }
