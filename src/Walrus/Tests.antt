-- ===== src/Walrus/Tests.antt =====
-- A publisher and an aggregator that hold the last blob, and a batch of one signed block over them.
use podseq.Prelude.{
  Bool, true, false, ◌∙◌, if◌then◌else◌, ℕ, zero, suc, ◌≡◌, refl, sym, ap, none, some, Option, List,
  [], ◌∷◌, ok, err, Result, arith, ok_injective,
}
use mathlib.Core.Path.{subst}
use podseq.Call.{pure, lift, select, within, ◌>>=◌}
use podseq.Core.{Block}
use podseq.Core.Octets.{Bytes}
use podseq.Core.Wire.{WireBlock, encode, to_wire}
use podseq.Walrus.{
  Response, is_success, blob_id, Client, decode_id, sized, store_blob, publish, fetch,
}
use podseq.Bridge.Abi.{same_bytes}
use podseq.Bridge.Registry.Finds.{same_bytes→eq}
use podseq.Walrus.ReadsBack.{ReadBack, IsDataLayer, fetch-publish}

repeat : ℕ → Bytes
repeat zero = []
repeat (suc n) = 7 ∷ repeat n

abbrev block : Block
block = record {
  header = record { height = 258; parent_hash = []; state_root = []; timestamp = 1600000 };
  contents = [];
  signature = some (repeat 64);
}

-- A codec of batches of one signed block, whose hashes and contents are empty.
abbrev wire_block : ℕ → ℕ → Bytes → WireBlock
wire_block h t s = record {
  height = h;
  parent_hash = [];
  state_root = [];
  timestamp = t;
  contents = [];
  signature = some s;
}

one_block : ℕ → ℕ → Bytes → Bytes → Bytes → Option Bytes → Result (Unit {0}) Bytes
one_block h t [] [] [] (some s) = ok (h ∷ t ∷ s)
one_block _ _ _ _ _ _ = err tt

to_bytes : List WireBlock → Result (Unit {0}) Bytes
unfolding one_block
to_bytes (w ∷ []) = one_block w.height w.timestamp w.parent_hash w.state_root w.contents w.signature
to_bytes _ = err tt

from_bytes : Bytes → Result (Unit {0}) (List WireBlock)
from_bytes (h ∷ t ∷ s) = ok (wire_block h t s ∷ [])
from_bytes _ = err tt

one_block-reads :
    (h t : ℕ) (p r c : Bytes) (s : Option Bytes) (bytes : Bytes)
    → one_block h t p r c s ≡ ok bytes
    → from_bytes bytes
      ≡ ok (
          record {
            height = h;
            parent_hash = p;
            state_root = r;
            timestamp = t;
            contents = c;
            signature = s;
          }
          ∷ [])
unfolding one_block from_bytes
one_block-reads h t [] [] [] (some s) bytes e =
    subst (λ b. from_bytes b ≡ ok (wire_block h t s ∷ [])) (ok_injective e) refl
one_block-reads h t [] [] [] none bytes e = ground arith
one_block-reads h t [] [] (x ∷ c) s bytes e = ground arith
one_block-reads h t [] (x ∷ r) c s bytes e = ground arith
one_block-reads h t (x ∷ p) r c s bytes e = ground arith

reads_back :
    (ws : List WireBlock) (bytes : Bytes) → to_bytes ws ≡ ok bytes → from_bytes bytes ≡ ok ws
unfolding to_bytes
reads_back [] bytes e = ground arith
reads_back (w ∷ []) bytes e =
    one_block-reads w.height w.timestamp w.parent_hash w.state_root w.contents w.signature bytes e
reads_back (w ∷ v ∷ ws) bytes e = ground arith

abbrev answer : Bytes → Response
answer bytes = record { status = 200; body = bytes }

abbrev stored : Bytes
stored = 258 ∷ 1600000 ∷ repeat 64

abbrev refused : Response
refused = record { status = 404; body = [] }

-- A publisher that takes one blob, and an aggregator that has it, or does not have it yet; base64 is
-- the identity.
abbrev client : Client Bool
client = record {
  put = λ bytes w. (ok (if same_bytes bytes stored then answer [] else refused), w);
  get = λ _ w. (ok (if w then answer stored else refused), w);
  parse_json = λ _. ok (record { newly_created = some (repeat 32); already_certified = none });
  base64_encode = λ id. id;
  base64_decode = λ text. ok text;
  bcs = record { to_bytes = to_bytes; from_bytes = from_bytes };
}

taken :
    (bytes : Bytes) (b : Bool)
    → same_bytes bytes stored ≡ b
    → is_success (if b then answer [] else refused) ≡ true
    → bytes ≡ stored
unfolding is_success
taken bytes true e s = same_bytes→eq bytes stored e
taken bytes false e s = absurd (not_true s)
  where
    not_true : false ≡ true → ⊥
    not_true h = cc

given :
    (b : Bool)
    → is_success (if b then answer stored else refused) ≡ true
    → (if b then answer stored else refused).body ≡ stored
unfolding is_success
given true s = refl
given false s = cc

client-IsDataLayer : IsDataLayer client
client-IsDataLayer = record {
  stores = λ bytes w w' response parsed text p s j t v v' r g k.
      let e : (if v then answer stored else refused) ≡ r = ok_injective (ap (λ x. x.0) g) in
      subst (λ z. z.body ≡ stored) e (given v (subst (λ z. is_success z ≡ true) (sym e) k))
      ∙ sym (
          taken bytes (same_bytes bytes stored) refl
            (subst (λ z. is_success z ≡ true) (sym (ok_injective (ap (λ x. x.0) p))) s));
  canonical = λ text id e. sym (ok_injective e);
  reads_back = reads_back;
}

fetch-publish_example : ReadBack client (block ∷ []) (fetch client (repeat 32) true).0
unfolding publish store_blob encode to_wire to_bytes one_block repeat is_success blob_id decode_id
    sized within select lift pure ◌>>=◌
fetch-publish_example =
    fetch-publish client client-IsDataLayer block [] (repeat 32) false false true (refl, tt) refl
