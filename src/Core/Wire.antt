-- ===== src/Core/Wire.antt =====
-- crates/sui/src/wire.rs: the batch of blocks that is stored on Walrus. BCS is a parameter, a codec
-- for lists of wire blocks.
use podseq.Prelude.{
  ℕ, ◌≡◌, refl, ◌≢◌, not, Option, none, some, List, [], ◌∷◌, map, arith, ◌==◌, if◌then◌else◌,
  length, All, Result, ok, err, ◌>>=◌, Result-cases, inl, inr,
}
use podseq.Core.{Block}
use podseq.Core.Octets.{Bytes}

pub record WireBlock : Type 0 where
  pub height : ℕ
  pub parent_hash : Bytes
  pub state_root : Bytes
  pub timestamp : ℕ
  pub contents : Bytes
  pub signature : Option Bytes

pub data WireError : Type 0 where
  serde empty_batch : WireError
  signature_length : ℕ → ℕ → WireError  -- the block and the length

pub record Bcs : Type 0 where
  pub to_bytes : List WireBlock → Result (Unit {0}) Bytes
  pub from_bytes : Bytes → Result (Unit {0}) (List WireBlock)

unfoldable pub to_wire : Block → WireBlock
to_wire b = record {
  height = b.header.height;
  parent_hash = b.header.parent_hash;
  state_root = b.header.state_root;
  timestamp = b.header.timestamp;
  contents = b.contents;
  signature = b.signature;
}

-- `s.try_into().ok()` into an array of 64 bytes.
abbrev pub sized_signature : Option Bytes → Option Bytes
sized_signature none = none
sized_signature (some s) = if length s == 64 then some s else none

unfoldable pub from_wire : WireBlock → Block
from_wire w = record {
  header = record {
    height = w.height;
    parent_hash = w.parent_hash;
    state_root = w.state_root;
    timestamp = w.timestamp;
  };
  contents = w.contents;
  signature = sized_signature w.signature;
}

-- The closure of `decode`, by the signature.
unfoldable pub checked : WireBlock → Option Bytes → Result WireError Block
unfolding from_wire
checked w none = ok (from_wire w)
checked w (some sig) =
    if not (length sig == 64)
    then err (signature_length w.height (length sig))
    else ok (from_wire w)

unfoldable pub collect : List WireBlock → Result WireError (List Block)
unfolding checked
collect [] = ok []
collect (w ∷ ws) = do b ← checked w w.signature; bs ← collect ws; ok (b ∷ bs)

unfoldable non_empty : List WireBlock → Result WireError (List Block)
unfolding collect
non_empty [] = err empty_batch
non_empty (w ∷ ws) = collect (w ∷ ws)

unfoldable serde_error : {A : Type 0} → Result (Unit {0}) A → Result WireError A
serde_error (ok a) = ok a
serde_error (err _) = err serde

unfoldable pub encode : Bcs → List Block → Result WireError Bytes
unfolding serde_error
encode bcs blocks = serde_error (bcs.to_bytes (map to_wire blocks))

unfoldable pub decode : Bcs → Bytes → Result WireError (List Block)
unfolding serde_error non_empty
decode bcs bytes = serde_error (bcs.from_bytes bytes) >>= non_empty

-- What the type `[u8; 64]` promises.
abbrev pub IsSigned : Block → Type 0
IsSigned b = elim b.signature [ none ↦ Unit {0} | some s ↦ length s ≡ 64 ]

checked-to_wire : (b : Block) → IsSigned b → checked (to_wire b) b.signature ≡ ok b
unfolding checked from_wire to_wire
checked-to_wire b h = ground arith

collect-map : (bs : List Block) → All IsSigned bs → collect (map to_wire bs) ≡ ok bs
unfolding collect
collect-map [] h = refl
collect-map (b ∷ bs) h =
    let e : checked (to_wire b) (to_wire b).signature ≡ ok b =
      unfold to_wire in checked-to_wire b h.0 in
    rw (e, collect-map bs h.1) refl

-- A batch of one or more blocks is read back as it was, signatures included.
pub decode-encode :
    (bcs : Bcs)
    (reads_back : (ws : List WireBlock) (bytes : Bytes)
      → bcs.to_bytes ws ≡ ok bytes
      → bcs.from_bytes bytes ≡ ok ws)
    (b : Block) (bs : List Block) (bytes : Bytes)
    → All IsSigned (b ∷ bs)
    → encode bcs (b ∷ bs) ≡ ok bytes
    → decode bcs bytes ≡ ok (b ∷ bs)
unfolding encode decode
decode-encode bcs reads_back b bs bytes h e =
    let p = reads_back (map to_wire (b ∷ bs)) bytes in
    let q = collect-map (b ∷ bs) h in ground arith

-- The block has every field of the stored one, and a signature that it has is of 64 bytes.
abbrev pub Same : WireBlock → Block → Type 0
Same w b =
    (b.header.height ≡ w.height)
    × (b.header.parent_hash ≡ w.parent_hash)
    × (b.header.state_root ≡ w.state_root)
    × (b.header.timestamp ≡ w.timestamp)
    × (b.contents ≡ w.contents)
    × (b.signature ≡ w.signature)
    × IsSigned b

checked-Same :
    (w : WireBlock) (sig : Option Bytes) (b : Block)
    → w.signature ≡ sig
    → checked w sig ≡ ok b
    → Same w b
unfolding checked from_wire
checked-Same w none b p h = ground arith
checked-Same w (some s) b p h = ground arith

-- The blocks of `bs` are those of `ws`, in order.
abbrev pub Decoded : List WireBlock → List Block → Type 0
Decoded [] [] = Unit {0}
Decoded (w ∷ ws) (b ∷ bs) = Same w b × Decoded ws bs
Decoded _ _ = ⊥

collect-Decoded : (ws : List WireBlock) (bs : List Block) → collect ws ≡ ok bs → Decoded ws bs
unfolding collect
collect-Decoded [] [] h = tt
collect-Decoded [] (b ∷ bs) h = ground arith
collect-Decoded (w ∷ ws) bs h = elim (Result-cases (checked w w.signature)) [
  | inr (x, e) ↦ ground arith
  | inl (b, e) ↦ elim (Result-cases (collect ws)) [
    | inr (x, f) ↦ ground arith
    | inl (cs, f) ↦
        let q : bs ≡ b ∷ cs = ground arith in
        rw q (checked-Same w w.signature b refl e, collect-Decoded ws cs f)
  ]
]

non_empty-Decoded :
    (ws : List WireBlock) (bs : List Block) → non_empty ws ≡ ok bs → (bs ≢ []) × Decoded ws bs
unfolding non_empty
non_empty-Decoded [] bs h = ground arith
non_empty-Decoded (w ∷ ws) [] h = absurd (collect-Decoded (w ∷ ws) [] h)
non_empty-Decoded (w ∷ ws) (b ∷ bs) h = (λ e. ground arith, collect-Decoded (w ∷ ws) (b ∷ bs) h)

-- A batch that decodes is not empty, and its blocks are those of the stored batch in order, with every
-- field as it is stored, and each with a signature of 64 bytes or none.
pub decode-Decoded :
    (bcs : Bcs) (bytes : Bytes) (ws : List WireBlock) (bs : List Block)
    → bcs.from_bytes bytes ≡ ok ws
    → decode bcs bytes ≡ ok bs
    → (bs ≢ []) × Decoded ws bs
unfolding decode serde_error
decode-Decoded bcs bytes ws bs e h = non_empty-Decoded ws bs (ground arith)
