-- ===== src/Core/Gossip.antt =====
-- `BlockAnnounce` of crates/p2p/src/node.rs and the digest of crates/p2p/src/message.rs. SHA-256 is a
-- parameter.
use podseq.Prelude.{
  ℕ, ◌<◌, ◌^◌, ◌≡◌, refl, ap, ◌∙◌, ◌++◌, Option, none, some, take, drop, length, length-append,
  arith, ◌==◌, if◌then◌else◌,
}
use podseq.Core.{Block, signing_message}
use podseq.Core.Octets.{
  Bytes, to_le_bytes, from_le_bytes, length-to_le_bytes, from_le_bytes-to_le_bytes, take-append,
  drop-append,
}

pub record BlockAnnounce : Type 0 where
  pub height : ℕ
  pub digest : Bytes

unfoldable pub encode_announce : BlockAnnounce → Bytes
unfolding to_le_bytes
encode_announce a = to_le_bytes 8 a.height ++ a.digest

unfoldable pub decode_announce : Bytes → Option BlockAnnounce
unfolding from_le_bytes
decode_announce buf =
    if length buf == 40
    then some (record { height = from_le_bytes (take 8 buf); digest = drop 8 buf })
    else none

-- `Digestible` of `BlockMessage`; `sha256` hashes the concatenation.
unfoldable pub digest_of : (Bytes → Bytes) → Block → Bytes
unfolding signing_message
digest_of sha256 b = sha256 (sha256 b.contents ++ signing_message b.header)

decode_parts :
    (p q : Bytes)
    → length p ≡ 8
    → length q ≡ 32
    → decode_announce (p ++ q) ≡ some (record { height = from_le_bytes p; digest = q })
unfolding decode_announce
decode_parts p q h l =
    let n : length (p ++ q) ≡ 40 = omega (arith, length-append p q) in
    rw (n, take-append p q 8 h, drop-append p q 8 h) refl

-- An announce is read back from its 40 bytes.
pub decode_announce-encode_announce :
    (a : BlockAnnounce)
    → a.height < 256 ^ 8
    → length a.digest ≡ 32
    → decode_announce (encode_announce a) ≡ some a
unfolding encode_announce
decode_announce-encode_announce a h l =
    let f = from_le_bytes-to_le_bytes 8 a.height h in
    let e = decode_parts (to_le_bytes 8 a.height) a.digest (length-to_le_bytes 8 a.height) l in
    e ∙ ap (λ n. some (record { height = n; digest = a.digest })) f
