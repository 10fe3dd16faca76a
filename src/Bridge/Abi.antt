-- ===== src/Bridge/Abi.antt =====
-- The words and logs that the relayer decodes from the L2 (crates/node/src/bridge.rs). A text is the
-- list of its bytes; hex and utf-8 are parameters. A slice that is out of range is a panic.
use podseq.Prelude.{
  ℕ, zero, suc, ◌+◌, ◌-◌, ◌*◌, Bool, true, false, ◌&&◌, Option, none, some, List, [], ◌∷◌, Result,
  ok, err, ◌>>=◌, length, take, drop, ◌==◌, leb, ltb, not, if◌then◌else◌, u64_max,
}
use podseq.Core.Octets.{Bytes}

pub data RelayError : Type 0 where
  missing_topic not_hex not_32_bytes short_data not_created offset_overruns length_overruns not_utf8
        panics coin_type_unparsed address_length unknown_token recipient_length :
      RelayError
  rpc reverted timed_out no_created_log no_canonical_token withdraw_failed scan_unfinished :
      RelayError

-- The hex and utf-8 of the libraries.
pub record Texts : Type 0 where
  pub hex_decode : Bytes → Option Bytes
  pub is_utf8 : Bytes → Bool

-- `eth_getLogs` answers hex texts.
pub record RpcLog : Type 0 where
  pub address : Bytes
  pub topics : List Bytes
  pub contents : Bytes  -- the field `data`

pub record ParsedWithdrawal : Type 0 where
  pub nonce : ℕ
  pub amount : ℕ
  pub sui_recipient : Bytes

-- `==` of two byte arrays.
abbrev pub same_bytes : Bytes → Bytes → Bool
same_bytes [] [] = true
same_bytes (x ∷ xs) (y ∷ ys) = (x == y) && same_bytes xs ys
same_bytes _ _ = false

abbrev pub ensure : Bool → RelayError → Result RelayError (Unit {0})
ensure true e = ok tt
ensure false e = err e

abbrev pub ok_or {ℓ} : {A : Type ℓ} → RelayError → Option A → Result RelayError A
ok_or e none = err e
ok_or e (some a) = ok a

-- `trim_start_matches("0x")`, which takes every such prefix away.
unfoldable pub trim_0x : Bytes → Bytes
trim_0x (a ∷ b ∷ rest) = if (a == 48) && (b == 120) then trim_0x rest else a ∷ b ∷ rest
trim_0x text = text

-- `bytes[from..to]`.
unfoldable pub slice : ℕ → ℕ → Bytes → Result RelayError Bytes
slice from to bytes =
    if leb from to && leb to (length bytes)
    then ok (take (to - from) (drop from bytes))
    else err panics

unfoldable pub from_be_bytes : ℕ → Bytes → ℕ
from_be_bytes acc [] = acc
from_be_bytes acc (b ∷ bs) = from_be_bytes (acc * 256 + b) bs

-- The low 8 bytes of a word.
unfoldable pub word_u64 : Bytes → ℕ
unfolding from_be_bytes
word_u64 word = from_be_bytes 0 (drop 24 word)

-- The low 20 bytes of a word.
unfoldable pub decode_word_address : Bytes → ℕ
unfolding from_be_bytes
decode_word_address word = from_be_bytes 0 (drop 12 word)

-- An end that overflows is out of range.
unfoldable pub ends_within : ℕ → ℕ → ℕ → Bool
ends_within from count size = not (ltb u64_max (from + count)) && leb (from + count) size

module _ (t : Texts) where
  unfoldable pub decode_hex : Bytes → Result RelayError Bytes
  unfolding trim_0x
  decode_hex text = ok_or not_hex (t.hex_decode (trim_0x text))

  unfoldable pub hex_to_fixed32 : Bytes → Result RelayError Bytes
  unfolding decode_hex
  hex_to_fixed32 text = do
    bytes ← decode_hex text
    _ ← ensure (length bytes == 32) not_32_bytes
    ok bytes

  unfoldable pub parse_log_address : Bytes → Result RelayError ℕ
  unfolding decode_hex from_be_bytes
  parse_log_address text = do
    bytes ← decode_hex text
    _ ← ensure (length bytes == 20) address_length
    ok (from_be_bytes 0 bytes)

  unfoldable pub log_data_u64 : Bytes → Result RelayError ℕ
  unfolding decode_hex from_be_bytes slice
  log_data_u64 text = do
    bytes ← decode_hex text
    _ ← ensure (leb 32 (length bytes)) short_data
    low ← slice 24 32 bytes
    ok (from_be_bytes 0 low)

  unfoldable pub string_at : Bytes → ℕ → ℕ → Result RelayError Bytes
  unfolding slice ends_within
  string_at bytes off len = do
    _ ←
        ensure (ends_within off 32 (length bytes) && ends_within (off + 32) len (length bytes))
          length_overruns
    text ← slice (off + 32) (off + 32 + len) bytes
    _ ← ensure (t.is_utf8 text) not_utf8
    ok text

  unfoldable pub string_from : Bytes → ℕ → Result RelayError Bytes
  unfolding string_at slice ends_within word_u64
  string_from bytes off = do
    _ ← ensure (ends_within off 32 (length bytes)) offset_overruns
    word ← slice off (off + 32) bytes
    string_at bytes off (word_u64 word)

  -- The first string of a tuple: its offset, its length, then its bytes.
  unfoldable pub decode_first_abi_string : Bytes → Result RelayError Bytes
  unfolding decode_hex string_from slice word_u64
  decode_first_abi_string text = do
    bytes ← decode_hex text
    _ ← ensure (leb 32 (length bytes)) short_data
    word ← slice 0 32 bytes
    string_from bytes (word_u64 word)

  abbrev pub topic : ℕ → List Bytes → Result RelayError Bytes
  topic n [] = err missing_topic
  topic zero (x ∷ xs) = hex_to_fixed32 x
  topic (suc n) (x ∷ xs) = topic n xs

  -- Its coin type and its token; `created` is the topic of `BridgeCreated`.
  unfoldable pub parse_bridge_created_log : Bytes → RpcLog → Result RelayError (Bytes × ℕ)
  unfolding decode_first_abi_string decode_word_address hex_to_fixed32
  parse_bridge_created_log created log = do
    first ← topic 0 log.topics
    _ ← ensure (same_bytes first created) not_created
    token_word ← topic 1 log.topics
    coin ← decode_first_abi_string log.contents
    ok (coin, decode_word_address token_word)

  unfoldable pub parse_withdrawal_log : RpcLog → Result RelayError ParsedWithdrawal
  unfolding word_u64 log_data_u64 hex_to_fixed32
  parse_withdrawal_log log = do
    nonce_word ← topic 1 log.topics
    sui_word ← topic 3 log.topics
    amount ← log_data_u64 log.contents
    ok (record { nonce = word_u64 nonce_word; amount = amount; sui_recipient = sui_word })
