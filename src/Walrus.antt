-- ===== src/Walrus.antt =====
-- The data layer of crates/sui/src/lib.rs: a batch is stored as one blob on Walrus and read back by its
-- id, whose text form is that of crates/sui/src/blob_id.rs. An error keeps its cause where the code
-- prints it. The HTTP requests, JSON and base64 are parameters.
pub mod ReadsBack
mod Tests
use podseq.Prelude.{
  ℕ, Bool, true, false, ◌&&◌, ◌||◌, ◌==◌, Option, none, some, List, Result, ok, err, leb, ltb,
  map_err, length, if◌then◌else◌,
}
use podseq.Call.{Call, pure, throw, lift, select, within, ◌>>=◌}
use podseq.Core.{Block}
use podseq.Core.Octets.{Bytes}
use podseq.Core.Wire as Wire
use podseq.Core.Wire.{Bcs, WireError}
use podseq.Engine.{require}

pub record Response : Type 0 where
  pub status : ℕ
  pub body : Bytes

unfoldable pub is_success : Response → Bool
is_success r = leb 200 r.status && ltb r.status 300

pub record StoreResponse : Type 0 where
  pub newly_created : Option Bytes
  pub already_certified : Option Bytes

unfoldable pub blob_id : StoreResponse → Option Bytes
blob_id r = elim r.newly_created [ some id ↦ some id | none ↦ r.already_certified ]

pub data DataError : Type 0 where
  transport missing_blob_id invalid_blob_id url settlement : DataError
  store read : ℕ → DataError  -- by the status
  wire : WireError → DataError

transient_status : ℕ → Bool
transient_status s =
    (s == 404) || (s == 408) || (s == 425) || (s == 429) || (leb 500 s && leb s 599)

-- Whether a retry might succeed.
unfoldable pub is_transient : DataError → Bool
unfolding transient_status
is_transient transport = true
is_transient (read status) = transient_status status
is_transient (store status) = transient_status status
is_transient _ = false

-- The publisher takes a body, the aggregator the text of an id; an answer has its whole body.
pub record Client (W : Type 0) : Type 0 where
  pub put : Bytes → Call W (Unit {0}) Response
  pub get : Bytes → Call W (Unit {0}) Response
  pub parse_json : Bytes → Result (Unit {0}) StoreResponse
  pub base64_encode : Bytes → Bytes
  pub base64_decode : Bytes → Result (Unit {0}) Bytes
  pub bcs : Bcs

-- A blob id is 32 bytes.
unfoldable pub sized : Result (Unit {0}) Bytes → Result DataError Bytes
sized (ok bytes) = if length bytes == 32 then ok bytes else err invalid_blob_id
sized (err _) = err invalid_blob_id

module _ {W : Type 0} (c : Client W) where
  unfoldable pub decode_id : Bytes → Result DataError Bytes
  unfolding sized
  decode_id text = sized (c.base64_decode text)

  unfoldable pub encode_id : Bytes → Bytes
  encode_id id = c.base64_encode id

  unfoldable pub store_blob : Bytes → Call W DataError Bytes
  unfolding is_success blob_id decode_id
  store_blob bytes = do
    response ← within (λ _. transport) (c.put bytes)
    select (is_success response)
        (do
          -- reqwest parses the JSON, so that a body it cannot read is one of its errors
          parsed ← lift (map_err (λ _. transport) (c.parse_json response.body))
          text ← lift (require missing_blob_id (blob_id parsed))
          lift (decode_id text))
        (throw (store response.status))

  unfoldable pub fetch_blob : Bytes → Call W DataError Bytes
  unfolding is_success encode_id
  fetch_blob id = do
    response ← within (λ _. transport) (c.get (encode_id id))
    select (is_success response) (pure response.body) (throw (read response.status))

  unfoldable pub publish : List Block → Call W DataError Bytes
  unfolding store_blob
  publish blocks = do bytes ← lift (map_err wire (Wire.encode c.bcs blocks)); store_blob bytes

  unfoldable pub fetch : Bytes → Call W DataError (List Block)
  unfolding fetch_blob
  fetch id = do bytes ← fetch_blob id; lift (map_err wire (Wire.decode c.bcs bytes))
