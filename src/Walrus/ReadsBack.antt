-- ===== src/Walrus/ReadsBack.antt =====
-- A batch that is published is what a fetch of its id gives.
use podseq.Prelude.{
  ℕ, ◌⊎◌, inl, inr, Bool-cases, ◌≡◌, refl, sym, ap, true, Option, none, some, List, ◌∷◌, Result, ok,
  err, map_err, All, arith, ok_injective,
}
use mathlib.Core.Path.{subst}
use podseq.Call.{throw, pure, lift, select, within, ◌>>=◌}
use podseq.Call.Ensures.{
  Ensures, Ensures-lift, Ensures-throw, Ensures-within, Ensures-bind, Ensures-bind_fact,
  Ensures-weaken, Ensures-select, Ensures-answer, Ensures-ok,
}
use podseq.Core.{Block}
use podseq.Core.Octets.{Bytes}
use podseq.Core.Wire as Wire
use podseq.Core.Wire.{WireBlock, IsSigned, decode-encode}
use podseq.Engine.{require}
use podseq.Walrus.{
  DataError, transport, read, Response, is_success, StoreResponse, blob_id, wire, Client, sized,
  decode_id, encode_id, store_blob, fetch_blob, publish, fetch,
}

module _ {W : Type 0} (c : Client W) where
  -- Any read under this text that succeeds gives these bytes.
  abbrev pub Stored : Bytes → Bytes → Type 0
  Stored text bytes =
      (w w' : W) (response : Response)
      → c.get text w ≡ (ok response, w')
      → is_success response ≡ true
      → response.body ≡ bytes

  -- The blocks, or an error of the read itself.
  abbrev pub ReadBack : List Block → Result DataError (List Block) → Type 0
  ReadBack blocks r =
      (r ≡ ok blocks)
      ⊎ ((e : DataError) × (r ≡ err e) × ((e ≡ transport) ⊎ ((status : ℕ) × (e ≡ read status))))

  -- Blobs are named by their contents, so that what is read under the name of an accepted upload is it; strict base64 without padding, and BCS of its own output.
  pub record IsDataLayer : Type 0 where
    pub stores :
        (bytes : Bytes) (w w' : W) (response : Response) (parsed : StoreResponse) (text : Bytes)
        → c.put bytes w ≡ (ok response, w')
        → is_success response ≡ true
        → c.parse_json response.body ≡ ok parsed
        → blob_id parsed ≡ some text
        → Stored text bytes
    pub canonical : (text id : Bytes) → c.base64_decode text ≡ ok id → c.base64_encode id ≡ text
    pub reads_back :
        (ws : List WireBlock) (bytes : Bytes)
        → c.bcs.to_bytes ws ≡ ok bytes
        → c.bcs.from_bytes bytes ≡ ok ws

  map_err-ok : {E F A : Type 0} (f : E → F) (x : Result E A) (a : A) → map_err f x ≡ ok a → x ≡ ok a
  map_err-ok f (ok b) a e = ap ok (ok_injective e)
  map_err-ok f (err b) a e = ground arith

  require-some : {E A : Type 0} (x : E) (o : Option A) (a : A) → require x o ≡ ok a → o ≡ some a
  require-some x (some b) a e = ap some (ok_injective e)
  require-some x none a e = ground arith

  sized-ok : (x : Result (Unit {0}) Bytes) (id : Bytes) → sized x ≡ ok id → x ≡ ok id
  unfolding sized
  sized-ok (ok bytes) id e = ground arith
  sized-ok (err _) id e = ground arith

  encode_id-decode_id :
      (laws : IsDataLayer) (text id : Bytes) → decode_id c text ≡ ok id → encode_id c id ≡ text
  unfolding decode_id encode_id
  encode_id-decode_id laws text id e = laws.canonical text id (sized-ok (c.base64_decode text) id e)

  lifted :
      {A E : Type 0} (P : W → Type 0) (x : Result E A)
      → Ensures P (lift x) (λ a w. P w × (x ≡ ok a)) (λ _ _. Unit {0})
  lifted P x = Ensures-lift x (λ a e w p. (p, e)) (λ _ _ _ _. tt)

  store_blob-Stored :
      (laws : IsDataLayer) (bytes : Bytes)
      → Ensures
          (λ _. Unit {0})
          (store_blob c bytes)
          (λ id _. Stored (encode_id c id) bytes)
          (λ _ _. Unit {0})
  unfolding store_blob
  store_blob-Stored laws bytes =
      Ensures-bind (Ensures-within _ (Ensures-answer (c.put bytes))) λ response.
        Ensures-select (is_success response)
          (λ s. Ensures-bind_fact (lifted _ (map_err _ (c.parse_json response.body))) λ parsed j.
            Ensures-bind_fact (lifted _ (require _ (blob_id parsed))) λ text t.
              Ensures-lift _
                (λ id d w p.
                  subst (λ t. Stored t bytes) (sym (encode_id-decode_id laws text id d))
                    (laws.stores bytes p.0 w response parsed text p.1 s
                      (map_err-ok _ (c.parse_json response.body) parsed j)
                      (require-some _ (blob_id parsed) text t)))
                (λ _ _ _ _. tt))
          (λ _. Ensures-throw _ (λ _ _. tt))

  publish-Stored :
      (laws : IsDataLayer) (blocks : List Block)
      → Ensures
          (λ _. Unit {0})
          (publish c blocks)
          (λ id _.
            (bytes : Bytes) × Stored (encode_id c id) bytes × (Wire.encode c.bcs blocks ≡ ok bytes))
          (λ _ _. Unit {0})
  unfolding publish
  publish-Stored laws blocks =
      Ensures-bind_fact (lifted _ (map_err wire (Wire.encode c.bcs blocks))) λ bytes e.
        Ensures-weaken (λ _ _. tt)
          (λ _ _ p. (bytes, p, map_err-ok wire (Wire.encode c.bcs blocks) bytes e)) (λ _ _ _. tt)
          (store_blob-Stored laws bytes)

  fetch-Stored :
      (id : Bytes) (bytes : Bytes) (blocks : List Block) (w : W)
      (x : Result (Unit {0}) Response × W)
      → c.get (encode_id c id) w ≡ x
      → Stored (encode_id c id) bytes
      → Wire.decode c.bcs bytes ≡ ok blocks
      → ReadBack blocks (fetch c id w).0
  unfolding fetch fetch_blob within select lift pure throw ◌>>=◌
  fetch-Stored id bytes blocks w (err e, w') g stored d = inr (transport, rw g refl, inl refl)
  fetch-Stored id bytes blocks w (ok response, w') g stored d =
      elim (Bool-cases (is_success response)) [
        | inl s ↦ inl (rw (g, s, stored w w' response g s, d) refl)
        | inr f ↦ inr (read response.status, rw (g, f) refl, inr (response.status, refl))
      ]

  -- When a batch of one or more blocks, each with a signature of 64 bytes or none, was published, a fetch
  -- of the id that came back, whenever it is made, gives the same blocks in the same order, signatures
  -- included, or fails by an error of the request or of its status: never with other blocks, and never
  -- because they do not decode. Assumed is that a read under the name of an accepted upload which
  -- succeeds gives its bytes.
  pub fetch-publish :
      (laws : IsDataLayer) (b : Block) (bs : List Block) (id : Bytes) (w w' later : W)
      → All IsSigned (b ∷ bs)
      → publish c (b ∷ bs) w ≡ (ok id, w')
      → ReadBack (b ∷ bs) (fetch c id later).0
  fetch-publish laws b bs id w w' later signed e =
      let (bytes, stored, encoded) = Ensures-ok (publish-Stored laws (b ∷ bs)) w tt e in
      fetch-Stored id bytes (b ∷ bs) later (c.get (encode_id c id) later) refl stored
        (decode-encode c.bcs laws.reads_back b bs bytes signed encoded)
