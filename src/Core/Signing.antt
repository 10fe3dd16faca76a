-- ===== src/Core/Signing.antt =====
-- What a block signature covers.
use podseq.Prelude.{ℕ, ◌≡◌, sym, ap, ◌∙◌, ◌++◌, ◌^◌, ◌<◌, take, drop, length}
use podseq.Core.Octets.{
  Bytes, to_le_bytes, from_le_bytes, length-to_le_bytes, from_le_bytes-to_le_bytes, take-append,
  drop-append,
}
use podseq.Core.{Header, IsHeader, signing_message}

append-cancel :
    (n : ℕ) (xs ys xs' ys' : Bytes)
    → length xs ≡ n
    → length xs' ≡ n
    → xs ++ ys ≡ xs' ++ ys'
    → (xs ≡ xs') × (ys ≡ ys')
append-cancel n xs ys xs' ys' h k e = (
  sym (take-append xs ys n h) ∙ ap (take n) e ∙ take-append xs' ys' n k,
  sym (drop-append xs ys n h) ∙ ap (drop n) e ∙ drop-append xs' ys' n k,
)

to_le_bytes-injective :
    (k n m : ℕ) → n < 256 ^ k → m < 256 ^ k → to_le_bytes k n ≡ to_le_bytes k m → n ≡ m
to_le_bytes-injective k n m h j e =
    sym (from_le_bytes-to_le_bytes k n h) ∙ ap from_le_bytes e ∙ from_le_bytes-to_le_bytes k m j

-- Two headers with one signing message are one header: a signature of a header speaks of no other.
pub signing_message-injective :
    (g h : Header) → IsHeader g → IsHeader h → signing_message g ≡ signing_message h → g ≡ h
unfolding signing_message
signing_message-injective g h i j e =
    let (a, r) =
      append-cancel 8 (to_le_bytes 8 g.height) _ (to_le_bytes 8 h.height) _
        (length-to_le_bytes 8 g.height) (length-to_le_bytes 8 h.height) e in
    let (b, s) =
      append-cancel 32 g.parent_hash _ h.parent_hash _ i.parent_length j.parent_length r in
    let (c, d) = append-cancel 32 g.state_root _ h.state_root _ i.root_length j.root_length s in
    let p = to_le_bytes-injective 8 g.height h.height i.height_fits j.height_fits a in
    let q = to_le_bytes-injective 8 g.timestamp h.timestamp i.timestamp_fits j.timestamp_fits d in
    cc
