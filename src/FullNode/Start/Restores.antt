-- ===== src/FullNode/Start/Restores.antt =====
-- A restart takes up the fork choice that the last finalized block stored.
use podseq.Prelude.{
  ℕ, ◌≤◌, ◌≡◌, ◌≢◌, refl, ◌∙◌, false, Option, some, [], ◌∷◌, ap, arith, ok, All, inl, inr,
}
use podseq.Core.{Block}
use podseq.Store.Disk.{Text, Disk, Fault, with_fault, IsRoundTrip, is_whitespace}
use podseq.Store.State.{save, load, save-load}
use podseq.FullNode.{NodeState, FullNode, stored_state, on_node}
use podseq.Call.{modify}
use podseq.FullNode.Start.{
  trim_start, trim_end, trim, parse_hash, parse_forkchoice, resumed, created, fresh_node, new,
  start,
}

IsPlain : Text → Type 0
IsPlain = All (λ x. is_whitespace x ≡ false)

trim_start-plain : (s : Text) → IsPlain s → trim_start s ≡ s
unfolding trim_start IsPlain
trim_start-plain [] h = refl
trim_start-plain (x ∷ xs) h = rw h.0 refl

trim_end-plain : (s : Text) → IsPlain s → trim_end s ≡ s
unfolding trim_end IsPlain
trim_end-plain [] h = refl
trim_end-plain (x ∷ xs) h = rw h.0 (ap (λ t. x ∷ t) (trim_end-plain xs h.1))

-- What the printing and the parsing of a hash promise.
pub record IsHex (hex : ℕ → Text) (from_str : Text → Option ℕ) : Type 0 where
  pub reads : (n : ℕ) → from_str (hex n) ≡ some n
  pub plain : (n : ℕ) → All (λ x. is_whitespace x ≡ false) (hex n)
  pub non_empty : (n : ℕ) → hex n ≢ []

parse_plain :
    (from_str : Text → Option ℕ) (s : Text)
    → IsPlain s
    → s ≢ []
    → parse_hash from_str s ≡ from_str s
unfolding parse_hash trim
parse_plain from_str [] p h = absurd (h refl)
parse_plain from_str (x ∷ xs) p h =
    rw (trim_start-plain (x ∷ xs) p) (rw (trim_end-plain (x ∷ xs) p) refl)

parse_hash-hex :
    (hex : ℕ → Text) (from_str : Text → Option ℕ) (laws : IsHex hex from_str) (n : ℕ)
    → parse_hash from_str (hex n) ≡ some n
unfolding IsPlain
parse_hash-hex hex from_str laws n =
    rw (parse_plain from_str (hex n) (laws.plain n) (laws.non_empty n)) (laws.reads n)

module _ {W : Type 0} (c : FullNode W) (from_str : Text → Option ℕ) where
  resumed-stored :
      (laws : IsHex c.hex from_str) (b : Block) (n : NodeState)
      → resumed from_str (ok (some (stored_state c b n)))
        ≡ (n.synced_height, some (n.head, n.safe, n.finalized))
  unfolding resumed parse_forkchoice
  resumed-stored laws b n =
      let p = parse_hash-hex c.hex from_str laws in
      rw (p n.head) (rw (p n.safe) (rw (p n.finalized) refl))

  new-stored :
      (hex_laws : IsHex c.hex from_str) (b : Block) (n : NodeState) (d : Disk)
      → (load c.state_codec d).0 ≡ ok (some (stored_state c b n))
      → new c from_str d ≡ (fresh_node n.synced_height, some (n.head, n.safe, n.finalized))
  unfolding new created
  new-stored hex_laws b n d e =
      ap (λ r. created c from_str (resumed from_str r)) e
      ∙ ap (created c from_str) (resumed-stored hex_laws b n)

  -- When the state that a finalized block stores was written, and the file can be read when a node is
  -- created on this disk, the node that is started from it has the cursor and the three hashes of the
  -- node before, and takes the cursor for the height of its head.
  pub start-new :
      (codec_laws : IsRoundTrip c.state_codec) (hex_laws : IsHex c.hex from_str) (b : Block)
      (n : NodeState) (d : Disk) (f : Fault) (retries : ℕ) (w : W)
      → 1 ≤ f.healthy
      → (save c.state_codec (stored_state c b n) d).0 ≡ ok tt
      → let d' = with_fault f (save c.state_codec (stored_state c b n) d).1 in
        let fresh = new c from_str d' in
        let m =
          (start c from_str retries fresh.1
            (record { node = fresh.0; disk = d'; world = w })).1.node in
        (m.synced_height ≡ n.synced_height)
        × (m.head ≡ n.head)
        × (m.safe ≡ n.safe)
        × (m.finalized ≡ n.finalized)
        × (m.head_height ≡ n.synced_height)
  unfolding start fresh_node on_node modify
  start-new codec_laws hex_laws b n d f retries w l e =
      elim (save-load c.state_codec codec_laws (stored_state c b n) d f l) [
        | inl (saved, loaded) ↦
            rw
              (new-stored hex_laws b n (with_fault f (save c.state_codec (stored_state c b n) d).1)
                loaded)
              (refl, refl, refl, refl, refl)
        | inr (x, failed, kept) ↦ ground arith
      ]
