-- ===== src/FullNode/Lookup.antt =====
-- What the sync loop of crates/node/src/full_node.rs knows of a block that it has looked up, verified
-- and not yet applied.
use podseq.Prelude.{
  ℕ, ◌≡◌, Option, none, some, List, [], ◌∷◌, arith, inl, inr, ◌==◌, Bool-cases, ap, ==_iff,
  ok_injective,
}
use mathlib.Core.Path.{subst}
use podseq.Call.{lift}
use podseq.Call.Ensures.{Ensures, Ensures-pure, Ensures-lift, Ensures-bind_fact, Ensures-select}
use podseq.Core.{Block}
use podseq.Engine.{require}
use podseq.FullNode.{SyncError, NodeState, State, FullNode, verify_signature}
use podseq.FullNode.Frame.{Answered}
use podseq.FullNode.Evidence.{Signed, Settled}
use podseq.FullNode.Changes.{verify_signature-Signed, world_step}
use podseq.FullNode.Sync.{find_height, settled_block, blocks_of, fetch_blob}

find_height-found :
    (height : ℕ) (bs : List Block) (b : Block)
    → find_height height bs ≡ some b
    → b.header.height ≡ height
unfolding find_height
find_height-found height [] b h = ground arith
find_height-found height (x ∷ bs) b h = elim (Bool-cases (x.header.height == height)) [
  | inl e ↦ let t = (==_iff x.header.height height).0 e in ground arith
  | inr e ↦ find_height-found height bs b (ground arith)
]

module _ {W : Type 0} (c : FullNode W) where
  abbrev pub Fetched : ℕ × List Block → Type 0
  Fetched r = Answered (c.fetch r.0) r.1

  abbrev pub Cached : Option (ℕ × List Block) → Type 0
  Cached none = Unit {0}
  Cached (some r) = Fetched r

  module _ (P R : NodeState → Type 0) (pr : (n : NodeState) → P n → R n) where
    fetch_blob-Ensures :
        (id : ℕ)
        → Ensures {S = State W}
            (λ st. P st.node)
            (fetch_blob c id)
            (λ blocks st. P st.node × Answered (c.fetch id) blocks)
            (λ _ st. R st.node)
    unfolding fetch_blob
    fetch_blob-Ensures id = world_step c P R pr _ (c.fetch id)

    blocks_of-Ensures :
        (cached : Option (ℕ × List Block)) (id : ℕ)
        → Cached cached
        → Ensures {S = State W}
            (λ st. P st.node)
            (blocks_of c cached id)
            (λ blocks st. P st.node × Answered (c.fetch id) blocks)
            (λ _ st. R st.node)
    unfolding blocks_of
    blocks_of-Ensures none id h = fetch_blob-Ensures id
    blocks_of-Ensures (some (cached_id, blocks)) id h =
        Ensures-select _
          (λ e.
            Ensures-pure blocks
              (λ _ p. (p, subst (λ i. Answered (c.fetch i) blocks) ((==_iff cached_id id).0 e) h)))
          (λ _. fetch_blob-Ensures id)

    require-Ensures :
        {A : Type 0} (e : SyncError) (o : Option A)
        → Ensures {S = State W}
            (λ st. P st.node)
            (lift (require e o))
            (λ a st. P st.node × (o ≡ some a))
            (λ _ st. R st.node)
    require-Ensures e none = Ensures-lift _ (λ a h. ground arith) (λ _ _ st p. pr st.node p)
    require-Ensures e (some a) =
        Ensures-lift _ (λ a h st p. (p, ap some (ok_injective h))) (λ _ _ st p. pr st.node p)

    pub signed_step :
        (b : Block)
        → Ensures {S = State W}
            (λ st. P st.node)
            (lift (verify_signature c b))
            (λ _ st. P st.node × Signed c b)
            (λ _ st. R st.node)
    signed_step b =
        Ensures-lift _ (λ a e st p. (p, verify_signature-Signed c b e)) (λ _ _ st p. pr st.node p)

    pub settled_block-Ensures :
        (Known : ℕ → Type 0) (uid height : ℕ) (cached : Option (ℕ × List Block))
        → Known uid
        → Cached cached
        → Ensures {S = State W}
            (λ st. P st.node)
            (settled_block c uid height cached)
            (λ r st. P st.node × (Settled c Known height r.0 × Cached (some (r.1, r.2))))
            (λ _ st. R st.node)
    unfolding settled_block
    settled_block-Ensures Known uid height cached known h =
        Ensures-bind_fact (world_step c P R pr _ (c.commitment_at uid height))
          λ commitment committed. Ensures-bind_fact (require-Ensures _ commitment) λ id e.
            Ensures-bind_fact (blocks_of-Ensures cached id h) λ blocks fetched.
              Ensures-bind_fact (require-Ensures _ (find_height height blocks)) λ block found.
                Ensures-bind_fact (signed_step block) λ _ signed.
                  Ensures-pure (block, id, blocks)
                    λ _ p. (
                      p,
                      (
                        record {
                          table_uid = uid;
                          known = known;
                          blob_id = id;
                          blocks = blocks;
                          committed =
                              subst (λ o. Answered (c.commitment_at uid height) o) e committed;
                          fetched = fetched;
                          found = found;
                          at_height = find_height-found height blocks block found;
                          signed = signed;
                        },
                        fetched,
                      ),
                    )
