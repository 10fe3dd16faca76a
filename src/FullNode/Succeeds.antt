-- ===== src/FullNode/Succeeds.antt =====
-- The calls of crates/node/src/full_node.rs that move a pointer succeed when what they call answers.
use podseq.Prelude.{
  ℕ, ◌<◌, ◌≤◌, ◌≡◌, refl, Bool, true, false, none, some, List, arith, Result, ok, err,
}
use mathlib.Core.Path.{subst}
use podseq.Call.{Call, lift, within}
use podseq.Call.Ensures.{
  Ensures, Post, Ensures-pure, Ensures-gets, Ensures-lift, Ensures-attempt, Ensures-bind,
  Ensures-bind_fact, Ensures-select,
}
use podseq.Core.{Block}
use podseq.Engine.{ExecutionPayload, ForkchoiceState}
use podseq.FullNode.{
  SyncError, NodeState, State, FullNode, on_world, decoded, verify_signature, apply_block,
  mark_finalized, already_applied, apply_unless, apply_and_finalize,
}
use podseq.FullNode.Frame.{Ensures-on_node, Keeps-on_disk}
use podseq.FullNode.Sync.{find_height}

-- The call always answers, with a value of this kind.
abbrev pub Returns : {W E A : Type 0} → Call W E A → (A → Type 0) → Type 0
Returns {W} {A} m F = (w : W) → (a : A) × (w' : W) × (m w ≡ (ok a, w')) × F a

-- The settlement and the data layer have the heights up to `latest`, signed and decodable, and the
-- execution client answers.
pub record Reliable {W : Type 0} (c : FullNode W) (latest : ℕ) : Type 0 where
  pub blob_of : ℕ → ℕ
  pub batch : ℕ → List Block
  pub block_at : ℕ → Block
  pub payload_at : ℕ → ExecutionPayload
  pub frontier : Returns c.latest_height (λ h. h ≡ latest)
  pub table_uid : ℕ
  pub table : Returns c.read_table_uid (λ uid. uid ≡ table_uid)
  pub settled :
      (h : ℕ)
      → 0 < h
      → h ≤ latest
      → Returns (c.commitment_at table_uid h) (λ o. o ≡ some (blob_of h))
  pub stored :
      (h : ℕ) → 0 < h → h ≤ latest → Returns (c.fetch (blob_of h)) (λ bs. bs ≡ batch (blob_of h))
  pub found : (h : ℕ) → 0 < h → h ≤ latest → find_height h (batch (blob_of h)) ≡ some (block_at h)
  pub at_height : (h : ℕ) → 0 < h → h ≤ latest → (block_at h).header.height ≡ h
  pub signed : (h : ℕ) → 0 < h → h ≤ latest → verify_signature c (block_at h) ≡ ok tt
  pub decodes : (h : ℕ) → 0 < h → h ≤ latest → decoded c (block_at h) ≡ ok (payload_at h)
  pub submits : (p : ExecutionPayload) → Returns (c.engine.new_payload_v4 p) (λ _. Unit {0})
  pub updates :
      (fc : ForkchoiceState) → Returns (c.engine.fork_choice_updated_v3 fc none) (λ _. Unit {0})
  pub answers : (h : ℕ) → Returns (c.engine.block_by_number h) (λ _. Unit {0})

-- The call does not fail.
abbrev pub Succeeds :
    {W A : Type 0}
    → (NodeState → Type 0)
    → Call (State W) SyncError A
    → (A → NodeState → Type 0)
    → Type 0
Succeeds {W} P m Q = Ensures {S = State W} (λ st. P st.node) m (λ a st. Q a st.node) (λ _ _. ⊥)

module _ {W E A : Type 0} (P : NodeState → Type 0) where
  world-Post :
      (F : A → Type 0) (f : E → SyncError) (st : State W) (r : Result E A × W)
      → (a : A) × (w' : W) × (r ≡ (ok a, w')) × F a
      → P st.node
      → Post {S = State W} (λ a s. P s.node × F a) (λ _ _. ⊥) (within f (on_world (λ _. r)) st)
  unfolding on_world within
  world-Post F f st (ok a, w) (b, w', e, k) p = (p, subst F (cc) k)
  world-Post F f st (err x, w) (b, w', e, k) p = ground arith

  pub world_ok :
      (F : A → Type 0) (f : E → SyncError) (m : Call W E A)
      → Returns m F
      → Succeeds P (within f (on_world m)) (λ a n. P n × F a)
  unfolding on_world within
  world_ok F f m h = record { holds = λ st p. world-Post F f st (m st.world) (h st.world) p }

module _ {W : Type 0} (P : NodeState → Type 0) where
  pub lift_ok :
      {A : Type 0} (r : Result SyncError A) (a : A)
      → r ≡ ok a
      → Succeeds {W = W} P (lift r) (λ x n. P n × (x ≡ a))
  lift_ok (ok x) a e = Ensures-lift _ (λ y h st p. (p, cc)) (λ y h. ground arith)
  lift_ok (err x) a e = ground arith

module _ {W : Type 0} (c : FullNode W) (latest : ℕ) (h : Reliable c latest) where
  module _ (s : ℕ) where
    abbrev pub At : NodeState → Type 0
    At n = n.synced_height ≡ s

    apply_block-Succeeds :
        (b : Block) (payload : ExecutionPayload)
        → decoded c b ≡ ok payload
        → Succeeds At (apply_block c b) (λ _ n. At n)
    unfolding apply_block
    apply_block-Succeeds b payload d = Ensures-bind_fact (lift_ok At (decoded c b) payload d) λ p _.
        Ensures-bind_fact (world_ok At _ _ (c.engine.new_payload_v4 p) (h.submits p)) λ _ _.
          Ensures-bind (Ensures-on_node At At _ (λ n e. e)) λ _.
            Ensures-bind (Ensures-gets {Q = λ _ st. At st.node} _ (λ _ e. e)) λ fc.
              Ensures-bind_fact
                (world_ok At _ _ (c.engine.fork_choice_updated_v3 fc none) (h.updates fc))
                λ _ _. Ensures-pure tt (λ _ e. e)

    mark_finalized-Succeeds :
        (b : Block) (payload : ExecutionPayload)
        → decoded c b ≡ ok payload
        → Succeeds At (mark_finalized c b) (λ _ n. n.synced_height ≡ b.header.height)
    unfolding mark_finalized
    mark_finalized-Succeeds b payload d =
        Ensures-bind_fact (lift_ok At (decoded c b) payload d) λ p _.
          Ensures-bind (Ensures-on_node At Moved _ (λ n e. refl)) λ _.
            Ensures-bind (Ensures-gets {Q = λ _ st. Moved st.node} _ (λ _ e. e)) λ fc.
              Ensures-bind_fact
                (world_ok Moved _ _ (c.engine.fork_choice_updated_v3 fc none) (h.updates fc))
                λ _ _.
                  Ensures-bind (Ensures-gets {Q = λ _ st. Moved st.node} _ (λ _ e. e)) λ stored.
                    Ensures-bind
                      (Ensures-attempt {Q = λ _ st. Moved st.node} (Keeps-on_disk Moved _))
                      λ _. Ensures-pure tt (λ _ e. e)
      where
        Moved : NodeState → Type 0
        Moved n = n.synced_height ≡ b.header.height

    already-Succeeds :
        (hash height head_height : ℕ)
        → Succeeds At (already_applied c hash height head_height) (λ _ n. At n)
    unfolding already_applied
    already-Succeeds hash height head_height =
        Ensures-select _
          (λ _.
            Ensures-bind_fact (world_ok At _ _ (c.engine.block_by_number height) (h.answers height))
              λ found _. Ensures-pure _ (λ _ e. e))
          (λ _. Ensures-pure _ (λ _ e. e))

    unless-Succeeds :
        (already : Bool) (b : Block) (payload : ExecutionPayload)
        → decoded c b ≡ ok payload
        → Succeeds At (apply_unless c already b) (λ _ n. At n)
    unfolding apply_unless
    unless-Succeeds true b payload d = Ensures-pure tt (λ _ e. e)
    unless-Succeeds false b payload d = apply_block-Succeeds b payload d

    pub apply_and_finalize-Succeeds :
        (b : Block) (payload : ExecutionPayload)
        → decoded c b ≡ ok payload
        → Succeeds At (apply_and_finalize c b) (λ _ n. n.synced_height ≡ b.header.height)
    unfolding apply_and_finalize
    apply_and_finalize-Succeeds b payload d =
        Ensures-bind_fact (lift_ok At (decoded c b) payload d) λ p _.
          Ensures-bind (Ensures-gets {Q = λ _ st. At st.node} _ (λ _ e. e)) λ head_height.
            Ensures-bind (already-Succeeds p.block_hash b.header.height head_height) λ already.
              Ensures-bind (unless-Succeeds already b payload d)
                λ _. mark_finalized-Succeeds b payload d
