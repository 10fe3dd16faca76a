-- ===== src/FullNode/Changes.antt =====
-- What the calls of crates/node/src/full_node.rs that move a pointer do to a condition on the node's
-- own state.
use podseq.Prelude.{ℕ, ◌≡◌, refl, Bool, true, false, none, arith, ok, Result-cases, inl, inr}
use podseq.Call.{Call, lift, within}
use podseq.Call.Ensures.{
  Ensures, Ensures-pure, Ensures-gets, Ensures-lift, Ensures-within, Ensures-attempt, Ensures-bind,
  Ensures-bind_fact, Ensures-weaken, Ensures-select,
}
use podseq.Core.{Block, verify_block_signature}
use podseq.Engine.{ExecutionPayload}
use podseq.FullNode.{
  SyncError, NodeState, State, FullNode, on_world, decoded, verify_signature, set_head,
  set_finalized, apply_block, mark_finalized, apply_unless, already_applied, apply_and_finalize,
}
use podseq.FullNode.Frame.{Answered, Ensures-on_world, Keeps-on_disk, Ensures-on_node}
use podseq.FullNode.Evidence.{Signed, HashOf}

module _ {W : Type 0} (c : FullNode W) where
  pub decoded-HashOf :
      (b : Block) (payload : ExecutionPayload)
      → decoded c b ≡ ok payload
      → HashOf c b payload.block_hash
  unfolding decoded
  decoded-HashOf b payload h = elim (Result-cases (c.decode_payload b.contents)) [
    | inl (p, e) ↦ record { payload = payload; decodes = ground arith; is_hash = refl }
    | inr (x, e) ↦ ground arith
  ]

  pub verify_signature-Signed : (b : Block) → verify_signature c b ≡ ok tt → Signed c b
  unfolding verify_signature
  verify_signature-Signed b h = elim (Result-cases (verify_block_signature c.verify b)) [
    | inl (p, e) ↦ e
    | inr (x, e) ↦ ground arith
  ]

  module _ (P R : NodeState → Type 0) (pr : (n : NodeState) → P n → R n) where
    pub world_step :
        {A E : Type 0} (f : E → SyncError) (m : Call W E A)
        → Ensures {S = State W}
            (λ st. P st.node)
            (within f (on_world m))
            (λ a st. P st.node × Answered m a)
            (λ _ st. R st.node)
    world_step f m =
        Ensures-within f
          (Ensures-weaken (λ _ p. p) (λ _ _ q. q) (λ _ st p. pr st.node p) (Ensures-on_world P m))

    decoded_step :
        (b : Block)
        → Ensures {S = State W}
            (λ st. P st.node)
            (lift (decoded c b))
            (λ payload st. P st.node × HashOf c b payload.block_hash)
            (λ _ st. R st.node)
    decoded_step b =
        Ensures-lift (decoded c b) (λ payload e st p. (p, decoded-HashOf b payload e))
          (λ _ _ st p. pr st.node p)

  module _ (P Q R : NodeState → Type 0) (pr : (n : NodeState) → P n → R n)
      (qr : (n : NodeState) → Q n → R n) where
    pub apply_block-Ensures :
        (b : Block)
        → ((hash : ℕ)
            → HashOf c b hash
            → (n : NodeState) → P n
            → Q (set_head c hash b.header.height n))
        → Ensures {S = State W}
            (λ st. P st.node)
            (apply_block c b)
            (λ _ st. Q st.node)
            (λ _ st. R st.node)
    unfolding apply_block
    apply_block-Ensures b moves = Ensures-bind_fact (decoded_step P R pr b) λ payload h.
        Ensures-bind_fact (world_step P R pr _ (c.engine.new_payload_v4 payload)) λ _ _.
          Ensures-bind (Ensures-on_node P Q _ (moves payload.block_hash h)) λ _.
            Ensures-bind (Ensures-gets {Q = λ _ st. Q st.node} _ (λ _ q. q)) λ fc.
              Ensures-bind_fact (world_step Q R qr _ (c.engine.fork_choice_updated_v3 fc none))
                λ _ _. Ensures-pure tt (λ _ q. q)

    mark_finalized-Ensures :
        (b : Block)
        → ((hash : ℕ)
            → HashOf c b hash
            → (n : NodeState) → P n
            → Q (set_finalized c hash b.header.height n))
        → Ensures {S = State W}
            (λ st. P st.node)
            (mark_finalized c b)
            (λ _ st. Q st.node)
            (λ _ st. R st.node)
    unfolding mark_finalized
    mark_finalized-Ensures b moves = Ensures-bind_fact (decoded_step P R pr b) λ payload h.
        Ensures-bind (Ensures-on_node P Q _ (moves payload.block_hash h)) λ _.
          Ensures-bind (Ensures-gets {Q = λ _ st. Q st.node} _ (λ _ q. q)) λ fc.
            Ensures-bind_fact (world_step Q R qr _ (c.engine.fork_choice_updated_v3 fc none)) λ _ _.
              Ensures-bind (Ensures-gets {Q = λ _ st. Q st.node} _ (λ _ q. q)) λ stored.
                Ensures-bind (Ensures-attempt {Q = λ _ st. Q st.node} (Keeps-on_disk Q _))
                  λ _. Ensures-pure tt (λ _ q. q)

    already_applied-Ensures :
        (hash height head_height : ℕ)
        → Ensures {S = State W}
            (λ st. P st.node)
            (already_applied c hash height head_height)
            (λ _ st. P st.node)
            (λ _ st. R st.node)
    unfolding already_applied
    already_applied-Ensures hash height head_height =
        Ensures-select _
          (λ _.
            Ensures-bind_fact (world_step P R pr _ (c.engine.block_by_number height))
              λ found _. Ensures-pure _ (λ _ p. p))
          (λ _. Ensures-pure _ (λ _ p. p))

  module _ (P Q R : NodeState → Type 0) (pr : (n : NodeState) → P n → R n)
      (qr : (n : NodeState) → Q n → R n) where
    apply_unless-Ensures :
        (already : Bool) (b : Block)
        → ((hash : ℕ)
            → HashOf c b hash
            → (n : NodeState) → P n
            → P (set_head c hash b.header.height n))
        → Ensures {S = State W}
            (λ st. P st.node)
            (apply_unless c already b)
            (λ _ st. P st.node)
            (λ _ st. R st.node)
    unfolding apply_unless
    apply_unless-Ensures true b moves = Ensures-pure tt (λ _ p. p)
    apply_unless-Ensures false b moves = apply_block-Ensures P P R pr pr b moves

    pub apply_and_finalize-Ensures :
        (b : Block)
        → ((hash : ℕ)
            → HashOf c b hash
            → (n : NodeState) → P n
            → P (set_head c hash b.header.height n))
        → ((hash : ℕ)
            → HashOf c b hash
            → (n : NodeState) → P n
            → Q (set_finalized c hash b.header.height n))
        → Ensures {S = State W}
            (λ st. P st.node)
            (apply_and_finalize c b)
            (λ _ st. Q st.node)
            (λ _ st. R st.node)
    unfolding apply_and_finalize
    apply_and_finalize-Ensures b heads moves =
        Ensures-bind_fact (decoded_step P R pr b) λ payload h.
          Ensures-bind (Ensures-gets {Q = λ _ st. P st.node} _ (λ _ p. p)) λ head_height.
            Ensures-bind
              (already_applied-Ensures P Q R pr qr payload.block_hash b.header.height head_height)
              λ already.
                Ensures-bind (apply_unless-Ensures already b heads)
                  λ _. mark_finalized-Ensures P Q R pr qr b moves
