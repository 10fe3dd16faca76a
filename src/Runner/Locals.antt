-- ===== src/Runner/Locals.antt =====
-- What the calls of crates/node/src/runner.rs leave of a condition on the finalizer's own batch and
-- timer.
use podseq.Prelude.{ℕ, List, [], ◌∷◌}
use podseq.Call.{Call}
use podseq.Call.Ensures.{
  Keeps, Ensures-pure, Ensures-gets, Ensures-lift, Ensures-modify, Ensures-within, Ensures-attempt,
  Ensures-bind, Ensures-select,
}
use podseq.Call.Focus.{Keeps-focus}
use podseq.Store.Disk.{Disk}
use podseq.Store.Blocks.{Dir}
use podseq.Core.{Block}
use podseq.Engine.{BuiltPayload}
use podseq.Runner.{
  PendingBlock, ChainState, State, Runner, on_world, polled, on_blocks, on_state_disk, on_pending,
  on_chain, advance_finalized, persist_state, send, keep_built, produce_block,
}
use podseq.Runner.Flush.{finalize_buffered_locally}

-- The condition does not depend on what the calls outside change.
pub record Outside {W : Type 0} (P : State W → Type 0) : Type 0 where
  pub world : (st : State W) (w : W) → P st → P (record st { world = w })
  pub blocks : (st : State W) (d : Dir) → P st → P (record st { blocks = d })
  pub states : (st : State W) (d : Disk) → P st → P (record st { state_disk = d })
  pub pendings : (st : State W) (d : Disk) → P st → P (record st { pending_disk = d })
  pub chains : (st : State W) (s : ChainState) → P st → P (record st { chain = s })
  pub queues : (st : State W) (q : List PendingBlock) → P st → P (record st { queue = q })

pub anywhere : {W : Type 0} → Outside {W = W} (λ _. Unit {0})
anywhere = record {
  world = λ _ _ p. p;
  blocks = λ _ _ p. p;
  states = λ _ _ p. p;
  pendings = λ _ _ p. p;
  chains = λ _ _ p. p;
  queues = λ _ _ p. p;
}

module _ {W : Type 0} (r : Runner W) (P : State W → Type 0) (o : Outside P) where
  pub world-Keeps : {E A : Type 0} (m : Call W E A) → Keeps P (on_world m)
  unfolding on_world
  world-Keeps m = Keeps-focus _ _ m o.world

  pub polled-Keeps : {E A : Type 0} (m : W → A × W) → Keeps {E = E} P (polled m)
  unfolding polled
  polled-Keeps m = world-Keeps _

  pub pending-Keeps : {E A : Type 0} (m : Call Disk E A) → Keeps P (on_pending m)
  unfolding on_pending
  pending-Keeps m = Keeps-focus _ _ m o.pendings

  state-Keeps : {E A : Type 0} (m : Call Disk E A) → Keeps P (on_state_disk m)
  unfolding on_state_disk
  state-Keeps m = Keeps-focus _ _ m o.states

  blocks-Keeps : {E A : Type 0} (m : Call Dir E A) → Keeps P (on_blocks m)
  unfolding on_blocks
  blocks-Keeps m = Keeps-focus _ _ m o.blocks

  chain-Keeps : {E : Type 0} (f : ChainState → ChainState) → Keeps {E = E} P (on_chain f)
  unfolding on_chain
  chain-Keeps f = Ensures-modify _ (λ st p. o.chains st _ p)

  reads : {E A : Type 0} (f : State W → A) → Keeps {E = E} P (podseq.Call.gets f)
  reads f = Ensures-gets f (λ _ p. p)

  pub advance-Keeps : (hash : ℕ) → Keeps P (advance_finalized r hash)
  unfolding advance_finalized
  advance-Keeps hash =
      Ensures-bind (reads _)
        λ head. Ensures-bind (Ensures-within _ (world-Keeps _)) λ _. chain-Keeps _

  pub persist-Keeps : (height : ℕ) → Keeps P (persist_state r height)
  unfolding persist_state
  persist-Keeps height =
      Ensures-bind (reads _) λ latest. Ensures-bind (reads _) λ s. Ensures-within _ (state-Keeps _)

  pub local-Keeps : (ps : List PendingBlock) → Keeps P (finalize_buffered_locally r ps)
  unfolding finalize_buffered_locally
  local-Keeps [] = Ensures-pure tt (λ _ p. p)
  local-Keeps (p ∷ ps) =
      Ensures-bind (Ensures-attempt {Q = λ _. P} (advance-Keeps p.block_hash)) λ _. local-Keeps ps

  keep_built-Keeps : (built : BuiltPayload) (block : Block) → Keeps P (keep_built r built block)
  unfolding keep_built send
  keep_built-Keeps built block = Ensures-bind (Ensures-within _ (blocks-Keeps _)) λ _.
      Ensures-bind (polled-Keeps _) λ _. Ensures-bind (Ensures-within _ (pending-Keeps _)) λ _.
        Ensures-bind (persist-Keeps built.height) λ _. Ensures-bind (polled-Keeps _) λ _.
          Ensures-bind (reads _) λ is_open.
            Ensures-select is_open (λ _. Ensures-modify _ (λ st p. o.queues st _ p))
              (λ _. Ensures-pure tt (λ _ p. p))

  pub produce_block-Keeps : Keeps P (produce_block r)
  unfolding produce_block
  produce_block-Keeps = Ensures-bind (reads _) λ s. Ensures-bind (polled-Keeps _) λ now.
      Ensures-bind (reads _) λ latest. Ensures-bind (Ensures-within _ (world-Keeps _)) λ built.
        Ensures-bind (Ensures-within _ (world-Keeps _)) λ _. Ensures-bind (chain-Keeps _) λ _.
          Ensures-bind (Ensures-lift {Q = λ _. P} _ (λ _ _ _ p. p) (λ _ _ _ p. p))
            λ block. keep_built-Keeps built block
