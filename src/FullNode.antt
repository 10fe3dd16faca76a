-- ===== src/FullNode.antt =====
-- crates/node/src/full_node.rs: the calls by which a full node moves its fork choice. What it calls
-- (the execution client, the settlement registry, the data layer, the peer-to-peer receiver) works on
-- a state `W` of the world outside; the node's own state changes beside it.
pub mod Sync
pub mod Frame
pub mod Evidence
pub mod Changes
pub mod Lookup
pub mod Invariant
pub mod Finality
pub mod Succeeds
pub mod Reaches
pub mod Start
mod Tests
use podseq.Prelude.{
  ℕ, Bool, true, false, Option, none, some, List, Result, ok, err, ◌==◌, leb, if◌then◌else◌,
}
use podseq.Call.{Call, pure, lift, gets, select, modify, within, attempt, ◌>>=◌}
use podseq.Core.{Block, Error, Verifier, verify_block_signature}
use podseq.Core.Octets.{Bytes}
use podseq.Core.Gossip.{BlockAnnounce}
use podseq.Engine.{EngineError, EngineClient, ForkchoiceState, ExecutionPayload, forkchoice}
use podseq.Deadline.{DeadlineStatus}
use podseq.Deadline.Monitor.{DeadlineError}
use podseq.Deadline.Gate.{HaltGate}
use podseq.Store.Disk.{Text, Disk, Codec}
use podseq.Store.State.{ChainState, save}

-- The contexts that the node gives to the errors.
pub data SyncError : Type 0 where
  latest_unread table_unread fetch_failed : SyncError
  commitment_unread not_settled not_found : ℕ → SyncError
  payload_undecoded : SyncError
  signature : Error → SyncError
  submit head_update finalized_update head_query : EngineError → SyncError

-- The part of `FullNode` that changes.
pub record NodeState : Type 0 where
  pub synced_height : ℕ
  pub head : ℕ
  pub head_height : ℕ
  pub safe : ℕ
  pub finalized : ℕ
  pub table_uid : Option ℕ
  pub halt_gate : HaltGate

pub record State (W : Type 0) : Type 0 where
  pub node : NodeState
  pub disk : Disk
  pub world : W

-- The part that is configured, and the calls outside.
pub record FullNode (W : Type 0) : Type 0 where
  pub engine : EngineClient W
  pub latest_height : Call W (Unit {0}) ℕ
  pub read_table_uid : Call W (Unit {0}) ℕ
  pub commitment_at : ℕ → ℕ → Call W (Unit {0}) (Option ℕ)  -- by the table and the height
  pub fetch : ℕ → Call W (Unit {0}) (List Block)
  pub verify : Verifier
  pub decode_payload : Bytes → Result (Unit {0}) ExecutionPayload
  pub state_codec : Codec ChainState
  pub hex : ℕ → Text  -- `format!("{:#x}")` of a hash
  pub deadline : Option (Call W DeadlineError DeadlineStatus)
  pub receiver : Bool  -- whether `p2p_receiver` is set
  pub poll_next : W → Option BlockAnnounce × W
  pub receive : Bytes → W → Option Block × W

module _ {W : Type 0} where
  put_world : {E A : Type 0} → State W → Result E A × W → Result E A × State W
  put_world st (r, w) = (r, record st { world = w })

  -- A call that changes the world only.
  unfoldable pub on_world : {E A : Type 0} → Call W E A → Call (State W) E A
  unfolding put_world
  on_world m st = put_world st (m st.world)

  put_polled : {E A : Type 0} → State W → A × W → Result E A × State W
  put_polled st (a, w) = (ok a, record st { world = w })

  -- One that cannot fail.
  unfoldable pub polled : {E A : Type 0} → (W → A × W) → Call (State W) E A
  unfolding put_polled
  polled m st = put_polled st (m st.world)

  put_disk : {E A : Type 0} → State W → Result E A × Disk → Result E A × State W
  put_disk st (r, d) = (r, record st { disk = d })

  unfoldable pub on_disk : {E A : Type 0} → (Disk → Result E A × Disk) → Call (State W) E A
  unfolding put_disk
  on_disk m st = put_disk st (m st.disk)

  unfoldable pub on_node : {E : Type 0} → (NodeState → NodeState) → Call (State W) E (Unit {0})
  on_node f = modify (λ st. record st { node = f st.node })

abbrev pub fork_state : NodeState → ForkchoiceState
fork_state n = forkchoice n.head n.safe n.finalized

module _ {W : Type 0} (c : FullNode W) where
  abbrev pub Step : Type 0 → Type 0
  Step A = Call (State W) SyncError A

  unfoldable pub decoded : Block → Result SyncError ExecutionPayload
  decoded block = elim (c.decode_payload block.contents) [
    | ok payload ↦ ok payload
    | err _ ↦ err payload_undecoded
  ]

  unfoldable pub verify_signature : Block → Result SyncError (Unit {0})
  unfolding verify_block_signature
  verify_signature block = elim (verify_block_signature c.verify block) [
    | ok _ ↦ ok tt
    | err e ↦ err (signature e)
  ]

  abbrev pub set_head : ℕ → ℕ → NodeState → NodeState
  set_head hash height n = record n { head = hash; head_height = height }

  -- Neither the status of the payload nor that of the update is looked at.
  unfoldable pub apply_block : Block → Step (Unit {0})
  unfolding decoded on_world on_node
  apply_block block = do
    payload ← lift (decoded block)
    _ ← within submit (on_world (c.engine.new_payload_v4 payload))
    _ ← on_node (set_head payload.block_hash block.header.height)
    fc ← gets (λ st. fork_state st.node)
    _ ← within head_update (on_world (c.engine.fork_choice_updated_v3 fc none))
    pure tt

  abbrev pub set_finalized : ℕ → ℕ → NodeState → NodeState
  set_finalized hash height n = record n { safe = hash; finalized = hash; synced_height = height }

  abbrev pub stored_state : Block → NodeState → ChainState
  stored_state block n = record {
    head = c.hex n.head;
    safe = c.hex n.safe;
    finalized = c.hex n.finalized;
    height = n.synced_height;
    timestamp = block.header.timestamp;
  }

  -- A failure to store the cursor is only logged.
  unfoldable pub mark_finalized : Block → Step (Unit {0})
  unfolding decoded on_world on_node on_disk
  mark_finalized block = do
    payload ← lift (decoded block)
    _ ← on_node (set_finalized payload.block_hash block.header.height)
    fc ← gets (λ st. fork_state st.node)
    _ ← within finalized_update (on_world (c.engine.fork_choice_updated_v3 fc none))
    stored ← gets (λ st. stored_state block st.node)
    _ ← attempt (on_disk (save c.state_codec stored))
    pure tt

  unfoldable pub same_hash : ℕ → Option ℕ → Bool
  same_hash hash none = false
  same_hash hash (some found) = found == hash

  unfoldable pub already_applied : ℕ → ℕ → ℕ → Step Bool
  unfolding same_hash on_world
  already_applied hash height head_height =
      select (leb height head_height)
        (do
          found ← within head_query (on_world (c.engine.block_by_number height))
          pure (same_hash hash found))
        (pure false)

  unfoldable pub apply_unless : Bool → Block → Step (Unit {0})
  unfolding apply_block
  apply_unless true block = pure tt
  apply_unless false block = apply_block block

  unfoldable pub apply_and_finalize : Block → Step (Unit {0})
  unfolding decoded already_applied apply_unless mark_finalized
  apply_and_finalize block = do
    payload ← lift (decoded block)
    head_height ← gets (λ st. st.node.head_height)
    already ← already_applied payload.block_hash block.header.height head_height
    _ ← apply_unless already block
    mark_finalized block
