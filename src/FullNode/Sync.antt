-- ===== src/FullNode/Sync.antt =====
-- The sync loop of crates/node/src/full_node.rs: settled heights in order from the data layer, then
-- one block from the peer-to-peer receiver, tick by tick.
use podseq.Prelude.{
  ℕ, zero, suc, ◌-◌, Bool, true, false, Option, none, some, List, [], ◌∷◌, Result, ◌==◌, leb,
  if◌then◌else◌,
}
use podseq.Call.{Call, pure, lift, gets, select, within, attempt, ◌>>=◌}
use podseq.Core.{Block}
use podseq.Core.Gossip.{BlockAnnounce}
use podseq.Engine.{require}
use podseq.Deadline.{DeadlineStatus}
use podseq.Deadline.Monitor.{DeadlineError}
use podseq.Deadline.Gate.{HaltGate, update}
use podseq.FullNode.{
  SyncError, latest_unread, table_unread, commitment_unread, not_settled, fetch_failed, not_found,
  NodeState, State, FullNode, on_world, on_node, polled, Step, verify_signature, apply_block,
  apply_and_finalize,
}

-- `blocks.into_iter().find(|b| b.header.height == height)`.
unfoldable pub find_height : ℕ → List Block → Option Block
find_height height [] = none
find_height height (b ∷ bs) = if b.header.height == height then some b else find_height height bs

module _ {W : Type 0} (c : FullNode W) where
  abbrev pub set_table : ℕ → NodeState → NodeState
  set_table uid n = record n { table_uid = some uid }

  unfoldable pub table_or_read : Option ℕ → Step c ℕ
  table_or_read (some uid) = pure uid
  table_or_read none = do
    uid ← within (λ _. table_unread) (on_world c.read_table_uid)
    _ ← on_node (set_table uid)
    pure uid

  unfoldable pub fetch_blob : ℕ → Step c (List Block)
  fetch_blob id = within (λ _. fetch_failed) (on_world (c.fetch id))

  -- The batch fetched last is kept beside its id.
  unfoldable pub blocks_of : Option (ℕ × List Block) → ℕ → Step c (List Block)
  unfolding fetch_blob
  blocks_of none id = fetch_blob id
  blocks_of (some (cached_id, blocks)) id = select (cached_id == id) (pure blocks) (fetch_blob id)

  unfoldable pub settled_block : ℕ → ℕ → Option (ℕ × List Block) → Step c (Block × ℕ × List Block)
  unfolding blocks_of find_height
  settled_block uid height cached = do
    commitment ← within (λ _. commitment_unread height) (on_world (c.commitment_at uid height))
    id ← lift (require (not_settled height) commitment)
    blocks ← blocks_of cached id
    block ← lift (require (not_found height) (find_height height blocks))
    _ ← lift (verify_signature c block)
    pure (block, id, blocks)

  -- The loop over `count` heights from `height` on.
  unfoldable pub sync_heights : ℕ → ℕ → ℕ → Option (ℕ × List Block) → Step c (Unit {0})
  unfolding settled_block
  sync_heights uid height zero cached = pure tt
  sync_heights uid height (suc count) cached = do
    found ← settled_block uid height cached
    _ ← apply_and_finalize c found.0
    sync_heights uid (suc height) count (some (found.1, found.2))

  unfoldable pub sync_to : ℕ → ℕ → Step c (Unit {0})
  unfolding table_or_read
  sync_to latest synced_height = select (leb latest synced_height) (pure tt) (do
    cached ← gets (λ st. st.node.table_uid)
    uid ← table_or_read cached
    sync_heights uid (suc synced_height) (latest - synced_height) none)

  unfoldable pub sync_from_settlement : Step c (Unit {0})
  unfolding sync_to
  sync_from_settlement = do
    latest ← within (λ _. latest_unread) (on_world c.latest_height)
    synced_height ← gets (λ st. st.node.synced_height)
    sync_to latest synced_height

  unfoldable pub received : Option Block → Step c (Unit {0})
  received none = pure tt
  received (some block) = do _ ← lift (verify_signature c block); apply_block c block

  unfoldable pub announced_above : BlockAnnounce → ℕ → Step c (Unit {0})
  unfolding received
  announced_above announce synced_height =
      select (leb announce.height synced_height) (pure tt)
        (do block ← polled (c.receive announce.digest); received block)

  unfoldable pub announced : Option BlockAnnounce → Step c (Unit {0})
  unfolding announced_above
  announced none = pure tt
  announced (some announce) = do
    synced_height ← gets (λ st. st.node.synced_height)
    announced_above announce synced_height

  unfoldable pub poll_p2p : Step c (Unit {0})
  unfolding announced
  poll_p2p = select c.receiver (do announce ← polled c.poll_next; announced announce) (pure tt)

  unfoldable pub gate_after : Result DeadlineError DeadlineStatus → HaltGate → HaltGate × Bool
  unfolding update
  gate_after read gate = let (g, skip, logs) = update gate read in (g, skip)

  abbrev pub set_gate : HaltGate → NodeState → NodeState
  set_gate gate n = record n { halt_gate = gate }

  -- Whether this tick is skipped.
  unfoldable pub check_halt : Option (Call W DeadlineError DeadlineStatus) → Step c Bool
  unfolding gate_after
  check_halt none = pure false
  check_halt (some status) = do
    read ← attempt (on_world status)
    gate ← gets (λ st. st.node.halt_gate)
    _ ← on_node (set_gate (gate_after read gate).0)
    pure (gate_after read gate).1

  unfoldable pub after_check : Bool → Step c (Unit {0})
  unfolding sync_from_settlement poll_p2p
  after_check true = pure tt
  after_check false = do
    _ ← attempt {E = SyncError} sync_from_settlement
    _ ← attempt {E = SyncError} poll_p2p
    pure tt

  unfoldable pub tick : Step c (Unit {0})
  unfolding check_halt after_check
  tick = do skip ← check_halt c.deadline; after_check skip

  -- The state after a number of ticks.
  unfoldable pub ticks : ℕ → State W → State W
  unfolding tick
  ticks zero st = st
  ticks (suc n) st = ticks n (tick st).1
