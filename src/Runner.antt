-- ===== src/Runner.antt =====
-- crates/node/src/runner.rs: the sequencer. Blocks are produced one by one and queued for the
-- finalizer; the execution client, the data layer, the settlement and the clock are calls on a state
-- `W` of the world outside. Metrics, logs and sleeps are left out.
pub mod Flush
pub mod Loop
pub mod Recovery
pub mod Frame
pub mod Keeps
pub mod Events
pub mod Locals
pub mod Markers
pub mod Unmoved
pub mod Settles
pub mod Timer
mod Tests
use podseq.Prelude.{
  ℕ, zero, suc, ◌+◌, max, ◌/◌, ◌%◌, Bool, Option, none, some, List, [], ◌∷◌, ◌++◌, Result, ok, err,
}
use podseq.Call.{Call, pure, lift, gets, select, modify, within, focus, ◌>>=◌}
use podseq.Core.{Header, Block}
use podseq.Core.Octets.{Bytes}
use podseq.Engine.{
  EngineError, EngineClient, ExecutionPayload, BuiltPayload, forkchoice, build, accept, finalize,
  payload_into_block,
}
use podseq.Store.Disk.{Text, StoreError, Disk, Codec}
use podseq.Store.Blocks.{Dir, BlockCodec, latest_height, put}
use podseq.Store.Pending.{mark}
use podseq.Store.State as Stored
use podseq.Store.State.{save}

pub data RunError : Type 0 where
  engine accepting : EngineError → RunError
  converting signing : RunError
  persisting marking saving : StoreError → RunError
  still_publishing : RunError  -- of the model: the attempts given to it are used up

pub record PendingBlock : Type 0 where
  pub block : Block
  pub block_hash : ℕ
  pub height : ℕ

pub record ChainState : Type 0 where
  pub head : ℕ
  pub safe : ℕ
  pub finalized : ℕ
  pub timestamp : ℕ

-- What `Runner` and its finalizer change. `queue` is the channel, which has no bound; `batch`,
-- `batch_bytes` and `flush_at`, the deadline of the flush timer, are the finalizer's.
pub record State (W : Type 0) : Type 0 where
  pub chain : ChainState
  pub blocks : Dir
  pub state_disk : Disk
  pub pending_disk : Disk
  pub queue : List PendingBlock
  pub channel_open : Bool
  pub batch : List PendingBlock
  pub batch_bytes : ℕ
  pub flush_at : Option ℕ
  pub world : W

-- What is configured, and the calls outside. `settle` is `settle_block`, false when the shutdown
-- interrupted it.
pub record Runner (W : Type 0) : Type 0 where
  pub engine : EngineClient W
  pub now_unix : W → ℕ × W
  pub now : W → ℕ × W  -- `Instant::now`, in milliseconds
  pub shutting_down : W → Bool × W
  pub publish : List Block → Call W (Unit {0}) ℕ
  pub settle : Block → ℕ → W → Bool × W
  pub observe_block_inclusions : List Bytes → ℕ → W → Unit {0} × W
  pub broadcast : Block → W → Unit {0} × W
  pub sign_header : Header → Result (Unit {0}) Bytes
  pub to_vec : ExecutionPayload → Result (Unit {0}) Bytes
  pub hex : ℕ → Text
  pub block_codec : BlockCodec Block
  pub state_codec : Codec Stored.ChainState
  pub heights_codec : Codec (List ℕ)
  pub fee_recipient : ℕ
  pub da_batch_size : ℕ
  pub flush_after : Option ℕ

-- `u64::to_be_bytes` in the last 8 of 32 bytes.
be_bytes : ℕ → ℕ → Bytes → Bytes
be_bytes zero n rest = rest
be_bytes (suc k) n rest = be_bytes k (n / 256) (n % 256 ∷ rest)

unfoldable pub derive_prev_randao : ℕ → Bytes
unfolding be_bytes
derive_prev_randao height =
    0
    ∷ 0
    ∷ 0
    ∷ 0
    ∷ 0
    ∷ 0
    ∷ 0
    ∷ 0
    ∷ 0
    ∷ 0
    ∷ 0
    ∷ 0
    ∷ 0
    ∷ 0
    ∷ 0
    ∷ 0
    ∷ 0
    ∷ 0
    ∷ 0
    ∷ 0
    ∷ 0
    ∷ 0
    ∷ 0
    ∷ 0
    ∷ be_bytes 8 height []

abbrev pub unwrap_or : ℕ → Option ℕ → ℕ
unwrap_or d none = d
unwrap_or d (some n) = n

module _ {W : Type 0} where
  unfoldable pub on_world : {E A : Type 0} → Call W E A → Call (State W) E A
  on_world = focus (λ st. st.world) (λ w st. record st { world = w })

  succeed : {E A : Type 0} → A × W → Result E A × W
  succeed (a, w) = (ok a, w)

  -- A call that cannot fail.
  unfoldable pub polled : {E A : Type 0} → (W → A × W) → Call (State W) E A
  unfolding on_world succeed
  polled m = on_world (λ w. succeed (m w))

  unfoldable pub on_blocks : {E A : Type 0} → Call Dir E A → Call (State W) E A
  on_blocks = focus (λ st. st.blocks) (λ d st. record st { blocks = d })

  unfoldable pub on_state_disk : {E A : Type 0} → Call Disk E A → Call (State W) E A
  on_state_disk = focus (λ st. st.state_disk) (λ d st. record st { state_disk = d })

  unfoldable pub on_pending : {E A : Type 0} → Call Disk E A → Call (State W) E A
  on_pending = focus (λ st. st.pending_disk) (λ d st. record st { pending_disk = d })

  unfoldable pub on_chain : {E : Type 0} → (ChainState → ChainState) → Call (State W) E (Unit {0})
  on_chain f = modify (λ st. record st { chain = f st.chain })

module _ {W : Type 0} (r : Runner W) where
  abbrev pub Step : Type 0 → Type 0
  Step A = Call (State W) RunError A

  abbrev pub set_finalized : ℕ → ChainState → ChainState
  set_finalized hash s = record s { safe = hash; finalized = hash }

  -- The pointers move only after the client has confirmed.
  unfoldable pub advance_finalized : ℕ → Step (Unit {0})
  unfolding on_world on_chain
  advance_finalized block_hash = do
    head ← gets (λ st. st.chain.head)
    _ ← within engine (on_world (finalize r.engine head block_hash block_hash))
    on_chain (set_finalized block_hash)

  abbrev pub stored : ChainState → ℕ → Stored.ChainState
  stored s height = record {
    head = r.hex s.head;
    safe = r.hex s.safe;
    finalized = r.hex s.finalized;
    height = height;
    timestamp = s.timestamp;
  }

  -- The latest height on disk, or `height` where the store has none.
  unfoldable pub persist_state : ℕ → Step (Unit {0})
  unfolding on_state_disk
  persist_state height = do
    latest ← gets (λ st. latest_height st.blocks)
    s ← gets (λ st. st.chain)
    within saving (on_state_disk (save r.state_codec (stored s (unwrap_or height latest))))

  abbrev pub set_built : ℕ → ℕ → ChainState → ChainState
  set_built hash timestamp s = record s { head = hash; timestamp = timestamp }

  abbrev pub enqueue : PendingBlock → State W → State W
  enqueue p st = record st { queue = st.queue ++ p ∷ [] }

  -- A closed channel drops the block.
  unfoldable pub send : PendingBlock → Step (Unit {0})
  send p = do is_open ← gets (λ st. st.channel_open); select is_open (modify (enqueue p)) (pure tt)

  signed : Header → Block → Result RunError Block
  signed header block = elim (r.sign_header header) [
    | ok sig ↦ ok (record block { signature = some sig })
    | err _ ↦ err signing
  ]

  signed_block : BuiltPayload → Result RunError Block
  unfolding signed payload_into_block
  signed_block built = elim (payload_into_block r.to_vec built) [
    | ok block ↦ signed block.header block
    | err _ ↦ err converting
  ]

  -- The stores and the broadcast, after the head has moved.
  unfoldable pub keep_built : BuiltPayload → Block → Step (Unit {0})
  unfolding on_blocks on_pending polled persist_state send
  keep_built built block = do
    _ ← within persisting (on_blocks (put r.block_codec block))
    _ ← polled (r.observe_block_inclusions built.payload.transactions built.height)
    _ ← within marking (on_pending (mark r.heights_codec built.height))
    _ ← persist_state built.height
    _ ← polled (r.broadcast block)
    send (record { block = block; block_hash = built.block_hash; height = built.height })

  unfoldable pub produce_block : Step (Unit {0})
  unfolding polled on_world on_chain signed_block derive_prev_randao
  produce_block = do
    s ← gets (λ st. st.chain)
    now ← polled r.now_unix
    latest ← gets (λ st. latest_height st.blocks)
    built ← within engine (
        on_world (
          build r.engine (forkchoice s.head s.safe s.finalized) (record {
            timestamp = max s.timestamp now + 1;
            prev_randao = derive_prev_randao (unwrap_or 0 latest + 1);
            suggested_fee_recipient = r.fee_recipient;
          })))
    _ ←
        within accepting
          (on_world (accept r.engine built.payload built.block_hash s.safe s.finalized))
    _ ← on_chain (set_built built.block_hash (max s.timestamp now + 1))
    block ← lift (signed_block built)
    keep_built built block
