-- ===== src/Runner/Recovery.antt =====
-- `recover_pending` of crates/node/src/runner.rs: the blocks whose markers are left from the last run
-- are queued again, in order.
pub mod Requeues
use podseq.Prelude.{ℕ, List, [], ◌∷◌, Result, ok, err}
use podseq.Call.{pure, attempt, ◌>>=◌}
use podseq.Core.{Block}
use podseq.Core.Octets.{Bytes}
use podseq.Engine.{ExecutionPayload}
use podseq.Store.Disk.{StoreError}
use podseq.Store.Blocks.{get}
use podseq.Store.Pending.{clear, pending}
use podseq.Runner.Loop.{Event, run}
use podseq.Runner.{Runner, State, Step, on_blocks, on_pending, send}

module _ {W : Type 0} (r : Runner W)
    (decode_payload : Bytes → Result (Unit {0}) ExecutionPayload) where
  unfoldable pub decode_block_hash : Bytes → Result (Unit {0}) ℕ
  decode_block_hash contents = elim (decode_payload contents) [
    | ok payload ↦ ok payload.block_hash
    | err _ ↦ err tt
  ]

  -- A failure to clear the marker is only logged.
  unfoldable pub drop_marker : ℕ → Step r (Unit {0})
  unfolding on_pending
  drop_marker height = do _ ← attempt (on_pending (clear r.heights_codec height)); pure tt

  unfoldable pub requeue : ℕ → Block → Result (Unit {0}) ℕ → Step r (Unit {0})
  unfolding drop_marker
  requeue height block (ok block_hash) =
      send r (record { block = block; block_hash = block_hash; height = height })
  requeue height block (err _) = drop_marker height

  unfoldable pub recover_block : ℕ → Result StoreError Block → Step r (Unit {0})
  unfolding requeue decode_block_hash drop_marker
  recover_block height (ok block) = requeue height block (decode_block_hash block.contents)
  recover_block height (err _) = drop_marker height

  unfoldable pub recover_each : List ℕ → Step r (Unit {0})
  unfolding recover_block on_blocks
  recover_each [] = pure tt
  recover_each (height ∷ heights) = do
    block ← attempt {E = StoreError} (on_blocks (get r.block_codec height))
    _ ← recover_block height block
    recover_each heights

  unfoldable pub recover_heights : Result StoreError (List ℕ) → Step r (Unit {0})
  unfolding recover_each
  recover_heights (ok heights) = recover_each heights
  recover_heights (err _) = pure tt

  unfoldable pub recover_pending : Step r (Unit {0})
  unfolding recover_heights on_pending
  recover_pending = do
    heights ← attempt {E = StoreError} (on_pending (pending r.heights_codec))
    recover_heights heights

  -- `Runner::run`: the recovery, then the producer and the finalizer.
  unfoldable pub serve : ℕ → List Event → State W → State W
  unfolding recover_pending run
  serve attempts es st = run r attempts es (recover_pending st).1
