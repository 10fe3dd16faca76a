-- ===== src/Runner/Loop.antt =====
-- `finalize_blocks` of crates/node/src/runner.rs: the branches of the finalizer's loop, and runs that
-- interleave them with the producer.
use podseq.Prelude.{
  ℕ, ◌+◌, Bool, true, false, Option, none, some, List, [], ◌∷◌, ◌++◌, length, Result, ok, err, leb,
  saturating_add,
}
use podseq.Call.{pure, gets, select, modify, attempt, ◌>>=◌}
use podseq.Runner.{RunError, PendingBlock, State, Runner, Step, polled, produce_block}
use podseq.Runner.Flush.{set_batch, finalize_buffered_locally, flush_batch}

-- A round of the producer, the end of the producer, and the branches of the finalizer's `select!`.
pub data Event : Type 0 where
  produce close : Event
  shutdown flush_due receive : Event

abbrev pub is_empty : List PendingBlock → Bool
is_empty [] = true
is_empty (p ∷ ps) = false

module _ {W : Type 0} (r : Runner W) (attempts : ℕ) where
  abbrev pub set_timer : Option ℕ → State W → State W
  set_timer at st = record st { flush_at = at }

  unfoldable pub deadline_from : Option ℕ → ℕ → Option ℕ
  deadline_from none now = none
  deadline_from (some after) now = some (now + after)

  unfoldable pub arm_unset : Option ℕ → Step r (Unit {0})
  unfolding polled deadline_from
  arm_unset (some at) = pure tt
  arm_unset none = do now ← polled r.now; modify (set_timer (deadline_from r.flush_after now))

  -- `FlushTimer::arm`.
  unfoldable pub arm : Step r (Unit {0})
  unfolding arm_unset
  arm = do at ← gets (λ st. st.flush_at); arm_unset at

  -- A flush, and the timer after it; the loop goes on.
  unfoldable pub flush_and_disarm : Step r Bool
  unfolding flush_batch
  flush_and_disarm = do
    _ ← flush_batch r attempts
    batch ← gets (λ st. st.batch)
    _ ← select (is_empty batch) (modify (set_timer none)) (pure tt)
    pure true

  -- `mem::take` of the batch.
  unfoldable pub finalize_rest : List PendingBlock → Step r Bool
  unfolding finalize_buffered_locally
  finalize_rest batch = do
    _ ← modify (set_batch r [])
    _ ← finalize_buffered_locally r batch
    pure false

  -- The branch of the shutdown, which an empty batch disables.
  unfoldable pub on_shutdown : List PendingBlock → Step r Bool
  unfolding finalize_rest
  on_shutdown [] = pure true
  on_shutdown (p ∷ ps) = finalize_rest (p ∷ ps)

  unfoldable pub on_flush_due : Option ℕ → Step r Bool
  unfolding flush_and_disarm
  on_flush_due none = pure true
  on_flush_due (some at) = flush_and_disarm

  abbrev pub push : PendingBlock → State W → State W
  push p st = record st {
    batch = st.batch ++ p ∷ [];
    batch_bytes = saturating_add st.batch_bytes (length p.block.contents);
  }

  abbrev pub set_queue : List PendingBlock → State W → State W
  set_queue queue st = record st { queue = queue }

  unfoldable pub on_message : PendingBlock → List PendingBlock → Step r Bool
  unfolding arm flush_and_disarm
  on_message p queue = do
    _ ← modify (set_queue queue)
    batch ← gets (λ st. st.batch)
    _ ← select (is_empty batch) arm (pure tt)
    _ ← modify (push p)
    bytes ← gets (λ st. st.batch_bytes)
    select (leb r.da_batch_size bytes) flush_and_disarm (pure true)

  -- The branch of a closed channel: a last flush, and what it leaves is finalized locally.
  unfoldable pub on_closed : Step r Bool
  unfolding finalize_rest flush_batch
  on_closed = do
    _ ← modify (set_timer none)
    _ ← flush_batch r attempts
    batch ← gets (λ st. st.batch)
    finalize_rest batch

  unfoldable pub on_receive : List PendingBlock → Bool → Step r Bool
  unfolding on_message on_closed
  on_receive (p ∷ queue) is_open = on_message p queue
  on_receive [] true = pure true
  on_receive [] false = on_closed

  abbrev pub set_closed : State W → State W
  set_closed st = record st { channel_open = false }

  -- One event; whether the finalizer's loop goes on.
  unfoldable pub handle : Event → Step r Bool
  unfolding on_shutdown on_flush_due on_receive
  handle produce = do _ ← attempt {E = RunError} (produce_block r); pure true
  handle close = do _ ← modify set_closed; pure true
  handle shutdown = do batch ← gets (λ st. st.batch); on_shutdown batch
  handle flush_due = do at ← gets (λ st. st.flush_at); on_flush_due at
  handle receive = do
    queue ← gets (λ st. st.queue)
    is_open ← gets (λ st. st.channel_open)
    on_receive queue is_open

  abbrev pub continue_run : (State W → State W) → Result RunError Bool × State W → State W
  continue_run rest (ok true, st) = rest st
  continue_run rest (ok false, st) = st
  continue_run rest (err e, st) = st

  -- The state after the events up to the one that ends the loop.
  unfoldable pub run : List Event → State W → State W
  unfolding handle
  run [] st = st
  run (e ∷ es) st = continue_run (run es) (handle e st)
