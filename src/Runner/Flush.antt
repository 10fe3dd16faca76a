-- ===== src/Runner/Flush.antt =====
-- `flush_batch` and `finalize_buffered_locally` of crates/node/src/runner.rs: a batch is published as
-- one blob, then each block is settled and finalized in order.
use podseq.Prelude.{ℕ, zero, suc, Bool, true, false, List, [], ◌∷◌, map, Result, ok, err}
use podseq.Call.{pure, throw, gets, select, modify, attempt, ◌>>=◌}
use podseq.Core.{Block}
use podseq.Store.Pending.{clear}
use podseq.Runner.{
  RunError, still_publishing, PendingBlock, State, Runner, Step, on_world, on_pending, polled,
  advance_finalized, persist_state,
}

pub data Published : Type 0 where
  published : ℕ → Published
  interrupted exhausted : Published

module _ {W : Type 0} (r : Runner W) where
  abbrev pub set_batch : List PendingBlock → State W → State W
  set_batch batch st = record st { batch = batch }

  abbrev pub set_bytes : ℕ → State W → State W
  set_bytes bytes st = record st { batch_bytes = bytes }

  -- A block that the client does not confirm is skipped.
  unfoldable pub finalize_buffered_locally : List PendingBlock → Step r (Unit {0})
  finalize_buffered_locally [] = pure tt
  finalize_buffered_locally (p ∷ ps) = do
    _ ← attempt {E = RunError} (advance_finalized r p.block_hash)
    finalize_buffered_locally ps

  unfoldable pub after_attempt : Step r Published → Result (Unit {0}) ℕ → Step r Published
  after_attempt rest (ok id) = pure (published id)
  after_attempt rest (err _) = rest

  -- The loop of the attempts to publish, of which the model makes `n`.
  unfoldable pub publish_attempts : ℕ → List Block → Step r Published
  unfolding after_attempt polled on_world
  publish_attempts zero blocks = pure exhausted
  publish_attempts (suc n) blocks = do
    stopping ← polled r.shutting_down
    select stopping (pure interrupted) (do
      answer ← attempt {E = Unit {0}} (on_world (r.publish blocks))
      after_attempt (publish_attempts n blocks) answer)

  -- A block that the client did not confirm goes back to the front, with its marker.
  unfoldable pub after_advance :
      Step r (Unit {0})
      → PendingBlock
      → List PendingBlock
      → Result RunError (Unit {0})
      → Step r (Unit {0})
  unfolding on_pending
  after_advance rest p ps (err _) = modify (set_batch (p ∷ ps))
  after_advance rest p ps (ok _) = do
    _ ← attempt (on_pending (clear r.heights_codec p.height))
    _ ← attempt {E = RunError} (persist_state r p.height)
    rest

  unfoldable pub after_settle :
      Step r (Unit {0}) → PendingBlock → List PendingBlock → Bool → Step r (Unit {0})
  unfolding after_advance finalize_buffered_locally
  after_settle rest p ps false = do
    _ ← modify (set_batch [])
    _ ← finalize_buffered_locally (p ∷ ps)
    modify (set_bytes 0)
  after_settle rest p ps true = do
    _ ← modify (set_batch ps)
    answer ← attempt {E = RunError} (advance_finalized r p.block_hash)
    after_advance rest p ps answer

  -- The loop over the batch, by what is left of it.
  unfoldable pub settle_each : ℕ → List PendingBlock → Step r (Unit {0})
  unfolding after_settle polled
  settle_each id [] = modify (set_bytes 0)
  settle_each id (p ∷ ps) = do
    settled ← polled (r.settle p.block id)
    after_settle (settle_each id ps) p ps settled

  unfoldable pub after_publish : List PendingBlock → Published → Step r (Unit {0})
  unfolding settle_each
  after_publish batch (published id) = settle_each id batch
  after_publish batch interrupted = pure tt
  after_publish batch exhausted = throw still_publishing

  unfoldable pub flush_of : ℕ → List PendingBlock → Step r (Unit {0})
  unfolding publish_attempts after_publish
  flush_of n [] = pure tt
  flush_of n (p ∷ ps) = do
    outcome ← publish_attempts n (map (λ q. q.block) (p ∷ ps))
    after_publish (p ∷ ps) outcome

  unfoldable pub flush_batch : ℕ → Step r (Unit {0})
  unfolding flush_of
  flush_batch n = do batch ← gets (λ st. st.batch); flush_of n batch
