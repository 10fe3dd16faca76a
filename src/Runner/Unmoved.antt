-- ===== src/Runner/Unmoved.antt =====
-- A flush of crates/node/src/runner.rs keeps a condition that neither the batch nor what the calls
-- outside change enters.
use podseq.Prelude.{ℕ, zero, suc, Bool, true, false, List, [], ◌∷◌, Result, ok, err}
use podseq.Call.Ensures.{
  Keeps, Ensures-pure, Ensures-throw, Ensures-gets, Ensures-modify, Ensures-attempt, Ensures-bind,
  Ensures-select,
}
use podseq.Core.{Block}
use podseq.Runner.{RunError, PendingBlock, State, Runner, Step}
use podseq.Runner.Flush.{
  Published, published, interrupted, exhausted, set_batch, set_bytes, after_attempt,
  publish_attempts, after_advance, after_settle, settle_each, after_publish, flush_of, flush_batch,
}
use podseq.Runner.Locals.{
  Outside, world-Keeps, polled-Keeps, pending-Keeps, advance-Keeps, persist-Keeps, local-Keeps,
}

module _ {W : Type 0} (r : Runner W) (P : State W → Type 0) (o : Outside P)
    (batches : (ps : List PendingBlock) (st : State W) → P st → P (set_batch r ps st))
    (bytes : (n : ℕ) (st : State W) → P st → P (set_bytes r n st)) where
  after_advance-Keeps :
      (rest : Step r (Unit {0})) (p : PendingBlock) (ps : List PendingBlock)
      (a : Result RunError (Unit {0}))
      → Keeps P rest
      → Keeps P (after_advance r rest p ps a)
  unfolding after_advance
  after_advance-Keeps rest p ps (err e) k = Ensures-modify _ (batches (p ∷ ps))
  after_advance-Keeps rest p ps (ok _) k =
      Ensures-bind (Ensures-attempt {Q = λ _. P} (pending-Keeps r P o _))
        λ _. Ensures-bind (Ensures-attempt {Q = λ _. P} (persist-Keeps r P o p.height)) λ _. k

  after_settle-Keeps :
      (rest : Step r (Unit {0})) (p : PendingBlock) (ps : List PendingBlock) (settled : Bool)
      → Keeps P rest
      → Keeps P (after_settle r rest p ps settled)
  unfolding after_settle
  after_settle-Keeps rest p ps false k =
      Ensures-bind (Ensures-modify {Q = λ _. P} _ (batches []))
        λ _. Ensures-bind (local-Keeps r P o (p ∷ ps)) λ _. Ensures-modify _ (bytes 0)
  after_settle-Keeps rest p ps true k =
      Ensures-bind (Ensures-modify {Q = λ _. P} _ (batches ps)) λ _.
        Ensures-bind (Ensures-attempt {Q = λ _. P} (advance-Keeps r P o p.block_hash))
          λ a. after_advance-Keeps rest p ps a k

  settle_each-Keeps : (id : ℕ) (ps : List PendingBlock) → Keeps P (settle_each r id ps)
  unfolding settle_each
  settle_each-Keeps id [] = Ensures-modify _ (bytes 0)
  settle_each-Keeps id (p ∷ ps) =
      Ensures-bind (polled-Keeps r P o _)
        λ settled. after_settle-Keeps (settle_each r id ps) p ps settled (settle_each-Keeps id ps)

  answered-Keeps :
      (rest : Step r Published) (a : Result (Unit {0}) ℕ)
      → Keeps P rest
      → Keeps P (after_attempt r rest a)
  unfolding after_attempt
  answered-Keeps rest (ok id) k = Ensures-pure _ (λ _ q. q)
  answered-Keeps rest (err e) k = k

  publish-Keeps : (n : ℕ) (blocks : List Block) → Keeps P (publish_attempts r n blocks)
  unfolding publish_attempts
  publish-Keeps zero blocks = Ensures-pure _ (λ _ q. q)
  publish-Keeps (suc n) blocks = Ensures-bind (polled-Keeps r P o _) λ stopping.
      Ensures-select stopping (λ _. Ensures-pure _ (λ _ q. q))
        (λ _.
          Ensures-bind (Ensures-attempt {Q = λ _. P} (world-Keeps r P o _))
            λ a. answered-Keeps (publish_attempts r n blocks) a (publish-Keeps n blocks))

  after_publish-Keeps : (ps : List PendingBlock) (p : Published) → Keeps P (after_publish r ps p)
  unfolding after_publish
  after_publish-Keeps ps (published id) = settle_each-Keeps id ps
  after_publish-Keeps ps interrupted = Ensures-pure tt (λ _ q. q)
  after_publish-Keeps ps exhausted = Ensures-throw _ (λ _ q. q)

  flush_of-Keeps : (n : ℕ) (ps : List PendingBlock) → Keeps P (flush_of r n ps)
  unfolding flush_of
  flush_of-Keeps n [] = Ensures-pure tt (λ _ q. q)
  flush_of-Keeps n (p ∷ ps) = Ensures-bind (publish-Keeps n _) (after_publish-Keeps (p ∷ ps))

  pub flush_batch-Keeps : (n : ℕ) → Keeps P (flush_batch r n)
  unfolding flush_batch
  flush_batch-Keeps n = Ensures-bind (Ensures-gets {Q = λ _. P} _ (λ _ q. q)) (flush_of-Keeps n)
