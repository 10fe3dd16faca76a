-- ===== src/Runner/Settles.antt =====
-- A flush of crates/node/src/runner.rs empties the batch when what it calls answers.
use podseq.Prelude.{ℕ, suc, ◌≡◌, refl, ap, Bool, true, false, List, [], ◌∷◌, Result, ok, err, arith}
use podseq.Call.{Call, attempt}
use podseq.Call.Ensures.{
  Ensures, Post, Ensures-pure, Ensures-gets, Ensures-modify, Ensures-within, Ensures-attempt,
  Ensures-bind, Ensures-bind_fact, Ensures-weaken, Ensures-select,
}
use podseq.Call.Focus.{Succeeds-focus}
use podseq.Core.{Block}
use podseq.Engine.{finalize}
use podseq.Runner.{
  RunError, PendingBlock, State, Runner, Step, on_world, polled, advance_finalized, on_chain,
}
use podseq.Runner.Flush.{
  Published, published, interrupted, exhausted, after_attempt, publish_attempts, after_advance,
  after_settle, settle_each, after_publish, flush_of, flush_batch,
}
use podseq.Runner.Locals.{Outside, pending-Keeps, persist-Keeps}

-- No shutdown is asked for, the data layer and the settlement take the blocks, and the client
-- confirms.
pub record Answering {W : Type 0} (r : Runner W) : Type 0 where
  pub running : (w : W) → (r.shutting_down w).0 ≡ false
  pub publishes : (bs : List Block) (w : W) → (id : ℕ) × ((r.publish bs w).0 ≡ ok id)
  pub settles : (b : Block) (id : ℕ) (w : W) → (r.settle b id w).0 ≡ true
  pub confirms :
      (head safe finalized : ℕ) (w : W) → (finalize r.engine head safe finalized w).0 ≡ ok tt

module _ {W : Type 0} (r : Runner W) (h : Answering r) where
  abbrev Succeeds :
      {E A : Type 0} → (State W → Type 0) → Call (State W) E A → (A → State W → Type 0) → Type 0
  Succeeds P m Q = Ensures P m Q (λ _ _. ⊥)

  module _ (P : State W → Type 0) (o : Outside P) where
    world-Succeeds :
        {E A : Type 0} (m : Call W E A) (F : A → Type 0)
        → ((w : W) → (a : A) × ((m w).0 ≡ ok a) × F a)
        → Succeeds P (on_world m) (λ a st. P st × F a)
    unfolding on_world
    world-Succeeds m F k = Succeeds-focus _ _ m F o.world k

    polled-Succeeds :
        {E A : Type 0} (m : W → A × W) (a : A)
        → ((w : W) → (m w).0 ≡ a)
        → Succeeds {E = E} P (polled m) (λ x st. P st × (x ≡ a))
    unfolding polled
    polled-Succeeds m a k = world-Succeeds _ (λ x. x ≡ a) (λ w. (a, ap ok (k w), refl))

    advance-Succeeds : (hash : ℕ) → Succeeds P (advance_finalized r hash) (λ _. P)
    unfolding advance_finalized on_chain
    advance-Succeeds hash = Ensures-bind (Ensures-gets {Q = λ _. P} _ (λ _ p. p)) λ head.
        Ensures-bind_fact
          (Ensures-within _ (
            world-Succeeds (finalize r.engine head hash hash) (λ _. Unit {0})
              (λ w. (tt, h.confirms head hash hash w, tt))))
          λ _ _. Ensures-modify _ (λ st p. o.chains st _ p)

    confirmed_answer :
        (hash : ℕ)
        → Succeeds P
            (attempt {E = RunError} {F = RunError} (advance_finalized r hash))
            (λ a st. P st × (a ≡ ok tt))
    confirmed_answer hash =
        Ensures-attempt (
          Ensures-weaken (λ _ p. p) (λ _ _ p. (p, refl)) (λ _ _ x. absurd x)
            (advance-Succeeds hash))

  Left : List PendingBlock → State W → Type 0
  Left ps st = st.batch ≡ ps

  Left-Outside : (ps : List PendingBlock) → Outside (Left ps)
  unfolding Left
  Left-Outside ps = record {
    world = λ _ _ p. p;
    blocks = λ _ _ p. p;
    states = λ _ _ p. p;
    pendings = λ _ _ p. p;
    chains = λ _ _ p. p;
    queues = λ _ _ p. p;
  }

  Emptied : State W → Type 0
  Emptied st = (st.batch ≡ []) × (st.batch_bytes ≡ 0)

  after_advance-Empties :
      (rest : Step r (Unit {0})) (p : PendingBlock) (ps : List PendingBlock)
      (a : Result RunError (Unit {0}))
      → a ≡ ok tt
      → Succeeds (Left ps) rest (λ _. Emptied)
      → Succeeds (Left ps) (after_advance r rest p ps a) (λ _. Emptied)
  unfolding after_advance
  after_advance-Empties rest p ps (err e) k m = ground arith
  after_advance-Empties rest p ps (ok _) k m =
      Ensures-bind
        (Ensures-attempt {Q = λ _. Left ps} (pending-Keeps r (Left ps) (Left-Outside ps) _))
        λ _.
          Ensures-bind
            (Ensures-attempt {Q = λ _. Left ps}
              (persist-Keeps r (Left ps) (Left-Outside ps) p.height))
            λ _. m

  after_settle-Empties :
      (rest : Step r (Unit {0})) (p : PendingBlock) (ps : List PendingBlock) (settled : Bool)
      → settled ≡ true
      → Succeeds (Left ps) rest (λ _. Emptied)
      → Succeeds (Left (p ∷ ps)) (after_settle r rest p ps settled) (λ _. Emptied)
  unfolding after_settle Left
  after_settle-Empties rest p ps false k m = ground arith
  after_settle-Empties rest p ps true k m =
      Ensures-bind (Ensures-modify {Q = λ _. Left ps} _ (λ _ _. refl)) λ _.
        Ensures-bind_fact (confirmed_answer (Left ps) (Left-Outside ps) p.block_hash)
          λ a e. after_advance-Empties rest p ps a e m

  settle_each-Empties :
      (id : ℕ) (ps : List PendingBlock) → Succeeds (Left ps) (settle_each r id ps) (λ _. Emptied)
  unfolding settle_each Left Emptied
  settle_each-Empties id [] = Ensures-modify _ (λ _ p. (p, refl))
  settle_each-Empties id (p ∷ ps) =
      Ensures-bind_fact
        (polled-Succeeds (Left (p ∷ ps)) (Left-Outside (p ∷ ps)) (r.settle p.block id) true
          (h.settles p.block id))
        λ settled e.
          after_settle-Empties (settle_each r id ps) p ps settled e (settle_each-Empties id ps)

  answered-published :
      (ps : List PendingBlock) (rest : Step r Published) (a : Result (Unit {0}) ℕ)
      → (id : ℕ) × (a ≡ ok id)
      → Succeeds
          (Left ps)
          (after_attempt r rest a)
          (λ o st. Left ps st × ((id : ℕ) × (o ≡ published id)))
  unfolding after_attempt
  answered-published ps rest (ok id) k = Ensures-pure _ (λ _ p. (p, (id, refl)))
  answered-published ps rest (err e) (id, k) = ground arith

  publish-Succeeds :
      (ps : List PendingBlock) (n : ℕ) (blocks : List Block)
      → Succeeds
          (Left ps)
          (publish_attempts r (suc n) blocks)
          (λ o st. Left ps st × ((id : ℕ) × (o ≡ published id)))
  unfolding publish_attempts
  publish-Succeeds ps n blocks =
      Ensures-bind_fact
        (polled-Succeeds (Left ps) (Left-Outside ps) r.shutting_down false h.running)
        λ stopping e.
          Ensures-select stopping (λ t. ground arith)
            (λ _.
              Ensures-bind_fact
                (Ensures-attempt {Q = λ a st. Left ps st × ((id : ℕ) × (a ≡ ok id))} (
                  Ensures-weaken (λ _ p. p) (λ id _ p. (p.0, (id, refl))) (λ _ _ x. absurd x)
                    (world-Succeeds (Left ps) (Left-Outside ps) (r.publish blocks) (λ _. Unit {0})
                      (λ w. let (id, k) = h.publishes blocks w in (id, k, tt)))))
                λ a k. answered-published ps (publish_attempts r n blocks) a k)

  after_publish-Empties :
      (ps : List PendingBlock) (o : Published)
      → (id : ℕ) × (o ≡ published id)
      → Succeeds (Left ps) (after_publish r ps o) (λ _. Emptied)
  unfolding after_publish
  after_publish-Empties ps (published id) k = settle_each-Empties id ps
  after_publish-Empties ps interrupted (id, k) = ground arith
  after_publish-Empties ps exhausted (id, k) = ground arith

  flush_of-Empties :
      (n : ℕ) (ps : List PendingBlock)
      → Succeeds (Left ps) (flush_of r (suc n) ps) (λ _ st. Left [] st)
  unfolding flush_of Left Emptied
  flush_of-Empties n [] = Ensures-pure tt (λ _ p. p)
  flush_of-Empties n (p ∷ ps) = Ensures-bind_fact (publish-Succeeds (p ∷ ps) n _) λ o k.
      Ensures-weaken (λ _ q. q) (λ _ _ q. q.0) (λ _ _ q. q) (after_publish-Empties (p ∷ ps) o k)

  succeeded :
      (x : Result RunError (Unit {0}) × State W)
      → Post (λ _ st. Left [] st) (λ _ _. ⊥) x
      → (x.0 ≡ ok tt) × (x.1.batch ≡ [])
  unfolding Left
  succeeded (ok tt, st) k = (refl, k)
  succeeded (err e, st) k = absurd k

  -- When no shutdown is asked for, the data layer and the settlement take the blocks and the client
  -- confirms, a flush ends after one attempt to publish, without error, and leaves no block behind.
  pub flush_batch-empties :
      (n : ℕ) (st : State W)
      → ((flush_batch r (suc n) st).0 ≡ ok tt) × ((flush_batch r (suc n) st).1.batch ≡ [])
  unfolding flush_batch Left
  flush_batch-empties n st = succeeded (flush_batch r (suc n) st) (flushed.holds st tt)
    where
      flushed : Succeeds (λ _. Unit {0}) (flush_batch r (suc n)) (λ _ st. Left [] st)
      flushed =
          Ensures-bind (Ensures-gets {Q = λ ps st. Left ps st} _ (λ _ _. refl)) (flush_of-Empties n)
