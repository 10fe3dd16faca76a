-- ===== src/Runner/Events.antt =====
-- Every event of crates/node/src/runner.rs keeps a closed condition, and so does a run of events.
use podseq.Prelude.{
  ℕ, zero, suc, ◌∙◌, Bool, true, false, Option, none, some, List, [], ◌∷◌, Result, ok, err,
}
use podseq.Call.{Call}
use podseq.Call.Ensures.{
  Keeps, Keeps-after, Ensures-pure, Ensures-throw, Ensures-gets, Ensures-lift, Ensures-modify,
  Ensures-within, Ensures-attempt, Ensures-bind, Ensures-bind_fact, Ensures-select,
}
use podseq.Core.{Block}
use podseq.Engine.{BuiltPayload}
use podseq.Engine.Confirmed.{accept-Ensures}
use podseq.Runner.{RunError, PendingBlock, State, Runner, Step, send, keep_built, produce_block}
use podseq.Runner.Flush.{
  Published, published, interrupted, exhausted, after_attempt, publish_attempts, settle_each,
  after_publish, flush_of, flush_batch,
}
use podseq.Runner.Keeps.{Closed, local-Preserves, persist-Preserves, after_settle-Ensures}
use podseq.Runner.Loop.{
  Event, produce, close, shutdown, flush_due, receive, is_empty, arm_unset, arm, flush_and_disarm,
  finalize_rest, on_shutdown, on_flush_due, on_message, on_closed, on_receive, handle, continue_run,
  run,
}
use podseq.Runner.Frame.{
  Condition, Holds, Ensures-on_world, Keeps-on_world, Keeps-on_blocks, Keeps-on_pending,
  Ensures-polled, Keeps-on_chain,
}

module _ {W : Type 0} (r : Runner W) (P : Condition) (h : Closed r P) where
  abbrev Keeping : {E A : Type 0} → Call (State W) E A → Type 0
  Keeping m = Keeps {S = State W} (Holds P) m

  settle_each-Keeping : (id : ℕ) (ps : List PendingBlock) → Keeping (settle_each r id ps)
  unfolding settle_each
  settle_each-Keeping id [] = Ensures-modify _ (λ _ q. q)
  settle_each-Keeping id (p ∷ ps) =
      Ensures-bind_fact (Ensures-polled P (r.settle p.block id)) λ settled (w, e).
        after_settle-Ensures r P h (settle_each r id ps) p ps settled (settle_each-Keeping id ps)
          (λ t. (id, w, e ∙ t))

  answered-Keeping :
      (rest : Step r Published)
      → Keeping rest
      → (a : Result (Unit {0}) ℕ) → Keeping (after_attempt r rest a)
  unfolding after_attempt
  answered-Keeping rest k (ok id) = Ensures-pure _ (λ _ q. q)
  answered-Keeping rest k (err e) = k

  publish-Keeping : (n : ℕ) (blocks : List Block) → Keeping (publish_attempts r n blocks)
  unfolding publish_attempts
  publish-Keeping zero blocks = Ensures-pure _ (λ _ q. q)
  publish-Keeping (suc n) blocks =
      Ensures-bind_fact (Ensures-polled P r.shutting_down) λ stopping _.
        Ensures-select stopping (λ _. Ensures-pure _ (λ _ q. q))
          (λ _.
            Ensures-bind
              (Ensures-attempt {Q = λ _ st. Holds P st} (Keeps-on_world P (r.publish blocks)))
              (answered-Keeping (publish_attempts r n blocks) (publish-Keeping n blocks)))

  after_publish-Keeping : (ps : List PendingBlock) (o : Published) → Keeping (after_publish r ps o)
  unfolding after_publish
  after_publish-Keeping ps (published id) = settle_each-Keeping id ps
  after_publish-Keeping ps interrupted = Ensures-pure tt (λ _ q. q)
  after_publish-Keeping ps exhausted = Ensures-throw _ (λ _ q. q)

  flush_of-Keeping : (n : ℕ) (ps : List PendingBlock) → Keeping (flush_of r n ps)
  unfolding flush_of
  flush_of-Keeping n [] = Ensures-pure tt (λ _ q. q)
  flush_of-Keeping n (p ∷ ps) =
      Ensures-bind (publish-Keeping n _) λ o. after_publish-Keeping (p ∷ ps) o

  flush_batch-Keeping : (n : ℕ) → Keeping (flush_batch r n)
  unfolding flush_batch
  flush_batch-Keeping n =
      Ensures-bind (Ensures-gets {Q = λ _ st. Holds P st} _ (λ _ q. q)) λ ps. flush_of-Keeping n ps

  keep_built-Keeping : (built : BuiltPayload) (block : Block) → Keeping (keep_built r built block)
  unfolding keep_built send
  keep_built-Keeping built block = Ensures-bind (Ensures-within _ (Keeps-on_blocks P _)) λ _.
      Ensures-bind_fact (Ensures-polled P _) λ _ _.
        Ensures-bind (Ensures-within _ (Keeps-on_pending P _ (λ s d p. h.marks built.height s d p)))
          λ _. Ensures-bind (persist-Preserves r P h built.height) λ _.
            Ensures-bind_fact (Ensures-polled P _) λ _ _.
              Ensures-bind (Ensures-gets {Q = λ _ st. Holds P st} _ (λ _ q. q)) λ is_open.
                Ensures-select is_open (λ _. Ensures-modify _ (λ _ q. q))
                  (λ _. Ensures-pure tt (λ _ q. q))

  produce_block-Keeping : Keeping (produce_block r)
  unfolding produce_block
  produce_block-Keeping = Ensures-bind (Ensures-gets {Q = λ _ st. Holds P st} _ (λ _ q. q)) λ s.
      Ensures-bind_fact (Ensures-polled P _) λ now _.
        Ensures-bind (Ensures-gets {Q = λ _ st. Holds P st} _ (λ _ q. q)) λ latest.
          Ensures-bind (Ensures-within _ (Keeps-on_world P _)) λ built.
            Ensures-bind_fact
              (Ensures-within _ (
                Ensures-on_world P
                  (accept-Ensures r.engine built.payload built.block_hash s.safe s.finalized)))
              λ _ (w, accepted).
                Ensures-bind
                  (Keeps-on_chain P _
                    (h.heads built.payload built.block_hash s.safe s.finalized _ w accepted))
                  λ _.
                    Ensures-bind
                      (Ensures-lift {Q = λ _ st. Holds P st} _ (λ _ _ _ q. q) (λ _ _ _ q. q))
                      λ block. keep_built-Keeping built block

  module _ (attempts : ℕ) where
    flush_and_disarm-Keeping : Keeping (flush_and_disarm r attempts)
    unfolding flush_and_disarm
    flush_and_disarm-Keeping = Ensures-bind (flush_batch-Keeping attempts) λ _.
        Ensures-bind (Ensures-gets {Q = λ _ st. Holds P st} _ (λ _ q. q)) λ ps.
          Ensures-bind
            (Ensures-select {Q = λ _ st. Holds P st} (is_empty ps)
              (λ _. Ensures-modify _ (λ _ q. q)) (λ _. Ensures-pure tt (λ _ q. q)))
            λ _. Ensures-pure _ (λ _ q. q)

    finalize_rest-Keeping : (ps : List PendingBlock) → Keeping (finalize_rest r attempts ps)
    unfolding finalize_rest
    finalize_rest-Keeping ps =
        Ensures-bind (Ensures-modify {Q = λ _ st. Holds P st} _ (λ _ q. q))
          λ _. Ensures-bind (local-Preserves r P h ps) λ _. Ensures-pure _ (λ _ q. q)

    on_shutdown-Keeping : (ps : List PendingBlock) → Keeping (on_shutdown r attempts ps)
    unfolding on_shutdown
    on_shutdown-Keeping [] = Ensures-pure _ (λ _ q. q)
    on_shutdown-Keeping (p ∷ ps) = finalize_rest-Keeping (p ∷ ps)

    on_flush_due-Keeping : (at : Option ℕ) → Keeping (on_flush_due r attempts at)
    unfolding on_flush_due
    on_flush_due-Keeping none = Ensures-pure _ (λ _ q. q)
    on_flush_due-Keeping (some at) = flush_and_disarm-Keeping

    arm_unset-Keeping : (at : Option ℕ) → Keeping (arm_unset r attempts at)
    unfolding arm_unset
    arm_unset-Keeping (some at) = Ensures-pure _ (λ _ q. q)
    arm_unset-Keeping none =
        Ensures-bind_fact (Ensures-polled P r.now) λ now _. Ensures-modify _ (λ _ q. q)

    on_message-Keeping :
        (p : PendingBlock) (queue : List PendingBlock) → Keeping (on_message r attempts p queue)
    unfolding on_message arm
    on_message-Keeping p queue =
        Ensures-bind (Ensures-modify {Q = λ _ st. Holds P st} _ (λ _ q. q)) λ _.
          Ensures-bind (Ensures-gets {Q = λ _ st. Holds P st} _ (λ _ q. q)) λ batch.
            Ensures-bind
              (Ensures-select {Q = λ _ st. Holds P st} (is_empty batch)
                (λ _.
                  Ensures-bind (Ensures-gets {Q = λ _ st. Holds P st} _ (λ _ q. q))
                    arm_unset-Keeping)
                (λ _. Ensures-pure tt (λ _ q. q)))
              λ _. Ensures-bind (Ensures-modify {Q = λ _ st. Holds P st} _ (λ _ q. q)) λ _.
                Ensures-bind (Ensures-gets {Q = λ _ st. Holds P st} _ (λ _ q. q)) λ bytes.
                  Ensures-select _ (λ _. flush_and_disarm-Keeping) (λ _. Ensures-pure _ (λ _ q. q))

    on_receive-Keeping :
        (queue : List PendingBlock) (is_open : Bool) → Keeping (on_receive r attempts queue is_open)
    unfolding on_receive on_closed
    on_receive-Keeping (p ∷ queue) is_open = on_message-Keeping p queue
    on_receive-Keeping [] true = Ensures-pure _ (λ _ q. q)
    on_receive-Keeping [] false =
        Ensures-bind (Ensures-modify {Q = λ _ st. Holds P st} _ (λ _ q. q)) λ _.
          Ensures-bind (flush_batch-Keeping attempts) λ _.
            Ensures-bind (Ensures-gets {Q = λ _ st. Holds P st} _ (λ _ q. q)) finalize_rest-Keeping

    handle-Keeping : (e : Event) → Keeping (handle r attempts e)
    unfolding handle
    handle-Keeping produce =
        Ensures-bind (Ensures-attempt {Q = λ _ st. Holds P st} produce_block-Keeping)
          λ _. Ensures-pure _ (λ _ q. q)
    handle-Keeping close =
        Ensures-bind (Ensures-modify {Q = λ _ st. Holds P st} _ (λ _ q. q))
          λ _. Ensures-pure _ (λ _ q. q)
    handle-Keeping shutdown =
        Ensures-bind (Ensures-gets {Q = λ _ st. Holds P st} _ (λ _ q. q)) on_shutdown-Keeping
    handle-Keeping flush_due =
        Ensures-bind (Ensures-gets {Q = λ _ st. Holds P st} _ (λ _ q. q)) on_flush_due-Keeping
    handle-Keeping receive =
        Ensures-bind (Ensures-gets {Q = λ _ st. Holds P st} _ (λ _ q. q)) λ queue.
          Ensures-bind (Ensures-gets {Q = λ _ st. Holds P st} _ (λ _ q. q))
            λ is_open. on_receive-Keeping queue is_open

    continue-Keeping :
        (rest : State W → State W) (x : Result RunError Bool × State W)
        → ((st : State W) → Holds P st → Holds P (rest st))
        → Holds P x.1
        → Holds P (continue_run r attempts rest x)
    continue-Keeping rest (ok true, st) k p = k st p
    continue-Keeping rest (ok false, st) k p = p
    continue-Keeping rest (err e, st) k p = p

    pub run-Closed : (es : List Event) (st : State W) → Holds P st → Holds P (run r attempts es st)
    unfolding run
    run-Closed [] st p = p
    run-Closed (e ∷ es) st p =
        continue-Keeping (run r attempts es) (handle r attempts e st) (run-Closed es)
          (Keeps-after (handle-Keeping e) st p)
