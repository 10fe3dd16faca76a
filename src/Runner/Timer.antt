-- ===== src/Runner/Timer.antt =====
-- The flush timer of crates/node/src/runner.rs and the finalizer's batch.
use podseq.Prelude.{
  ℕ, ◌≡◌, refl, sym, Bool, true, false, Option, none, some, List, [], ◌∷◌, ◌++◌, ok, arith, is_some,
}
use mathlib.Core.Path.{subst}
use podseq.Call.{pure, select, modify}
use podseq.Call.Ensures.{
  Ensures, Ensures-pure, Ensures-gets, Ensures-modify, Ensures-attempt, Ensures-bind,
  Ensures-weaken, Ensures-select, Ensures-ok,
}
use podseq.Runner.{RunError, PendingBlock, State, Runner, Step}
use podseq.Runner.Unmoved.{flush_batch-Keeps}
use podseq.Runner.Loop.{
  Event, produce, close, shutdown, flush_due, receive, is_empty, set_timer, arm_unset, arm,
  flush_and_disarm, finalize_rest, on_shutdown, on_flush_due, on_message, on_closed, on_receive,
  set_closed, handle, deadline_from,
}
use podseq.Runner.Locals.{Outside, anywhere, polled-Keeps, local-Keeps, produce_block-Keeps}

-- An empty batch has no deadline; one with blocks has a deadline if flushes are timed.
abbrev pub Armed : Option ℕ → List PendingBlock → Option ℕ → Type 0
Armed flush_after [] at = at ≡ none
Armed flush_after (p ∷ ps) at = is_some at ≡ is_some flush_after

module _ {W : Type 0} (r : Runner W) (attempts : ℕ) where
  IsArmed : State W → Type 0
  IsArmed st = Armed r.flush_after st.batch st.flush_at

  Timed : State W → Type 0
  Timed st = is_some st.flush_at ≡ is_some r.flush_after

  -- What a branch that lets the loop go on leaves.
  abbrev Continues : Step r Bool → (State W → Type 0) → Type 0
  Continues m P = Ensures P m (λ go st. go ≡ true → IsArmed st) (λ _ _. Unit {0})

  Timed-Outside : Outside Timed
  unfolding Timed
  Timed-Outside = record {
    world = λ _ _ p. p;
    blocks = λ _ _ p. p;
    states = λ _ _ p. p;
    pendings = λ _ _ p. p;
    chains = λ _ _ p. p;
    queues = λ _ _ p. p;
  }

  IsArmed-Outside : Outside IsArmed
  unfolding IsArmed
  IsArmed-Outside = record {
    world = λ _ _ p. p;
    blocks = λ _ _ p. p;
    states = λ _ _ p. p;
    pendings = λ _ _ p. p;
    chains = λ _ _ p. p;
    queues = λ _ _ p. p;
  }

  disarmed :
      (ps : List PendingBlock)
      → Ensures {S = State W} {E = RunError}
          (λ st. Timed st × (st.batch ≡ ps))
          (select (is_empty ps) (modify (set_timer r attempts none)) (pure tt))
          (λ _ st. IsArmed st)
          (λ _ _. Unit {0})
  unfolding IsArmed Timed select
  disarmed [] = Ensures-modify _ (λ st p. subst (λ ps. Armed r.flush_after ps none) (sym p.1) refl)
  disarmed (p ∷ ps) =
      Ensures-pure tt (λ st q. subst (λ xs. Armed r.flush_after xs st.flush_at) (sym q.1) q.0)

  flush_and_disarm-Continues : Continues (flush_and_disarm r attempts) Timed
  unfolding flush_and_disarm Timed
  flush_and_disarm-Continues =
      Ensures-bind
        (Ensures-weaken (λ _ p. p) (λ _ _ p. p) (λ _ _ _. tt)
          (flush_batch-Keeps r Timed Timed-Outside (λ _ _ p. p) (λ _ _ p. p) attempts))
        λ _.
          Ensures-bind (Ensures-gets {Q = λ ps st. Timed st × (st.batch ≡ ps)} _ (λ _ p. (p, refl)))
            λ ps. Ensures-bind (disarmed ps) λ _. Ensures-pure true (λ _ p _. p)

  finalize_rest-Continues :
      (ps : List PendingBlock) → Continues (finalize_rest r attempts ps) (λ _. Unit {0})
  unfolding finalize_rest
  finalize_rest-Continues ps =
      Ensures-bind (Ensures-modify {Q = λ _ _. Unit {0}} _ (λ _ _. tt)) λ _.
        Ensures-bind
          (Ensures-weaken (λ _ _. tt) (λ _ _ _. tt) (λ _ _ _. tt)
            (local-Keeps r (λ _. Unit {0}) anywhere ps))
          λ _. Ensures-pure false (λ _ _ e. ground arith)

  on_shutdown-Continues : (ps : List PendingBlock) → Continues (on_shutdown r attempts ps) IsArmed
  unfolding on_shutdown
  on_shutdown-Continues [] = Ensures-pure true (λ _ p _. p)
  on_shutdown-Continues (p ∷ ps) =
      Ensures-weaken (λ _ _. tt) (λ _ _ q. q) (λ _ _ q. q) (finalize_rest-Continues (p ∷ ps))

  -- A deadline that is set belongs to blocks.
  Armed-is_some :
      (ps : List PendingBlock) (at : Option ℕ) (n : ℕ)
      → Armed r.flush_after ps at
      → at ≡ some n
      → is_some at ≡ is_some r.flush_after
  Armed-is_some [] at n h e = ground arith
  Armed-is_some (p ∷ ps) at n h e = h

  on_flush_due-Continues :
      (at : Option ℕ)
      → Continues (on_flush_due r attempts at) (λ st. IsArmed st × (st.flush_at ≡ at))
  unfolding on_flush_due IsArmed Timed
  on_flush_due-Continues none = Ensures-pure true (λ _ p _. p.0)
  on_flush_due-Continues (some n) =
      Ensures-weaken (λ st p. Armed-is_some st.batch st.flush_at n p.0 p.1) (λ _ _ q. q)
        (λ _ _ q. q) flush_and_disarm-Continues

  timed_from :
      (now : ℕ) (after : Option ℕ) → is_some (deadline_from r attempts after now) ≡ is_some after
  unfolding deadline_from
  timed_from now none = refl
  timed_from now (some n) = refl

  -- `arm` on an unset timer, or on one that is set already.
  arm_unset-Timed :
      (at : Option ℕ)
      → Ensures {S = State W}
          (λ st. (st.flush_at ≡ none) × (st.flush_at ≡ at))
          (arm_unset r attempts at)
          (λ _ st. Timed st)
          (λ _ _. Unit {0})
  unfolding arm_unset Timed deadline_from
  arm_unset-Timed (some n) = Ensures-pure tt (λ st p. ground arith)
  arm_unset-Timed none =
      Ensures-bind
        (Ensures-weaken (λ _ _. tt) (λ _ _ _. tt) (λ _ _ _. tt)
          (polled-Keeps r (λ _. Unit {0}) anywhere _))
        λ now. Ensures-modify _ (λ st p. timed_from now r.flush_after)

  arm_first :
      (ps : List PendingBlock)
      → Ensures {S = State W}
          (λ st. IsArmed st × (st.batch ≡ ps))
          (select (is_empty ps) (arm r attempts) (pure tt))
          (λ _ st. Timed st)
          (λ _ _. Unit {0})
  unfolding select arm IsArmed Timed
  arm_first [] =
      Ensures-bind
        (Ensures-gets {Q = λ at st. (st.flush_at ≡ none) × (st.flush_at ≡ at)} _
          (λ st p. (subst (λ ps. Armed r.flush_after ps st.flush_at) p.1 p.0, refl)))
        λ at. arm_unset-Timed at
  arm_first (p ∷ ps) =
      Ensures-pure tt (λ st q. subst (λ xs. Armed r.flush_after xs st.flush_at) q.1 q.0)

  pushed :
      (ps : List PendingBlock) (p : PendingBlock) (at : Option ℕ)
      → is_some at ≡ is_some r.flush_after
      → Armed r.flush_after (ps ++ p ∷ []) at
  pushed [] p at h = h
  pushed (q ∷ ps) p at h = h

  on_message-Continues :
      (p : PendingBlock) (queue : List PendingBlock)
      → Continues (on_message r attempts p queue) IsArmed
  unfolding on_message IsArmed Timed
  on_message-Continues p queue =
      Ensures-bind (Ensures-modify {Q = λ _ st. IsArmed st} _ (λ _ q. q)) λ _.
        Ensures-bind (Ensures-gets {Q = λ ps st. IsArmed st × (st.batch ≡ ps)} _ (λ _ q. (q, refl)))
          λ ps. Ensures-bind (arm_first ps) λ _.
            Ensures-bind
              (Ensures-modify {Q = λ _ st. IsArmed st × Timed st} _
                (λ st q. (pushed st.batch p st.flush_at q, q)))
              λ _.
                Ensures-bind (Ensures-gets {Q = λ _ st. IsArmed st × Timed st} _ (λ _ q. q))
                  λ bytes.
                    Ensures-select _
                      (λ _.
                        Ensures-weaken (λ _ q. q.1) (λ _ _ q. q) (λ _ _ q. q)
                          flush_and_disarm-Continues)
                      (λ _. Ensures-pure true (λ _ q _. q.0))

  on_receive-Continues :
      (queue : List PendingBlock) (is_open : Bool)
      → Continues (on_receive r attempts queue is_open) IsArmed
  unfolding on_receive on_closed
  on_receive-Continues (p ∷ queue) is_open = on_message-Continues p queue
  on_receive-Continues [] true = Ensures-pure true (λ _ q _. q)
  on_receive-Continues [] false =
      Ensures-bind (Ensures-modify {Q = λ _ _. Unit {0}} _ (λ _ _. tt)) λ _.
        Ensures-bind
          (Ensures-weaken (λ _ _. tt) (λ _ _ _. tt) (λ _ _ _. tt)
            (flush_batch-Keeps r (λ _. Unit {0}) anywhere (λ _ _ p. p) (λ _ _ p. p) attempts))
          λ _.
            Ensures-bind (Ensures-gets {Q = λ _ _. Unit {0}} _ (λ _ _. tt)) finalize_rest-Continues

  handle-Continues : (e : Event) → Continues (handle r attempts e) IsArmed
  unfolding handle IsArmed
  handle-Continues produce =
      Ensures-bind
        (Ensures-attempt {Q = λ _ st. IsArmed st} (produce_block-Keeps r IsArmed IsArmed-Outside))
        λ _. Ensures-pure true (λ _ q _. q)
  handle-Continues close =
      Ensures-bind (Ensures-modify {Q = λ _ st. IsArmed st} (set_closed r attempts) (λ _ q. q))
        λ _. Ensures-pure true (λ _ q _. q)
  handle-Continues shutdown =
      Ensures-bind (Ensures-gets {Q = λ _ st. IsArmed st} _ (λ _ q. q)) on_shutdown-Continues
  handle-Continues flush_due =
      Ensures-bind
        (Ensures-gets {Q = λ at st. IsArmed st × (st.flush_at ≡ at)} _ (λ _ q. (q, refl)))
        on_flush_due-Continues
  handle-Continues receive =
      Ensures-bind (Ensures-gets {Q = λ _ st. IsArmed st} _ (λ _ q. q)) λ queue.
        Ensures-bind (Ensures-gets {Q = λ _ st. IsArmed st} _ (λ _ q. q))
          λ is_open. on_receive-Continues queue is_open

  -- While the finalizer's loop goes on, every event keeps this: an empty batch has no flush deadline,
  -- and a batch with blocks has one, if flushes are timed at all.
  pub handle-Armed :
      (e : Event) (st st' : State W)
      → Armed r.flush_after st.batch st.flush_at
      → handle r attempts e st ≡ (ok true, st')
      → Armed r.flush_after st'.batch st'.flush_at
  unfolding IsArmed
  handle-Armed e st st' h k = Ensures-ok (handle-Continues e) st h k refl
