-- ===== src/FullNode/Invariant.antt =====
-- What the sync loop and the poll do to a condition on the node's own state that every change of a
-- pointer keeps.
use podseq.Prelude.{
  ℕ, zero, suc, ◌-◌, ◌≡◌, refl, sym, Bool, true, false, Option, none, some, List, ap,
}
use mathlib.Core.Path.{subst}
use podseq.Call.{Call}
use podseq.Call.Ensures.{
  Ensures, Keeps, Keeps-after, Ensures-pure, Ensures-gets, Ensures-attempt, Ensures-bind,
  Ensures-bind_fact, Ensures-weaken, Ensures-select,
}
use podseq.Core.{Block}
use podseq.Core.Gossip.{BlockAnnounce}
use podseq.Deadline.{DeadlineStatus}
use podseq.Deadline.Monitor.{DeadlineError}
use podseq.Deadline.Gate.{HaltGate}
use podseq.FullNode.{NodeState, State, FullNode, set_head, set_finalized}
use podseq.FullNode.Frame.{Answered, Keeps-polled, Ensures-on_node, Ensures-on_world}
use podseq.FullNode.Evidence.{Signed, Settled, HashOf}
use podseq.FullNode.Changes.{world_step, apply_block-Ensures, apply_and_finalize-Ensures}
use podseq.FullNode.Lookup.{Cached, signed_step, settled_block-Ensures}
use podseq.FullNode.Sync.{
  sync_heights, sync_to, table_or_read, received, announced, announced_above, sync_from_settlement,
  poll_p2p, check_halt, after_check, tick, ticks, set_table, set_gate,
}

module _ {W : Type 0} (c : FullNode W) where
  -- The head may move to a block that the sequencer signed.
  abbrev pub Heads : (NodeState → Type 0) → Type 0
  Heads P =
      (b : Block)
      → Signed c b
      → (hash : ℕ) → HashOf c b hash
      → (n : NodeState) → P n
      → P (set_head c hash b.header.height n)

  -- Every change of a pointer keeps the condition: the head moves to a block that the sequencer
  -- signed, `safe` and `finalized` to the block that is settled at the next height.
  pub record Closed (Known : ℕ → Type 0) (P : NodeState → Type 0) : Type 0 where
    pub heads : Heads P
    pub finals :
        (b : Block) (n : NodeState)
        → Settled c Known (suc n.synced_height) b
        → (hash : ℕ) → HashOf c b hash
        → P n
        → P (set_finalized c hash b.header.height n)
    pub tables : (uid : ℕ) (n : NodeState) → Known uid → P n → P (set_table c uid n)
    pub cached : (n : NodeState) → P n → (uid : ℕ) → n.table_uid ≡ some uid → Known uid
    pub reads : (uid : ℕ) → Answered c.read_table_uid uid → Known uid
    pub gates : (gate : HaltGate) (n : NodeState) → P n → P (set_gate c gate n)

  module _ (Known : ℕ → Type 0) (P : NodeState → Type 0) (h : Closed Known P) where
    abbrev Next : ℕ → NodeState → Type 0
    Next height n = P n × (suc n.synced_height ≡ height)

    sync_heights-Ensures :
        (uid height count : ℕ) (cached : Option (ℕ × List Block))
        → Known uid
        → Cached c cached
        → Ensures {S = State W}
            (λ st. Next height st.node)
            (sync_heights c uid height count cached)
            (λ _ st. P st.node)
            (λ _ st. P st.node)
    unfolding sync_heights
    sync_heights-Ensures uid height zero cached i k = Ensures-pure tt (λ _ p. p.0)
    sync_heights-Ensures uid height (suc count) cached i k =
        Ensures-bind_fact
          (settled_block-Ensures c (Next height) P (λ _ p. p.0) Known uid height cached i k)
          λ found (settled, fetched).
            Ensures-bind
              (apply_and_finalize-Ensures c (Next height) (Next (suc height)) P (λ _ p. p.0)
                (λ _ p. p.0) found.0
                (λ hash hash_of n p. (h.heads found.0 settled.signed hash hash_of n p.0, p.1))
                (λ hash hash_of n p. (
                  h.finals found.0 n (subst (λ j. Settled c Known j found.0) (sym p.1) settled) hash
                      hash_of p.0,
                  ap suc settled.at_height,
                )))
              λ _. sync_heights-Ensures uid (suc height) count (some (found.1, found.2)) i fetched

    table_or_read-Ensures :
        (Q : NodeState → Type 0)
        → ((n : NodeState) → Q n → P n)
        → ((uid : ℕ) (n : NodeState) → Known uid → Q n → Q (set_table c uid n))
        → (o : Option ℕ) → ((uid : ℕ) → o ≡ some uid → Known uid)
        → Ensures {S = State W}
            (λ st. Q st.node)
            (table_or_read c o)
            (λ uid st. Q st.node × Known uid)
            (λ _ st. P st.node)
    unfolding table_or_read
    table_or_read-Ensures Q qp tables (some uid) k = Ensures-pure uid (λ _ q. (q, k uid refl))
    table_or_read-Ensures Q qp tables none k =
        Ensures-bind_fact (world_step c Q P qp _ c.read_table_uid) λ uid a.
          Ensures-bind (Ensures-on_node Q Q _ (λ n q. tables uid n (h.reads uid a) q))
            λ _. Ensures-pure uid (λ _ q. (q, h.reads uid a))

    sync_to-Ensures :
        (latest synced : ℕ)
        → Ensures {S = State W}
            (λ st. Next (suc synced) st.node)
            (sync_to c latest synced)
            (λ _ st. P st.node)
            (λ _ st. P st.node)
    unfolding sync_to
    sync_to-Ensures latest synced =
        Ensures-select _ (λ _. Ensures-pure tt (λ _ p. p.0))
          (λ _.
            Ensures-bind_fact {Q = λ _ st. Next (suc synced) st.node}
              {F = λ o. (uid : ℕ) → o ≡ some uid → Known uid}
              (Ensures-gets _ (λ st p. (p, h.cached st.node p.0)))
              λ cached k.
                Ensures-bind_fact
                  (table_or_read-Ensures (Next (suc synced)) (λ _ p. p.0)
                    (λ uid n i p. (h.tables uid n i p.0, p.1)) cached k)
                  λ uid i. sync_heights-Ensures uid (suc synced) (latest - synced) none i tt)

    pub sync_from_settlement-Keeps : Keeps {S = State W} (λ st. P st.node) (sync_from_settlement c)
    unfolding sync_from_settlement
    sync_from_settlement-Keeps =
        Ensures-bind_fact (world_step c P P (λ _ p. p) _ c.latest_height) λ latest _.
          Ensures-bind
            (Ensures-gets {Q = λ synced st. Next (suc synced) st.node} _ (λ _ p. (p, refl)))
            λ synced. sync_to-Ensures latest synced

  module _ (P : NodeState → Type 0) (heads : Heads P) where
    received-Keeps : (o : Option Block) → Keeps {S = State W} (λ st. P st.node) (received c o)
    unfolding received
    received-Keeps none = Ensures-pure tt (λ _ p. p)
    received-Keeps (some b) = Ensures-bind_fact (signed_step c P P (λ _ p. p) b) λ _ signed.
        apply_block-Ensures c P P P (λ _ p. p) (λ _ p. p) b
          (λ hash hash_of n p. heads b signed hash hash_of n p)

    announced-Keeps :
        (o : Option BlockAnnounce) → Keeps {S = State W} (λ st. P st.node) (announced c o)
    unfolding announced announced_above
    announced-Keeps none = Ensures-pure tt (λ _ p. p)
    announced-Keeps (some a) =
        Ensures-bind (Ensures-gets {Q = λ _ st. P st.node} _ (λ _ p. p)) λ synced.
          Ensures-select _ (λ _. Ensures-pure tt (λ _ p. p))
            (λ _. Ensures-bind (Keeps-polled P (c.receive a.digest)) λ o. received-Keeps o)

    pub poll_p2p-Keeps : Keeps {S = State W} (λ st. P st.node) (poll_p2p c)
    unfolding poll_p2p
    poll_p2p-Keeps =
        Ensures-select _ (λ _. Ensures-bind (Keeps-polled P c.poll_next) λ o. announced-Keeps o)
          (λ _. Ensures-pure tt (λ _ p. p))

  module _ (Known : ℕ → Type 0) (P : NodeState → Type 0) (h : Closed Known P) where
    check_halt-Keeps :
        (o : Option (Call W DeadlineError DeadlineStatus))
        → Keeps {S = State W} (λ st. P st.node) (check_halt c o)
    unfolding check_halt
    check_halt-Keeps none = Ensures-pure _ (λ _ p. p)
    check_halt-Keeps (some status) =
        Ensures-bind
          (Ensures-attempt {Q = λ _ st. P st.node}
            (Ensures-weaken (λ _ p. p) (λ _ _ p. p.0) (λ _ _ p. p) (Ensures-on_world P status)))
          λ read.
            Ensures-bind (Ensures-gets {Q = λ _ st. P st.node} _ (λ _ p. p)) λ gate.
              Ensures-bind (Ensures-on_node P P _ (h.gates _)) λ _. Ensures-pure _ (λ _ p. p)

    after_check-Keeps : (skip : Bool) → Keeps {S = State W} (λ st. P st.node) (after_check c skip)
    unfolding after_check
    after_check-Keeps true = Ensures-pure tt (λ _ p. p)
    after_check-Keeps false =
        Ensures-bind
          (Ensures-attempt {Q = λ _ st. P st.node} (sync_from_settlement-Keeps Known P h))
          λ _.
            Ensures-bind (Ensures-attempt {Q = λ _ st. P st.node} (poll_p2p-Keeps P h.heads))
              λ _. Ensures-pure tt (λ _ p. p)

    tick-Keeps : Keeps {S = State W} (λ st. P st.node) (tick c)
    unfolding tick
    tick-Keeps = Ensures-bind (check_halt-Keeps c.deadline) after_check-Keeps

    pub ticks-Closed : (k : ℕ) (st : State W) → P st.node → P (ticks c k st).node
    unfolding ticks
    ticks-Closed zero st p = p
    ticks-Closed (suc k) st p = ticks-Closed k (tick c st).1 (Keeps-after tick-Keeps st p)
