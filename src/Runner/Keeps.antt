-- ===== src/Runner/Keeps.antt =====
-- A condition on the chain state and the pending store that every confirmed change keeps is kept by
-- every event of crates/node/src/runner.rs.
use podseq.Prelude.{ℕ, ◌≡◌, refl, Bool, true, false, none, List, [], ◌∷◌, arith, Result, ok, err}
use podseq.Call.{Call}
use podseq.Call.Ensures.{
  Ensures, Keeps, Ensures-pure, Ensures-gets, Ensures-modify, Ensures-within, Ensures-attempt,
  Ensures-bind, Ensures-bind_fact, Ensures-weaken,
}
use podseq.Engine.{ExecutionPayload, forkchoice}
use podseq.Engine.Confirmed.{Confirmed, Accepted, finalize-Ensures}
use podseq.Store.Disk.{Disk}
use podseq.Store.Pending.{mark, clear}
use podseq.Runner.{
  RunError, PendingBlock, ChainState, State, Runner, Step, set_finalized, set_built,
  advance_finalized, persist_state,
}
use podseq.Runner.Flush.{finalize_buffered_locally, after_advance, after_settle}
use podseq.Runner.Frame.{
  Condition, Holds, Ensures-on_world, Keeps-on_state_disk, Keeps-on_pending, Keeps-on_chain,
}

module _ {W : Type 0} (r : Runner W) where
  -- The client confirmed an update that makes this block safe and final.
  abbrev pub Finalized : ℕ → Type 0
  Finalized hash = (head : ℕ) × (w : W) × Confirmed r.engine (forkchoice head hash hash) none w

  -- The settlement took the block, and the client confirmed it as final.
  pub record Done (p : PendingBlock) : Type 0 where
    pub settled : (id : ℕ) × (w : W) × ((r.settle p.block id w).0 ≡ true)
    pub finalized : Finalized p.block_hash

  pub record Closed (P : Condition) : Type 0 where
    pub heads :
        (payload : ExecutionPayload) (hash safe finalized timestamp : ℕ) (w : W)
        → Accepted r.engine payload (forkchoice hash safe finalized) w
        → (s : ChainState) (d : Disk) → P s d
        → P (set_built r hash timestamp s) d
    pub finals :
        (hash : ℕ)
        → Finalized hash
        → (s : ChainState) (d : Disk) → P s d
        → P (set_finalized r hash s) d
    pub marks : (h : ℕ) (s : ChainState) (d : Disk) → P s d → P s (mark r.heights_codec h d).1
    pub clears :
        (p : PendingBlock)
        → Done p
        → (s : ChainState) (d : Disk) → P s d
        → P s (clear r.heights_codec p.height d).1

  module _ (P : Condition) (h : Closed P) where
    abbrev pub Preserves : {E A : Type 0} → Call (State W) E A → Type 0
    Preserves m = Keeps {S = State W} (Holds P) m

    advance-Ensures :
        (hash : ℕ)
        → Ensures {S = State W}
            (Holds P)
            (advance_finalized r hash)
            (λ _ st. Holds P st × Finalized hash)
            (λ _ st. Holds P st)
    unfolding advance_finalized
    advance-Ensures hash = Ensures-bind (Ensures-gets {Q = λ _ st. Holds P st} _ (λ _ p. p)) λ head.
        Ensures-bind_fact
          (Ensures-within _ (Ensures-on_world P (finalize-Ensures r.engine head hash hash)))
          λ _ (w, confirmed).
            Ensures-weaken (λ _ p. p) (λ _ _ p. (p, (head, w, confirmed))) (λ _ _ p. p)
              (Keeps-on_chain P _ (h.finals hash (head, w, confirmed)))

    pub persist-Preserves : (height : ℕ) → Preserves (persist_state r height)
    unfolding persist_state
    persist-Preserves height =
        Ensures-bind (Ensures-gets {Q = λ _ st. Holds P st} _ (λ _ p. p)) λ latest.
          Ensures-bind (Ensures-gets {Q = λ _ st. Holds P st} _ (λ _ p. p))
            λ s. Ensures-within _ (Keeps-on_state_disk P _)

    pub local-Preserves : (ps : List PendingBlock) → Preserves (finalize_buffered_locally r ps)
    unfolding finalize_buffered_locally
    local-Preserves [] = Ensures-pure tt (λ _ p. p)
    local-Preserves (p ∷ ps) =
        Ensures-bind
          (Ensures-attempt {Q = λ _ st. Holds P st}
            (Ensures-weaken (λ _ q. q) (λ _ _ q. q.0) (λ _ _ q. q) (advance-Ensures p.block_hash)))
          λ _. local-Preserves ps

    after_advance-Ensures :
        (rest : Step r (Unit {0})) (p : PendingBlock) (ps : List PendingBlock)
        → Preserves rest
        → (id : ℕ) × (w : W) × ((r.settle p.block id w).0 ≡ true)
        → (answer : Result RunError (Unit {0})) → (answer ≡ ok tt → Finalized p.block_hash)
        → Preserves (after_advance r rest p ps answer)
    unfolding after_advance
    after_advance-Ensures rest p ps k settled (err e) f = Ensures-modify _ (λ _ q. q)
    after_advance-Ensures rest p ps k settled (ok tt) f =
        Ensures-bind
          (Ensures-attempt {Q = λ _ st. Holds P st}
            (Keeps-on_pending P _ (h.clears p (record { settled = settled; finalized = f refl }))))
          λ _.
            Ensures-bind (Ensures-attempt {Q = λ _ st. Holds P st} (persist-Preserves p.height))
              λ _. k

    pub after_settle-Ensures :
        (rest : Step r (Unit {0})) (p : PendingBlock) (ps : List PendingBlock) (settled : Bool)
        → Preserves rest
        → (settled ≡ true → (id : ℕ) × (w : W) × ((r.settle p.block id w).0 ≡ true))
        → Preserves (after_settle r rest p ps settled)
    unfolding after_settle
    after_settle-Ensures rest p ps false k f =
        Ensures-bind (Ensures-modify {Q = λ _ st. Holds P st} _ (λ _ q. q))
          λ _. Ensures-bind (local-Preserves (p ∷ ps)) λ _. Ensures-modify _ (λ _ q. q)
    after_settle-Ensures rest p ps true k f =
        Ensures-bind (Ensures-modify {Q = λ _ st. Holds P st} _ (λ _ q. q)) λ _.
          Ensures-bind_fact
            (Ensures-attempt {Q = λ a st. Holds P st × (a ≡ ok tt → Finalized p.block_hash)} (
              Ensures-weaken (λ _ q. q) (λ _ _ q. (q.0, λ _. q.1)) (λ _ _ q. (q, λ e. ground arith))
                (advance-Ensures p.block_hash)))
            λ answer final. after_advance-Ensures rest p ps k (f refl) answer final
