-- ===== src/Runner/Frame.antt =====
-- What the calls of crates/node/src/runner.rs do to a condition on the chain state and the pending
-- store, which the other parts of the state do not enter.
use podseq.Prelude.{◌≡◌, refl, Result, ok, err}
use podseq.Call.{Call, focus}
use podseq.Call.Ensures.{Ensures, Post, Keeps, Ensures-modify, Ensures-weaken, Ensures-answer}
use podseq.Store.Disk.{Disk}
use podseq.Store.Blocks.{Dir}
use podseq.Runner.{
  ChainState, State, on_world, polled, on_blocks, on_state_disk, on_pending, on_chain,
}

abbrev pub Condition : Type 1
Condition = ChainState → Disk → Type 0

-- The condition, of a whole state.
abbrev pub Holds : {W : Type 0} → Condition → State W → Type 0
Holds P st = P st.chain st.pending_disk

module _ {W E A : Type 0} (P : Condition) where
  world-Post :
      (G : A → W → Type 0) (st : State W) (r : Result E A × W)
      → Post G (λ _ _. Unit {0}) r
      → Holds P st
      → Post {S = State W}
          (λ a s. Holds P s × ((w : W) × G a w))
          (λ _ s. Holds P s)
          (on_world (λ _. r) st)
  unfolding on_world focus
  world-Post G st (ok a, w) g p = (p, (w, g))
  world-Post G st (err x, w) g p = p

  -- What a call of the world ensures is a fact of its value.
  pub Ensures-on_world :
      {m : Call W E A} {G : A → W → Type 0}
      → Ensures (λ _. Unit {0}) m G (λ _ _. Unit {0})
      → Ensures {S = State W}
          (Holds P)
          (on_world m)
          (λ a st. Holds P st × ((w : W) × G a w))
          (λ _ st. Holds P st)
  unfolding on_world focus
  Ensures-on_world {m} {G} h = record {
    holds = λ st p. world-Post G st (m st.world) (h.holds st.world tt) p;
  }

  pub Keeps-on_world : (m : Call W E A) → Keeps {S = State W} (Holds P) (on_world m)
  Keeps-on_world m =
      Ensures-weaken (λ _ p. p) (λ _ _ q. q.0) (λ _ _ q. q) (Ensures-on_world (Ensures-answer m))

  dir-Post :
      (st : State W) (r : Result E A × Dir)
      → Holds P st
      → Post {S = State W} (λ _ s. Holds P s) (λ _ s. Holds P s) (on_blocks (λ _. r) st)
  unfolding on_blocks focus
  dir-Post st (ok a, d) p = p
  dir-Post st (err x, d) p = p

  pub Keeps-on_blocks : (m : Call Dir E A) → Keeps {S = State W} (Holds P) (on_blocks m)
  unfolding on_blocks focus
  Keeps-on_blocks m = record { holds = λ st p. dir-Post st (m st.blocks) p }

  state-Post :
      (st : State W) (r : Result E A × Disk)
      → Holds P st
      → Post {S = State W} (λ _ s. Holds P s) (λ _ s. Holds P s) (on_state_disk (λ _. r) st)
  unfolding on_state_disk focus
  state-Post st (ok a, d) p = p
  state-Post st (err x, d) p = p

  pub Keeps-on_state_disk : (m : Call Disk E A) → Keeps {S = State W} (Holds P) (on_state_disk m)
  unfolding on_state_disk focus
  Keeps-on_state_disk m = record { holds = λ st p. state-Post st (m st.state_disk) p }

  pending-Post :
      (st : State W) (r : Result E A × Disk)
      → P st.chain r.1
      → Post {S = State W} (λ _ s. Holds P s) (λ _ s. Holds P s) (on_pending (λ _. r) st)
  unfolding on_pending focus
  pending-Post st (ok a, d) p = p
  pending-Post st (err x, d) p = p

  pub Keeps-on_pending :
      (m : Call Disk E A)
      → ((s : ChainState) (d : Disk) → P s d → P s (m d).1)
      → Keeps {S = State W} (Holds P) (on_pending m)
  unfolding on_pending focus
  Keeps-on_pending m h = record {
    holds = λ st p. pending-Post st (m st.pending_disk) (h st.chain st.pending_disk p);
  }

module _ {W E A : Type 0} (P : Condition) where
  -- The answer of a call that cannot fail.
  pub Ensures-polled :
      (m : W → A × W)
      → Ensures {S = State W} {E = E}
          (Holds P)
          (polled m)
          (λ a st. Holds P st × ((w : W) × ((m w).0 ≡ a)))
          (λ _ st. Holds P st)
  unfolding polled on_world focus
  Ensures-polled m = record { holds = λ st p. (p, (st.world, refl)) }

module _ {W E : Type 0} (P : Condition) where
  pub Keeps-on_chain :
      (f : ChainState → ChainState)
      → ((s : ChainState) (d : Disk) → P s d → P (f s) d)
      → Keeps {S = State W} {E = E} (Holds P) (on_chain f)
  unfolding on_chain
  Keeps-on_chain f h = Ensures-modify _ (λ st p. h st.chain st.pending_disk p)
