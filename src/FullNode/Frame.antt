-- ===== src/FullNode/Frame.antt =====
-- What the calls outside leave as it was: a condition on the node's own state.
use podseq.Prelude.{◌≡◌, refl, Result, ok, err}
use podseq.Call.{Call}
use podseq.Call.Ensures.{Ensures, Post, Keeps, Ensures-modify}
use podseq.Store.Disk.{Disk}
use podseq.FullNode.{NodeState, State, on_world, on_disk, on_node, polled}

-- The call gave this answer, from some state of the world.
abbrev pub Answered : {W E A : Type 0} → Call W E A → A → Type 0
Answered {W} m a = (w : W) × (w' : W) × (m w ≡ (ok a, w'))

module _ {W E A : Type 0} (P : NodeState → Type 0) where
  world-Post :
      (m : Call W E A) (st : State W) (r : Result E A × W)
      → m st.world ≡ r
      → P st.node
      → Post {S = State W} (λ a s. P s.node × Answered m a) (λ _ s. P s.node) (on_world (λ _. r) st)
  unfolding on_world
  world-Post m st (ok a, w) e p = (p, (st.world, w, e))
  world-Post m st (err x, w) e p = p

  pub Ensures-on_world :
      (m : Call W E A)
      → Ensures
          (λ (st : State W). P st.node)
          (on_world m)
          (λ a st. P st.node × Answered m a)
          (λ _ st. P st.node)
  unfolding on_world
  Ensures-on_world m = record { holds = λ st p. world-Post m st (m st.world) refl p }

  disk-Post :
      (st : State W) (r : Result E A × Disk)
      → P st.node
      → Post {S = State W} (λ _ s. P s.node) (λ _ s. P s.node) (on_disk (λ _. r) st)
  unfolding on_disk
  disk-Post st (ok a, d) p = p
  disk-Post st (err x, d) p = p

  pub Keeps-on_disk :
      (m : Disk → Result E A × Disk) → Keeps (λ (st : State W). P st.node) (on_disk m)
  unfolding on_disk
  Keeps-on_disk m = record { holds = λ st p. disk-Post st (m st.disk) p }

module _ {W E A : Type 0} (P : NodeState → Type 0) where
  pub Keeps-polled : (m : W → A × W) → Keeps {E = E} (λ (st : State W). P st.node) (polled m)
  unfolding polled
  Keeps-polled m = record { holds = λ st p. p }

module _ {W E : Type 0} (P Q : NodeState → Type 0) {R : E → State W → Type 0} where
  pub Ensures-on_node :
      (f : NodeState → NodeState)
      → ((n : NodeState) → P n → Q (f n))
      → Ensures (λ (st : State W). P st.node) (on_node f) (λ _ st. Q st.node) R
  unfolding on_node
  Ensures-on_node f h = Ensures-modify _ (λ st p. h st.node p)
