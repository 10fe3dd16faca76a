-- ===== src/Runner/Markers.antt =====
-- What a run of crates/node/src/runner.rs does to the pending markers and to the fork choice.
use podseq.Prelude.{ℕ, ◌≡◌, refl, ◌⊎◌, inl, inr, List, Result, ok, err}
use podseq.Core.Octets.{Bytes}
use podseq.Engine.{forkchoice, ExecutionPayload}
use podseq.Engine.Confirmed.{Accepted}
use podseq.Store.Disk.{StoreError, Disk}
use podseq.Store.Pending.{mark, clear}
use podseq.Runner.{PendingBlock, ChainState, State, Runner}
use podseq.Runner.Keeps.{Done, Finalized}
use podseq.Runner.Loop.{Event, run}
use podseq.Runner.Events.{run-Closed}
use podseq.Runner.Recovery.Requeues.{answers, lost, clear_each}

module _ {W : Type 0} (r : Runner W) where
  -- The changes of the pending store: a marker that is set, or that of a block which is settled and
  -- final is cleared.
  pub data Marked (d : Disk) : Disk → Type 0 where
    unchanged : Marked d d
    marked : (h : ℕ) (d' : Disk) → Marked d d' → Marked d (mark r.heights_codec h d').1
    cleared :
        (p : PendingBlock) (d' : Disk)
        → Done r p
        → Marked d d'
        → Marked d (clear r.heights_codec p.height d').1

  -- The events clear a pending marker only for a block that is settled and final.
  pub run-Marked :
      (attempts : ℕ) (es : List Event) (st : State W)
      → Marked st.pending_disk (run r attempts es st).pending_disk
  run-Marked attempts es st =
      run-Closed r (λ _ d. Marked st.pending_disk d)
        (record {
          heads = λ payload hash safe finalized timestamp w accepted s d p. p;
          finals = λ hash confirmed s d p. p;
          marks = λ h s d p. marked h d p;
          clears = λ b done s d p. cleared b d done p;
        })
        attempts es st unchanged

  module _ (decode_payload : Bytes → Result (Unit {0}) ExecutionPayload) where
    -- By what the pending store answers at the start.
    abbrev pub ServeMarked : State W → Result StoreError (List ℕ) × Disk → Disk → Type 0
    ServeMarked st (ok heights, d) d' =
        Marked
          (clear_each r decode_payload
            (lost r decode_payload (answers r decode_payload heights st.blocks)) d)
          d'
    ServeMarked st (err e, d) d' = Marked d d'

  -- The head is a payload that the client accepted, or that of the start; the safe and finalized
  -- hashes are those of the start, or one hash that the client confirmed as both.
  pub record Confirmations (s0 s : ChainState) : Type 0 where
    pub head :
        (s.head ≡ s0.head)
        ⊎ ((payload : ExecutionPayload) × (safe : ℕ) × (finalized : ℕ) × (w : W) × Accepted r.engine
              payload
              (forkchoice s.head safe finalized)
              w)
    pub final :
        ((s.safe ≡ s0.safe) × (s.finalized ≡ s0.finalized))
        ⊎ ((s.safe ≡ s.finalized) × Finalized r s.finalized)

  -- After any run the sequencer's head was accepted by the client, and its safe and finalized hashes
  -- were confirmed by it, unless they are those of the start.
  pub run-Confirmations :
      (attempts : ℕ) (es : List Event) (st : State W)
      → Confirmations st.chain (run r attempts es st).chain
  run-Confirmations attempts es st =
      run-Closed r (λ s _. Confirmations st.chain s)
        (record {
          heads = λ payload hash safe finalized timestamp w accepted s d p. record {
            head = inr (payload, safe, finalized, w, accepted);
            final = p.final;
          };
          finals = λ hash confirmed s d p. record { head = p.head; final = inr (refl, confirmed) };
          marks = λ h s d p. p;
          clears = λ b done s d p. p;
        })
        attempts es st (record { head = inl refl; final = inl (refl, refl) })
