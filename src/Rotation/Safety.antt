-- ===== src/Rotation/Safety.antt =====
-- Which key the process signs with, over every history of rounds, restarts and relayer starts.
use podseq.Prelude.{
  not, ◌&&◌, ◌||◌, Result-cases, ℕ, ◌≡◌, refl, ◌⊎◌, inl, inr, Bool, true, false, none, some, arith,
  is_some, ok, List, [], ◌∷◌,
}
use podseq.Rotation.Guard
use podseq.Rotation.Sinks.{SwapSinks, build_client, start_relayer, relayer_failed, swap_signers}
use podseq.Rotation.Contract.{claim_rotation}
use podseq.Rotation.World.{Chain, World, Tick, poll, boot, claim_both}

-- What can happen to a sequencer process. The chain may be changed by anyone at any time.
pub data Event : Type 0 where
  round : Tick → Event
  restart : Event
  chain_moves : Chain → Event
  relayer_builds relayer_starts relayer_fails : Event

module _ {K : Type 0} (derive_address : K → ℕ) (active : ℕ) (file_key staged : K) where
  abbrev with_sinks : (SwapSinks K → SwapSinks K) → World K → World K
  with_sinks f w = record w { live = record { chain = w.live.chain; sinks = f w.live.sinks } }

  unfoldable pub step : World K → Event → World K
  step w (round t) = poll derive_address active staged t w
  step w restart = boot derive_address file_key w.guard.retire_quiet w.live.chain
  step w (chain_moves c) = record w { live = record { chain = c; sinks = w.live.sinks } }
  step w relayer_builds = with_sinks (build_client file_key) w
  step w relayer_starts = with_sinks start_relayer w
  step w relayer_fails = with_sinks relayer_failed w

  unfoldable pub run : World K → List Event → World K
  run w [] = w
  run w (e ∷ es) = run (step w e) es

  -- The key that the settlement signer holds, and what the watcher published, by the guard's state.
  abbrev pub Signs : World K → Type 0
  Signs w =
      let s = w.live.sinks in
      ((Guard.adopted w.guard ≡ true)
        × (s.adopted_key ≡ some staged)
        × (s.settlement_key ≡ staged)
        × (s.sender ≡ derive_address staged)
        × (s.sender_snapshot ≡ derive_address staged))
      ⊎ ((Guard.adopted w.guard ≡ false)
          × (s.adopted_key ≡ none)
          × (s.settlement_key ≡ file_key)
          × (s.sender ≡ derive_address file_key)
          × (s.sender_snapshot ≡ derive_address file_key))

  poll-Signs : (t : Tick) (w : World K) → Signs w → Signs (poll derive_address active staged t w)
  unfolding poll swap_signers Guard.adopted
  poll-Signs t w h = ground arith

  step-Signs : (w : World K) (e : Event) → Signs w → Signs (step w e)
  unfolding step boot build_client start_relayer relayer_failed Guard.adopted
  step-Signs w (round t) h = poll-Signs t w h
  step-Signs w restart h = ground arith
  step-Signs w (chain_moves c) h = h
  step-Signs w relayer_builds h = h
  step-Signs w relayer_starts h = ground arith
  step-Signs w relayer_fails h = h

  run-Signs : (w : World K) (es : List Event) → Signs w → Signs (run w es)
  unfolding run
  run-Signs w [] h = h
  run-Signs w (e ∷ es) h = run-Signs (step w e) es (step-Signs w e h)

  boot-Signs : (quiet : ℕ) (c : Chain) → Signs (boot derive_address file_key quiet c)
  unfolding boot Guard.adopted
  boot-Signs quiet c = inr (refl, refl, refl, refl, refl)

  -- In every history of a sequencer, whoever changes the chain, the adopted key, the settlement
  -- signer and both published addresses are those of the staged key if the guard says that it was
  -- adopted in this process, and those of the key file otherwise.
  pub run-boot-Signs :
      (quiet : ℕ) (c : Chain) (es : List Event)
      → Signs (run (boot derive_address file_key quiet c) es)
  run-boot-Signs quiet c es =
      run-Signs (boot derive_address file_key quiet c) es (boot-Signs quiet c)

  -- Whether a previous authority of the first chain is gone from the second.
  abbrev pub drops_prev : Chain → Chain → Bool
  drops_prev c d =
      (is_some c.settlement.prev && not (is_some d.settlement.prev))
      || (is_some c.vault.prev && not (is_some d.vault.prev))

  claim_both-drops_prev :
      (c : Chain) (now sender : ℕ) {d : Chain}
      → claim_both c now sender ≡ ok d
      → drops_prev c d ≡ false
  unfolding claim_both claim_rotation
  claim_both-drops_prev c now sender h = ground arith

  poll-drops_prev :
      (t : Tick) (w : World K)
      → Guard.adopted w.guard ≡ false
      → drops_prev w.live.chain (poll derive_address active staged t w).live.chain ≡ false
  unfolding poll
  poll-drops_prev t w h =
      elim (Result-cases (claim_both w.live.chain t.exec_ms (derive_address staged))) [
        | inl (d, e) ↦
            ground (arith, claim_both-drops_prev w.live.chain t.exec_ms (derive_address staged) e)
        | inr (a, e) ↦ ground arith
      ]

  -- In every history, a round after which a previous authority is gone from the Registry or from
  -- the Vault starts in a process whose settlement signer already holds the staged key.
  pub retires-after_swap :
      (quiet : ℕ) (c : Chain) (es : List Event) (t : Tick)
      → let w = run (boot derive_address file_key quiet c) es in
        drops_prev w.live.chain (step w (round t)).live.chain ≡ true
        → w.live.sinks.settlement_key ≡ staged
  unfolding step
  retires-after_swap quiet c es t h = elim (run-boot-Signs quiet c es) [
    | inl s ↦ s.2
    | inr s ↦ cc (poll-drops_prev t (run (boot derive_address file_key quiet c) es) s.0)
  ]
