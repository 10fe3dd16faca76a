-- ===== src/Rotation/Converge.antt =====
-- How a rotation ends: from a claimable request three good rounds hand both objects over to the
-- staged key, and from a claim on, whatever restarts lie between, two good rounds do.
use podseq.Prelude.{
  Bool-cases, ap, ℕ, ◌+◌, ◌≤◌, ◌≡◌, refl, ◌≢◌, inl, inr, true, false, Option, none, some, arith,
  leb, ok, if◌then◌else◌, ◌∙◌,
}
use podseq.Rotation.{RotationState, Plan, plan, derive_role, claim, retire, idle, prev_grace_ms}
use podseq.Rotation.Guard
use podseq.Rotation.Guard.{retire_ready}
use podseq.Rotation.Contract.{claimed, retire_previous}
use podseq.Rotation.Roles.{NoOverflow}
use podseq.Rotation.Plans.{cleared, plan-claim}
use podseq.Rotation.Sinks.{swap_signers}
use podseq.Rotation.World.{Chain, World, Tick, confirmed, poll, claim_both, retire_both}

-- A round whose read succeeds and whose transaction is confirmed at the time of the read.
pub record IsGood (t : Tick) : Type 0 where
  pub reads : t.readable ≡ true
  pub runs : t.delivery ≡ confirmed
  pub prompt : t.exec_ms ≡ t.now_ms

abbrev pub cleared_both : Chain → Chain
cleared_both c = record { settlement = cleared c.settlement; vault = cleared c.vault }

-- `sender` is in charge of the object, and the key `old` before it until `until`.
pub record Rotated (old sender until : ℕ) (st : RotationState) : Type 0 where
  pub in_charge : st.authority ≡ sender
  pub before : st.prev ≡ some (record { addr = old; until_ms = until })

pub record BothRotated (old sender until : ℕ) (c : Chain) : Type 0 where
  pub registry : Rotated old sender until c.settlement
  pub safe : Rotated old sender until c.vault

plan-Rotated :
    (c : Chain) (now old sender until : ℕ)
    → BothRotated old sender until c
    → plan c.settlement c.vault now old sender ≡ (if leb now until then Plan.adopt else retire)
unfolding plan derive_role
plan-Rotated c now old sender until h = ground arith

retire_both-Rotated :
    (c : Chain) (old sender until : ℕ)
    → BothRotated old sender until c
    → retire_both c sender ≡ ok (cleared_both c)
unfolding retire_both retire_previous
retire_both-Rotated c old sender until h = ground arith

plan-cleared :
    (c : Chain) (now old sender until : ℕ)
    → BothRotated old sender until c
    → plan (cleared c.settlement) (cleared c.vault) now old sender ≡ idle
unfolding plan derive_role
plan-cleared c now old sender until h = ground arith

module _ {K : Type 0} (derive_address : K → ℕ) (active : ℕ) (staged : K) where
  -- The world after both retirements: the guard says adopted and the plan is idle from now on.
  pub record Finished (c : Chain) (w : World K) : Type 0 where
    pub chain_cleared : w.live.chain ≡ cleared_both c
    pub swapped : Guard.adopted w.guard ≡ true

  module _ (t : Tick) (good : IsGood t) (until : ℕ) (w : World K)
      (rotated : BothRotated active (derive_address staged) until w.live.chain) where
    poll_first :
        Guard.adopted w.guard ≡ false
        → poll derive_address active staged t w ≡ record {
          live = record {
            chain = w.live.chain;
            sinks = swap_signers derive_address staged w.live.sinks;
          };
          guard = record { adopted_at = some t.instant; retire_quiet = w.guard.retire_quiet };
        }
    unfolding poll swap_signers
    poll_first h =
        ground
          (arith, plan-Rotated w.live.chain t.now_ms active (derive_address staged) until rotated)

    poll_ready :
        Guard.adopted w.guard ≡ true
        → retire_ready t.instant w.guard ≡ true
        → poll derive_address active staged t w ≡ record {
          live = record { chain = cleared_both w.live.chain; sinks = w.live.sinks };
          guard = w.guard;
        }
    unfolding poll
    poll_ready h r = ground (
      arith,
      plan-Rotated w.live.chain t.now_ms active (derive_address staged) until rotated,
      retire_both-Rotated w.live.chain active (derive_address staged) until rotated,
    )

    poll_early :
        Guard.adopted w.guard ≡ true
        → retire_ready t.instant w.guard ≡ false
        → poll derive_address active staged t w ≡ (
            if leb t.now_ms until then w else record {
              live = record { chain = cleared_both w.live.chain; sinks = w.live.sinks };
              guard = w.guard;
            })
    unfolding poll
    poll_early h r = ground (
      arith,
      plan-Rotated w.live.chain t.now_ms active (derive_address staged) until rotated,
      retire_both-Rotated w.live.chain active (derive_address staged) until rotated,
    )

  -- Nothing happens in a round whose plan is idle.
  poll-idle :
      (t : Tick) (w : World K)
      → plan w.live.chain.settlement w.live.chain.vault t.now_ms active (derive_address staged)
        ≡ idle
      → poll derive_address active staged t w ≡ w
  unfolding poll
  poll-idle t w h = ground arith

  -- The guard is new, or was marked no later than the time `at` of this process's clock.
  abbrev pub Marked : Option ℕ → ℕ → Type 0
  Marked none at = Unit {0}
  Marked (some a) at = a ≤ at

  ready-Marked :
      (g : Guard.AdoptionGuard) (at later : ℕ)
      → Guard.adopted g ≡ true
      → Marked g.adopted_at at
      → at + g.retire_quiet ≤ later
      → retire_ready later g ≡ true
  unfolding Guard.adopted retire_ready
  ready-Marked g at later h m q = ground arith

  abbrev pub Round2 : Tick → Tick → World K → World K
  Round2 t u w = poll derive_address active staged u (poll derive_address active staged t w)

  -- The two rounds from a guard that is already marked.
  finish-Marked :
      (t u : Tick) (until : ℕ) (w : World K)
      → IsGood t
      → IsGood u
      → BothRotated active (derive_address staged) until w.live.chain
      → Guard.adopted w.guard ≡ true
      → Marked w.guard.adopted_at t.instant
      → t.instant + w.guard.retire_quiet ≤ u.instant
      → Round2 t u w ≡ record {
        live = record { chain = cleared_both w.live.chain; sinks = w.live.sinks };
        guard = w.guard;
      }
  finish-Marked t u until w gt gu r h m q = elim (Bool-cases (retire_ready t.instant w.guard)) [
    | inl now ↦
        ap (poll derive_address active staged u) (poll_ready t gt until w r h now)
        ∙ poll-idle u _ (plan-cleared w.live.chain u.now_ms active (derive_address staged) until r)
    | inr early ↦ elim (Bool-cases (leb t.now_ms until)) [
      | inl grace ↦
          ap (poll derive_address active staged u) (poll_early t gt until w r h early ∙ rw grace)
          ∙ poll_ready u gu until w r h (ready-Marked w.guard t.instant u.instant h m q)
      | inr past ↦
          ap (poll derive_address active staged u) (poll_early t gt until w r h early ∙ rw past)
          ∙ poll-idle u _
              (plan-cleared w.live.chain u.now_ms active (derive_address staged) until r)
    ]
  ]

  finish_new :
      (t u : Tick) (until : ℕ) (w : World K)
      → IsGood t
      → IsGood u
      → BothRotated active (derive_address staged) until w.live.chain
      → Guard.adopted w.guard ≡ false
      → t.instant + w.guard.retire_quiet ≤ u.instant
      → Round2 t u w ≡ record {
        live = record {
          chain = cleared_both w.live.chain;
          sinks = swap_signers derive_address staged w.live.sinks;
        };
        guard = record { adopted_at = some t.instant; retire_quiet = w.guard.retire_quiet };
      }
  unfolding Guard.adopted retire_ready
  finish_new t u until w gt gu r h q =
      ap (poll derive_address active staged u) (poll_first t gt until w r h)
      ∙ poll_ready u gu until _ r refl (ground arith)

  -- From a chain on which both objects were claimed, in whatever process and however far it had
  -- come, two good rounds that are a quiet interval apart remove both previous authorities; the
  -- process has then adopted the staged key, and the plan is idle from then on.
  pub finish :
      (t u : Tick) (until later : ℕ) (w : World K)
      → IsGood t
      → IsGood u
      → BothRotated active (derive_address staged) until w.live.chain
      → Marked w.guard.adopted_at t.instant
      → t.instant + w.guard.retire_quiet ≤ u.instant
      → let w' = Round2 t u w in
        (w'.live.chain ≡ cleared_both w.live.chain)
        × (Guard.adopted w'.guard ≡ true)
        × (plan w'.live.chain.settlement w'.live.chain.vault later active (derive_address staged)
            ≡ idle)
  unfolding Guard.adopted
  finish t u until later w gt gu r m q =
      let idle_after = plan-cleared w.live.chain later active (derive_address staged) until r in
      elim (Bool-cases (Guard.adopted w.guard)) [
        | inl h ↦ rw (finish-Marked t u until w gt gu r h m q) (refl, h, idle_after)
        | inr h ↦ rw (finish_new t u until w gt gu r h q) (refl, refl, idle_after)
      ]

  -- The claim round.
  poll-claim :
      (t : Tick) (w : World K)
      → IsGood t
      → active ≢ derive_address staged
      → NoOverflow w.live.chain.settlement t.now_ms
      → NoOverflow w.live.chain.vault t.now_ms
      → plan w.live.chain.settlement w.live.chain.vault t.now_ms active (derive_address staged)
        ≡ claim
      → poll derive_address active staged t w ≡ record {
        live = record {
          chain = record {
            settlement = claimed w.live.chain.settlement t.now_ms (derive_address staged);
            vault = claimed w.live.chain.vault t.now_ms (derive_address staged);
          };
          sinks = w.live.sinks;
        };
        guard = w.guard;
      }
  unfolding poll claim_both
  poll-claim t w g ne f k h =
      let p =
        plan-claim w.live.chain.settlement w.live.chain.vault t.now_ms 0 active
          (derive_address staged) ne f k h in
      ground arith

  claimed-Rotated :
      (c : Chain) (now : ℕ)
      → plan c.settlement c.vault now active (derive_address staged) ≡ claim
      → BothRotated active (derive_address staged) (now + prev_grace_ms) (record {
        settlement = claimed c.settlement now (derive_address staged);
        vault = claimed c.vault now (derive_address staged);
      })
  unfolding plan derive_role
  claimed-Rotated c now h = ground arith

  -- From a claimable request three good rounds, the last two a quiet interval apart, make the staged
  -- key the only authority of both objects, with no request left; the process has adopted the key,
  -- and the plan is idle from then on.
  pub converge :
      (r t u : Tick) (later : ℕ) (w : World K)
      → IsGood r
      → IsGood t
      → IsGood u
      → active ≢ derive_address staged
      → NoOverflow w.live.chain.settlement r.now_ms
      → NoOverflow w.live.chain.vault r.now_ms
      → plan w.live.chain.settlement w.live.chain.vault r.now_ms active (derive_address staged)
        ≡ claim
      → Marked w.guard.adopted_at t.instant
      → t.instant + w.guard.retire_quiet ≤ u.instant
      → let w' = Round2 t u (poll derive_address active staged r w) in
        let settled : RotationState = record {
          authority = derive_address staged;
          prev = none;
          pending = none;
        } in
        (w'.live.chain ≡ record { settlement = settled; vault = settled })
        × (Guard.adopted w'.guard ≡ true)
        × (plan w'.live.chain.settlement w'.live.chain.vault later active (derive_address staged)
            ≡ idle)
  converge r t u later w gr gt gu ne f k h m q = rw (poll-claim r w gr ne f k h) (
      finish t u (r.now_ms + prev_grace_ms) later _ gt gu (claimed-Rotated w.live.chain r.now_ms h)
        m q)
