-- ===== src/Rotation/Tests.antt =====
-- Runs and instances of the rotation's theorems.
use podseq.Prelude.{ℕ, ◌≡◌, ◌↔◌, refl, true, none, some, arith, ok, List, [], ◌∷◌}
use podseq.Rotation.{RotationState, waiting_claim, claim_ready, idle, claim, derive_role, plan}
use podseq.Rotation.Contract.{claim_rotation, claimed, retire_previous}
use podseq.Rotation.Roles.{NoOverflow, claim_ready-iff-claim}
use podseq.Rotation.Sinks.{Relayer, SwapSinks, swap_signers}
use podseq.Rotation.World.{Chain, Tick, confirmed, poll, boot, claim_both, retire_both}
use podseq.Rotation.Safety.{
  Event, round, run, Signs, drops_prev, step, run-boot-Signs, retires-after_swap,
}
use podseq.Rotation.Converge.{IsGood, BothRotated, Round2, cleared_both, finish, converge}
use podseq.Rotation.Guard
use podseq.Rotation.Guard.{retire_ready}

abbrev requested : RotationState
requested = record {
  authority = 1;
  prev = none;
  pending = some (record { to = 2; eligible_at_ms = 1000 });
}

abbrev handed_over : RotationState
handed_over = record {
  authority = 2;
  prev = some (record { addr = 1; until_ms = 602000 });
  pending = none;
}

role_waits : derive_role requested 999 1 2 ≡ waiting_claim 1000
unfolding derive_role
role_waits = refl

requested-NoOverflow : NoOverflow requested 2000
requested-NoOverflow = record { grace = omega arith; window = omega arith }

claim_ready-iff-claim_example : (derive_role requested 2000 1 2 ≡ claim_ready) ↔ (
    (requested.authority ≡ 1) × (claim_rotation requested 2000 2 ≡ ok (claimed requested 2000 2)))
claim_ready-iff-claim_example =
    claim_ready-iff-claim requested 2000 1 2 requested-NoOverflow (omega arith)

claim_planned : plan requested requested 2000 1 2 ≡ claim
unfolding plan derive_role
claim_planned = refl

-- A key is its own address.
abbrev address : ℕ → ℕ
address k = k

abbrev fresh : SwapSinks ℕ
fresh = record {
  adopted_key = none;
  settlement_key = 1;
  sender = 1;
  sender_snapshot = 1;
  sui_bridge = none;
  building = none;
  relayer = Relayer.down;
}

abbrev claimable : Chain
claimable = record { settlement = requested; vault = requested }

abbrev both_handed_over : Chain
both_handed_over = record { settlement = handed_over; vault = handed_over }

abbrev tick : ℕ → ℕ → Tick
tick now instant = record {
  now_ms = now;
  exec_ms = now;
  instant = instant;
  delivery = confirmed;
  readable = true;
}

tick-IsGood : (now instant : ℕ) → IsGood (tick now instant)
tick-IsGood now instant = record { reads = refl; runs = refl; prompt = refl }

abbrev history : List Event
history = round (tick 2000 0) ∷ round (tick 3000 1) ∷ []

run-boot-Signs_example :
    Signs address 1 1 2 (run address 1 1 2 (boot address 1 30 claimable) history)
run-boot-Signs_example = run-boot-Signs address 1 1 2 30 claimable history

retires_now :
    drops_prev address 1 1 2
      (run address 1 1 2 (boot address 1 30 claimable) history).live.chain
      (step address 1 1 2
        (run address 1 1 2 (boot address 1 30 claimable) history)
        (round (tick 4000 31))).live.chain
    ≡ true
unfolding run step boot poll claim_both retire_both claim_rotation retire_previous plan derive_role
    Guard.adopted retire_ready swap_signers
retires_now = refl

retires-after_swap_example :
    (run address 1 1 2 (boot address 1 30 claimable) history).live.sinks.settlement_key ≡ 2
retires-after_swap_example =
    retires-after_swap address 1 1 2 30 claimable history (tick 4000 31) retires_now

handed_over-Rotated : BothRotated 1 2 602000 both_handed_over
handed_over-Rotated = record {
  registry = record { in_charge = refl; before = refl };
  safe = record { in_charge = refl; before = refl };
}

finish_example :
    let w' = Round2 address 1 2 (tick 3000 0) (tick 4000 30) (boot address 1 30 both_handed_over) in
    (w'.live.chain ≡ cleared_both both_handed_over)
    × (Guard.adopted w'.guard ≡ true)
    × (plan w'.live.chain.settlement w'.live.chain.vault 5000 1 2 ≡ idle)
unfolding boot
finish_example =
    finish address 1 2 (tick 3000 0) (tick 4000 30) 602000 5000 (boot address 1 30 both_handed_over)
      (tick-IsGood 3000 0) (tick-IsGood 4000 30) handed_over-Rotated tt (omega arith)

converge_example :
    let w' =
      Round2 address 1 2
        (tick 3000 0)
        (tick 4000 30)
        (poll address 1 2 (tick 2000 0) (boot address 1 30 claimable)) in
    let settled : RotationState = record { authority = 2; prev = none; pending = none } in
    (w'.live.chain ≡ record { settlement = settled; vault = settled })
    × (Guard.adopted w'.guard ≡ true)
    × (plan w'.live.chain.settlement w'.live.chain.vault 5000 1 2 ≡ idle)
unfolding boot
converge_example =
    converge address 1 2 (tick 2000 0) (tick 3000 0) (tick 4000 30) 5000
      (boot address 1 30 claimable) (tick-IsGood 2000 0) (tick-IsGood 3000 0) (tick-IsGood 4000 30)
      (omega arith) requested-NoOverflow requested-NoOverflow claim_planned tt (omega arith)
