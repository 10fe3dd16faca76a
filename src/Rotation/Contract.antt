-- ===== src/Rotation/Contract.antt =====
-- move/sources/rotation.move: the authority record on chain. A call returns the new record, or the
-- abort that leaves the object as it was. The sender and the clock are arguments; an addition past
-- the largest u64 aborts, as it does in Move. Events carry no state and are left out.
use podseq.Prelude.{
  ℕ, ◌+◌, Bool, false, ◌&&◌, ◌||◌, Option, none, some, leb, ◌==◌, if◌then◌else◌, u64_max, Result,
  ok, err,
}
use podseq.Rotation.{
  RotationState, PreviousAuthority, PendingRotation, min_delay_ms, max_delay_ms, claim_window_ms,
  prev_grace_ms,
}

pub data Abort : Type 0 where
  not_authorized no_pending not_claim_target claim_too_early claim_window_expired : Abort
  delay_out_of_bounds no_previous ops_mismatch arithmetic : Abort

abbrev pub Call : Type 0
Call = Result Abort RotationState

-- `entomb_ops`: the first record of an object, with its sender in charge.
unfoldable pub entombed : ℕ → RotationState
entombed sender = record { authority = sender; prev = none; pending = none }

prev_can_act : Option PreviousAuthority → ℕ → ℕ → Bool
prev_can_act none now sender = false
prev_can_act (some prev) now sender = prev.addr == sender && leb now prev.until_ms

-- `assert_can_act`, as the test that it asserts.
unfoldable pub can_act : RotationState → ℕ → ℕ → Bool
unfolding prev_can_act
can_act st now sender = (sender == st.authority) || prev_can_act st.prev now sender

-- `bound` says whether the presented `OpsCap` is bound to this object.
unfoldable pub request_rotation_ops : RotationState → ℕ → ℕ → ℕ → Bool → Call
request_rotation_ops st to delay_ms now bound =
    if bound
    then if leb min_delay_ms delay_ms && leb delay_ms max_delay_ms
      then if leb (now + delay_ms) u64_max
        then ok (record st { pending = some (record { to = to; eligible_at_ms = now + delay_ms }) })
        else err arithmetic
      else err delay_out_of_bounds
    else err ops_mismatch

cancel_pending : Option PendingRotation → RotationState → Call
cancel_pending none st = err no_pending
cancel_pending (some _) st = ok (record st { pending = none })

unfoldable pub cancel_rotation : RotationState → ℕ → Call
unfolding cancel_pending
cancel_rotation st sender =
    if sender == st.authority then cancel_pending st.pending st else err not_authorized

-- The record after a claim at `now`.
abbrev pub claimed : RotationState → ℕ → ℕ → RotationState
claimed st now sender = record {
  authority = sender;
  prev = some (record { addr = st.authority; until_ms = now + prev_grace_ms });
  pending = none;
}

claim_pending : Option PendingRotation → RotationState → ℕ → ℕ → Call
claim_pending none st now sender = err no_pending
claim_pending (some pending) st now sender =
    if sender == pending.to
    then if leb pending.eligible_at_ms now
      then if leb (pending.eligible_at_ms + claim_window_ms) u64_max
        then if leb now (pending.eligible_at_ms + claim_window_ms)
          then if leb (now + prev_grace_ms) u64_max
            then ok (claimed st now sender)
            else err arithmetic
          else err claim_window_expired
        else err arithmetic
      else err claim_too_early
    else err not_claim_target

unfoldable pub claim_rotation : RotationState → ℕ → ℕ → Call
unfolding claim_pending
claim_rotation st now sender = claim_pending st.pending st now sender

retire_prev : Option PreviousAuthority → RotationState → Call
retire_prev none st = err no_previous
retire_prev (some _) st = ok (record st { prev = none })

unfoldable pub retire_previous : RotationState → ℕ → Call
unfolding retire_prev
retire_previous st sender =
    if sender == st.authority then retire_prev st.prev st else err not_authorized
