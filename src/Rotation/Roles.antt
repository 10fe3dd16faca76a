-- ===== src/Rotation/Roles.antt =====
-- The role that the node derives agrees with what the contract in rotation.move lets each key do.
use podseq.Prelude.{ℕ, ◌+◌, ◌≤◌, ◌≡◌, ◌≢◌, ◌↔◌, true, false, Option, none, some, arith, u64_max, ok}
use podseq.Rotation.{
  RotationState, PreviousAuthority, PendingRotation, claim_ready, adopt, staged_is_authority,
  derive_role, claim_window_ms, prev_grace_ms,
}
use podseq.Rotation.Contract.{can_act, claim_rotation, claimed}

abbrev pub WindowFits : Option PendingRotation → Type 0
WindowFits none = Unit {0}
WindowFits (some p) = p.eligible_at_ms + claim_window_ms ≤ u64_max

-- No clock reading or timelock of this size makes an addition of the contract overflow.
pub record NoOverflow (st : RotationState) (now : ℕ) : Type 0 where
  pub grace : now + prev_grace_ms ≤ u64_max
  pub window : WindowFits st.pending

-- While a key other than the staged one is in charge, the role is `claim_ready` exactly when the
-- configured key is the authority and the contract accepts a claim by the staged key.
pub claim_ready-iff-claim :
    (st : RotationState) (now active_addr staged : ℕ)
    → NoOverflow st now
    → st.authority ≢ staged
    → (derive_role st now active_addr staged ≡ claim_ready)
      ↔ ((st.authority ≡ active_addr) × (claim_rotation st now staged ≡ ok (claimed st now staged)))
unfolding derive_role claim_rotation
claim_ready-iff-claim st now a s v h = (λ e. (ground arith, ground arith), λ e. ground arith)

abbrev pub grace_end : Option PreviousAuthority → ℕ
grace_end none = 0
grace_end (some prev) = prev.until_ms

-- Under a staged authority other than the configured key, the role is `adopt`, with the grace
-- deadline that is on chain, exactly when the contract still lets the configured key act, and
-- `staged_is_authority` exactly when the contract refuses it.
pub adopt-iff-can_act :
    (st : RotationState) (now active_addr staged : ℕ)
    → st.authority ≡ staged
    → active_addr ≢ staged
    → ((derive_role st now active_addr staged ≡ adopt (grace_end st.prev))
        ↔ (can_act st now active_addr ≡ true))
      × ((derive_role st now active_addr staged ≡ staged_is_authority)
          ↔ (can_act st now active_addr ≡ false))
unfolding derive_role can_act
adopt-iff-can_act st now a s e h =
    ((λ k. ground arith, λ k. ground arith), (λ k. ground arith, λ k. ground arith))
