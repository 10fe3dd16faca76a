-- ===== src/Rotation/Plans.antt =====
-- What the plan promises of the transactions that it asks for, and how the plans follow one another.
use podseq.Prelude.{
  ℕ, ◌+◌, ◌≡◌, ◌≢◌, ◌↔◌, Bool, true, false, none, arith, leb, if◌then◌else◌, is_some, ok,
}
use podseq.Rotation.{
  RotationState, Role, Plan, active, waiting_claim, claim_ready, staged_is_authority, idle, claim,
  retire, derive_role, plan, prev_grace_ms,
}
use podseq.Rotation.Contract.{claim_rotation, claimed, retire_previous}
use podseq.Rotation.Roles.{NoOverflow}

-- Both claims of a `claim` plan are accepted by the contract at the time of the read, and the plan
-- computed from the two new records is `adopt` until the grace ends and `retire` from then on.
pub plan-claim :
    (s v : RotationState) (now later active_addr staged : ℕ)
    → active_addr ≢ staged
    → NoOverflow s now
    → NoOverflow v now
    → plan s v now active_addr staged ≡ claim
    → (claim_rotation s now staged ≡ ok (claimed s now staged))
      × (claim_rotation v now staged ≡ ok (claimed v now staged))
      × (plan (claimed s now staged) (claimed v now staged) later active_addr staged
          ≡ (if leb later (now + prev_grace_ms) then Plan.adopt else retire))
unfolding plan derive_role claim_rotation
plan-claim s v now later a b h f g e = (ground arith, ground arith, ground arith)

abbrev pub cleared : RotationState → RotationState
cleared st = record st { prev = none }

-- Under a `retire` plan the contract accepts the retirement of each object exactly when a previous
-- record remains on it, and the plan computed from both cleared records is idle at any time.
pub plan-retire :
    (s v : RotationState) (now later active_addr staged : ℕ)
    → plan s v now active_addr staged ≡ retire
    → ((retire_previous s staged ≡ ok (cleared s)) ↔ (is_some s.prev ≡ true))
      × ((retire_previous v staged ≡ ok (cleared v)) ↔ (is_some v.prev ≡ true))
      × (plan (cleared s) (cleared v) later active_addr staged ≡ idle)
unfolding plan derive_role retire_previous
plan-retire s v now later a b e =
    ((λ k. ground arith, λ k. ground arith), (λ k. ground arith, λ k. ground arith), ground arith)

-- Two roles of one kind, whatever deadlines they carry.
abbrev pub same_kind : Role → Role → Bool
same_kind active active = true
same_kind (waiting_claim _) (waiting_claim _) = true
same_kind claim_ready claim_ready = true
same_kind (Role.adopt _) (Role.adopt _) = true
same_kind staged_is_authority staged_is_authority = true
same_kind _ _ = false

-- The plan refuses exactly when the roles of the two objects differ in kind or match neither key.
pub plan-misconfigured :
    (s v : RotationState) (now active_addr staged : ℕ)
    → (plan s v now active_addr staged ≡ Plan.misconfigured) ↔ (
        same_kind (derive_role s now active_addr staged) (derive_role v now active_addr staged)
        ≡ false)
unfolding plan
plan-misconfigured s v now a b = (λ k. ground arith, λ k. ground arith)
