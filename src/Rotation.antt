-- ===== src/Rotation.antt =====
-- crates/sui/src/rotation.rs, the read model: the authority record of one guarded object, the
-- role that the node derives from it, and the plan folded from both objects. An address is the
-- number that its 32 bytes spell; only equality of addresses is used.
pub mod Contract
pub mod Guard
pub mod Apply
pub mod Sinks
pub mod World
pub mod Watcher
mod Migration
mod MigrationTests
mod Roles
mod Plans
mod Relayers
mod Converge
mod Safety
mod Tests
use podseq.Prelude.{
  ℕ, Bool, ◌&&◌, ◌||◌, Option, none, some, leb, ltb, ◌==◌, if◌then◌else◌, is_some, saturating_add,
  Result, ok, err,
}

abbrev pub min_delay_ms : ℕ
min_delay_ms = 600000

abbrev pub max_delay_ms : ℕ
max_delay_ms = 604800000

abbrev pub claim_window_ms : ℕ
claim_window_ms = 604800000

abbrev pub prev_grace_ms : ℕ
prev_grace_ms = 600000

pub record PreviousAuthority : Type 0 where
  pub addr : ℕ
  pub until_ms : ℕ

pub record PendingRotation : Type 0 where
  pub to : ℕ
  pub eligible_at_ms : ℕ

pub record RotationState : Type 0 where
  pub authority : ℕ
  pub prev : Option PreviousAuthority
  pub pending : Option PendingRotation

pub data Role : Type 0 where
  active : Role
  waiting_claim : ℕ → Role
  claim_ready : Role
  adopt : ℕ → Role
  staged_is_authority : Role
  misconfigured : Role

-- The role while the staged key is the authority.
staged_role : Option PreviousAuthority → ℕ → ℕ → Role
staged_role none now_ms active_addr = staged_is_authority
staged_role (some prev) now_ms active_addr =
    if prev.addr == active_addr && leb now_ms prev.until_ms
    then adopt prev.until_ms
    else staged_is_authority

-- The role while the configured signer key is the authority.
active_role : Option PendingRotation → ℕ → ℕ → Role
active_role none now_ms staged = active
active_role (some pending) now_ms staged =
    if pending.to == staged
    then if ltb now_ms pending.eligible_at_ms
      then waiting_claim pending.eligible_at_ms
      else if leb now_ms (saturating_add pending.eligible_at_ms claim_window_ms)
      then claim_ready
      else active
    else active

unfoldable pub derive_role : RotationState → ℕ → ℕ → ℕ → Role
unfolding staged_role active_role
derive_role state now_ms active_addr staged =
    if state.authority == staged
    then staged_role state.prev now_ms active_addr
    else if state.authority == active_addr
    then active_role state.pending now_ms staged
    else misconfigured

pub data Plan : Type 0 where
  idle claim adopt retire misconfigured : Plan

-- The `match` on both roles; `prev_remains` is the test of its guarded arm.
unfoldable pub fold_roles : Bool → Role → Role → Plan
fold_roles prev_remains misconfigured _ = Plan.misconfigured
fold_roles prev_remains _ misconfigured = Plan.misconfigured
fold_roles prev_remains claim_ready claim_ready = claim
fold_roles prev_remains (adopt _) (adopt _) = Plan.adopt
fold_roles prev_remains staged_is_authority staged_is_authority =
    if prev_remains then retire else idle
fold_roles prev_remains active active = idle
fold_roles prev_remains (waiting_claim _) (waiting_claim _) = idle
fold_roles prev_remains _ _ = Plan.misconfigured

unfoldable pub plan : RotationState → RotationState → ℕ → ℕ → ℕ → Plan
unfolding fold_roles
plan settlement vault now_ms active_addr staged =
    fold_roles (is_some settlement.prev || is_some vault.prev)
      (derive_role settlement now_ms active_addr staged)
      (derive_role vault now_ms active_addr staged)

-- `SettlementError::Parse`, the error of a delay outside the bounds.
pub data RequestError : Type 0 where
  delay_out_of_bounds : ℕ → RequestError

unfoldable pub validate_request_delay : ℕ → Result RequestError (Unit {0})
validate_request_delay delay_ms =
    if leb min_delay_ms delay_ms && leb delay_ms max_delay_ms
    then ok tt
    else err (delay_out_of_bounds delay_ms)
