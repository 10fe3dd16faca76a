-- ===== src/Rotation/Apply.antt =====
-- crates/sui/src/rotation.rs, the step that a poll executes: the executor's interface and
-- `apply`. The key type and the error type are parameters.
use podseq.Prelude.{ℕ, Option, none, some, if◌then◌else◌, Result, ok, err}
use podseq.Rotation.{Plan}
use podseq.Rotation.Guard
use podseq.Rotation.Guard.{AdoptionGuard, mark_adopted, retire_ready}

-- One implementation of the trait over the state `X` that it mutates.
pub record RotationExecutor (K X E : Type 0) : Type 0 where
  pub claim : K → X → Result E (Unit {0}) × X
  pub adopt : K → X → Result E (Unit {0}) × X
  pub retire_previous : K → X → Result E (Unit {0}) × X

pub data Action : Type 0 where
  idle claimed adopted retired refused : Action

module _ {K X E : Type 0} (executor : RotationExecutor K X E) where
  -- An action, the guard and the executor's state after it; the operator `?` keeps the state.
  abbrev pub Step : Type 0
  Step = Result E Action × AdoptionGuard × X

  claim_done : AdoptionGuard → Result E (Unit {0}) × X → Step
  claim_done g (ok _, x) = (ok Action.claimed, g, x)
  claim_done g (err e, x) = (err e, g, x)

  claim_with : Option K → AdoptionGuard → X → Step
  unfolding claim_done
  claim_with none g x = (ok refused, g, x)
  claim_with (some key) g x = claim_done g (executor.claim key x)

  adopt_done : ℕ → AdoptionGuard → Result E (Unit {0}) × X → Step
  unfolding mark_adopted
  adopt_done now g (ok _, x) = (ok Action.adopted, mark_adopted now g, x)
  adopt_done now g (err e, x) = (err e, g, x)

  adopt_with : Option K → ℕ → AdoptionGuard → X → Step
  unfolding adopt_done
  adopt_with none now g x = (ok refused, g, x)
  adopt_with (some key) now g x = adopt_done now g (executor.adopt key x)

  retire_done : AdoptionGuard → Result E (Unit {0}) × X → Step
  retire_done g (ok _, x) = (ok retired, g, x)
  retire_done g (err e, x) = (err e, g, x)

  retire_with : Option K → AdoptionGuard → X → Step
  unfolding retire_done
  retire_with none g x = (ok refused, g, x)
  retire_with (some key) g x = retire_done g (executor.retire_previous key x)

  unfoldable pub apply : Plan → Option K → ℕ → AdoptionGuard → X → Step
  unfolding claim_with adopt_with retire_with Guard.adopted retire_ready
  apply Plan.idle key now g x = (ok Action.idle, g, x)
  apply Plan.misconfigured key now g x = (ok refused, g, x)
  apply Plan.claim key now g x = claim_with key g x
  apply Plan.adopt key now g x =
      if Guard.adopted g
      then if retire_ready now g then retire_with key g x else (ok Action.idle, g, x)
      else adopt_with key now g x
  apply Plan.retire key now g x =
      if Guard.adopted g then retire_with key g x else adopt_with key now g x
