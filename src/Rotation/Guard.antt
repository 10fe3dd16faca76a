-- ===== src/Rotation/Guard.antt =====
-- crates/sui/src/rotation.rs, `AdoptionGuard`, which paces the retirement. An `Instant` is a number
-- of milliseconds that the caller passes in; `elapsed` stops at 0.
use podseq.Prelude.{ℕ, ◌-◌, Bool, false, Option, none, some, leb, is_some}

pub record AdoptionGuard : Type 0 where
  pub adopted_at : Option ℕ
  pub retire_quiet : ℕ

unfoldable pub new_guard : ℕ → AdoptionGuard
new_guard retire_quiet = record { adopted_at = none; retire_quiet = retire_quiet }

unfoldable pub mark_adopted : ℕ → AdoptionGuard → AdoptionGuard
mark_adopted now g = record g { adopted_at = some now }

unfoldable pub adopted : AdoptionGuard → Bool
adopted g = is_some g.adopted_at

quiet_since : Option ℕ → ℕ → ℕ → Bool
quiet_since none now quiet = false
quiet_since (some at) now quiet = leb quiet (now - at)

unfoldable pub retire_ready : ℕ → AdoptionGuard → Bool
unfolding quiet_since
retire_ready now g = quiet_since g.adopted_at now g.retire_quiet
