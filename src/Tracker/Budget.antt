-- ===== src/Tracker/Budget.antt =====
-- The block budget against the window that it stands for.
use podseq.Prelude.{ℕ, zero, ◌+◌, ◌*◌, ◌/◌, max, ◌≤◌, ◌<◌, arith}
use native.Mathlib.Nat.{suc-mul, mod-lt, mod-add-div'}
use podseq.Tracker.{div_ceil, deadline_blocks_for}

div_ceil-bounds : (a b : ℕ) → zero < b → (a ≤ div_ceil a b * b) × (div_ceil a b * b < a + b)
unfolding div_ceil
div_ceil-bounds a b h =
    let r = mod-lt a h in
    let e = mod-add-div' a b in let f = suc-mul (a / b) b in (ground arith, ground arith)

-- The budget is the least number of blocks whose time covers the window; a block time of zero is
-- taken as one millisecond.
pub deadline_blocks_for-bounds :
    (window_ms block_time_ms : ℕ)
    → (window_ms ≤ deadline_blocks_for window_ms block_time_ms * max block_time_ms 1)
      × (deadline_blocks_for window_ms block_time_ms * max block_time_ms 1
          < window_ms + max block_time_ms 1)
unfolding deadline_blocks_for
deadline_blocks_for-bounds w b = div_ceil-bounds w (max b 1) (omega arith)
