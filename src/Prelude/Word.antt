-- ===== src/Prelude/Word.antt =====
-- 64-bit unsigned arithmetic as the sources use it.
use Prim.Native.Nat.{ℕ, ◌+◌}
use podseq.Prelude.Tests.{ltb, if◌then◌else◌}

abbrev pub u64_max : ℕ
u64_max = 18446744073709551615

-- `u64::saturating_add`.
abbrev pub saturating_add : ℕ → ℕ → ℕ
saturating_add a b = if ltb u64_max (a + b) then u64_max else a + b
