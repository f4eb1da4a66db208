-- ===== src/Prelude/Words.antt =====
-- 64-bit counters: `usize` and `u64` with the saturating operations of the source.
use Prim.Native.Nat.{ℕ, ◌+◌, ◌*◌, ◌-◌, ◌^◌, ◌≤◌, min}
use mathlib.Core.Path.{◌≡◌}
use native.Mathlib.Omega.{arith}

abbrev pub u64_max : ℕ
u64_max = 2 ^ 64 - 1

unfoldable pub saturating_add : ℕ → ℕ → ℕ
saturating_add a b = min (a + b) u64_max

unfoldable pub saturating_mul : ℕ → ℕ → ℕ
saturating_mul a b = min (a * b) u64_max

-- Below the limit a saturating sum is the sum.
pub saturating_add-eq : (a b : ℕ) → a + b ≤ u64_max → saturating_add a b ≡ a + b
unfolding saturating_add
saturating_add-eq a b h = omega arith

pub saturating_add-le : (a b : ℕ) → saturating_add a b ≤ u64_max
unfolding saturating_add
saturating_add-le a b = omega arith
