-- ===== src/Base/Words.antt =====
-- 64-bit unsigned arithmetic, with its wrap-around.
use Prim.Native.Nat.{ℕ, ◌+◌, ◌-◌, ◌*◌, ◌%◌, ◌^◌, ◌<◌, ◌≤◌}
use mathlib.Core.Path.{◌≡◌}
use native.Mathlib.Omega.{arith}

abbrev pub u64_mod : ℕ
u64_mod = 2 ^ 64

-- `u64.MAX_VALUE`
abbrev pub u64_max : ℕ
u64_max = 2 ^ 64 - 1

abbrev pub IsU64 : ℕ → Type 0
IsU64 n = n < u64_mod

unfoldable pub add64 : ℕ → ℕ → ℕ
add64 a b = (a + b) % u64_mod

unfoldable pub sub64 : ℕ → ℕ → ℕ
sub64 a b = (a + u64_mod - b) % u64_mod

unfoldable pub mul64 : ℕ → ℕ → ℕ
mul64 a b = (a * b) % u64_mod

pub add64-eq-add : (a b : ℕ) → a + b < u64_mod → add64 a b ≡ a + b
unfolding add64
add64-eq-add a b h = omega arith

pub sub64-eq-sub : (a b : ℕ) → b ≤ a → IsU64 a → sub64 a b ≡ a - b
unfolding sub64
sub64-eq-sub a b h k = omega arith
