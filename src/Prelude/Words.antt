-- ===== src/Prelude/Words.antt =====
-- Go's uint64: sums and differences wrap around.
use Prim.Native.Nat.{ℕ, ◌+◌, ◌-◌, ◌%◌, ◌^◌, ◌≤◌, ◌<◌}
use mathlib.Core.Path.{◌≡◌}
use native.Mathlib.Omega.{arith}
use tinykv.Prelude.Tests.{leb, if◌then◌else◌}

abbrev pub u64_mod : ℕ
u64_mod = 2 ^ 64

unfoldable pub add64 : ℕ → ℕ → ℕ
add64 a b = (a + b) % u64_mod

unfoldable pub sub64 : ℕ → ℕ → ℕ
sub64 a b = (a + u64_mod - b) % u64_mod

-- raft/util.go: min and max on uint64
unfoldable pub min64 : ℕ → ℕ → ℕ
min64 a b = if leb a b then a else b

unfoldable pub max64 : ℕ → ℕ → ℕ
max64 a b = if leb a b then b else a

pub add64-eq : (a b : ℕ) → a + b < u64_mod → add64 a b ≡ a + b
unfolding add64
add64-eq a b h = omega arith

pub sub64-eq : (a b : ℕ) → b ≤ a → a < u64_mod → sub64 a b ≡ a - b
unfolding sub64
sub64-eq a b h k = omega arith

pub max64_bounds : (a b : ℕ) → (a ≤ max64 a b) × (b ≤ max64 a b)
unfolding max64
max64_bounds a b = ground arith

pub max64_le : (a b c : ℕ) → a ≤ c → b ≤ c → max64 a b ≤ c
unfolding max64
max64_le a b c h k = ground arith

pub min64_le : (a b : ℕ) → (min64 a b ≤ a) × (min64 a b ≤ b)
unfolding min64
min64_le a b = ground arith
