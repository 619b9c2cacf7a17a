-- ===== src/Prelude/Words.antt =====
-- `u64` arithmetic. The release profile of Cargo.toml has overflow checks off, so it wraps.
use Prim.Native.Nat.{ℕ, ◌+◌, ◌*◌, ◌%◌, ◌^◌, ◌<◌}
use mathlib.Core.Path.{◌≡◌}
use native.Mathlib.Omega.{arith}

abbrev pub u64_mod : ℕ
u64_mod = 2 ^ 64

abbrev pub add64 : ℕ → ℕ → ℕ
add64 a b = (a + b) % u64_mod

abbrev pub mul64 : ℕ → ℕ → ℕ
mul64 a b = (a * b) % u64_mod

pub add64-no_wrap : (a b : ℕ) → a + b < u64_mod → add64 a b ≡ a + b
add64-no_wrap a b h = omega arith
