-- ===== src/Base/Word.antt =====
-- Unsigned machine integers: Rust's checked, saturating and wrapping operations.
use Prim.Native.Nat.{ℕ, ◌+◌, ◌-◌, ◌*◌, ◌≤◌, ◌<◌, min}
use veilux_binary.Base.Tests.{ltb, if◌then◌else◌}
use mathlib.Core.Path.{◌≡◌}
use native.Mathlib.Omega.{arith}
use mathlib.Core.Option.{Option, none, some}

abbrev pub u128_mod : ℕ
u128_mod = 340282366920938463463374607431768211456

abbrev pub u64_mod : ℕ
u64_mod = 18446744073709551616

-- `u128::checked_add`
unfoldable pub checked_add : ℕ → ℕ → Option ℕ
checked_add a b = if ltb (a + b) u128_mod then some (a + b) else none

-- `u128::saturating_add`
unfoldable pub saturating_add : ℕ → ℕ → ℕ
saturating_add a b = min (a + b) (u128_mod - 1)

-- `u128::saturating_mul`
unfoldable pub saturating_mul : ℕ → ℕ → ℕ
saturating_mul a b = min (a * b) (u128_mod - 1)

-- `u64::saturating_add`
unfoldable pub saturating_add64 : ℕ → ℕ → ℕ
saturating_add64 a b = min (a + b) (u64_mod - 1)

pub saturating_add-fits : (a b : ℕ) → a + b < u128_mod → saturating_add a b ≡ a + b
unfolding saturating_add
saturating_add-fits a b h = omega arith

pub saturating_mul-fits : (a b : ℕ) → a * b < u128_mod → saturating_mul a b ≡ a * b
unfolding saturating_mul
saturating_mul-fits a b h = omega arith

pub saturating_mul-full : (a b : ℕ) → u128_mod ≤ a * b → saturating_mul a b ≡ u128_mod - 1
unfolding saturating_mul
saturating_mul-full a b h = omega arith

pub saturating_add-full : (a : ℕ) → saturating_add a (u128_mod - 1) ≡ u128_mod - 1
unfolding saturating_add
saturating_add-full a = omega arith
