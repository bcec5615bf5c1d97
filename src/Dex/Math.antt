-- ===== src/Dex/Math.antt =====
-- The arithmetic of the exchange (prisms/dex/src/lib.rs).
use veilux_binary.Base.{
  ℕ, zero, suc, ◌+◌, ◌-◌, ◌/◌, ◌%◌, ◌||◌, Option, none, some, ltb, ◌==◌, if◌then◌else◌,
  saturating_mul, saturating_add, u128_mod,
}

abbrev pub fee_bps : ℕ
fee_bps = 30

-- `a / b`; `none` is the panic of a division by zero.
unfoldable pub checked_div : ℕ → ℕ → Option ℕ
checked_div a b = if b == 0 then none else some (a / b)

-- `while y < x { x = y; y = (x + n / x) / 2; }` on fuel; `none` is the panic of the division by
-- zero. The sum wraps in the release build.
unfoldable pub isqrt_loop : ℕ → ℕ → ℕ → ℕ → Option ℕ
isqrt_loop zero n x y = none
isqrt_loop (suc fuel) n x y =
    let again = isqrt_loop fuel n y ((y + n / y) % u128_mod / 2) in
    if ltb y x then (if y == 0 then none else again) else some x

unfoldable pub isqrt : ℕ → Option ℕ
isqrt n = if n == 0 then some 0 else isqrt_loop (suc n) n n ((n + 1) % u128_mod / 2)

unfoldable pub quote_out : ℕ → ℕ → ℕ → ℕ
quote_out reserve_in reserve_out amount_in =
    if reserve_in == 0 || reserve_out == 0 || amount_in == 0
    then 0
    else saturating_mul (saturating_mul amount_in (10000 - fee_bps)) reserve_out
      / saturating_add (saturating_mul reserve_in 10000)
          (saturating_mul amount_in (10000 - fee_bps))
