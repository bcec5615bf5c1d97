-- ===== src/Dex/Sqrt.antt =====
-- The integer square root by Newton's method (prisms/dex/src/lib.rs).
use native.Mathlib.Nat.{div-mul-le_self, lt-div-mul-add, div_self}
use veilux_binary.Base.{
  ℕ, zero, suc, ◌+◌, ◌-◌, ◌*◌, ◌/◌, ◌%◌, ◌<◌, ◌≤◌, ◌≡◌, refl, none, some, arith, ltb, ◌==◌,
  u128_mod, Bool-cases, inl, inr, ltb→lt, not-ltb→le, false, subst, sym,
}
use veilux_binary.Dex.Math.{isqrt_loop, isqrt}

-- The square of a sum is at least four times the product.
four_products : (a b : ℕ) → 4 * (a * b) ≤ (a + b) * (a + b)
four_products a b = elim (Bool-cases (ltb a b)) [
  | inl less ↦ ordered a b (omega (arith, ltb→lt a b less))
  | inr more ↦ let swapped = ordered b a (not-ltb→le a b more) in omega (arith, swapped)
]
  where
    gap : (m d : ℕ) → 4 * (m * (m + d)) ≤ (m + (m + d)) * (m + (m + d))
    gap m d = omega arith

    ordered : (m n : ℕ) → m ≤ n → 4 * (m * n) ≤ (m + n) * (m + n)
    ordered m n h =
        let e : n ≡ m + (n - m) = omega arith in
        subst (λ k. 4 * (m * k) ≤ (m + k) * (m + k)) (sym e) (gap m (n - m))

square_mono : (a b : ℕ) → a ≤ b → a * a ≤ b * b
square_mono a b h = grind arith

-- One step of the method stays above the root.
step_above : (n x : ℕ) → 0 < x → n < ((x + n / x) / 2 + 1) * ((x + n / x) / 2 + 1)
step_above n x h =
    let q = n / x in
    let y = (x + q) / 2 in
    let below : n < q * x + x = lt-div-mul-add {a = n} {b = x} h in
    let sum : x + (q + 1) ≤ 2 * (y + 1) = omega arith in
    let squares : (x + (q + 1)) * (x + (q + 1)) ≤ 2 * (y + 1) * (2 * (y + 1)) =
      square_mono (x + (q + 1)) (2 * (y + 1)) sum in
    omega (arith, four_products x (q + 1))

-- The sum of a step is at most one more than the number.
step_small : (n x : ℕ) → 0 < x → x ≤ n → x + n / x ≤ n + 1
step_small n x h k = small (n / x) (div-mul-le_self n x)
  where
    small : (q : ℕ) → q * x ≤ n → x + q ≤ n + 1
    small zero e = omega arith
    small (suc p) e = let product : p ≤ p * x = grind arith in omega arith

exit_below : (n x : ℕ) → x ≤ (x + n / x) / 2 → x * x ≤ n
exit_below n x h = below (n / x) (omega arith) (div-mul-le_self n x)
  where
    below : (q : ℕ) → x ≤ q → q * x ≤ n → x * x ≤ n
    below q k e = let product : x * x ≤ q * x = grind arith in omega arith

isqrt_loop-root :
    (fuel n x : ℕ)
    → 0 < n
    → n + 1 < u128_mod
    → 0 < x
    → x ≤ n
    → x < fuel
    → n < (x + 1) * (x + 1)
    → (r : ℕ) × (isqrt_loop fuel n x ((x + n / x) / 2) ≡ some r)
      × (r * r ≤ n)
      × (n < (r + 1) * (r + 1))
unfolding isqrt_loop
isqrt_loop-root zero n x pn fits px le fuel above = absurd (omega arith)
isqrt_loop-root (suc f) n x pn fits px le fuel above =
    let y = (x + n / x) / 2 in
    elim (Bool-cases (ltb y x)) [
      | inl again ↦
          let bound = step_above n x px in
          let positive : 0 < y = not_zero y bound in
          let unwrapped : (y + n / y) % u128_mod / 2 ≡ (y + n / y) / 2 =
            let less : y + n / y < u128_mod =
              let s = step_small n y positive (omega (arith, ltb→lt y x again)) in omega arith in
            omega arith in
          rw (again, isqrt_loop)
            (rw (not-zero y positive) (
              rw unwrapped (
                isqrt_loop-root f n y pn fits positive (omega (arith, ltb→lt y x again))
                  (omega (arith, ltb→lt y x again)) bound)))
      | inr done ↦ rw (done, isqrt_loop) (x, refl, exit_below n x (not-ltb→le y x done), above)
    ]
  where
    not_zero : (k : ℕ) → n < (k + 1) * (k + 1) → 0 < k
    not_zero zero h = absurd (omega arith)
    not_zero (suc k) h = omega arith

    not-zero : (k : ℕ) → 0 < k → (k == 0) ≡ false
    not-zero k h = ground arith

-- Below the largest `u128` the loop returns the integer square root: its square is at most `n`, and
-- the square of its successor is greater.
pub isqrt-IsRoot :
    (n : ℕ)
    → n + 1 < u128_mod
    → (r : ℕ) × (isqrt n ≡ some r) × (r * r ≤ n) × (n < (r + 1) * (r + 1))
unfolding isqrt
isqrt-IsRoot zero h = (0, refl, omega arith, omega arith)
isqrt-IsRoot (suc m) h =
    let n = suc m in
    let first : (n + 1) % u128_mod / 2 ≡ (n + n / n) / 2 =
      let one : n / n ≡ 1 = div_self {n = n} (omega arith) in rw one (omega arith) in
    rw (not_zero m, isqrt)
      (rw first (
        isqrt_loop-root (suc n) n n (omega arith) h (omega arith) (omega arith) (omega arith)
          (omega arith)))
  where
    not_zero : (k : ℕ) → (suc k == 0) ≡ false
    not_zero k = ground arith

-- At the largest `u128`, to which the product of two large amounts saturates, the first sum wraps
-- to 0 and the loop divides by zero.
pub isqrt_max : isqrt (u128_mod - 1) ≡ none
unfolding isqrt isqrt_loop
isqrt_max = refl
