-- ===== src/Vesting/Curve.antt =====
-- How the vested amount grows with time (prisms/vesting/src/lib.rs).
use native.Mathlib.Nat.{div-le_of_le-mul, div-mul-le_self, le-div_iff_mul-le}
use veilux_binary.Base.{ℕ, ◌-◌, ◌*◌, ◌/◌, ◌≤◌, ◌≢◌, arith, saturating_mul}
use veilux_binary.Vesting.Schedule.{Schedule, vested}

saturating_mul_mono : (t a b : ℕ) → a ≤ b → saturating_mul t a ≤ saturating_mul t b
unfolding saturating_mul
saturating_mul_mono t a b h = let products : t * a ≤ t * b = grind arith in omega arith

saturating_mul-le : (t a : ℕ) → saturating_mul t a ≤ t * a
unfolding saturating_mul
saturating_mul-le t a = omega arith

div_mono : (a b d : ℕ) → d ≢ 0 → a ≤ b → a / d ≤ b / d
div_mono a b d n h =
    (le-div_iff_mul-le {k = d} {x = a / d} {y = b} (omega arith)).1
      (omega (arith, div-mul-le_self a d))

-- A part of a whole that is paid out in `d` shares.
share-le : (t a d : ℕ) → a ≤ d → saturating_mul t a / d ≤ t
share-le t a d h =
    div-le_of_le-mul d
      (let products : t * a ≤ d * t = grind arith in omega (arith, saturating_mul-le t a))

module _ (s : Schedule) where
  -- Never more than the total is vested.
  pub vested-le-total : (now : ℕ) → vested s now ≤ s.total
  unfolding vested
  vested-le-total now = ground (arith, share-le s.total (now - s.start) s.duration)

  -- What is vested once stays vested.
  pub vested_mono : (now later : ℕ) → now ≤ later → vested s now ≤ vested s later
  unfolding vested
  vested_mono now later h = ground (
    arith,
    share-le s.total (now - s.start) s.duration,
    div_mono (saturating_mul s.total (now - s.start)) (saturating_mul s.total (later - s.start))
        s.duration,
    saturating_mul_mono s.total (now - s.start) (later - s.start),
  )
