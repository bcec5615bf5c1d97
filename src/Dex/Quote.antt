-- ===== src/Dex/Quote.antt =====
-- The price of a trade (prisms/dex/src/lib.rs).
use native.Mathlib.Nat.{div-mul-le_self, le-div_iff_mul-le}
use veilux_binary.Base.{
  ℕ, zero, suc, ap, ◌∙◌, ◌+◌, ◌-◌, ◌*◌, ◌/◌, ◌<◌, ◌≤◌, ◌≡◌, ◌≢◌, refl, true, false, ◌||◌, arith,
  ◌==◌, saturating_mul, u128_mod, saturating_mul-fits, saturating_mul-full, saturating_add-fits,
  saturating_mul-full, saturating_add-full, Bool-cases, inl, inr, ltb, ltb→lt, not-ltb→le, subst,
  sym,
}
use veilux_binary.Dex.Math.{quote_out}

saturating_mul-le : (a b : ℕ) → saturating_mul a b ≤ a * b
unfolding saturating_mul
saturating_mul-le a b = omega arith

-- The quote is the quotient of the numerator, which may saturate, by a denominator that does not.
quote_out-quotient :
    (ri ro a : ℕ)
    → ri * 10000 + a * 9970 < u128_mod
    → (ri == 0 || ro == 0 || a == 0) ≡ false
    → quote_out ri ro a ≡ saturating_mul (a * 9970) ro / (ri * 10000 + a * 9970)
unfolding quote_out
quote_out-quotient ri ro a fits some_ =
    let tax = saturating_mul-fits a 9970 (omega arith) in
    let base = saturating_mul-fits ri 10000 (omega arith) in
    rw (some_, quote_out)
      (rw (tax, base) (rw (saturating_add-fits (ri * 10000) (a * 9970) fits) refl))

quote_out-zero : (ri ro a : ℕ) → (ri == 0 || ro == 0 || a == 0) ≡ true → quote_out ri ro a ≡ 0
unfolding quote_out
quote_out-zero ri ro a none_ = rw (none_, quote_out) refl

-- Something is paid only from a reserve that is not empty.
pub quote_out_pos : (ri ro a : ℕ) → quote_out ri ro a ≢ 0 → 0 < ro
unfolding quote_out
quote_out_pos ri ro a h = ground arith

-- The quotient `out` of the quote is below the reserve, and the product does not fall.
less :
    (ri ro a out : ℕ) → 0 < ri → 0 < ro → out * (ri * 10000 + a * 9970) ≤ a * 9970 * ro → out < ro
less ri ro a out pi po h = elim (Bool-cases (ltb out ro)) [
  | inl yes_ ↦ ltb→lt out ro yes_
  | inr no_ ↦
      let large = not-ltb→le out ro no_ in
      let products : ro * (ri * 10000 + a * 9970) ≤ out * (ri * 10000 + a * 9970) = grind arith in
      let positive : 0 < ro * ri = grind arith in absurd (omega arith)
]

product_grows :
    (ri a out d : ℕ)
    → out * (ri * 10000 + a * 9970) ≤ a * 9970 * (out + d)
    → ri * (out + d) ≤ (ri + a) * d
product_grows ri a out d h = omega arith

-- Where 10000 times the reserve that is paid into and 9970 times the amount have a sum below
-- 2^128, a trade pays less than the reserve that it is paid from, if that is not empty, and does
-- not lower the product of the reserves, also where the numerator of the quote saturates.
pub quote_out_keeps_product :
    (reserve_in reserve_out amount_in : ℕ)
    → reserve_in * 10000 + amount_in * 9970 < u128_mod
    → 0 < reserve_out
    → let out = quote_out reserve_in reserve_out amount_in in
      (out < reserve_out)
      × (reserve_in * reserve_out ≤ (reserve_in + amount_in) * (reserve_out - out))
quote_out_keeps_product ri ro a fits pos = elim (Bool-cases (ri == 0 || ro == 0 || a == 0)) [
  | inl none_ ↦ rw (quote_out-zero ri ro a none_) (omega arith, untaxed)
  | inr some_ ↦
      let e = quote_out-quotient ri ro a fits some_ in
      let capped = saturating_mul (a * 9970) ro in
      let out = capped / (ri * 10000 + a * 9970) in
      let bound : out * (ri * 10000 + a * 9970) ≤ a * 9970 * ro =
        omega (
          arith,
          div-mul-le_self capped (ri * 10000 + a * 9970),
          saturating_mul-le (a * 9970) ro,
        ) in
      let below = less ri ro a out (positive some_) pos bound in
      let whole : ro ≡ out + (ro - out) = omega arith in rw e (below, grown out whole bound)
]
  where
    untaxed : ri * ro ≤ (ri + a) * (ro - 0)
    untaxed = let e : ro - 0 ≡ ro = omega arith in rw e (omega arith)

    positive : (ri == 0 || ro == 0 || a == 0) ≡ false → 0 < ri
    positive h = ground arith

    grown :
        (out : ℕ)
        → ro ≡ out + (ro - out)
        → out * (ri * 10000 + a * 9970) ≤ a * 9970 * ro
        → ri * ro ≤ (ri + a) * (ro - out)
    grown out whole bound =
        subst (λ k. ri * k ≤ (ri + a) * (ro - out)) (sym whole)
          (product_grows ri a out (ro - out)
            (subst (λ k. out * (ri * 10000 + a * 9970) ≤ a * 9970 * k) whole bound))

traded_nonzero : (ri ro a : ℕ) → 0 < ri → 0 < a * 9970 * ro → (ri == 0 || ro == 0 || a == 0) ≡ false
traded_nonzero zero ro a p h = absurd (omega arith)
traded_nonzero (suc ri) zero a p h = absurd (omega arith)
traded_nonzero (suc ri) (suc ro) zero p h = absurd (omega arith)
traded_nonzero (suc ri) (suc ro) (suc a) p h = ground arith

-- Where the numerator of the quote passes 2^128 by at least the denominator, which itself is below
-- 2^128, and the reserve that is paid into is not empty, the pay is capped: times the denominator
-- it stays below 2^128, and it is less than the pay of the formula.
pub quote_out_capped :
    (reserve_in reserve_out amount_in : ℕ)
    → 0 < reserve_in
    → reserve_in * 10000 + amount_in * 9970 < u128_mod
    → u128_mod + (reserve_in * 10000 + amount_in * 9970) ≤ amount_in * 9970 * reserve_out
    → (quote_out reserve_in reserve_out amount_in * (reserve_in * 10000 + amount_in * 9970)
        < u128_mod)
      × (quote_out reserve_in reserve_out amount_in
          < amount_in * 9970 * reserve_out / (reserve_in * 10000 + amount_in * 9970))
quote_out_capped ri ro a pos fits large =
    let den = ri * 10000 + a * 9970 in
    let num = a * 9970 * ro in
    let out = (u128_mod - 1) / den in
    let e : quote_out ri ro a ≡ out =
      quote_out-quotient ri ro a fits (traded_nonzero ri ro a pos (omega arith))
      ∙ ap (λ n. n / den) (saturating_mul-full (a * 9970) ro (omega arith)) in
    let bound = div-mul-le_self (u128_mod - 1) den in
    let next : (out + 1) * den ≤ num =
      let split : (out + 1) * den ≡ out * den + den = grind arith in omega arith in
    rw (e) (
      omega arith,
      omega (arith, (le-div_iff_mul-le {k = den} {x = out + 1} {y = num} (omega arith)).1 next),
    )

-- A single unit is paid for a saturating amount, whatever the reserve: it may be the last one.
pub quote_out_drains :
    (reserve_in amount_in : ℕ)
    → 0 < reserve_in
    → u128_mod ≤ amount_in * 9970
    → quote_out reserve_in 1 amount_in ≡ 1
unfolding quote_out
quote_out_drains ri a pos big =
    let some_ : (ri == 0 || 1 == 0 || a == 0) ≡ false = ground arith in
    rw (some_, quote_out)
      (rw (saturating_mul-full a 9970 big)
        (rw (saturating_add-full (saturating_mul ri 10000)) (unfold saturating_mul in refl)))
