-- ===== src/Evm/U256/Sum.antt =====
-- Addition, subtraction and comparison of words (evm/src/u256.rs).
use veilux_binary.Base.{
  ℕ, ◌+◌, ◌*◌, ◌/◌, ◌^◌, ◌≡◌, ◌≤◌, ◌<◌, refl, ap, not, [], ◌∷◌, length, arith, u64_mod, ltb, ◌==◌,
  if◌then◌else◌, compare, Bool-cases, inl, inr,
}
use veilux_binary.Evm.U256.{
  U256, add_limbs, overflowing_add, sub_limbs, overflowing_sub, cmp_u, word_not,
}
use veilux_binary.Evm.U256.Value.{value, scale, Limbs, IsU256, value-lt, scale-length}

scaled : (s c l r : ℕ) → l ≡ r + s * c → u64_mod * l ≡ u64_mod * r + u64_mod * s * c
scaled s c l r h = grind arith

add_limbs-value :
    (a b : U256) (carry : ℕ)
    → length a ≡ length b
    → let (res, out) = add_limbs a b carry in value res + scale a * out ≡ value a + value b + carry
unfolding add_limbs
add_limbs-value [] [] carry e = omega arith
add_limbs-value [] (b ∷ bs) carry e = absurd (omega arith)
add_limbs-value (a ∷ as_) [] carry e = absurd (omega arith)
add_limbs-value (a ∷ as_) (b ∷ bs) carry e =
    let rest = add_limbs as_ bs ((a + b + carry) / u64_mod) in
    omega (
      arith,
      scaled (scale as_) rest.1 (value as_ + value bs + (a + b + carry) / u64_mod) (value rest.0)
          (omega (arith, add_limbs-value as_ bs ((a + b + carry) / u64_mod) (omega arith))),
    )

sub_limbs-value :
    (a b : U256) (borrow : ℕ)
    → length a ≡ length b
    → Limbs a
    → Limbs b
    → borrow ≤ 1
    → let (res, out) = sub_limbs a b borrow in
      value res + value b + borrow ≡ value a + scale a * out
unfolding sub_limbs
sub_limbs-value [] [] borrow e la lb h = omega arith
sub_limbs-value [] (b ∷ bs) borrow e la lb h = absurd (omega arith)
sub_limbs-value (a ∷ as_) [] borrow e la lb h = absurd (omega arith)
sub_limbs-value (a ∷ as_) (b ∷ bs) borrow e la lb h = elim (Bool-cases (ltb a (b + borrow))) [
  | inl y ↦
      let rest = sub_limbs as_ bs 1 in
      let less : a < b + borrow = ground (arith, y) in
      rw y (
        omega (
          arith,
          la.0,
          lb.0,
          less,
          scaled (scale as_) rest.1 (value rest.0 + value bs + 1) (value as_)
              (omega (arith, sub_limbs-value as_ bs 1 (omega arith) la.1 lb.1 (omega arith))),
        ))
  | inr n ↦
      let rest = sub_limbs as_ bs 0 in
      let more : b + borrow ≤ a = ground (arith, n) in
      rw n (
        omega (
          arith,
          more,
          scaled (scale as_) rest.1 (value rest.0 + value bs) (value as_)
              (omega (arith, sub_limbs-value as_ bs 0 (omega arith) la.1 lb.1 (omega arith))),
        ))
]

add_limbs-Limbs : (a b : U256) (carry : ℕ) → Limbs (add_limbs a b carry).0
unfolding add_limbs
add_limbs-Limbs [] b carry = tt
add_limbs-Limbs (a ∷ as_) [] carry = tt
add_limbs-Limbs (a ∷ as_) (b ∷ bs) carry =
    (omega arith, add_limbs-Limbs as_ bs ((a + b + carry) / u64_mod))

length-add_limbs :
    (a b : U256) (carry : ℕ) → length a ≡ length b → length (add_limbs a b carry).0 ≡ length a
unfolding add_limbs
length-add_limbs [] b carry e = refl
length-add_limbs (a ∷ as_) [] carry e = absurd (omega arith)
length-add_limbs (a ∷ as_) (b ∷ bs) carry e =
    omega (arith, length-add_limbs as_ bs ((a + b + carry) / u64_mod) (omega arith))

sub_limbs-Limbs :
    (a b : U256) (borrow : ℕ) → Limbs a → Limbs b → borrow ≤ 1 → Limbs (sub_limbs a b borrow).0
unfolding sub_limbs
sub_limbs-Limbs [] b borrow la lb h = tt
sub_limbs-Limbs (a ∷ as_) [] borrow la lb h = tt
sub_limbs-Limbs (a ∷ as_) (b ∷ bs) borrow la lb h =
    (ground (arith, la.0, lb.0), sub_limbs-Limbs as_ bs _ la.1 lb.1 (ground arith))

length-sub_limbs :
    (a b : U256) (borrow : ℕ) → length a ≡ length b → length (sub_limbs a b borrow).0 ≡ length a
unfolding sub_limbs
length-sub_limbs [] b borrow e = refl
length-sub_limbs (a ∷ as_) [] borrow e = absurd (omega arith)
length-sub_limbs (a ∷ as_) (b ∷ bs) borrow e =
    omega (arith, length-sub_limbs as_ bs _ (omega arith))

scale_four : (a : U256) → length a ≡ 4 → scale a ≡ 2 ^ 256
scale_four a e = scale-length a (0 ∷ 0 ∷ 0 ∷ 0 ∷ []) e

-- The carry out of the highest limb is 0 or 1.
carry_lem :
    (r c v : ℕ)
    → r + 2 ^ 256 * c ≡ v
    → v < 2 * 2 ^ 256
    → r + (if not (c == 0) then 2 ^ 256 else 0) ≡ v
carry_lem r c v e h = ground arith

-- The sum of two words and its carry are the sum of the numbers; it is again a word.
pub overflowing_add-value :
    (a b : U256)
    → IsU256 a
    → IsU256 b
    → let (res, carry) = overflowing_add a b in
      IsU256 res × (value res + (if carry then 2 ^ 256 else 0) ≡ value a + value b)
unfolding overflowing_add
overflowing_add-value a b ha hb =
    let (res, out) = add_limbs a b 0 in
    let same_length : length a ≡ length b = omega (arith, ha.four, hb.four) in
    (
      record {
        four = omega (arith, length-add_limbs a b 0 same_length, ha.four);
        limbs = add_limbs-Limbs a b 0;
      },
      carry_lem (value res) out (value a + value b)
          (omega
            (arith, add_limbs-value a b 0 same_length, ap (λ k. k * out) (scale_four a ha.four)))
          (omega (
            arith,
            value-lt a ha.limbs,
            value-lt b hb.limbs,
            scale_four a ha.four,
            scale_four b hb.four,
          )),
    )

borrow_lem :
    (r b a c : ℕ)
    → r + b ≡ a + 2 ^ 256 * c
    → r < 2 ^ 256
    → b < 2 ^ 256
    → r + b ≡ a + (if not (c == 0) then 2 ^ 256 else 0)
borrow_lem r b a c e h k = ground arith

-- The difference of two words, with the borrow, is the difference of the numbers; it is again a
-- word.
pub overflowing_sub-value :
    (a b : U256)
    → IsU256 a
    → IsU256 b
    → let (res, borrow) = overflowing_sub a b in
      IsU256 res × (value res + value b ≡ value a + (if borrow then 2 ^ 256 else 0))
unfolding overflowing_sub
overflowing_sub-value a b ha hb =
    let (res, out) = sub_limbs a b 0 in
    let same_length : length a ≡ length b = omega (arith, ha.four, hb.four) in
    let four : length res ≡ 4 = omega (arith, length-sub_limbs a b 0 same_length, ha.four) in
    let limbs = sub_limbs-Limbs a b 0 ha.limbs hb.limbs (omega arith) in
    (
      record { four = four; limbs = limbs },
      borrow_lem (value res) (value b) (value a) out
          (omega (
            arith,
            sub_limbs-value a b 0 same_length ha.limbs hb.limbs (omega arith),
            ap (λ k. k * out) (scale_four a ha.four),
          ))
          (omega (arith, value-lt res limbs, scale_four res four))
          (omega (arith, value-lt b hb.limbs, scale_four b hb.four)),
    )

-- Comparison of words is comparison of the numbers.
pub cmp_u-value :
    (a b : U256) → length a ≡ length b → Limbs a → Limbs b → cmp_u a b ≡ compare (value a) (value b)
unfolding cmp_u
cmp_u-value [] [] e la lb = refl
cmp_u-value [] (b ∷ bs) e la lb = absurd (omega arith)
cmp_u-value (a ∷ as_) [] e la lb = absurd (omega arith)
cmp_u-value (a ∷ as_) (b ∷ bs) e la lb =
    ground (arith, cmp_u-value as_ bs (omega arith) la.1 lb.1, la.0, lb.0)

word_not-value :
    (a : U256) → Limbs a → (value (word_not a) + value a + 1 ≡ scale a) × Limbs (word_not a)
unfolding word_not
word_not-value [] l = (omega arith, tt)
word_not-value (a ∷ as_) l =
    let rest = word_not-value as_ l.1 in (omega (arith, rest.0, l.0), (omega (arith, l.0), rest.1))
