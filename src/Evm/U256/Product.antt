-- ===== src/Evm/U256/Product.antt =====
-- Multiplication of words, limb by limb (evm/src/u256.rs).
use veilux_binary.Base.{
  ℕ, zero, suc, ◌+◌, ◌-◌, ◌*◌, ◌/◌, ◌%◌, ◌^◌, ◌≡◌, ◌≤◌, ◌<◌, refl, ap, ◌∙◌, sym, List, [], ◌∷◌,
  ◌++◌, length, length-append, arith, u64_mod,
}
use veilux_binary.Evm.U256.{U256, mul_row, mul_rows, first_four, wrapping_mul}
use veilux_binary.Evm.U256.Value.{value, Limbs, IsU256}

product_small : (a b : ℕ) → a < u64_mod → b < u64_mod → a * b ≤ (u64_mod - 1) * (u64_mod - 1)
product_small a b h k = grind arith

spread : (a b v : ℕ) → a * (b + u64_mod * v) ≡ a * b + u64_mod * (a * v)
spread a b v = grind arith

pub length-mul_row :
    (a : ℕ) (bs : U256) (carry : ℕ) (rs : List ℕ) → length (mul_row a bs carry rs) ≡ length rs
unfolding mul_row
length-mul_row a [] carry [] = refl
length-mul_row a [] carry (r ∷ rs) = refl
length-mul_row a (b ∷ bs) carry [] = refl
length-mul_row a (b ∷ bs) carry (r ∷ rs) = ap suc (length-mul_row a bs _ rs)

mul_row-Limbs :
    (a : ℕ) (bs : U256) (carry : ℕ) (rs : List ℕ) → Limbs rs → Limbs (mul_row a bs carry rs)
unfolding mul_row
mul_row-Limbs a [] carry [] h = tt
mul_row-Limbs a [] carry (r ∷ rs) h = (omega arith, h.1)
mul_row-Limbs a (b ∷ bs) carry [] h = tt
mul_row-Limbs a (b ∷ bs) carry (r ∷ rs) h = (omega arith, mul_row-Limbs a bs _ rs h.1)

-- A row leaves alone what lies behind the limb of its last carry.
mul_row-append :
    (a : ℕ) (bs : U256) (carry : ℕ) (front t : List ℕ)
    → length front ≡ length bs
    → mul_row a bs carry (front ++ (0 ∷ t)) ≡ mul_row a bs carry (front ++ (0 ∷ [])) ++ t
unfolding mul_row
mul_row-append a [] carry [] t e = refl
mul_row-append a [] carry (r ∷ front) t e = absurd (omega arith)
mul_row-append a (b ∷ bs) carry [] t e = absurd (omega arith)
mul_row-append a (b ∷ bs) carry (r ∷ front) t e =
    ap (λ l. (r + a * b + carry) % u64_mod ∷ l)
      (mul_row-append a bs ((r + a * b + carry) / u64_mod) front t (omega arith))

-- A row adds the product, where the limb of its last carry is still 0.
mul_row-value :
    (a : ℕ) (bs : U256) (carry : ℕ) (front : List ℕ)
    → length front ≡ length bs
    → a < u64_mod
    → Limbs bs
    → Limbs front
    → carry < u64_mod
    → value (mul_row a bs carry (front ++ (0 ∷ []))) ≡ value front + a * value bs + carry
unfolding mul_row
mul_row-value a [] carry [] e la lb lf lc = omega arith
mul_row-value a [] carry (r ∷ front) e la lb lf lc = absurd (omega arith)
mul_row-value a (b ∷ bs) carry [] e la lb lf lc = absurd (omega arith)
mul_row-value a (b ∷ bs) carry (r ∷ front) e la lb lf lc = omega (
  arith,
  spread a b (value bs),
  mul_row-value a bs ((r + a * b + carry) / u64_mod) front (omega arith) la lb.1 lf.1
      (omega (arith, product_small a b la lb.0, lf.0)),
)

abbrev zeros : ℕ → List ℕ
zeros zero = []
zeros (suc n) = 0 ∷ zeros n

Limbs-append : (as_ bs : List ℕ) → Limbs as_ → Limbs bs → Limbs (as_ ++ bs)
Limbs-append [] bs h k = k
Limbs-append (a ∷ as_) bs h k = (h.0, Limbs-append as_ bs h.1 k)

value-zeros : (n : ℕ) → value (zeros n) ≡ 0
value-zeros zero = refl
value-zeros (suc n) = omega (arith, value-zeros n)

value-append_zeros : (as_ : List ℕ) (n : ℕ) → value (as_ ++ zeros n) ≡ value as_
value-append_zeros [] n = value-zeros n
value-append_zeros (a ∷ as_) n = omega (arith, value-append_zeros as_ n)

mul_rows-cons :
    (a : ℕ) (as_ bs res : List ℕ) (r : ℕ) (rs : List ℕ)
    → mul_row a bs 0 res ≡ r ∷ rs
    → mul_rows (a ∷ as_) bs res ≡ r ∷ mul_rows as_ bs rs
unfolding mul_rows
mul_rows-cons a as_ bs res r rs e = rw (e, mul_rows) refl

distribute : (a v w : ℕ) → (a + u64_mod * v) * w ≡ a * w + u64_mod * (v * w)
distribute a v w = grind arith

-- One row, and then the others by the statement for them.
mul_rows-step :
    (a : ℕ) (as_ bs front row : List ℕ)
    → mul_row a bs 0 (front ++ (0 ∷ [])) ≡ row
    → length row ≡ suc (length bs)
    → length front ≡ length bs
    → Limbs row
    → value row ≡ value front + a * value bs
    → ((rs : List ℕ)
        → length rs ≡ length bs
        → Limbs rs
        → value (mul_rows as_ bs (rs ++ zeros (length as_))) ≡ value rs + value as_ * value bs)
    → value (mul_rows (a ∷ as_) bs (front ++ (0 ∷ zeros (length as_))))
      ≡ value front + value (a ∷ as_) * value bs
mul_rows-step a as_ bs front [] q len e l v ih = absurd (omega arith)
mul_rows-step a as_ bs front (r ∷ rs) q len e l v ih =
    rw
      (mul_rows-cons a as_ bs (front ++ (0 ∷ zeros (length as_))) r (rs ++ zeros (length as_))
        (mul_row-append a bs 0 front (zeros (length as_)) e ∙ ap (λ t. t ++ zeros (length as_)) q))
      (omega (arith, ih rs (omega arith) l.1, distribute a (value as_) (value bs), v))

-- All rows add the product of the two numbers to what is there.
mul_rows-value :
    (as_ bs : U256) (front : List ℕ)
    → length front ≡ length bs
    → Limbs as_
    → Limbs bs
    → Limbs front
    → value (mul_rows as_ bs (front ++ zeros (length as_))) ≡ value front + value as_ * value bs
mul_rows-value [] bs front e la lb lf = unfold mul_rows in omega (arith, value-append_zeros front 0)
mul_rows-value (a ∷ as_) bs front e la lb lf =
    mul_rows-step a as_ bs front (mul_row a bs 0 (front ++ (0 ∷ []))) refl
      (omega (arith, length-mul_row a bs 0 (front ++ (0 ∷ [])), length-append {0} front (0 ∷ []))) e
      (mul_row-Limbs a bs 0 (front ++ (0 ∷ [])) (Limbs-append front (0 ∷ []) lf (omega arith, tt)))
      (omega (arith, mul_row-value a bs 0 front e la.0 lb lf (omega arith)))
      (λ rs len l. mul_rows-value as_ bs rs len la.1 lb l)

length-mul_rows : (as_ bs : U256) (res : List ℕ) → length (mul_rows as_ bs res) ≡ length res
unfolding mul_rows
length-mul_rows [] bs res = refl
length-mul_rows (a ∷ as_) bs res =
    go (mul_row a bs 0 res) (length-mul_row a bs 0 res) (length-mul_rows as_ bs)
  where
    go :
        (row : List ℕ)
        → length row ≡ length res
        → ((rs : List ℕ) → length (mul_rows as_ bs rs) ≡ length rs)
        → length (elim row as (λ _. List ℕ) [ [] ↦ [] | r ∷ rs ↦ r ∷ mul_rows as_ bs rs ])
          ≡ length res
    go [] e ih = e
    go (r ∷ rs) e ih = omega (arith, ih rs)

mul_rows-Limbs : (as_ bs : U256) (res : List ℕ) → Limbs res → Limbs (mul_rows as_ bs res)
unfolding mul_rows
mul_rows-Limbs [] bs res l = l
mul_rows-Limbs (a ∷ as_) bs res l =
    go (mul_row a bs 0 res) (mul_row-Limbs a bs 0 res l) (mul_rows-Limbs as_ bs)
  where
    go :
        (row : List ℕ)
        → Limbs row
        → ((rs : List ℕ) → Limbs rs → Limbs (mul_rows as_ bs rs))
        → Limbs (elim row as (λ _. List ℕ) [ [] ↦ [] | r ∷ rs ↦ r ∷ mul_rows as_ bs rs ])
    go [] l ih = tt
    go (r ∷ rs) l ih = (l.0, ih rs l.1)

-- The low half of eight limbs.
first_four-value :
    (res : List ℕ)
    → length res ≡ 8
    → Limbs res
    → IsU256 (first_four res) × (value (first_four res) ≡ value res % 2 ^ 256)
first_four-value (a ∷ b ∷ c ∷ d ∷ rest) e l = (
  record { four = refl; limbs = (l.0, (l.1.0, (l.1.1.0, (l.1.1.1.0, tt)))) },
  omega (arith, l.0, l.1.0, l.1.1.0, l.1.1.1.0),
)
first_four-value [] e l = absurd (omega arith)
first_four-value (a ∷ []) e l = absurd (omega arith)
first_four-value (a ∷ b ∷ []) e l = absurd (omega arith)
first_four-value (a ∷ b ∷ c ∷ []) e l = absurd (omega arith)

-- The product of two words is the product of the numbers, modulo 2 ^ 256; it is again a word.
pub wrapping_mul-value :
    (a b : U256)
    → IsU256 a
    → IsU256 b
    → IsU256 (wrapping_mul a b) × (value (wrapping_mul a b) ≡ value a * value b % 2 ^ 256)
unfolding wrapping_mul
wrapping_mul-value a b ha hb =
    let res = mul_rows a b (zeros 8) in
    let low =
      first_four-value res (length-mul_rows a b (zeros 8))
        (mul_rows-Limbs a b (zeros 8) (Limbs-append (zeros 4) (zeros 4) zeros-Limbs zeros-Limbs)) in
    let whole : value (mul_rows a b (zeros 4 ++ zeros (length a))) ≡ value a * value b =
      omega (arith, mul_rows-value a b (zeros 4) (sym hb.four) ha.limbs hb.limbs zeros-Limbs) in
    (
      low.0,
      low.1
          ∙ ap (λ v. v % 2 ^ 256)
              (ap (λ n. value (mul_rows a b (zeros 4 ++ zeros n))) (sym ha.four) ∙ whole),
    )
  where
    zeros-Limbs : Limbs (zeros 4)
    zeros-Limbs = (omega arith, (omega arith, (omega arith, (omega arith, tt))))
