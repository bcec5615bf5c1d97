-- ===== src/Evm/U256/Bytes.antt =====
-- The bytes of a word (evm/src/u256.rs).
use veilux_binary.Base.{
  ℕ, zero, suc, ◌+◌, ◌≡◌, ◌<◌, refl, ap, ◌∙◌, [], ◌∷◌, ◌++◌, Text, arith, u64_mod, length,
  length-append,
}
use veilux_binary.Kernel.Hash.{be_bytes}
use veilux_binary.Evm.Bytes.{be_value, be_value-be_bytes, length-be_bytes, take, drop}
use veilux_binary.Evm.U256.{U256, to_big_endian, from_big_endian, buffer}
use veilux_binary.Evm.U256.Value.{IsU256}

-- Four groups of eight bytes.
record IsGroups (p q r s : Text) : Type 0 where
  first : length p ≡ 8
  second : length q ≡ 8
  third : length r ≡ 8
  last : length s ≡ 8

take-append : (n : ℕ) (xs ys : Text) → length xs ≡ n → take n (xs ++ ys) ≡ xs
take-append zero [] ys h = refl
take-append zero (x ∷ xs) ys h = absurd (omega arith)
take-append (suc n) [] ys h = absurd (omega arith)
take-append (suc n) (x ∷ xs) ys h = ap (λ t. x ∷ t) (take-append n xs ys (omega arith))

take-all : (n : ℕ) (xs : Text) → length xs ≡ n → take n xs ≡ xs
take-all zero [] h = refl
take-all zero (x ∷ xs) h = absurd (omega arith)
take-all (suc n) [] h = absurd (omega arith)
take-all (suc n) (x ∷ xs) h = ap (λ t. x ∷ t) (take-all n xs (omega arith))

drop-append : (n m : ℕ) (xs ys : Text) → length xs ≡ n → drop (n + m) (xs ++ ys) ≡ drop m ys
drop-append zero m [] ys h = let e : 0 + m ≡ m = omega arith in ap (λ k. drop k ys) e
drop-append zero m (x ∷ xs) ys h = absurd (omega arith)
drop-append (suc n) m [] ys h = absurd (omega arith)
drop-append (suc n) m (x ∷ xs) ys h =
    let e : suc n + m ≡ suc (n + m) = omega arith in
    ap (λ k. drop k (x ∷ (xs ++ ys))) e ∙ drop-append n m xs ys (omega arith)

buffer-full : (bytes : Text) → length bytes ≡ 32 → buffer bytes ≡ bytes
unfolding buffer
buffer-full bytes h = rw (h) refl

groups-length : (p q r s : Text) → IsGroups p q r s → length (p ++ (q ++ (r ++ s))) ≡ 32
groups-length p q r s h = omega (
  arith,
  length-append {0} p (q ++ (r ++ s)),
  length-append {0} q (r ++ s),
  length-append {0} r s,
  h.first,
  h.second,
  h.third,
  h.last,
)

from_big_endian-groups :
    (p q r s : Text)
    → IsGroups p q r s
    → from_big_endian (p ++ (q ++ (r ++ s)))
      ≡ be_value 0 s ∷ be_value 0 r ∷ be_value 0 q ∷ be_value 0 p ∷ []
unfolding from_big_endian
from_big_endian-groups p q r s h =
    rw (buffer-full (p ++ (q ++ (r ++ s))) (groups-length p q r s h)) (
      let rest = r ++ s in
      let at_8 = drop-append 8 0 p (q ++ rest) h.first in
      let at_16 = drop-append 8 8 p (q ++ rest) h.first ∙ drop-append 8 0 q rest h.second in
      let at_24 =
        drop-append 8 16 p (q ++ rest) h.first
        ∙ drop-append 8 8 q rest h.second
        ∙ drop-append 8 0 r s h.third in
      rw
        (
          at_24,
          at_16,
          at_8,
          take-append 8 p (q ++ rest) h.first,
          take-append 8 q rest h.second,
          take-append 8 r s h.third,
          take-all 8 s h.last,
        )
        refl)

be_value-limb : (w : ℕ) → w < u64_mod → be_value 0 (be_bytes 8 w) ≡ w
be_value-limb w h = be_value-be_bytes 8 w (omega arith) h

-- A word reads back from its bytes.
pub from_big_endian-to_big_endian : (a : U256) → IsU256 a → from_big_endian (to_big_endian a) ≡ a
unfolding to_big_endian
from_big_endian-to_big_endian [] h = absurd (omega (arith, h.four))
from_big_endian-to_big_endian (a ∷ []) h = absurd (omega (arith, h.four))
from_big_endian-to_big_endian (a ∷ b ∷ []) h = absurd (omega (arith, h.four))
from_big_endian-to_big_endian (a ∷ b ∷ c ∷ []) h = absurd (omega (arith, h.four))
from_big_endian-to_big_endian (a ∷ b ∷ c ∷ d ∷ e ∷ rest) h = absurd (omega (arith, h.four))
from_big_endian-to_big_endian (a ∷ b ∷ c ∷ d ∷ []) h =
    from_big_endian-groups (be_bytes 8 d) (be_bytes 8 c) (be_bytes 8 b) (be_bytes 8 a) (record {
      first = length-be_bytes 8 d;
      second = length-be_bytes 8 c;
      third = length-be_bytes 8 b;
      last = length-be_bytes 8 a;
    })
    ∙ rw
        (
          be_value-limb a h.limbs.0,
          be_value-limb b h.limbs.1.0,
          be_value-limb c h.limbs.1.1.0,
          be_value-limb d h.limbs.1.1.1.0,
        )
        refl
