-- ===== src/Evm/U256.antt =====
-- The 256-bit words of the EVM (evm/src/u256.rs): four limbs of 64 bits, the lowest first.
pub mod Value
pub mod Sum
pub mod Product
pub mod Bytes
use Prim.Native.Nat.{bit_and, bit_or, bit_xor}
use veilux_binary.Base.{
  ℕ, zero, suc, ◌+◌, ◌-◌, ◌*◌, ◌/◌, ◌%◌, ◌^◌, Bool, true, false, not, ◌&&◌, ◌||◌, Option, none,
  some, List, [], ◌∷◌, ◌++◌, Text, map, ltb, leb, ◌==◌, if◌then◌else◌, u64_mod, length, get_elem?,
  Ordering, compare,
}
use veilux_binary.Kernel.Hash.{be_bytes}
use veilux_binary.Evm.Bytes.{be_value, take, drop}

-- `struct U256([u64; 4])`
abbrev pub U256 : Type 0
U256 = List ℕ

abbrev pub zero_word : U256
zero_word = 0 ∷ 0 ∷ 0 ∷ 0 ∷ []

abbrev pub one_word : U256
one_word = 1 ∷ 0 ∷ 0 ∷ 0 ∷ []

unfoldable pub from_u64 : ℕ → U256
from_u64 v = v ∷ 0 ∷ 0 ∷ 0 ∷ []

-- `self.0[i]`, within the four limbs.
abbrev pub limb : U256 → ℕ → ℕ
limb [] i = 0
limb (w ∷ ws) zero = w
limb (w ∷ ws) (suc i) = limb ws i

unfoldable pub is_zero : U256 → Bool
is_zero [] = true
is_zero (w ∷ ws) = w == 0 && is_zero ws

unfoldable pub low_u64 : U256 → ℕ
low_u64 a = limb a 0

unfoldable pub low_u64_saturating : U256 → ℕ
low_u64_saturating a =
    if limb a 1 == 0 && (limb a 2 == 0 && limb a 3 == 0) then limb a 0 else u64_mod - 1

unfoldable pub low_usize : U256 → ℕ
low_usize a = limb a 0

unfoldable pub bits_fit_usize : U256 → Bool
bits_fit_usize a =
    limb a 1 == 0 && (limb a 2 == 0 && (limb a 3 == 0 && leb (limb a 0) (u64_mod - 1)))

-- The loop of `overflowing_add`, with its carry.
unfoldable pub add_limbs : U256 → U256 → ℕ → U256 × ℕ
add_limbs (a ∷ as_) (b ∷ bs) carry =
    let (rest, out) = add_limbs as_ bs ((a + b + carry) / u64_mod) in
    ((a + b + carry) % u64_mod ∷ rest, out)
add_limbs as_ bs carry = ([], carry)

unfoldable pub overflowing_add : U256 → U256 → U256 × Bool
overflowing_add a b = let (res, carry) = add_limbs a b 0 in (res, not (carry == 0))

unfoldable pub wrapping_add : U256 → U256 → U256
wrapping_add a b = (overflowing_add a b).0

-- The loop of `overflowing_sub`, with its borrow.
unfoldable pub sub_limbs : U256 → U256 → ℕ → U256 × ℕ
sub_limbs (a ∷ as_) (b ∷ bs) borrow =
    let (rest, out) = sub_limbs as_ bs (if ltb a (b + borrow) then 1 else 0) in
    ((if ltb a (b + borrow) then a + u64_mod - (b + borrow) else a - (b + borrow)) ∷ rest, out)
sub_limbs as_ bs borrow = ([], borrow)

unfoldable pub overflowing_sub : U256 → U256 → U256 × Bool
overflowing_sub a b = let (res, borrow) = sub_limbs a b 0 in (res, not (borrow == 0))

unfoldable pub wrapping_sub : U256 → U256 → U256
wrapping_sub a b = (overflowing_sub a b).0

-- The inner loop of `wrapping_mul`: one limb times all of `rhs`, added to the result from there on;
-- at the end the carry goes to the next limb, in 64 bits.
unfoldable pub mul_row : ℕ → U256 → ℕ → List ℕ → List ℕ
mul_row a [] carry [] = []
mul_row a [] carry (r ∷ rs) = (r + carry) % u64_mod ∷ rs
mul_row a (b ∷ bs) carry [] = []
mul_row a (b ∷ bs) carry (r ∷ rs) =
    (r + a * b + carry) % u64_mod ∷ mul_row a bs ((r + a * b + carry) / u64_mod) rs

-- The outer loop: the limb `i` works on the result from `i` on.
unfoldable pub mul_rows : U256 → U256 → List ℕ → List ℕ
mul_rows [] rhs res = res
mul_rows (a ∷ as_) rhs res = elim (mul_row a rhs 0 res) [
  | [] ↦ []
  | r ∷ rs ↦ r ∷ mul_rows as_ rhs rs
]

abbrev pub first_four : List ℕ → U256
first_four res = limb res 0 ∷ limb res 1 ∷ limb res 2 ∷ limb res 3 ∷ []

unfoldable pub wrapping_mul : U256 → U256 → U256
wrapping_mul a b = first_four (mul_rows a b (0 ∷ 0 ∷ 0 ∷ 0 ∷ 0 ∷ 0 ∷ 0 ∷ 0 ∷ []))

-- From the highest limb down.
unfoldable pub cmp_u : U256 → U256 → Ordering
cmp_u (a ∷ as_) (b ∷ bs) = elim (cmp_u as_ bs) [
  | Ordering.eq ↦ compare a b
  | Ordering.lt ↦ Ordering.lt
  | Ordering.gt ↦ Ordering.gt
]
cmp_u as_ bs = Ordering.eq

unfoldable pub is_less : U256 → U256 → Bool
is_less a b = elim (cmp_u a b) [ Ordering.lt ↦ true | _ ↦ false ]

unfoldable pub bit : U256 → ℕ → Bool
bit a i = if leb 256 i then false else limb a (i / 64) / 2 ^ (i % 64) % 2 == 1

-- The loop of `bit_len`, downwards from `n`.
unfoldable pub bit_len_from : ℕ → U256 → ℕ
bit_len_from zero a = 0
bit_len_from (suc i) a = let rest = bit_len_from i a in if bit a i then i + 1 else rest

unfoldable pub bit_len : U256 → ℕ
bit_len a = bit_len_from 256 a

-- `out[i] |= v`
unfoldable pub or_at : ℕ → ℕ → U256 → U256
or_at i v [] = []
or_at zero v (w ∷ ws) = bit_or w v ∷ ws
or_at (suc i) v (w ∷ ws) = w ∷ or_at i v ws

-- The body of the loop of `shl`.
unfoldable pub shl_limb : ℕ → ℕ → U256 → ℕ → U256 → U256
shl_limb word bits a i out =
    if ltb (i + word) 4
    then (let out' = or_at (i + word) (limb a i * 2 ^ bits % u64_mod) out in
        if ltb 0 bits && ltb (i + word + 1) 4
        then or_at (i + word + 1) (limb a i / 2 ^ (64 - bits)) out'
        else out')
    else out

unfoldable pub shl : U256 → ℕ → U256
unfolding shl_limb
shl a sh =
    let round = shl_limb (sh / 64) (sh % 64) a in
    if leb 256 sh then zero_word else round 3 (round 2 (round 1 (round 0 zero_word)))

-- The body of the loop of `shr`.
unfoldable pub shr_limb : ℕ → ℕ → U256 → ℕ → U256 → U256
shr_limb word bits a i out =
    if leb word i
    then (let out' = or_at (i - word) (limb a i / 2 ^ bits) out in
        if ltb 0 bits && leb 1 (i - word)
        then or_at (i - word - 1) (limb a i * 2 ^ (64 - bits) % u64_mod) out'
        else out')
    else out

unfoldable pub shr : U256 → ℕ → U256
unfolding shr_limb
shr a sh =
    let round = shr_limb (sh / 64) (sh % 64) a in
    if leb 256 sh then zero_word else round 3 (round 2 (round 1 (round 0 zero_word)))

-- The body of the loop of `div_mod`, on the quotient and the remainder.
unfoldable pub div_step : U256 → U256 → ℕ → U256 × U256 → U256 × U256
div_step a rhs i (q, rem) =
    let shifted = shl rem 1 in
    let rem' = if bit a i then or_at 0 1 shifted else shifted in
    if not (is_less rem' rhs)
    then (or_at (i / 64) (2 ^ (i % 64)) q, wrapping_sub rem' rhs)
    else (q, rem')

-- `for i in (0..n).rev()`
unfoldable pub div_loop : ℕ → U256 → U256 → U256 × U256 → U256 × U256
div_loop zero a rhs acc = acc
div_loop (suc i) a rhs acc = div_loop i a rhs (div_step a rhs i acc)

unfoldable pub div_mod : U256 → U256 → U256 × U256
div_mod a rhs =
    if is_zero rhs
    then (zero_word, zero_word)
    else (if is_less a rhs
        then (zero_word, a)
        else div_loop (bit_len a) a rhs (zero_word, zero_word))

abbrev pub zip_with : (ℕ → ℕ → ℕ) → U256 → U256 → U256
zip_with f (a ∷ as_) (b ∷ bs) = f a b ∷ zip_with f as_ bs
zip_with f as_ bs = []

unfoldable pub word_and : U256 → U256 → U256
word_and = zip_with bit_and

unfoldable pub word_or : U256 → U256 → U256
word_or = zip_with bit_or

unfoldable pub word_xor : U256 → U256 → U256
word_xor = zip_with bit_xor

unfoldable pub word_not : U256 → U256
word_not [] = []
word_not (a ∷ as_) = (u64_mod - 1 - a) ∷ word_not as_

unfoldable pub is_neg : U256 → Bool
is_neg a = bit a 255

unfoldable pub neg : U256 → U256
neg a = wrapping_add (word_not a) one_word

-- `from_big_endian`: the bytes, filled up with zeros in front, eight for each limb.
abbrev pub zero_bytes : ℕ → Text
zero_bytes zero = []
zero_bytes (suc n) = 0 ∷ zero_bytes n

-- The buffer of 32 bytes: zeros, then the last bytes of the input.
unfoldable pub buffer : Text → Text
buffer bytes = zero_bytes (32 - length bytes) ++ drop (length bytes - 32) bytes

unfoldable pub from_big_endian : Text → U256
unfolding buffer
from_big_endian bytes =
    let limb_at = λ (i : ℕ). be_value 0 (take 8 (drop (i * 8) (buffer bytes))) in
    limb_at 3 ∷ limb_at 2 ∷ limb_at 1 ∷ limb_at 0 ∷ []

unfoldable pub to_big_endian : U256 → Text
to_big_endian a =
    be_bytes 8 (limb a 3)
    ++ (be_bytes 8 (limb a 2) ++ (be_bytes 8 (limb a 1) ++ be_bytes 8 (limb a 0)))
