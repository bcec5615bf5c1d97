-- ===== src/Base/Decimal.antt =====
-- Rust's `u128::to_string` and `str::parse::<u128>`.
use veilux_binary.Base.Tests.{ltb, leb, ◌==◌, if◌then◌else◌, Bool-cases}
use veilux_binary.Base.Lists.{Text}
use veilux_binary.Base.Word.{u128_mod}
use Prim.Native.Nat.{ℕ, zero, suc, ◌+◌, ◌-◌, ◌*◌, ◌/◌, ◌%◌, ◌≤◌, ◌<◌}
use mathlib.Core.Path.{◌≡◌, refl, ◌∙◌}
use mathlib.Core.Bool.{false, ◌&&◌}
use mathlib.Core.Option.{Option, none, some}
use mathlib.Core.List.{[], ◌∷◌}
use mathlib.Core.Logic.{inl, inr}
use native.Mathlib.Omega.{arith}

-- The digits of `n` before `tail`, the last digit first.
print_digits : ℕ → ℕ → Text → Text
print_digits zero n tail = tail
print_digits (suc fuel) n tail =
    let rest = print_digits fuel (n / 10) ((48 + n % 10) ∷ tail) in
    if ltb n 10 then (48 + n) ∷ tail else rest

-- No `u128` has more than 39 digits.
unfoldable pub to_decimal : ℕ → Text
unfolding print_digits
to_decimal n = print_digits 39 n []

-- `none` on a character that is no digit and on a number that does not fit.
parse_digits : ℕ → Text → Option ℕ
parse_digits acc [] = some acc
parse_digits acc (c ∷ cs) =
    let rest = parse_digits (acc * 10 + (c - 48)) cs in
    if leb 48 c && leb c 57 && ltb (acc * 10 + (c - 48)) u128_mod then rest else none

parse_signed : Text → Option ℕ
unfolding parse_digits
parse_signed [] = none
parse_signed (c ∷ cs) = parse_digits 0 (c ∷ cs)

unfoldable pub parse_u128 : Text → Option ℕ
unfolding parse_digits parse_signed
parse_u128 [] = none
parse_u128 (c ∷ cs) = if c == b'+' then parse_signed cs else parse_digits 0 (c ∷ cs)

-- `n` has at most `k` decimal digits.
abbrev Fits : ℕ → ℕ → Type 0
Fits zero n = n ≡ 0
Fits (suc k) n = Fits k (n / 10)

parse_digits-print_digits :
    (fuel n : ℕ) (tail : Text)
    → 0 < fuel
    → Fits fuel n
    → n < u128_mod
    → parse_digits 0 (print_digits fuel n tail) ≡ parse_digits n tail
unfolding print_digits parse_digits
parse_digits-print_digits zero n tail p h b = absurd (omega arith)
parse_digits-print_digits (suc fuel) n tail p h b = elim (Bool-cases (ltb n 10)) [
  | inl small ↦ rw small (ground arith)
  | inr large ↦ rw large (
      parse_digits-print_digits fuel (n / 10) ((48 + n % 10) ∷ tail) (more fuel h large) h
        (omega arith)
      ∙ last_digit (n / 10) (n % 10) n tail (omega arith) (omega arith) b)
]
  where
    more : (k : ℕ) → Fits k (n / 10) → ltb n 10 ≡ false → 0 < k
    more zero e l = absurd (ground arith)
    more (suc k) e l = omega arith

    last_digit :
        (q d m : ℕ) (t : Text)
        → d < 10
        → m ≡ q * 10 + d
        → m < u128_mod
        → parse_digits q ((48 + d) ∷ t) ≡ parse_digits m t
    last_digit q d m t hd e hm =
        let value : q * 10 + (48 + d - 48) ≡ m = omega arith in rw value (ground arith)

-- The text begins with a digit.
abbrev DigitFirst : Text → Type 0
DigitFirst [] = ⊥
DigitFirst (c ∷ cs) = 48 ≤ c

print_digits-DigitFirst :
    (fuel n : ℕ) (tail : Text) → DigitFirst tail → DigitFirst (print_digits fuel n tail)
unfolding print_digits
print_digits-DigitFirst zero n tail h = h
print_digits-DigitFirst (suc fuel) n tail h =
    ground (arith, print_digits-DigitFirst fuel (n / 10) ((48 + n % 10) ∷ tail))

print_digits-first : (fuel n : ℕ) → DigitFirst (print_digits (suc fuel) n [])
unfolding print_digits
print_digits-first fuel n =
    ground (arith, print_digits-DigitFirst fuel (n / 10) ((48 + n % 10) ∷ []))

parse_u128-digits : (t : Text) → DigitFirst t → parse_u128 t ≡ parse_digits 0 t
unfolding parse_u128
parse_u128-digits [] h = absurd h
parse_u128-digits (c ∷ cs) h = ground arith

pub parse_u128-to_decimal : (n : ℕ) → n < u128_mod → parse_u128 (to_decimal n) ≡ some n
unfolding to_decimal
parse_u128-to_decimal n h =
    parse_u128-digits (print_digits 39 n []) (print_digits-first 38 n)
    ∙ (parse_digits-print_digits 39 n [] (omega arith) (omega arith) h
        ∙ (unfold parse_digits in refl))

parse_digits-bound :
    (acc : ℕ) (t : Text) (n : ℕ) → acc < u128_mod → parse_digits acc t ≡ some n → n < u128_mod
unfolding parse_digits
parse_digits-bound acc [] n h e = ground arith
parse_digits-bound acc (c ∷ cs) n h e =
    ground (arith, parse_digits-bound (acc * 10 + (c - 48)) cs n)

-- What parses is a `u128`.
pub parse_u128-bound : (t : Text) (n : ℕ) → parse_u128 t ≡ some n → n < u128_mod
unfolding parse_u128 parse_signed
parse_u128-bound [] n e = ground arith
parse_u128-bound (c ∷ []) n e = ground (arith, parse_digits-bound 0 (c ∷ []) n)
parse_u128-bound (c ∷ d ∷ cs) n e =
    ground (arith, parse_digits-bound 0 (c ∷ d ∷ cs) n, parse_digits-bound 0 (d ∷ cs) n)
