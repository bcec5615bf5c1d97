-- ===== src/Base/Lists.antt =====
-- Lists over the native numbers, and text as a list of code points.
use Prim.Native.Nat.{ℕ, zero, suc, ◌+◌}
use Prim.Native.Char.{code}
use Prim.Native.String.{String}
use mathlib.Core.Path.{◌≡◌, refl, ap, ap₂}
use mathlib.Core.Logic.{◌≢◌}
use mathlib.Core.List.{List, [], ◌∷◌, ◌++◌}
use mathlib.Core.Option.{Option, none, some}
use mathlib.Core.Bool.{Bool}
use native.Mathlib.Omega.{arith}
use veilux_binary.Base.Tests.{if◌then◌else◌}

module _ {ℓ} {A : Type ℓ} where
  abbrev pub length : List A → ℕ
  length [] = 0
  length (x ∷ xs) = suc (length xs)

  abbrev pub get_elem? : List A → ℕ → Option A
  get_elem? [] i = none
  get_elem? (x ∷ xs) zero = some x
  get_elem? (x ∷ xs) (suc i) = get_elem? xs i

  pub length-append : (xs ys : List A) → length (xs ++ ys) ≡ length xs + length ys
  length-append [] ys = omega arith
  length-append (x ∷ xs) ys = omega (arith, length-append xs ys)

  -- Iterator::filter with a test.
  abbrev pub keep : (A → Bool) → List A → List A
  keep p [] = []
  keep p (x ∷ xs) = if p x then x ∷ keep p xs else keep p xs

  abbrev pub All {κ} : (A → Type κ) → List A → Type κ
  All P [] = Unit
  All P (x ∷ xs) = P x × All P xs

module _ {A : Type 0} where
  pub append_injective :
      (xs ys us vs : List A) → length xs ≡ length ys → xs ++ us ≡ ys ++ vs → (xs ≡ ys) × (us ≡ vs)
  append_injective [] [] us vs h e = (refl, e)
  append_injective [] (y ∷ ys) us vs h e = absurd (omega arith)
  append_injective (x ∷ xs) [] us vs h e = absurd (omega arith)
  append_injective (x ∷ xs) (y ∷ ys) us vs h e =
      let tails = append_injective xs ys us vs (omega arith) (cc) in (ap₂ ◌∷◌ (cc) tails.0, tails.1)

  -- What stands before the first separator, and what stands behind it, is determined.
  pub separator_injective :
      (c : A) (xs ys us vs : List A)
      → All (λ x. x ≢ c) xs
      → All (λ y. y ≢ c) ys
      → xs ++ (c ∷ us) ≡ ys ++ (c ∷ vs)
      → (xs ≡ ys) × (us ≡ vs)
  separator_injective c [] [] us vs hx hy e = (refl, cc)
  separator_injective c [] (y ∷ ys) us vs hx hy e = absurd (hy.0 (cc))
  separator_injective c (x ∷ xs) [] us vs hx hy e = absurd (hx.0 (cc))
  separator_injective c (x ∷ xs) (y ∷ ys) us vs hx hy e =
      let tails = separator_injective c xs ys us vs hx.1 hy.1 (cc) in
      (ap₂ ◌∷◌ (cc) tails.0, tails.1)

  pub append_cancel_right : (xs ys us : List A) → xs ++ us ≡ ys ++ us → xs ≡ ys
  append_cancel_right xs ys us e =
      (append_injective xs ys us us
        (omega (arith, length-append {0} xs us, length-append {0} ys us, ap length e)) e).0

-- A Rust `String` or byte vector, as its bytes.
abbrev pub Text : Type 0
Text = List ℕ

-- The bytes of a literal.
unfoldable pub lit : String → Text
lit String.[] = []
lit (String.◌∷◌ c s) = code c ∷ lit s
