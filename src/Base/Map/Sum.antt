-- ===== src/Base/Map/Sum.antt =====
-- The sum of the numbers that a map holds.
use veilux_binary.Base.Order.{Ord}
use veilux_binary.Base.Map.Entries.{Map, get, insert, remove}
use veilux_binary.Base.Map.Sorted.{IsSorted, Above, Above-trans, get-Above}
use Prim.Native.Nat.{ℕ, ◌+◌, Ordering}
use mathlib.Core.Path.{◌≡◌, refl, sym, subst}
use mathlib.Core.Option.{Option, none, some}
use mathlib.Core.List.{[], ◌∷◌}
use native.Mathlib.Omega.{arith}

abbrev pub or_zero : Option ℕ → ℕ
or_zero none = 0
or_zero (some n) = n

module _ {K : Type 0} where
  abbrev pub sum : Map K ℕ → ℕ
  sum [] = 0
  sum ((k, n) ∷ m) = n + sum m

module _ {K : Type 0} ⦃o : Ord K⦄ where
  pub sum-insert :
      (k : K) (n : ℕ) (m : Map K ℕ)
      → IsSorted m
      → sum (insert k n m) + or_zero (get k m) ≡ sum m + n
  unfolding insert get
  sum-insert k n [] s = omega arith
  sum-insert k n ((j, w) ∷ m) s =
      ground (arith, sum-insert k n m s.1, get-Above k m, Above-trans k j m)

  sum-remove_absent : (k : K) (m : Map K ℕ) → Above k m → sum (remove k m) ≡ sum m
  unfolding remove
  sum-remove_absent k [] a = refl
  sum-remove_absent k ((j, w) ∷ m) a = ground (arith, sum-remove_absent k m a.1)

  pub sum-remove : (k : K) (m : Map K ℕ) → IsSorted m → sum (remove k m) + or_zero (get k m) ≡ sum m
  unfolding remove get
  sum-remove k [] s = refl
  sum-remove k ((j, w) ∷ m) s = ground (arith, sum-remove k m s.1, o.cmp_eq k j, head k j w m s.0)
    where
      head :
          (a b : K) (v : ℕ) (r : Map K ℕ)
          → Above b r
          → o.cmp a b ≡ Ordering.eq
          → sum (remove a r) ≡ sum r
      head a b v r h e = sum-remove_absent a r (subst (λ q. Above q r) (sym (o.cmp_eq a b e)) h)
