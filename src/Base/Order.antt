-- ===== src/Base/Order.antt =====
-- Total orders as an interface, with the orders of numbers, of bytes strings and of pairs.
use Prim.Native.Nat.{ℕ, compare, Ordering}
use mathlib.Core.Path.{◌≡◌, refl}
use mathlib.Core.Bool.{Bool, true, false}
use mathlib.Core.Logic.{◌≢◌, ◌⊎◌, inl, inr}
use mathlib.Core.List.{[], ◌∷◌}
use native.Mathlib.Omega.{arith}
use veilux_binary.Base.Lists.{Text}

pub record Ord (K : Type 0) : Type 0 where
  pub cmp : K → K → Ordering
  pub cmp_eq : (a b : K) → cmp a b ≡ Ordering.eq → a ≡ b
  pub cmp_refl : (a : K) → cmp a a ≡ Ordering.eq
  pub cmp_lt : (a b : K) → cmp a b ≡ Ordering.lt → cmp b a ≡ Ordering.gt
  pub cmp_gt : (a b : K) → cmp a b ≡ Ordering.gt → cmp b a ≡ Ordering.lt
  pub cmp_trans :
      (a b c : K) → cmp a b ≡ Ordering.lt → cmp b c ≡ Ordering.lt → cmp a c ≡ Ordering.lt

module _ {K : Type 0} ⦃o : Ord K⦄ where
  abbrev pub same : K → K → Bool
  same a b = elim (o.cmp a b) [ Ordering.eq ↦ true | _ ↦ false ]

  pub same_refl : (a : K) → same a a ≡ true
  same_refl a = ground (arith, o.cmp_refl a)

  pub same_eq : (a b : K) → same a b ≡ true → a ≡ b
  same_eq a b h = ground (arith, o.cmp_eq a b)

  pub same_ne : (a b : K) → a ≢ b → same a b ≡ false
  same_ne a b h = ground (arith, o.cmp_eq a b)

  pub same_sym : (a b : K) → same a b ≡ same b a
  same_sym a b = ground (arith, o.cmp_eq a b, o.cmp_eq b a, o.cmp_refl a)

pub Ordering-cases : (c : Ordering) → (c ≡ Ordering.lt) ⊎ ((c ≡ Ordering.eq) ⊎ (c ≡ Ordering.gt))
Ordering-cases Ordering.lt = inl refl
Ordering-cases Ordering.eq = inr (inl refl)
Ordering-cases Ordering.gt = inr (inr refl)

-- Numbers.
pub nat_cmp_eq : (a b : ℕ) → compare a b ≡ Ordering.eq → a ≡ b
nat_cmp_eq a b h = ground arith

pub nat_cmp_refl : (a : ℕ) → compare a a ≡ Ordering.eq
nat_cmp_refl a = ground arith

pub nat_cmp_lt : (a b : ℕ) → compare a b ≡ Ordering.lt → compare b a ≡ Ordering.gt
nat_cmp_lt a b h = ground arith

pub nat_cmp_gt : (a b : ℕ) → compare a b ≡ Ordering.gt → compare b a ≡ Ordering.lt
nat_cmp_gt a b h = ground arith

pub nat_cmp_trans :
    (a b c : ℕ) → compare a b ≡ Ordering.lt → compare b c ≡ Ordering.lt → compare a c ≡ Ordering.lt
nat_cmp_trans a b c h k = ground arith

instance abbrev pub nat_ord : Ord ℕ
nat_ord = record {
  cmp = compare;
  cmp_eq = nat_cmp_eq;
  cmp_refl = nat_cmp_refl;
  cmp_lt = nat_cmp_lt;
  cmp_gt = nat_cmp_gt;
  cmp_trans = nat_cmp_trans;
}

-- Bytes, in the order of Rust's `str` and `[u8]`: the first difference decides.
unfoldable pub text_cmp : Text → Text → Ordering
text_cmp [] [] = Ordering.eq
text_cmp [] (y ∷ ys) = Ordering.lt
text_cmp (x ∷ xs) [] = Ordering.gt
text_cmp (x ∷ xs) (y ∷ ys) =
    let rest = text_cmp xs ys in
    elim (compare x y) [
      | Ordering.lt ↦ Ordering.lt
      | Ordering.eq ↦ rest
      | Ordering.gt ↦ Ordering.gt
    ]

pub text_cmp_eq : (a b : Text) → text_cmp a b ≡ Ordering.eq → a ≡ b
unfolding text_cmp
text_cmp_eq [] [] h = refl
text_cmp_eq [] (y ∷ ys) h = cc
text_cmp_eq (x ∷ xs) [] h = cc
text_cmp_eq (x ∷ xs) (y ∷ ys) h = ground (arith, text_cmp_eq xs ys)

pub text_cmp_refl : (a : Text) → text_cmp a a ≡ Ordering.eq
unfolding text_cmp
text_cmp_refl [] = refl
text_cmp_refl (x ∷ xs) = ground (arith, text_cmp_refl xs)

pub text_cmp_lt : (a b : Text) → text_cmp a b ≡ Ordering.lt → text_cmp b a ≡ Ordering.gt
unfolding text_cmp
text_cmp_lt [] [] h = cc
text_cmp_lt [] (y ∷ ys) h = refl
text_cmp_lt (x ∷ xs) [] h = cc
text_cmp_lt (x ∷ xs) (y ∷ ys) h = ground (arith, text_cmp_lt xs ys)

pub text_cmp_gt : (a b : Text) → text_cmp a b ≡ Ordering.gt → text_cmp b a ≡ Ordering.lt
unfolding text_cmp
text_cmp_gt [] [] h = cc
text_cmp_gt [] (y ∷ ys) h = cc
text_cmp_gt (x ∷ xs) [] h = refl
text_cmp_gt (x ∷ xs) (y ∷ ys) h = ground (arith, text_cmp_gt xs ys)

pub text_cmp_trans :
    (a b c : Text)
    → text_cmp a b ≡ Ordering.lt
    → text_cmp b c ≡ Ordering.lt
    → text_cmp a c ≡ Ordering.lt
unfolding text_cmp
text_cmp_trans [] [] c h k = cc
text_cmp_trans [] (y ∷ ys) [] h k = cc
text_cmp_trans [] (y ∷ ys) (z ∷ zs) h k = refl
text_cmp_trans (x ∷ xs) [] c h k = cc
text_cmp_trans (x ∷ xs) (y ∷ ys) [] h k = cc
text_cmp_trans (x ∷ xs) (y ∷ ys) (z ∷ zs) h k = ground (arith, text_cmp_trans xs ys zs)

instance abbrev pub text_ord : Ord Text
text_ord = record {
  cmp = text_cmp;
  cmp_eq = text_cmp_eq;
  cmp_refl = text_cmp_refl;
  cmp_lt = text_cmp_lt;
  cmp_gt = text_cmp_gt;
  cmp_trans = text_cmp_trans;
}

-- Pairs of numbers, by the first and then by the second.
unfoldable pub pair_cmp : ℕ × ℕ → ℕ × ℕ → Ordering
pair_cmp (a, b) (c, d) = elim (compare a c) [
  | Ordering.lt ↦ Ordering.lt
  | Ordering.eq ↦ compare b d
  | Ordering.gt ↦ Ordering.gt
]

pub pair_cmp_eq : (a b : ℕ × ℕ) → pair_cmp a b ≡ Ordering.eq → a ≡ b
unfolding pair_cmp
pair_cmp_eq (a, b) (c, d) h = ground arith

pub pair_cmp_refl : (a : ℕ × ℕ) → pair_cmp a a ≡ Ordering.eq
unfolding pair_cmp
pair_cmp_refl (a, b) = ground arith

pub pair_cmp_lt : (a b : ℕ × ℕ) → pair_cmp a b ≡ Ordering.lt → pair_cmp b a ≡ Ordering.gt
unfolding pair_cmp
pair_cmp_lt (a, b) (c, d) h = ground arith

pub pair_cmp_gt : (a b : ℕ × ℕ) → pair_cmp a b ≡ Ordering.gt → pair_cmp b a ≡ Ordering.lt
unfolding pair_cmp
pair_cmp_gt (a, b) (c, d) h = ground arith

pub pair_cmp_trans :
    (a b c : ℕ × ℕ)
    → pair_cmp a b ≡ Ordering.lt
    → pair_cmp b c ≡ Ordering.lt
    → pair_cmp a c ≡ Ordering.lt
unfolding pair_cmp
pair_cmp_trans (a, b) (c, d) (e, f) h k = ground arith

instance abbrev pub pair_ord : Ord (ℕ × ℕ)
pair_ord = record {
  cmp = pair_cmp;
  cmp_eq = pair_cmp_eq;
  cmp_refl = pair_cmp_refl;
  cmp_lt = pair_cmp_lt;
  cmp_gt = pair_cmp_gt;
  cmp_trans = pair_cmp_trans;
}
