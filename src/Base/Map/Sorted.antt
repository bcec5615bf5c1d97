-- ===== src/Base/Map/Sorted.antt =====
-- The representation of a map is determined by its contents: the keys ascend.
use veilux_binary.Base.Order.{Ord, same, Ordering-cases}
use veilux_binary.Base.Map.Entries.{Map, get, insert, remove, get-insert}
use Prim.Native.Nat.{Ordering}
use mathlib.Core.Path.{◌≡◌, refl, sym, ap₂, ◌∙◌, subst}
use mathlib.Core.Bool.{false}
use mathlib.Core.Option.{none, some}
use mathlib.Core.List.{[], ◌∷◌}
use mathlib.Core.Logic.{◌≢◌, inl, inr}
use native.Mathlib.Omega.{arith}

module _ {K V : Type 0} ⦃o : Ord K⦄ where
  -- Every key of the map is greater than `k`.
  abbrev pub Above : K → Map K V → Type 0
  Above k [] = Unit
  Above k ((j, w) ∷ m) = (o.cmp k j ≡ Ordering.lt) × Above k m

  abbrev pub IsSorted : Map K V → Type 0
  IsSorted [] = Unit
  IsSorted ((k, v) ∷ m) = Above k m × IsSorted m

  pub Above-trans : (i k : K) (m : Map K V) → o.cmp i k ≡ Ordering.lt → Above k m → Above i m
  Above-trans i k [] h a = tt
  Above-trans i k ((j, w) ∷ m) h a = (o.cmp_trans i k j h a.0, Above-trans i k m h a.1)

  Above-insert :
      (i k : K) (v : V) (m : Map K V) → o.cmp i k ≡ Ordering.lt → Above i m → Above i (insert k v m)
  unfolding insert
  Above-insert i k v [] h a = (h, tt)
  Above-insert i k v ((j, w) ∷ m) h a = ground (arith, Above-insert i k v m h a.1)

  Above-remove : (i k : K) (m : Map K V) → Above i m → Above i (remove k m)
  unfolding remove
  Above-remove i k [] a = tt
  Above-remove i k ((j, w) ∷ m) a = ground (arith, Above-remove i k m a.1)

  pub insert-IsSorted : (k : K) (v : V) (m : Map K V) → IsSorted m → IsSorted (insert k v m)
  unfolding insert
  insert-IsSorted k v [] s = (tt, tt)
  insert-IsSorted k v ((j, w) ∷ m) s = ground (
    arith,
    insert-IsSorted k v m s.1,
    Above-trans k j m,
    Above-insert j k v m,
    o.cmp_gt k j,
    o.cmp_eq k j,
  )

  pub remove-IsSorted : (k : K) (m : Map K V) → IsSorted m → IsSorted (remove k m)
  unfolding remove
  remove-IsSorted k [] s = tt
  remove-IsSorted k ((j, w) ∷ m) s = ground (arith, remove-IsSorted k m s.1, Above-remove j k m)

  pub get-Above : (k : K) (m : Map K V) → Above k m → get k m ≡ none
  unfolding get
  get-Above k [] a = refl
  get-Above k ((j, w) ∷ m) a = ground (arith, get-Above k m a.1)

  get_head : (k : K) (v : V) (m : Map K V) → get k ((k, v) ∷ m) ≡ some v
  unfolding get
  get_head k v m = ground (arith, o.cmp_refl k)

  -- A key that is below every key of the other map is missing there.
  smaller_head :
      (k j : K) (v w : V) (a b : Map K V)
      → Above j b
      → o.cmp k j ≡ Ordering.lt
      → get k ((k, v) ∷ a) ≢ get k ((j, w) ∷ b)
  smaller_head k j v w a b above e h =
      ground (arith, h, get-Above k ((j, w) ∷ b) (e, Above-trans k j b e above), get_head k v a)

  equal_tails :
      (k : K) (v w : V) (a b : Map K V)
      → Above k a
      → Above k b
      → ((i : K) → get i ((k, v) ∷ a) ≡ get i ((k, w) ∷ b))
      → (i : K) → get i a ≡ get i b
  unfolding get
  equal_tails k v w a b above_a above_b h i =
      ground (arith, h i, get-Above k a above_a, get-Above k b above_b, o.cmp_eq i k)

  equal_entries : (k j : K) (v w : V) → k ≡ j → some v ≡ some w → ◌≡◌ {A = K × V} (k, v) (j, w)
  equal_entries k j v w h e = ground arith

  -- Two sorted maps that answer every lookup alike are the same list.
  pub sorted_ext : (a b : Map K V) → IsSorted a → IsSorted b → ((k : K) → get k a ≡ get k b) → a ≡ b
  unfolding get
  sorted_ext [] [] sa sb h = refl
  sorted_ext [] ((j, w) ∷ b) sa sb h = absurd (ground (arith, h j, o.cmp_refl j))
  sorted_ext ((k, v) ∷ a) [] sa sb h = absurd (ground (arith, h k, o.cmp_refl k))
  sorted_ext ((k, v) ∷ a) ((j, w) ∷ b) sa sb h = elim (Ordering-cases (o.cmp k j)) [
    | inl lt ↦ absurd (smaller_head k j v w a b sb.0 lt (h k))
    | inr (inl eq) ↦
        let keys = o.cmp_eq k j eq in
        let b_above : Above k b = rw keys sb.0 in
        let values : (i : K) → get i ((k, v) ∷ a) ≡ get i ((k, w) ∷ b) =
          subst (λ x. (i : K) → get i ((k, v) ∷ a) ≡ get i ((x, w) ∷ b)) (sym keys) h in
        ap₂ ◌∷◌ (equal_entries k j v w keys (sym (get_head k v a) ∙ (values k ∙ get_head k w b)))
          (sorted_ext a b sa.1 sb.1 (equal_tails k v w a b sa.0 b_above values))
    | inr (inr gt) ↦ absurd (smaller_head j k w v b a sa.0 (o.cmp_gt k j gt) (sym (h j)))
  ]

  pub insert_comm :
      (k j : K) (v w : V) (m : Map K V)
      → IsSorted m
      → same k j ≡ false
      → insert k v (insert j w m) ≡ insert j w (insert k v m)
  insert_comm k j v w m s ne =
      sorted_ext (insert k v (insert j w m)) (insert j w (insert k v m))
        (insert-IsSorted k v (insert j w m) (insert-IsSorted j w m s))
        (insert-IsSorted j w (insert k v m) (insert-IsSorted k v m s))
        λ i. ground (
          arith,
          get-insert k i v (insert j w m),
          get-insert j i w m,
          get-insert j i w (insert k v m),
          get-insert k i v m,
          o.cmp_eq i k,
          o.cmp_eq i j,
          o.cmp_refl i,
        )
