-- ===== src/Kernel/State/Prefix.antt =====
-- `iter_prefix` reads a range of the ascending keys and stops at the first that does not start with
-- the prefix (kernel/src/state.rs): it misses no entry.
use veilux_binary.Base.{false, [], ◌∷◌, Text, ◌≡◌, ◌≢◌, refl, sym, ◌∙◌, arith, keep, All, inl, inr}
use veilux_binary.Base.Order.{text_cmp, text_cmp_trans, text_ord, Ordering-cases}
use veilux_binary.Base.Map.{Map, IsSorted, Above}
use veilux_binary.Kernel.State.Defs.{StateTree, starts_with, range_from, take_prefix, iter_prefix}
use veilux_binary.Kernel.State.Root.{IsTree}
use Prim.Native.Nat.{Ordering}

-- A key below the prefix does not start with it.
below-starts_with : (p k : Text) → text_cmp k p ≡ Ordering.lt → starts_with p k ≡ false
unfolding text_cmp starts_with
below-starts_with [] [] h = cc
below-starts_with [] (k ∷ ks) h = cc
below-starts_with (p ∷ ps) [] h = refl
below-starts_with (p ∷ ps) (k ∷ ks) h = ground (arith, below-starts_with ps ks)

-- Above a key that is past the prefix, no key starts with it.
past-starts_with :
    (p k j : Text)
    → text_cmp k p ≢ Ordering.lt
    → starts_with p k ≡ false
    → text_cmp k j ≡ Ordering.lt
    → starts_with p j ≡ false
unfolding text_cmp starts_with
past-starts_with [] k j h n lt = cc
past-starts_with (p ∷ ps) [] j h n lt = absurd (h refl)
past-starts_with (p ∷ ps) (k ∷ ks) [] h n lt = cc
past-starts_with (p ∷ ps) (k ∷ ks) (j ∷ js) h n lt = ground (arith, past-starts_with ps ks js)

with_prefix : Text → Map Text Text → Map Text Text
with_prefix p = keep (λ e. starts_with p e.0)

keep_head :
    (p k v : Text) (m : Map Text Text)
    → starts_with p k ≡ false
    → with_prefix p ((k, v) ∷ m) ≡ with_prefix p m
unfolding with_prefix
keep_head p k v m h = rw h

none_past :
    (p k : Text) (m : Map Text Text)
    → text_cmp k p ≢ Ordering.lt
    → starts_with p k ≡ false
    → Above k m
    → with_prefix p m ≡ []
unfolding with_prefix
none_past p k [] h n a = refl
none_past p k ((j, w) ∷ m) h n a =
    ground (arith, none_past p k m h n a.1, past-starts_with p k j h n a.0)

-- No key is below the prefix.
abbrev FromPrefix : Text → Map Text Text → Type 0
FromPrefix p = All (λ e. text_cmp e.0 p ≢ Ordering.lt)

Above-FromPrefix :
    (p k : Text) (m : Map Text Text) → text_cmp k p ≢ Ordering.lt → Above k m → FromPrefix p m
Above-FromPrefix p k [] h a = tt
Above-FromPrefix p k ((j, w) ∷ m) h a =
    (λ lt. h (text_cmp_trans k j p a.0 lt), Above-FromPrefix p k m h a.1)

take_prefix-keep :
    (p : Text) (m : Map Text Text) → IsSorted m → FromPrefix p m → take_prefix p m ≡ with_prefix p m
unfolding take_prefix with_prefix
take_prefix-keep p [] s h = refl
take_prefix-keep p ((k, v) ∷ m) s h =
    ground (arith, take_prefix-keep p m s.1 h.1, none_past p k m h.0)

take_prefix-range_from :
    (p : Text) (m : Map Text Text) → IsSorted m → take_prefix p (range_from p m) ≡ with_prefix p m
unfolding range_from
take_prefix-range_from p [] s = unfold take_prefix with_prefix in refl
take_prefix-range_from p ((k, v) ∷ m) s = elim (Ordering-cases (text_cmp k p)) [
  | inl lt ↦
      rw (lt, range_from)
        (take_prefix-range_from p m s.1 ∙ sym (keep_head p k v m (below-starts_with p k lt)))
  | inr (inl eq) ↦ rw (eq, range_from) (take_prefix-keep p ((k, v) ∷ m) s (from (λ lt. cc)))
  | inr (inr gt) ↦ rw (gt, range_from) (take_prefix-keep p ((k, v) ∷ m) s (from (λ lt. cc)))
]
  where
    from : text_cmp k p ≢ Ordering.lt → FromPrefix p ((k, v) ∷ m)
    from h = (h, Above-FromPrefix p k m h s.0)

-- The prefix iteration of a well-formed tree yields exactly the entries whose key starts with the
-- prefix, in order.
pub iter_prefix-keep :
    (prefix : Text) (s : StateTree)
    → IsTree s
    → iter_prefix prefix s ≡ keep (λ e. starts_with prefix e.0) s.entries
unfolding iter_prefix with_prefix
iter_prefix-keep prefix s h = take_prefix-range_from prefix s.entries h
