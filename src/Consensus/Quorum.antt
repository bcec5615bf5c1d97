-- ===== src/Consensus/Quorum.antt =====
-- Two quorums for different blocks cannot come from one round (consensus/src/vote.rs and
-- consensus/src/validator.rs).
use veilux_binary.Base.{
  ℕ, ◌+◌, ◌*◌, ◌≡◌, ◌≤◌, ◌<◌, refl, ap, sym, subst, true, false, ◌||◌, Option, none, some, List, [],
  ◌∷◌, ◌++◌, arith, if◌then◌else◌, Bool-cases, inl, inr, keep, u64_mod, Ordering,
}
use veilux_binary.Base.Order.{same, same_refl, same_eq, text_ord, text_cmp}
use veilux_binary.Base.Map as Entries
use veilux_binary.Base.Map.{Map, IsSorted, Above, get-remove, remove-IsSorted}
use veilux_binary.Kernel.Hash.{Hash}
use veilux_binary.Kernel.Types.{PartyId, contains, IsDistinct}
use veilux_binary.Consensus.Validators.{
  Validator, ValidatorSet, is_validator, get_validator, values, sum_stakes, total_stake,
  quorum_threshold,
}
use veilux_binary.Consensus.Votes.{Ballot, voters_of, sum_power, power}
use veilux_binary.Consensus.Ballots.{IsBallot, one_block}

-- The stake that counts, without wrapping.
abbrev pub weight : Option Validator → ℕ
weight none = 0
weight (some v) = if v.active then v.stake else 0

abbrev pub whole : Map PartyId Validator → ℕ
whole [] = 0
whole ((k, v) ∷ m) = weight (some v) + whole m

whole-remove_absent :
    (k : PartyId) (m : Map PartyId Validator) → Above k m → whole (Entries.remove k m) ≡ whole m
unfolding Entries.remove
whole-remove_absent k [] a = refl
whole-remove_absent k ((j, w) ∷ m) a = ground (arith, whole-remove_absent k m a.1)

whole-remove :
    (k : PartyId) (m : Map PartyId Validator)
    → IsSorted m
    → whole (Entries.remove k m) + weight (Entries.get k m) ≡ whole m
unfolding Entries.remove Entries.get
whole-remove k [] s = refl
whole-remove k ((j, w) ∷ m) s =
    ground (arith, whole-remove k m s.1, text_ord.cmp_eq k j, head k j w m s.0)
  where
    head :
        (a b : PartyId) (v : Validator) (r : Map PartyId Validator)
        → Above b r
        → text_cmp a b ≡ Ordering.eq
        → whole (Entries.remove a r) ≡ whole r
    head a b v r h e =
        whole-remove_absent a r (subst (λ q. Above q r) (sym (text_ord.cmp_eq a b e)) h)

abbrev weights : Map PartyId Validator → List PartyId → ℕ
weights m [] = 0
weights m (p ∷ ps) = weight (Entries.get p m) + weights m ps

weights-remove :
    (p : PartyId) (ps : List PartyId) (m : Map PartyId Validator)
    → contains ps p ≡ false
    → weights (Entries.remove p m) ps ≡ weights m ps
unfolding contains
weights-remove p [] m n = refl
weights-remove p (q ∷ ps) m n = ground (arith, weights-remove p ps m, get-remove p q m)

weights-le :
    (ps : List PartyId) (m : Map PartyId Validator)
    → IsSorted m
    → IsDistinct ps
    → weights m ps ≤ whole m
weights-le [] m s d = omega arith
weights-le (p ∷ ps) m s d = omega (
  arith,
  weights-le ps (Entries.remove p m) (remove-IsSorted p m s) d.1,
  weights-remove p ps m d.0,
  whole-remove p m s,
)

weights-append :
    (ps qs : List PartyId) (m : Map PartyId Validator)
    → weights m (ps ++ qs) ≡ weights m ps + weights m qs
weights-append [] qs m = omega arith
weights-append (p ∷ ps) qs m = omega (arith, weights-append ps qs m)

contains-append :
    (ps qs : List PartyId) (p : PartyId) → contains (ps ++ qs) p ≡ (contains ps p || contains qs p)
unfolding contains
contains-append [] qs p = refl
contains-append (q ∷ ps) qs p = ground (arith, contains-append ps qs p)

append-IsDistinct :
    (ps qs : List PartyId)
    → IsDistinct ps
    → IsDistinct qs
    → ((p : PartyId) → contains ps p ≡ true → contains qs p ≡ false)
    → IsDistinct (ps ++ qs)
unfolding contains
append-IsDistinct [] qs dp dq n = dq
append-IsDistinct (p ∷ ps) qs dp dq n = (
  ground (arith, contains-append ps qs p, n p, same_refl p),
  append-IsDistinct ps qs dp.1 dq (λ q c. n q (ground arith)),
)

-- Every party of the list is an active validator.
abbrev pub AllActive : ValidatorSet → List PartyId → Type 0
AllActive set [] = Unit
AllActive set (p ∷ ps) = (is_validator set p ≡ true) × AllActive set ps

sum_power-le :
    (set : ValidatorSet) (ps : List PartyId)
    → AllActive set ps
    → sum_power set ps ≤ weights set.validators ps
unfolding sum_power is_validator get_validator
sum_power-le set [] a = omega arith
sum_power-le set (p ∷ ps) a = ground (arith, sum_power-le set ps a.1)

total_stake-whole :
    (set : ValidatorSet) → whole set.validators < u64_mod → total_stake set ≡ whole set.validators
unfolding total_stake values sum_stakes
total_stake-whole set h = go set.validators h
  where
    go :
        (m : Map PartyId Validator)
        → whole m < u64_mod
        → sum_stakes (keep (λ v. v.active) (values m)) ≡ whole m
    go [] h = refl
    go ((k, v) ∷ m) h = ground (arith, go m (omega arith))

power-voters :
    (b : Ballot) (h : Hash) (set : ValidatorSet) → power b h set ≡ sum_power set (voters_of h b)
unfolding power voters_of sum_power
power-voters b h set = ground arith

distinct_quorums :
    (set : ValidatorSet) (ps qs : List PartyId)
    → IsSorted set.validators
    → whole set.validators * 2 < u64_mod
    → IsDistinct (ps ++ qs)
    → AllActive set ps
    → AllActive set qs
    → quorum_threshold set ≤ sum_power set ps
    → sum_power set qs < quorum_threshold set
unfolding quorum_threshold
distinct_quorums set ps qs s fits d ap aq qp = omega (
  arith,
  total_stake-whole set (omega arith),
  weights-le (ps ++ qs) set.validators s d,
  weights-append ps qs set.validators,
  sum_power-le set ps ap,
  sum_power-le set qs aq,
)

-- Two blocks cannot both have the quorum in one ballot, where its voters are still active
-- validators and twice their whole stake fits a `u64`.
pub quorum_unique :
    (set : ValidatorSet) (b : Ballot) (g h : Hash)
    → IsSorted set.validators
    → whole set.validators * 2 < u64_mod
    → IsBallot b
    → AllActive set (voters_of g b)
    → AllActive set (voters_of h b)
    → quorum_threshold set ≤ power b g set
    → quorum_threshold set ≤ power b h set
    → g ≡ h
quorum_unique set b g h s fits i ag ah qg qh = elim (Bool-cases (same g h)) [
  | inl y ↦ same_eq g h y
  | inr n ↦ absurd (clash n)
]
  where
    apart :
        same g h ≡ false
        → (p : PartyId) → contains (voters_of g b) p ≡ true
        → contains (voters_of h b) p ≡ false
    apart n p c = elim (Bool-cases (contains (voters_of h b) p)) [
      | inl y ↦ absurd (ground (arith, one_block b p g h i c y, same_refl g))
      | inr f ↦ f
    ]

    clash : same g h ≡ false → ⊥
    clash n =
        let distinct =
          append-IsDistinct (voters_of g b) (voters_of h b) (i.distinct g) (i.distinct h)
            (apart n) in
        omega (
          arith,
          power-voters b g set,
          power-voters b h set,
          distinct_quorums set (voters_of g b) (voters_of h b) s fits distinct ag ah
              (omega (arith, power-voters b g set)),
        )
