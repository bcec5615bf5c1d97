-- ===== src/Kernel/Merkle/Binding.antt =====
-- A Merkle root binds the leaves, for a known number of them (kernel/src/crypto.rs).
use veilux_binary.Base.{
  ℕ, zero, suc, ◌≡◌, refl, ap, ap₂, sym, ◌∙◌, ◌⊎◌, inl, inr, List, [], ◌∷◌, Text, length, All,
  arith, ltb, Bool-cases,
}
use veilux_binary.Kernel.Hash.{Crates, Hash, combine}
use veilux_binary.Kernel.Hash.Collision.{Collision, combine_cases}
use veilux_binary.Kernel.Merkle.{at, next_level, climb, merkle_root}
use veilux_binary.Kernel.Merkle.Complete.{length-next_level, climb_single}

-- Every node of a level is a hash of 32 bytes.
abbrev pub IsLevel : List Hash → Type 0
IsLevel = All (λ h. length h ≡ 32)

single-eq : (xs ys : List Hash) → length xs ≡ 1 → length ys ≡ 1 → at xs 0 ≡ at ys 0 → xs ≡ ys
single-eq [] ys hx hy e = absurd (omega arith)
single-eq (x ∷ xs) [] hx hy e = absurd (omega arith)
single-eq (x ∷ []) (y ∷ []) hx hy e = ap (λ h. h ∷ []) e
single-eq (x ∷ []) (y ∷ z ∷ ys) hx hy e = absurd (omega arith)
single-eq (x ∷ z ∷ xs) (y ∷ ys) hx hy e = absurd (omega arith)

module _ (x : Crates) (digest_32 : (t : Text) → length (x.blake3 t) ≡ 32) where
  next_level-IsLevel : (xs : List Hash) → IsLevel (next_level x xs)
  unfolding next_level combine
  next_level-IsLevel [] = tt
  next_level-IsLevel (a ∷ []) = (digest_32 _, tt)
  next_level-IsLevel (a ∷ b ∷ rest) = (digest_32 _, next_level-IsLevel rest)

  next_level-binding :
      (xs ys : List Hash)
      → length xs ≡ length ys
      → IsLevel xs
      → IsLevel ys
      → next_level x xs ≡ next_level x ys
      → (xs ≡ ys) ⊎ Collision x
  unfolding next_level
  next_level-binding [] [] n hx hy e = inl refl
  next_level-binding [] (b ∷ ys) n hx hy e = absurd (omega arith)
  next_level-binding (a ∷ xs) [] n hx hy e = absurd (omega arith)
  next_level-binding (a ∷ []) (b ∷ []) n hx hy e =
      let top : combine x a a ≡ combine x b b = cc in
      elim (combine_cases x a a b b (hx.0 ∙ sym hy.0) top) [
        | inl i ↦ inl (ap (λ h. h ∷ []) i.0)
        | inr z ↦ inr z
      ]
  next_level-binding (a ∷ []) (b ∷ c ∷ ys) n hx hy e = absurd (omega arith)
  next_level-binding (a ∷ c ∷ xs) (b ∷ []) n hx hy e = absurd (omega arith)
  next_level-binding (a ∷ c ∷ xs) (b ∷ d ∷ ys) n hx hy e =
      let top : combine x a c ≡ combine x b d = cc in
      elim (combine_cases x a c b d (hx.0 ∙ sym hy.0) top) [
        | inr z ↦ inr z
        | inl i ↦ elim (next_level-binding xs ys (omega arith) hx.1.1 hy.1.1 (cc)) [
          | inl j ↦ inl (ap₂ (λ h t. h ∷ t) i.0 (ap₂ (λ h t. h ∷ t) i.1 j))
          | inr z ↦ inr z
        ]
      ]

  climb-binding :
      (fuel : ℕ) (xs ys : List Hash)
      → length xs ≡ length ys
      → IsLevel xs
      → IsLevel ys
      → climb x fuel xs ≡ climb x fuel ys
      → (xs ≡ ys) ⊎ Collision x
  unfolding climb
  climb-binding zero xs ys n hx hy e = inl e
  climb-binding (suc fuel) xs ys n hx hy e = elim (Bool-cases (ltb 1 (length xs))) [
    | inr done ↦ inl (ground arith)
    | inl more ↦
        let up =
          climb-binding fuel (next_level x xs) (next_level x ys)
            (omega (arith, length-next_level x xs, length-next_level x ys)) (next_level-IsLevel xs)
            (next_level-IsLevel ys) (ground arith) in
        elim up [ inl i ↦ next_level-binding xs ys n hx hy i | inr z ↦ inr z ]
  ]

  -- As many leaves with the same root are the same, or two texts with one hash are at hand.
  pub merkle_root-binding :
      (xs ys : List Hash)
      → length xs ≡ length ys
      → IsLevel xs
      → IsLevel ys
      → merkle_root x xs ≡ merkle_root x ys
      → (xs ≡ ys) ⊎ Collision x
  unfolding merkle_root
  merkle_root-binding [] [] n hx hy e = inl refl
  merkle_root-binding [] (b ∷ ys) n hx hy e = absurd (omega arith)
  merkle_root-binding (a ∷ xs) [] n hx hy e = absurd (omega arith)
  merkle_root-binding (a ∷ xs) (b ∷ ys) n hx hy e =
      let fuel = length (a ∷ xs) in
      let other : climb x (length (b ∷ ys)) (b ∷ ys) ≡ climb x fuel (b ∷ ys) =
        ap (λ k. climb x k (b ∷ ys)) (sym n) in
      climb-binding fuel (a ∷ xs) (b ∷ ys) n hx hy (
        single-eq _ _ (climb_single x fuel (a ∷ xs) (omega arith) (omega arith))
          (climb_single x fuel (b ∷ ys) (omega arith) (omega arith)) (e ∙ ap (λ l. at l 0) other))
