-- ===== src/Kernel/Merkle/Complete.antt =====
-- Every leaf has a proof that checks against the root (kernel/src/crypto.rs).
use veilux_binary.Base.{
  ℕ, zero, suc, ◌+◌, ◌/◌, ◌≤◌, ◌<◌, List, [], ◌∷◌, ◌≡◌, refl, ap, ◌∙◌, true, length, arith, ltb,
  Bool-cases, inl, inr, lt→ltb,
}
use veilux_binary.Base.Order.{same_refl, text_ord}
use veilux_binary.Kernel.Hash.{Crates, Hash}
use veilux_binary.Kernel.Merkle.{
  at, sibling_index, proof_step, next_level, climb, merkle_root, proof_loop, merkle_proof,
  apply_step, run_proof, verify_merkle_proof,
}

sibling_index-two : (i : ℕ) → sibling_index (suc (suc i)) ≡ suc (suc (sibling_index i))
unfolding sibling_index
sibling_index-two i = ground arith

half : (i : ℕ) → suc (i / 2) ≡ suc (suc i) / 2
half i = omega arith

-- The first two nodes of a level have no part in the steps of the others.
proof_step-two :
    (a b : Hash) (rest : List Hash) (i : ℕ)
    → proof_step (a ∷ b ∷ rest) (suc (suc i)) ≡ proof_step rest i
unfolding proof_step
proof_step-two a b rest i = rw (sibling_index-two i) (ground arith)

module _ (x : Crates) where
  pub length-next_level : (level : List Hash) → length (next_level x level) ≡ (length level + 1) / 2
  unfolding next_level
  length-next_level [] = refl
  length-next_level (a ∷ []) = refl
  length-next_level (a ∷ b ∷ rest) = omega (arith, length-next_level rest)

  -- One step of a proof leads to the node above, at half the position.
  apply_step-proof_step :
      (level : List Hash) (idx : ℕ)
      → idx < length level
      → apply_step x (at level idx) (proof_step level idx) ≡ at (next_level x level) (idx / 2)
  unfolding apply_step proof_step next_level sibling_index
  apply_step-proof_step [] idx h = absurd (omega arith)
  apply_step-proof_step (a ∷ []) zero h = refl
  apply_step-proof_step (a ∷ []) (suc i) h = absurd (omega arith)
  apply_step-proof_step (a ∷ b ∷ rest) zero h = ground arith
  apply_step-proof_step (a ∷ b ∷ rest) (suc zero) h = ground arith
  apply_step-proof_step (a ∷ b ∷ rest) (suc (suc i)) h =
      ap (apply_step x (at rest i)) (proof_step-two a b rest i)
      ∙ (apply_step-proof_step rest i (omega arith)
          ∙ ap (at (next_level x (a ∷ b ∷ rest))) (half i))

  -- Climbing for as many rounds as there are nodes ends at a single one.
  pub climb_single :
      (fuel : ℕ) (level : List Hash)
      → length level ≤ fuel
      → 0 < length level
      → length (climb x fuel level) ≡ 1
  unfolding climb
  climb_single zero level h p = absurd (omega arith)
  climb_single (suc fuel) level h p = elim (Bool-cases (ltb 1 (length level))) [
    | inl more ↦ rw more (
        climb_single fuel (next_level x level) (ground (arith, length-next_level level))
          (ground (arith, length-next_level level)))
    | inr done ↦ rw done (ground arith)
  ]

  run_proof-proof_loop :
      (fuel : ℕ) (level : List Hash) (idx : ℕ)
      → length level ≤ fuel
      → idx < length level
      → run_proof x (at level idx) (proof_loop x fuel level idx) ≡ at (climb x fuel level) 0
  unfolding climb proof_loop run_proof
  run_proof-proof_loop zero level idx h p = absurd (omega arith)
  run_proof-proof_loop (suc fuel) level idx h p = elim (Bool-cases (ltb 1 (length level))) [
    | inl more ↦ rw more (
        ap (λ h. run_proof x h (proof_loop x fuel (next_level x level) (idx / 2)))
          (apply_step-proof_step level idx p)
        ∙ run_proof-proof_loop fuel (next_level x level) (idx / 2)
            (ground (arith, length-next_level level)) (ground (arith, length-next_level level)))
    | inr done ↦ rw done (ap (at level) (ground arith))
  ]

  -- The proof that `merkle_proof` builds for a leaf checks against the root, at every position.
  pub verify_merkle_proof-merkle_proof :
      (leaves : List Hash) (index : ℕ)
      → index < length leaves
      → verify_merkle_proof x (at leaves index) (merkle_proof x leaves index) (merkle_root x leaves)
        ≡ true
  unfolding verify_merkle_proof merkle_proof merkle_root
  verify_merkle_proof-merkle_proof leaves index h = rw (lt→ltb index (length leaves) h) (
      rw (run_proof-proof_loop (length leaves) leaves index (omega arith) h)
        (same_refl (at (climb x (length leaves) leaves) 0)))
