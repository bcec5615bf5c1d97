-- ===== src/Kernel/Merkle.antt =====
-- The Merkle tree of kernel/src/crypto.rs: roots, inclusion proofs and their check.
pub mod Complete
pub mod Binding
use veilux_binary.Base.{
  ℕ, zero, suc, ◌+◌, ◌-◌, ◌/◌, ◌%◌, Bool, true, false, List, [], ◌∷◌, length, ltb, ◌==◌,
  if◌then◌else◌,
}
use veilux_binary.Base.Order.{same, text_ord}
use veilux_binary.Kernel.Hash.{Crates, Hash, zero_hash, combine}

-- `level[i]`; every read of the source is within the level.
abbrev pub at : List Hash → ℕ → Hash
at [] i = zero_hash
at (h ∷ hs) zero = h
at (h ∷ hs) (suc i) = at hs i

pub record MerkleStep : Type 0 where
  pub sibling : Hash
  pub sibling_on_right : Bool

-- `if idx % 2 == 0 { idx + 1 } else { idx - 1 }`
unfoldable pub sibling_index : ℕ → ℕ
sibling_index idx = if idx % 2 == 0 then idx + 1 else idx - 1

-- The step that `merkle_proof` pushes at one level.
unfoldable pub proof_step : List Hash → ℕ → MerkleStep
unfolding sibling_index
proof_step level idx = record {
  sibling =
      if ltb (sibling_index idx) (length level) then at level (sibling_index idx) else at level idx;
  sibling_on_right = idx % 2 == 0;
}

module _ (x : Crates) where
  -- The `for chunk in level.chunks(2)` loop.
  unfoldable pub next_level : List Hash → List Hash
  next_level [] = []
  next_level (a ∷ []) = combine x a a ∷ []
  next_level (a ∷ b ∷ rest) = combine x a b ∷ next_level rest

  -- The `while level.len() > 1` loop of `merkle_root`, on fuel.
  unfoldable pub climb : ℕ → List Hash → List Hash
  climb zero level = level
  climb (suc fuel) level =
      let up = climb fuel (next_level level) in if ltb 1 (length level) then up else level

  unfoldable pub merkle_root : List Hash → Hash
  unfolding climb
  merkle_root leaves = at (climb (length leaves) leaves) 0

  -- The same loop in `merkle_proof`, with the position that it follows.
  unfoldable pub proof_loop : ℕ → List Hash → ℕ → List MerkleStep
  proof_loop zero level idx = []
  proof_loop (suc fuel) level idx =
      let up = proof_step level idx ∷ proof_loop fuel (next_level level) (idx / 2) in
      if ltb 1 (length level) then up else []

  unfoldable pub merkle_proof : List Hash → ℕ → List MerkleStep
  merkle_proof leaves index =
      if ltb index (length leaves) then proof_loop (length leaves) leaves index else []

  -- One round of the loop of `verify_merkle_proof`.
  unfoldable pub apply_step : Hash → MerkleStep → Hash
  apply_step acc step =
      if step.sibling_on_right then combine x acc step.sibling else combine x step.sibling acc

  unfoldable pub run_proof : Hash → List MerkleStep → Hash
  run_proof acc [] = acc
  run_proof acc (step ∷ rest) = run_proof (apply_step acc step) rest

  unfoldable pub verify_merkle_proof : Hash → List MerkleStep → Hash → Bool
  verify_merkle_proof leaf proof root = same (run_proof leaf proof) root
