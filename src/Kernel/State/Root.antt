-- ===== src/Kernel/State/Root.antt =====
-- The state root: the order of writes does not show in it, and every entry has a proof against it
-- (kernel/src/state.rs, lightclient/src/lib.rs).
use veilux_binary.Base.{
  ℕ, suc, ◌<◌, true, false, some, List, [], ◌∷◌, Text, ◌≡◌, refl, ap, arith, length, Bool-cases,
  inl, inr,
}
use veilux_binary.Base.Order.{same, same_eq, same_sym, text_ord}
use veilux_binary.Base.Map as Entries
use veilux_binary.Base.Map.{
  Map, IsSorted, insert-IsSorted, remove-IsSorted, sorted_ext, insert_comm,
}
use veilux_binary.Kernel.Hash.{Crates}
use veilux_binary.Kernel.Merkle.{MerkleStep, at, merkle_root, merkle_proof, verify_merkle_proof}
use veilux_binary.Kernel.Merkle.Complete.{verify_merkle_proof-merkle_proof}
use veilux_binary.Kernel.State.Defs.{
  StateTree, new, put, get, remove, leaf_hash, leaves, root, position, prove,
}

-- The keys of the tree ascend.
abbrev pub IsTree : StateTree → Type 0
IsTree s = IsSorted s.entries

-- The empty tree is well formed, and every write and every removal keeps a tree well formed.
pub StateTree-IsTree :
    IsTree new
    × ((key value : Text) (s : StateTree) → IsTree s → IsTree (put key value s))
    × ((key : Text) (s : StateTree) → IsTree s → IsTree (remove key s).1)
unfolding new put remove
StateTree-IsTree = (
  tt,
  λ key value s h. insert-IsSorted key value s.entries h,
  λ key s h. remove-IsSorted key s.entries h,
)

-- Writes of two keys may be exchanged: the root is the same.
pub root_order_independent :
    (x : Crates) (k j v w : Text) (s : StateTree)
    → IsTree s
    → same k j ≡ false
    → root x (put k v (put j w s)) ≡ root x (put j w (put k v s))
unfolding put root
root_order_independent x k j v w s h ne =
    ap (λ m. root x (record { entries = m })) (insert_comm k j v w s.entries h ne)

module _ (x : Crates) where
  -- The position of a key that is there, and the leaf at it.
  position-get :
      (key value : Text) (m : Map Text Text)
      → Entries.get key m ≡ some value
      → (i : ℕ) × (position key m ≡ some i)
        × (i < length (leaves x m))
        × (at (leaves x m) i ≡ leaf_hash x key value)
  unfolding Entries.get position leaves
  position-get key value [] h = cc
  position-get key value ((k, v) ∷ m) h = elim (Bool-cases (same key k)) [
    | inl found ↦
        (0, ground (arith, same_sym key k), omega arith, ground (arith, same_eq key k found))
    | inr other ↦
        let deeper = position-get key value m (ground arith) in
        (suc deeper.0, ground (arith, same_sym key k, deeper.1), omega (arith, deeper.2), deeper.3)
  ]

  root-merkle_root :
      (s : StateTree) (i : ℕ)
      → i < length (leaves x s.entries)
      → root x s ≡ merkle_root x (leaves x s.entries)
  root-merkle_root s i h = go s.entries h
    where
      go :
          (m : Map Text Text)
          → i < length (leaves x m)
          → root x (record { entries = m }) ≡ merkle_root x (leaves x m)
      go [] k = unfold leaves in absurd (omega arith)
      go (e ∷ m) k = unfold root in refl

  -- Every entry has a proof, and its leaf checks by that proof against the root.
  pub prove_verifies :
      (key value : Text) (s : StateTree)
      → get key s ≡ some value
      → (proof : List MerkleStep) × (prove x key s ≡ some (value, proof))
        × (verify_merkle_proof x (leaf_hash x key value) proof (root x s) ≡ true)
  unfolding get prove root
  prove_verifies key value s h =
      let found = position-get key value s.entries h in
      let hashes = leaves x s.entries in
      (
        merkle_proof x hashes found.0,
        ground (arith, found.1),
        (unfold leaves in
            rw (← found.3) (
              rw (root-merkle_root s (found.0) found.2)
                (verify_merkle_proof-merkle_proof x hashes found.0 found.2))),
      )
