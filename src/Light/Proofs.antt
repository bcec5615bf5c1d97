-- ===== src/Light/Proofs.antt =====
-- Proofs of state at a light client (lightclient/src/lib.rs, kernel/src/state.rs,
-- kernel/src/crypto.rs).
use veilux_binary.Base.{
  ok, Bool, some, List, [], ◌∷◌, ◌++◌, Text, ◌≡◌, ap, sym, ◌∙◌, All, length, lit, map, arith,
  Bool-cases, inl, inr, ◌⊎◌, append_injective,
}
use veilux_binary.Base.Order.{same, same_eq, same_refl, text_ord}
use veilux_binary.Kernel.Hash.{Crates, Hash, combine, commit}
use veilux_binary.Kernel.Hash.Framing.{IsPart}
use veilux_binary.Kernel.Merkle.{MerkleStep, verify_merkle_proof, run_proof, apply_step}
use veilux_binary.Kernel.State.{StateTree, get, prove, root, leaf_hash}
use veilux_binary.Kernel.State.Root.{prove_verifies}
use veilux_binary.Kernel.State.Binding.{kv-IsDomain}
use veilux_binary.Light.{LightClient, StateProof, verify_state}
use veilux_binary.Kernel.Hash.Collision.{Collision, hash_cases, commit_cases}

-- The sides of a proof's steps, from the leaf up: they are where the leaf stands in the tree.
abbrev pub proof_sides : List MerkleStep → List Bool
proof_sides = map (λ s. s.sibling_on_right)

-- Every sibling is a hash of 32 bytes.
abbrev pub IsProof : List MerkleStep → Type 0
IsProof = All (λ s. length s.sibling ≡ 32)

module _ (x : Crates) where
  verify_state-accepts :
      (client : LightClient) (p : StateProof)
      → verify_state x client p ≡ ok tt
      → (p.state_root ≡ client.trusted.state_root)
        × (run_proof x (leaf_hash x p.key p.value) p.proof ≡ p.state_root)
  unfolding verify_state verify_merkle_proof
  verify_state-accepts client p h =
      let r = p.state_root in
      let t = client.trusted.state_root in
      let leaf = run_proof x (leaf_hash x p.key p.value) p.proof in
      elim (Bool-cases (same r t)) [
        | inr n ↦ absurd (ground arith)
        | inl y ↦ elim (Bool-cases (same leaf r)) [
          | inr n ↦ absurd (ground arith)
          | inl z ↦ (same_eq r t y, same_eq leaf r z)
        ]
      ]

  -- What a full node proves, a light client accepts: when its head carries the root of the node's
  -- state, the proof that the node makes for a key that is present passes the client's check.
  pub verify_state-prove :
      (key value : Text) (s : StateTree) (client : LightClient)
      → get key s ≡ some value
      → client.trusted.state_root ≡ root x s
      → (steps : List MerkleStep) × (prove x key s ≡ some (value, steps))
        × (verify_state x client
              (record { key = key; value = value; proof = steps; state_root = root x s })
            ≡ ok tt)
  unfolding verify_state
  verify_state-prove key value s client h e =
      let found = prove_verifies x key value s h in
      (found.0, found.1, ground (arith, found.2, same_refl (root x s), ap (same (root x s)) e))

  module _ (digest_32 : (t : Text) → length (x.blake3 t) ≡ 32) where
    step-binding :
        (a b : Hash) (s t : MerkleStep)
        → length a ≡ 32
        → length b ≡ 32
        → length s.sibling ≡ 32
        → length t.sibling ≡ 32
        → s.sibling_on_right ≡ t.sibling_on_right
        → apply_step x a s ≡ apply_step x b t
        → (a ≡ b) ⊎ Collision x
    unfolding apply_step combine
    step-binding a b s t la lb ls lt h e = elim (Bool-cases s.sibling_on_right) [
      | inl y ↦
          let f : x.blake3 (a ++ s.sibling) ≡ x.blake3 (b ++ t.sibling) = ground arith in
          elim (hash_cases x (a ++ s.sibling) (b ++ t.sibling) f) [
            | inl i ↦ inl (append_injective a b s.sibling t.sibling (la ∙ sym lb) i).0
            | inr z ↦ inr z
          ]
      | inr n ↦
          let f : x.blake3 (s.sibling ++ a) ≡ x.blake3 (t.sibling ++ b) = ground arith in
          elim (hash_cases x (s.sibling ++ a) (t.sibling ++ b) f) [
            | inl i ↦ inl (append_injective s.sibling t.sibling a b (ls ∙ sym lt) i).1
            | inr z ↦ inr z
          ]
    ]

    length-apply_step : (a : Hash) (s : MerkleStep) → length (apply_step x a s) ≡ 32
    unfolding apply_step combine
    length-apply_step a s = elim (Bool-cases s.sibling_on_right) [
      | inl y ↦ ground (arith, digest_32 (a ++ s.sibling))
      | inr n ↦ ground (arith, digest_32 (s.sibling ++ a))
    ]

    run_proof-binding :
        (a b : Hash) (p q : List MerkleStep)
        → length a ≡ 32
        → length b ≡ 32
        → IsProof p
        → IsProof q
        → proof_sides p ≡ proof_sides q
        → run_proof x a p ≡ run_proof x b q
        → (a ≡ b) ⊎ Collision x
    unfolding run_proof
    run_proof-binding a b [] [] la lb hp hq h e = inl e
    run_proof-binding a b [] (t ∷ q) la lb hp hq h e = absurd (cc)
    run_proof-binding a b (s ∷ p) [] la lb hp hq h e = absurd (cc)
    run_proof-binding a b (s ∷ p) (t ∷ q) la lb hp hq h e =
        elim (run_proof-binding (apply_step x a s) (apply_step x b t) p q (length-apply_step a s)
          (length-apply_step b t) hp.1 hq.1 (cc) e) [
            | inl i ↦ step-binding a b s t la lb hp.0 hq.0 (cc) i
            | inr z ↦ inr z
          ]

    -- A client that accepts two proofs for the same place in the tree was shown the same key and
    -- the same value, or two texts with the same BLAKE3 hash are at hand; a hash has 32 bytes, and
    -- keys and values are shorter than 2^64.
    pub verify_state-binding :
        (client : LightClient) (p q : StateProof)
        → IsPart p.key
        → IsPart p.value
        → IsPart q.key
        → IsPart q.value
        → IsProof p.proof
        → IsProof q.proof
        → proof_sides p.proof ≡ proof_sides q.proof
        → verify_state x client p ≡ ok tt
        → verify_state x client q ≡ ok tt
        → ((p.key ≡ q.key) × (p.value ≡ q.value)) ⊎ Collision x
    unfolding leaf_hash commit
    verify_state-binding client p q pk pv qk qv hp hq h e f =
        let shown = verify_state-accepts client p e in
        let other = verify_state-accepts client q f in
        let ends = shown.1 ∙ shown.0 ∙ sym (other.1 ∙ other.0) in
        elim (run_proof-binding (leaf_hash x p.key p.value) (leaf_hash x q.key q.value) p.proof
          q.proof (digest_32 _) (digest_32 _) hp hq h ends) [
            | inl i ↦
                elim (commit_cases x (lit "kv") (p.key ∷ p.value ∷ []) (q.key ∷ q.value ∷ [])
                  kv-IsDomain (pk, (pv, tt)) (qk, (qv, tt)) i) [
                    | inl j ↦ inl (cc, cc)
                    | inr z ↦ inr z
                  ]
            | inr z ↦ inr z
          ]
