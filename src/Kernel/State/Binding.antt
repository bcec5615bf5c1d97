-- ===== src/Kernel/State/Binding.antt =====
-- What the state root binds (kernel/src/state.rs).
use veilux_binary.Base.{
  suc, ◌≡◌, refl, ap, ap₂, sym, ◌∙◌, ◌⊎◌, inl, inr, [], ◌∷◌, Text, length, lit, All, arith,
}
use veilux_binary.Base.Map.{Map}
use veilux_binary.Kernel.Hash.{Crates, commit}
use veilux_binary.Kernel.Hash.Framing.{IsPart, IsDomain}
use veilux_binary.Kernel.Hash.Collision.{Collision, commit_cases}
use veilux_binary.Kernel.Merkle.Binding.{IsLevel, merkle_root-binding}
use veilux_binary.Kernel.State.Defs.{StateTree, leaves, leaf_hash, root}

-- Every key and every value has a length that is a `u64`.
abbrev pub IsStored : Map Text Text → Type 0
IsStored = All (λ e. IsPart e.0 × IsPart e.1)

pub kv-IsDomain : IsDomain (lit "kv")
unfolding lit
kv-IsDomain = (omega arith, (omega arith, tt))

module _ (x : Crates) (digest_32 : (t : Text) → length (x.blake3 t) ≡ 32) where
  length-leaves : (m : Map Text Text) → length (leaves x m) ≡ length m
  unfolding leaves
  length-leaves [] = refl
  length-leaves ((k, v) ∷ m) = ap suc (length-leaves m)

  leaves-IsLevel : (m : Map Text Text) → IsLevel (leaves x m)
  unfolding leaves leaf_hash commit
  leaves-IsLevel [] = tt
  leaves-IsLevel ((k, v) ∷ m) = (digest_32 _, leaves-IsLevel m)

  leaves-binding :
      (m n : Map Text Text)
      → IsStored m
      → IsStored n
      → leaves x m ≡ leaves x n
      → (m ≡ n) ⊎ Collision x
  unfolding leaves leaf_hash
  leaves-binding [] [] hm hn e = inl refl
  leaves-binding [] (q ∷ n) hm hn e = absurd (cc)
  leaves-binding (p ∷ m) [] hm hn e = absurd (cc)
  leaves-binding ((k, v) ∷ m) ((j, w) ∷ n) hm hn e =
      elim (commit_cases x (lit "kv") (k ∷ v ∷ []) (j ∷ w ∷ []) kv-IsDomain (hm.0.0, (hm.0.1, tt))
        (hn.0.0, (hn.0.1, tt)) (cc)) [
          | inr z ↦ inr z
          | inl i ↦ elim (leaves-binding m n hm.1 hn.1 (cc)) [
            | inr z ↦ inr z
            | inl rest ↦
                let keys : k ≡ j = cc in
                let values : v ≡ w = cc in inl (ap₂ (λ p t. p ∷ t) (λ d. (keys d, values d)) rest)
          ]
        ]

  entries-binding :
      (m n : Map Text Text)
      → length m ≡ length n
      → IsStored m
      → IsStored n
      → root x (record { entries = m }) ≡ root x (record { entries = n })
      → (m ≡ n) ⊎ Collision x
  unfolding root
  entries-binding [] [] l hm hn e = inl refl
  entries-binding [] (q ∷ n) l hm hn e = absurd (omega arith)
  entries-binding (p ∷ m) [] l hm hn e = absurd (omega arith)
  entries-binding (p ∷ m) (q ∷ n) l hm hn e =
      elim (merkle_root-binding x digest_32 (leaves x (p ∷ m)) (leaves x (q ∷ n))
        (length-leaves (p ∷ m) ∙ l ∙ sym (length-leaves (q ∷ n))) (leaves-IsLevel (p ∷ m))
        (leaves-IsLevel (q ∷ n)) e) [
          | inr z ↦ inr z
          | inl same ↦ leaves-binding (p ∷ m) (q ∷ n) hm hn same
        ]

  -- Two states of as many entries with the same root are the same state, or two texts with the
  -- same BLAKE3 hash are at hand; a hash has 32 bytes, and keys and values are shorter than 2^64.
  pub root-binding :
      (s t : StateTree)
      → length s.entries ≡ length t.entries
      → IsStored s.entries
      → IsStored t.entries
      → root x s ≡ root x t
      → (s ≡ t) ⊎ Collision x
  root-binding s t n hs ht e = elim (entries-binding s.entries t.entries n hs ht e) [
    | inr z ↦ inr z
    | inl same ↦ inl (ap (λ m. record { entries = m }) same)
  ]
