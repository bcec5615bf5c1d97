-- ===== src/Kernel/Hash/Collision.antt =====
-- What a hash binds as long as nobody has two texts with the same BLAKE3 hash
-- (kernel/src/crypto.rs).
use veilux_binary.Base.{
  List, ◌++◌, Text, ◌≡◌, ap, All, length, arith, Bool-cases, inl, inr, ◌⊎◌, ◌≢◌, append_injective,
}
use veilux_binary.Base.Order.{same, same_eq, same_refl, text_ord}
use veilux_binary.Kernel.Hash.{Crates, Hash, combine, commit, commit_input}
use veilux_binary.Kernel.Hash.Framing.{IsPart, IsDomain, commit_input-injective}

-- Two texts with the same BLAKE3 hash.
pub record Collision (x : Crates) : Type 0 where
  pub left : Text
  pub right : Text
  pub different : left ≢ right
  pub together : x.blake3 left ≡ x.blake3 right

module _ (x : Crates) where
  -- Equal hashes of two texts: the texts are equal, or they collide.
  pub hash_cases : (s t : Text) → x.blake3 s ≡ x.blake3 t → (s ≡ t) ⊎ Collision x
  hash_cases s t e = elim (Bool-cases (same s t)) [
    | inl y ↦ inl (same_eq s t y)
    | inr n ↦ inr (record {
      left = s;
      right = t;
      different = λ q. ground (arith, ap (same s) q, same_refl s);
      together = e;
    })
  ]

  pub commit_cases :
      (d : Text) (ps qs : List Text)
      → IsDomain d
      → All IsPart ps
      → All IsPart qs
      → commit x d ps ≡ commit x d qs
      → (ps ≡ qs) ⊎ Collision x
  unfolding commit
  commit_cases d ps qs hd hp hq e = elim (hash_cases (commit_input d ps) (commit_input d qs) e) [
    | inl i ↦ inl (commit_input-injective d d ps qs hd hd hp hq i).1
    | inr c ↦ inr c
  ]

  -- The two halves of a node.
  pub combine_cases :
      (a b c d : Hash)
      → length a ≡ length c
      → combine x a b ≡ combine x c d
      → ((a ≡ c) × (b ≡ d)) ⊎ Collision x
  unfolding combine
  combine_cases a b c d n e = elim (hash_cases (a ++ b) (c ++ d) e) [
    | inl i ↦ inl (append_injective a c b d n i)
    | inr z ↦ inr z
  ]
