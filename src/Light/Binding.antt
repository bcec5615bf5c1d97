-- ===== src/Light/Binding.antt =====
-- What a hash commits a light client to, as long as nobody has two texts with the same BLAKE3 hash
-- (lightclient/src/lib.rs, kernel/src/crypto.rs).
use veilux_binary.Base.{
  ◌<◌, List, [], ◌∷◌, Text, ◌≡◌, ap, ap₂, sym, ◌∙◌, All, length, lit, arith, u64_mod, inl, inr, ◌⊎◌,
}
use veilux_binary.Base.Order.{text_ord}
use veilux_binary.Kernel.Hash.{Crates, le_bytes}
use veilux_binary.Kernel.Hash.Framing.{le_bytes8-injective, length-le_bytes, IsPart, IsDomain}
use veilux_binary.Kernel.Hash.Collision.{Collision, commit_cases}
use veilux_binary.Light.{Header, hash}
use veilux_binary.Light.Chain.{Chain, stay, link}

-- The ranges of the fields' Rust types.
pub record IsHeader (h : Header) : Type 0 where
  pub height_u64 : h.height < u64_mod
  pub timestamp_u64 : h.timestamp < u64_mod
  pub parent_32 : length h.parent ≡ 32
  pub events_32 : length h.events_root ≡ 32
  pub state_32 : length h.state_root ≡ 32
  pub commands_32 : length h.commands_root ≡ 32
  pub proposer_u64 : length h.proposer < u64_mod

abbrev header_parts : Header → List Text
header_parts h =
    le_bytes 8 h.height
    ∷ h.parent
    ∷ h.events_root
    ∷ h.state_root
    ∷ h.commands_root
    ∷ le_bytes 8 h.timestamp
    ∷ h.proposer
    ∷ []

parts-IsPart : (h : Header) → IsHeader h → All IsPart (header_parts h)
parts-IsPart h r = (
  omega (arith, length-le_bytes 8 h.height),
  (
    omega (arith, r.parent_32),
    (
      omega (arith, r.events_32),
      (
        omega (arith, r.state_32),
        (
          omega (arith, r.commands_32),
          (omega (arith, length-le_bytes 8 h.timestamp), (r.proposer_u64, tt)),
        ),
      ),
    ),
  ),
)

block-IsDomain : IsDomain (lit "block")
unfolding lit
block-IsDomain = (omega arith, (omega arith, (omega arith, (omega arith, (omega arith, tt)))))

module _ (x : Crates) where
  fields-eq : (a b : Header) → IsHeader a → IsHeader b → header_parts a ≡ header_parts b → a ≡ b
  fields-eq a b ra rb e =
      let heights = le_bytes8-injective a.height b.height ra.height_u64 rb.height_u64 (cc) in
      let times =
        le_bytes8-injective a.timestamp b.timestamp ra.timestamp_u64 rb.timestamp_u64 (cc) in
      let parents : a.parent ≡ b.parent = cc in
      let events : a.events_root ≡ b.events_root = cc in
      let states : a.state_root ≡ b.state_root = cc in
      let commands : a.commands_root ≡ b.commands_root = cc in
      let proposers : a.proposer ≡ b.proposer = cc in
      λ i. record {
        height = heights i;
        parent = parents i;
        events_root = events i;
        state_root = states i;
        commands_root = commands i;
        timestamp = times i;
        proposer = proposers i;
      }

  -- Headers with the same hash are equal, or two texts collide.
  pub hash-binding :
      (a b : Header) → IsHeader a → IsHeader b → hash x a ≡ hash x b → (a ≡ b) ⊎ Collision x
  unfolding hash
  hash-binding a b ra rb e =
      elim (commit_cases x (lit "block") (header_parts a) (header_parts b) block-IsDomain
        (parts-IsPart a ra) (parts-IsPart b rb) e) [
          | inl i ↦ inl (fields-eq a b ra rb i)
          | inr c ↦ inr c
        ]

  Chain-binding_step :
      (a c h k : Header) (hs ks : List Header)
      → IsHeader a
      → IsHeader c
      → h.parent ≡ hash x a
      → k.parent ≡ hash x c
      → (h ∷ hs ≡ k ∷ ks) ⊎ Collision x
      → (a ∷ h ∷ hs ≡ c ∷ k ∷ ks) ⊎ Collision x
  Chain-binding_step a c h k hs ks ra rc p q (inr z) = inr z
  Chain-binding_step a c h k hs ks ra rc p q (inl e) =
      let heads : h ≡ k = cc in
      let parents : h.parent ≡ k.parent = ap (λ (t : Header). t.parent) heads in
      elim (hash-binding a c ra rc (sym p ∙ parents ∙ q)) [
        | inl i ↦ inl (ap₂ ◌∷◌ i e)
        | inr z ↦ inr z
      ]

  -- Two chains of as many headers that end in headers with the same hash are the same chain, the
  -- headers they start from included, or two texts with the same BLAKE3 hash are at hand; the
  -- fields are within their Rust types.
  pub Chain-binding :
      (a b c d : Header) (hs ks : List Header)
      → Chain x a hs b
      → Chain x c ks d
      → All IsHeader (a ∷ hs)
      → All IsHeader (c ∷ ks)
      → length hs ≡ length ks
      → hash x b ≡ hash x d
      → (a ∷ hs ≡ c ∷ ks) ⊎ Collision x
  Chain-binding a b c d [] [] (stay _) (stay _) ra rc n e = elim (hash-binding a c ra.0 rc.0 e) [
    | inl i ↦ inl (ap (λ t. t ∷ []) i)
    | inr z ↦ inr z
  ]
  Chain-binding a b c d [] (k ∷ ks) p q ra rc n e = absurd (omega arith)
  Chain-binding a b c d (h ∷ hs) [] p q ra rc n e = absurd (omega arith)
  Chain-binding a b c d (h ∷ hs) (k ∷ ks) (link _ _ _ _ _ p ps) (link _ _ _ _ _ q qs) ra rc n e =
      Chain-binding_step a c h k hs ks ra.0 rc.0 p q
        (Chain-binding h b k d hs ks ps qs ra.1 rc.1 (omega arith) e)
