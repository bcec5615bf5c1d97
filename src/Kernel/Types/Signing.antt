-- ===== src/Kernel/Types/Signing.antt =====
-- What the signature of a command covers (kernel/src/types.rs).
use veilux_binary.Base.{
  ℕ, ◌<◌, ◌≢◌, ◌++◌, ◌∷◌, lit, ◌≡◌, refl, arith, append_injective, separator_injective,
  append_assoc, sym, ◌∙◌, u64_mod,
}
use veilux_binary.Kernel.Hash.{Crates, le_bytes}
use veilux_binary.Kernel.Hash.Framing.{le_bytes8-injective, length-le_bytes, IsDomain}
use veilux_binary.Kernel.Serde.{Serde, to_vec_or_default}
use veilux_binary.Kernel.Types.{Command, Visibility, signing_bytes, signing_bytes_for_chain}

module _ (x : Crates) (visibilities : Serde Visibility) where
  -- Commands with the same signing bytes have the same prism, submitter, nonce, written visibility
  -- and payload, where the strings and the written visibility are text, without the byte 0xff.
  pub signing_bytes-injective :
      (c d : Command)
      → IsDomain c.prism
      → IsDomain d.prism
      → IsDomain c.submitter
      → IsDomain d.submitter
      → IsDomain (to_vec_or_default visibilities c.visibility)
      → IsDomain (to_vec_or_default visibilities d.visibility)
      → c.nonce < u64_mod
      → d.nonce < u64_mod
      → signing_bytes x visibilities c ≡ signing_bytes x visibilities d
      → (c.prism ≡ d.prism)
        × (c.submitter ≡ d.submitter)
        × (c.nonce ≡ d.nonce)
        × (to_vec_or_default visibilities c.visibility
            ≡ to_vec_or_default visibilities d.visibility)
        × (c.payload ≡ d.payload)
  unfolding signing_bytes
  signing_bytes-injective c d cp dp cs ds cv dv cn dn e =
      let start = append_injective (lit "veilux/command/v1") (lit "veilux/command/v1") _ _ refl e in
      let prisms = separator_injective 0xff c.prism d.prism _ _ cp dp (cc) in
      let submitters = separator_injective 0xff c.submitter d.submitter _ _ cs ds (prisms.1) in
      let nonces =
        append_injective (le_bytes 8 c.nonce) (le_bytes 8 d.nonce) _ _
          (length-le_bytes 8 c.nonce ∙ sym (length-le_bytes 8 d.nonce)) submitters.1 in
      let rest = separator_injective 0xff _ _ c.payload d.payload cv dv nonces.1 in
      (prisms.0, submitters.0, le_bytes8-injective c.nonce d.nonce cn dn nonces.0, rest.0, rest.1)

  -- The bytes signed for a chain other than 0 are also the bytes signed for chain 0 by the command
  -- whose payload goes on with the mark and the number of that chain.
  pub signing_bytes_for_chain_overlap :
      (c : Command) (chain_id : ℕ)
      → chain_id ≢ 0
      → signing_bytes_for_chain x visibilities c chain_id
        ≡ signing_bytes_for_chain x visibilities
            (record c { payload = c.payload ++ (0xff ∷ (lit "chain" ++ le_bytes 8 chain_id)) })
            0
  unfolding signing_bytes_for_chain signing_bytes
  signing_bytes_for_chain_overlap c chain_id h = simp append_assoc (ground arith)
