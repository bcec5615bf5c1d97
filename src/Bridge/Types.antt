-- ===== src/Bridge/Types.antt =====
-- The data of the bridge prism (prisms/bridge/src/types.rs, prisms/bridge/src/lib.rs).
use veilux_binary.Base.{ℕ, List, [], ◌∷◌, ◌++◌, Text, lit, to_decimal}
use veilux_binary.Kernel.Hash.{Crates, Hash, commit, le_bytes}
use veilux_binary.Kernel.Types.{PartyId}
use veilux_binary.Kernel.Serde.{Serde, RoundTrips}
use veilux_binary.Token.Types.{TokenSerde, TokenRoundTrips}

pub data ForeignChain : Type 0 where
  cosmos solana ethereum custom : ForeignChain

unfoldable pub as_u16 : ForeignChain → ℕ
as_u16 cosmos = 1
as_u16 solana = 2
as_u16 ethereum = 3
as_u16 custom = 999

pub record BridgeConfig : Type 0 where
  pub chain : ForeignChain
  pub guardians : List Text
  pub quorum : ℕ
  pub admin : PartyId

unfoldable pub config_key : ForeignChain → Text
unfolding as_u16
config_key chain = lit "bridge/config/" ++ to_decimal (as_u16 chain)

pub record OutboundTransfer : Type 0 where
  pub sequence : ℕ
  pub chain : ForeignChain
  pub sender : PartyId
  pub recipient : Text
  pub token_id : Hash
  pub amount : ℕ

pub record InboundTransfer : Type 0 where
  pub chain : ForeignChain
  pub sequence : ℕ
  pub foreign_sender : Text
  pub recipient : PartyId
  pub token_id : Hash
  pub amount : ℕ

pub record GuardianSignature : Type 0 where
  pub public_key : Text
  pub signature : Text

module _ (x : Crates) where
  unfoldable pub outbound_digest : OutboundTransfer → Hash
  outbound_digest t = commit x (lit "bridge/outbound") (
      le_bytes 8 t.sequence
      ∷ le_bytes 2 (as_u16 t.chain)
      ∷ t.sender
      ∷ t.recipient
      ∷ t.token_id
      ∷ le_bytes 16 t.amount
      ∷ [])

  unfoldable pub inbound_digest : InboundTransfer → Hash
  inbound_digest t = commit x (lit "bridge/inbound") (
      le_bytes 2 (as_u16 t.chain)
      ∷ le_bytes 8 t.sequence
      ∷ t.foreign_sender
      ∷ t.recipient
      ∷ t.token_id
      ∷ le_bytes 16 t.amount
      ∷ [])

pub data BridgeCommand : Type 0 where
  -- chain, guardians, quorum
  register_chain : ForeignChain → List Text → ℕ → BridgeCommand
  -- chain, recipient, token, amount
  send : ForeignChain → Text → Hash → ℕ → BridgeCommand
  -- transfer, signatures
  redeem : InboundTransfer → List GuardianSignature → BridgeCommand

pub data BridgeEvent : Type 0 where
  -- chain, guardians, quorum
  chain_registered : ForeignChain → ℕ → ℕ → BridgeEvent
  -- sequence, chain, recipient, token, amount, digest
  outbound_locked : ℕ → ForeignChain → Text → Hash → ℕ → Hash → BridgeEvent
  -- chain, sequence, recipient, token, amount, guardians verified
  inbound_redeemed : ForeignChain → ℕ → PartyId → Hash → ℕ → ℕ → BridgeEvent

-- `serde_json` at the types that the prism writes and reads.
pub record BridgeSerde : Type 0 where
  pub token : TokenSerde
  pub number : Serde ℕ
  pub config : Serde BridgeConfig
  pub command : Serde BridgeCommand
  pub event : Serde BridgeEvent

pub record BridgeRoundTrips (c : BridgeSerde) : Type 0 where
  pub token : TokenRoundTrips c.token
  pub number : RoundTrips c.number
  pub config : RoundTrips c.config
