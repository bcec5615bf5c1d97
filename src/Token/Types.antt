-- ===== src/Token/Types.antt =====
-- The data of the token prism (prisms/token/src/lib.rs).
use veilux_binary.Base.{ℕ, Bool, Text}
use veilux_binary.Kernel.Hash.{Hash}
use veilux_binary.Kernel.Types.{PartyId}
use veilux_binary.Kernel.Serde.{Serde, RoundTrips}

pub record TokenMeta : Type 0 where
  pub token_id : Hash
  pub name : Text
  pub symbol : Text
  pub decimals : ℕ
  pub total_supply : ℕ
  pub owner : PartyId
  pub mintable : Bool

pub data TokenCommand : Type 0 where
  -- name, symbol, decimals, initial_supply, mintable
  create : Text → Text → ℕ → ℕ → Bool → TokenCommand
  -- token_id, to, amount
  transfer : Hash → PartyId → ℕ → TokenCommand
  -- token_id, spender, amount
  approve : Hash → PartyId → ℕ → TokenCommand
  -- token_id, from, to, amount
  transfer_from : Hash → PartyId → PartyId → ℕ → TokenCommand
  -- token_id, to, amount
  mint : Hash → PartyId → ℕ → TokenCommand
  -- token_id, amount
  burn : Hash → ℕ → TokenCommand

pub data TokenEvent : Type 0 where
  -- token_id, symbol, total_supply
  created : Hash → Text → ℕ → TokenEvent
  -- token_id, from, to, amount
  transferred : Hash → PartyId → PartyId → ℕ → TokenEvent
  -- token_id, owner, spender, amount
  approval : Hash → PartyId → PartyId → ℕ → TokenEvent
  -- token_id, to, amount
  minted : Hash → PartyId → ℕ → TokenEvent
  -- token_id, from, amount
  burned : Hash → PartyId → ℕ → TokenEvent

-- `serde_json` at the types that the prism writes and reads.
pub record TokenSerde : Type 0 where
  pub string : Serde Text
  pub meta : Serde TokenMeta
  pub command : Serde TokenCommand
  pub event : Serde TokenEvent

-- What is stored reads back.
pub record TokenRoundTrips (c : TokenSerde) : Type 0 where
  pub string : RoundTrips c.string
  pub meta : RoundTrips c.meta
