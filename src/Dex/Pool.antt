-- ===== src/Dex/Pool.antt =====
-- Pools, commands and events of the exchange (prisms/dex/src/lib.rs).
use veilux_binary.Base.{ℕ}
use veilux_binary.Base.Map.{Map}
use veilux_binary.Kernel.Hash.{Hash}
use veilux_binary.Kernel.Types.{PartyId}
use veilux_binary.Kernel.Prism.{PrismError}
use veilux_binary.Kernel.Serde.{Serde, RoundTrips}
use veilux_binary.Token.Types.{TokenSerde, TokenRoundTrips}

pub record Pool : Type 0 where
  pub id : Hash
  pub token_a : Hash
  pub token_b : Hash
  pub reserve_a : ℕ
  pub reserve_b : ℕ
  pub total_shares : ℕ
  pub shares : Map PartyId ℕ

pub data DexCommand : Type 0 where
  -- token_a, token_b
  create_pool : Hash → Hash → DexCommand
  -- pool, amount_a, amount_b
  add_liquidity : Hash → ℕ → ℕ → DexCommand
  -- pool, shares
  remove_liquidity : Hash → ℕ → DexCommand
  -- pool, token_in, amount_in, min_out
  swap : Hash → Hash → ℕ → ℕ → DexCommand

pub data DexEvent : Type 0 where
  -- pool, token_a, token_b
  pool_created : Hash → Hash → Hash → DexEvent
  -- pool, provider, shares
  liquidity_added : Hash → PartyId → ℕ → DexEvent
  -- pool, provider, amount_a, amount_b
  liquidity_removed : Hash → PartyId → ℕ → ℕ → DexEvent
  -- pool, trader, token_in, amount_in, token_out, amount_out
  swapped : Hash → PartyId → Hash → ℕ → Hash → ℕ → DexEvent

-- How a command stops: with an error of the prism, or with a panic of the process.
pub data Stop : Type 0 where
  fault : PrismError → Stop
  panic : Stop

pub record DexSerde : Type 0 where
  pub token : TokenSerde
  pub pool : Serde Pool
  pub command : Serde DexCommand
  pub event : Serde DexEvent

pub record DexRoundTrips (c : DexSerde) : Type 0 where
  pub token : TokenRoundTrips c.token
  pub pool : RoundTrips c.pool
