-- ===== src/Contract/Types.antt =====
-- The data of the contract prism (prisms/contract/src/lib.rs).
use veilux_binary.Base.{ℕ, Bool, Option, List}
use veilux_binary.Base.Map.{Map}
use veilux_binary.Kernel.Hash.{Hash}
use veilux_binary.Kernel.Types.{PartyId}
use veilux_binary.Kernel.Serde.{Serde, RoundTrips}

pub record ContractMeta : Type 0 where
  pub address : Hash
  pub deployer : PartyId
  pub code : List ℕ
  pub code_size : ℕ

pub data ContractCommand : Type 0 where
  -- code
  deploy : List ℕ → ContractCommand
  -- address, args, value, gas_limit
  call : Hash → List ℕ → ℕ → ℕ → ContractCommand

pub data ContractEvent : Type 0 where
  -- address, code_size
  deployed : Hash → ℕ → ContractEvent
  -- address, return_value, gas_used, logs, reverted
  called : Hash → Option ℕ → ℕ → List ℕ → Bool → ContractEvent

-- `serde_json` at the types that the prism writes and reads. The storage is a `HashMap`, whose
-- iteration order depends on the random seed it was made with, so its text depends on the seed too.
pub record ContractSerde : Type 0 where
  pub meta : Serde ContractMeta
  pub storage : ℕ → Serde (Map ℕ ℕ)
  pub command : Serde ContractCommand
  pub event : Serde ContractEvent

-- What is stored reads back.
pub record ContractRoundTrips (c : ContractSerde) : Type 0 where
  pub meta : RoundTrips c.meta
  pub storage : (seed : ℕ) → RoundTrips (c.storage seed)
