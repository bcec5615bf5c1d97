-- ===== src/Tests.antt =====
-- Concrete instances of the parameters, and the theorems applied to them. No code is modelled here.
mod Codec
mod World
mod KernelRuns
mod TokenRuns
mod VestingRuns
mod DexRuns
mod ConsensusRuns
mod ContractRuns
mod MultisigRuns
mod BridgeRuns
mod OracleRuns
mod LightRuns
mod EvmRuns
