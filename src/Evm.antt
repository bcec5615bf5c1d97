-- ===== src/Evm.antt =====
-- The parts of the Ethereum layer (evm/src).
pub mod Bytes
pub mod Rlp
pub mod U256
