-- ===== src/Contract.antt =====
-- The contract prism and its machine (prisms/contract/src).
pub mod Vm
pub mod Types
pub mod Handle
pub mod Calls
