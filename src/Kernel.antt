-- ===== src/Kernel.antt =====
-- The Photon kernel (kernel/src).
pub mod Hash
pub mod Merkle
pub mod Serde
pub mod Types
pub mod State
pub mod Prism
pub mod Cascade
