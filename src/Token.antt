-- ===== src/Token.antt =====
-- The token prism (prisms/token/src/lib.rs).
pub mod Types
pub mod Store
pub mod Keys
pub mod Balances
pub mod Effects
pub mod Transfer
pub mod Supply
pub mod Fee
pub mod Handle
