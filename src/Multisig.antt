-- ===== src/Multisig.antt =====
-- The multisig prism (prisms/multisig/src/lib.rs).
pub mod Types
pub mod Handle
pub mod Votes
pub mod Once
pub mod Accounts
pub mod Spend
