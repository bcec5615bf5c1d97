-- ===== src/Vesting.antt =====
-- The vesting prism (prisms/vesting/src/lib.rs).
pub mod Schedule
pub mod Handle
pub mod Curve
pub mod Laws
pub mod Revoke
