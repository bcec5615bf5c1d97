-- ===== src/Bridge.antt =====
-- The bridge prism (prisms/bridge/src).
pub mod Types
pub mod Quorum
pub mod Handle
pub mod Redeem
pub mod Replay
