-- ===== src/Dex.antt =====
-- The constant-product exchange (prisms/dex/src/lib.rs).
pub mod Math
pub mod Sqrt
pub mod Quote
pub mod Pool
pub mod Handle
pub mod Liquidity
pub mod Swap
