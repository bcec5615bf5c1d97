-- ===== src/Oracle.antt =====
-- The oracle prism (prisms/oracle/src/lib.rs).
pub mod Types
pub mod Handle
pub mod Report
