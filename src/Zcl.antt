-- ===== src/Zcl.antt =====
-- internal/zcl: the ZCL data types and their values.
pub mod Value
pub mod Types
pub mod Clusters
