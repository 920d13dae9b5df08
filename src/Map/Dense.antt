-- ===== src/Map/Dense.antt =====
-- `DenseMapObj`
pub mod Links
pub mod Probe
pub mod Size
pub mod Node
pub mod Table
pub mod Rehash
