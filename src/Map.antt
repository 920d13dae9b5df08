-- ===== src/Map.antt =====
-- include/ffi/container/map.h: maps from any value to any value, small and dense.
pub mod Assoc
pub mod Outcome
pub mod Small
pub mod Dense
pub mod Object
pub mod Handle
mod Tests
