-- ===== src/Dtype.antt =====
-- src/ffi/dtype.cpp with DLDataTypeCodeAsCStr of include/ffi/dtype.h: data types and their names.
pub mod Types
pub mod Lanes
pub mod Print
pub mod Parse
pub mod Scan
pub mod RoundTrip
pub mod BoolCode
pub mod Custom
mod Tests
