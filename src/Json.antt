-- ===== src/Json.antt =====
-- src/ffi/extra/json_parser.cpp and json_writer.cpp, with `EscapeString` of include/ffi/string.h.
pub mod Decimal
pub mod Context
pub mod Escape
pub mod Strings
pub mod Value
pub mod Object
pub mod Number
pub mod Parser
pub mod Writer
mod Tests
