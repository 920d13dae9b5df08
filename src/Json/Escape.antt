-- ===== src/Json/Escape.antt =====
-- `EscapeString` of include/ffi/string.h, which the JSON writer prints strings with.
use litetvm_ffi.Prelude.{
  ℕ, ◌+◌, ◌-◌, ◌/◌, ◌%◌, [], ◌∷◌, ◌++◌, ◌||◌, Bytes, codes, ltb, ◌==◌, if◌then◌else◌,
}

-- A digit of "%04x".
abbrev pub hex_char : ℕ → ℕ
hex_char d = if ltb d 10 then b'0' + d else b'a' + (d - 10)

-- "\\u%04x" of a byte, whose first two hexadecimal digits are zero.
unfoldable pub escape_code : ℕ → Bytes
escape_code b = b'\\' ∷ b'u' ∷ b'0' ∷ b'0' ∷ hex_char (b / 16) ∷ hex_char (b % 16) ∷ []

-- What one round of the loop writes.
unfoldable pub escape_byte : ℕ → Bytes
escape_byte b =
    if b == b'"'
    then codes "\\\""
    else if b == b'\\'
    then codes "\\\\"
    else if b == b'/'
    then codes "\\/"
    else if b == 8
    then codes "\\b"
    else if b == 12
    then codes "\\f"
    else if b == 10
    then codes "\\n"
    else if b == 13
    then codes "\\r"
    else if b == 9
    then codes "\\t"
    else if ltb b 0x20 || b == 0x7f
    then escape_code b
    else b ∷ []

unfoldable pub escape_bytes : Bytes → Bytes
escape_bytes [] = []
escape_bytes (b ∷ s) = escape_byte b ++ escape_bytes s

-- `EscapeString`
unfoldable pub escape_string : Bytes → Bytes
unfolding escape_bytes
escape_string s = b'"' ∷ (escape_bytes s ++ b'"' ∷ [])
