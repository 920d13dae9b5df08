-- ===== src/Dtype/Lanes.antt =====
-- src/ffi/dtype.cpp: the lanes of a data type, and the bits and lanes at the end of a name.
-- A name is a text with a NUL behind it, as the C functions read it.
use litetvm_ffi.Prelude.{
  ℕ, suc, not, length, take, drop, get_elem?, ◌-◌, ◌%◌, ◌^◌, [], ◌∷◌, ◌++◌, Bool, true, false, ◌&&◌,
  ◌||◌, Option, none, some, Bytes, codes, ltb, leb, ◌==◌, if◌then◌else◌,
}
use litetvm_ffi.Json.Decimal.{print_nat, read_digits, is_digit}
use litetvm_ffi.Dtype.Types.{CustomTypes, Converted, ok, value_error, custom_error, overread}

-- The lanes as they are printed, read as an `int16_t`.
unfoldable pub lanes_text : ℕ → Bytes
lanes_text lanes =
    if ltb lanes 0x8000
    then (if ltb 1 lanes then b'x' ∷ print_nat lanes else [])
    else if ltb 1 (0x10000 - lanes)
    then codes "xvscalex" ++ print_nat (0x10000 - lanes)
    else []

-- The text behind a prefix, if it is there: `str.compare(pos, len, prefix) == 0`.
unfoldable pub strip : Bytes → Bytes → Option Bytes
strip [] s = some s
strip (p ∷ ps) [] = none
strip (p ∷ ps) (x ∷ s) = let rest = strip ps s in if p == x then rest else none

abbrev pub is_white : ℕ → Bool
is_white c = c == b' ' || (leb 9 c && leb c 13)

unfoldable pub skip_white : Bytes → Bytes
skip_white [] = []
skip_white (c ∷ s) = let rest = skip_white s in if is_white c then rest else c ∷ s

abbrev pub ulong_max : ℕ
ulong_max = 2 ^ 64 - 1

abbrev pub starts_with_digit : Bytes → Bool
starts_with_digit [] = false
starts_with_digit (c ∷ s) = is_digit c

-- Behind the sign: a number that is too large is ULONG_MAX, and a minus sign negates in an `unsigned long`.
unfoldable pub scan_ulong : Bool → Bytes → Bytes → ℕ × Bytes
scan_ulong minus whole s =
    let n = (read_digits 0 s).0 in
    if starts_with_digit s
    then (
      if leb n ulong_max then (if minus then (2 ^ 64 - n) % 2 ^ 64 else n) else ulong_max,
      (read_digits 0 s).1,
    )
    else (0, whole)

abbrev pub scan_sign : Bytes → Bytes → ℕ × Bytes
scan_sign whole [] = (0, whole)
scan_sign whole (c ∷ s) =
    if c == b'-'
    then scan_ulong true whole s
    else if c == b'+'
    then scan_ulong false whole s
    else scan_ulong false whole (c ∷ s)

-- `strtoul(s, &end_ptr, 10)`, with the text at `end_ptr`.
unfoldable pub strtoul : Bytes → ℕ × Bytes
strtoul s = scan_sign s (skip_white s)

abbrev pub is_end : Bytes → Bool
is_end [] = true
is_end (c ∷ s) = false

abbrev pub same_text : Bytes → Bytes → Bool
same_text s t = elim (strip s t) [ none ↦ false | some rest ↦ is_end rest ]

-- The loop of ParseCustomDataTypeCode: `custom_name_len`, from `len` on, with the bytes of the buffer from
-- there on; `length` is that of the text behind the opening bracket. Behind the buffer the bound fails.
unfoldable pub until_bracket : ℕ → ℕ → Bytes → ℕ
until_bracket len length [] = len
until_bracket len length (c ∷ s) =
    let more = until_bracket (suc len) length s in
    if leb len length && not (c == b']') then more else len

-- The optional lanes at the end of a name; `negative` is `scalable_multiplier == -1`.
unfoldable pub finish_lanes : ℕ → ℕ → Bool → Bytes → Converted
finish_lanes code bits negative s =
    let l = strtoul s in
    if is_end l.1
    then ok (record {
      code = code;
      bits = bits;
      lanes = if negative then (0x10000 - l.0 % 0x10000) % 0x10000 else l.0 % 0x10000;
    })
    else value_error

unfoldable pub read_lanes : ℕ → ℕ → Bool → Bytes → Converted
read_lanes code bits negative [] = ok (record { code = code; bits = bits; lanes = 1 })
read_lanes code bits negative (c ∷ s) =
    if c == b'x' then finish_lanes code bits negative s else value_error

-- The lanes behind the bits, which "xvscale" marks as scalable.
unfoldable pub read_scaled : ℕ → ℕ → Bytes → Converted
read_scaled code bits w = elim (strip (codes "xvscale") w) [
  | none ↦ read_lanes code bits false w
  | some s ↦ read_lanes code bits true s
]

-- The part of StringViewToDLDataType_ behind the code: "emulate sscanf("%ux%u", bits, lanes)".
unfoldable pub read_bits_lanes : ℕ → ℕ → Bytes → Converted
read_bits_lanes code default_bits scan =
    let r = strtoul scan in
    let given = r.0 % 256 in
    let bits = if given == 0 then default_bits else given in read_scaled code bits r.1

-- `parse_float`, at the text behind the name.
unfoldable pub parse_float : ℕ → ℕ → Bytes → Converted
parse_float code bits s = read_lanes code bits false s

-- ParseCustomDataTypeCode at the text behind "custom", and the rest of the name. The byte behind the name
-- is read in the text with its NUL; a read behind the NUL is `overread`.
unfoldable pub parse_custom : CustomTypes → Bytes → Converted
unfolding until_bracket
parse_custom customs [] = value_error
parse_custom customs (c ∷ s) =
    let buffer = s ++ 0 ∷ [] in
    let custom_name_len = until_bracket 0 (length s) buffer in
    let found : Converted = elim (customs.get_custom_type_code (take custom_name_len s)) [
      | none ↦ custom_error
      | some type_code ↦ read_bits_lanes (type_code % 256) 32 (drop (suc custom_name_len) s)
    ] in
    let closed : Converted = elim (get_elem? buffer custom_name_len) [
      | none ↦ overread
      | some x ↦ if x == b']' then found else value_error
    ] in
    if c == b'[' then closed else value_error
