-- ===== src/Json/Strings.antt =====
-- `NextString`, `NextStringWithFullHandling` and `Parse4Hex` of the JSON parser.
-- The source compares a `char` with ' ', and whether a `char` is signed is left to the platform: it is
-- the argument `signed` here. A signed `char` of a byte from 0x80 on is negative.
pub mod Rounds
pub mod Utf8
pub mod Unicode
pub mod Signed
pub mod RoundTrip
pub mod Progress
use litetvm_ffi.Prelude.{
  ℕ, zero, suc, ◌+◌, ◌-◌, ◌*◌, ◌/◌, ◌%◌, ◌^◌, bit_and, bit_or, [], ◌∷◌, ◌++◌, Bool, true, false,
  ◌&&◌, ◌||◌, Option, none, some, Bytes, codes, length, ltb, leb, ◌==◌, if◌then◌else◌,
}
use litetvm_ffi.Json.Context.{
  Cursor, Context, Outcome, done, failed, check_failed, out_of_fuel, deref, advance,
  set_current_pos, match_literal, set_error, invalid_control_character, unterminated_string,
  invalid_unicode_escape, invalid_surrogate_pair, invalid_escape,
}

-- `*cur_ < ' '`
abbrev pub below_space : Bool → ℕ → Bool
below_space signed x = ltb x 0x20 || (signed && leb 0x80 x)

-- The value of a hexadecimal digit.
unfoldable pub hex_val : ℕ → Option ℕ
hex_val x =
    if leb b'0' x && leb x b'9'
    then some (x - b'0')
    else if leb b'a' x && leb x b'f'
    then some (x - (b'a' - 0xa))
    else if leb b'A' x && leb x b'F'
    then some (x - (b'A' - 0xa))
    else none

unfoldable pub hex_loop : ℕ → ℕ → Context → Option ℕ × Context
hex_loop zero result c = (some result, c)
hex_loop (suc n) result c = elim (hex_val (deref c)) [
  | none ↦ (none, c)
  | some digit ↦ hex_loop n (result * 16 + digit) (advance c)
]

-- `Parse4Hex`, with `none` for `false`
unfoldable pub parse_4hex : Context → Option ℕ × Context
parse_4hex c = hex_loop 4 0 c

-- The UTF-8 bytes that are pushed for a code point.
unfoldable pub push_utf8 : ℕ → Bytes
push_utf8 code_point =
    if ltb code_point 0x80
    then code_point ∷ []
    else if ltb code_point 0x800
    then bit_or 0xC0 (code_point / 2 ^ 6) ∷ bit_or 0x80 (bit_and code_point 0x3F) ∷ []
    else if ltb code_point 0x10000
    then (bit_or 0xE0 (code_point / 2 ^ 12)
        ∷ bit_or 0x80 (bit_and (code_point / 2 ^ 6) 0x3F)
        ∷ bit_or 0x80 (bit_and code_point 0x3F)
        ∷ [])
    else bit_or 0xF0 (code_point / 2 ^ 18)
      ∷ bit_or 0x80 (bit_and (code_point / 2 ^ 12) 0x3F)
      ∷ bit_or 0x80 (bit_and (code_point / 2 ^ 6) 0x3F)
      ∷ bit_or 0x80 (bit_and code_point 0x3F)
      ∷ []

-- An error that is reported at an earlier position.
abbrev pub fail_at {ℓ} : {A : Type ℓ} → Cursor → Bytes → Context → Outcome A
fail_at p err_prefix c = failed (set_error err_prefix (set_current_pos p c))

-- The second half of a surrogate pair, with the cursor behind the first.
unfoldable pub second_surrogate : ℕ → Cursor → Context → Outcome ℕ
second_surrogate first_i16 escape_pos c =
    let (found, c1) = match_literal (codes "\\u") c in
    let (second, c2) = parse_4hex c1 in
    if found
    then elim second [
      | none ↦ fail_at c1.cur invalid_unicode_escape c2
      | some second_i16 ↦
          if leb 0xDC00 second_i16 && leb second_i16 0xDFFF
          then done ((first_i16 - 0xD800) * 2 ^ 10 + (second_i16 - 0xDC00) + 0x10000) c2
          else fail_at c1.cur invalid_surrogate_pair c2
    ]
    else fail_at escape_pos invalid_surrogate_pair c1

-- `case 'u'`: the code point of an escape, with the cursor on the 'u'.
unfoldable pub unicode_escape : Context → Outcome ℕ
unicode_escape c =
    let (first, c1) = parse_4hex (advance c) in
    elim first [
      | none ↦ fail_at c.cur invalid_unicode_escape c1
      | some first_i16 ↦
          if leb 0xD800 first_i16 && leb first_i16 0xDFFF
          then if leb 0xDC00 first_i16
            then fail_at c.cur invalid_surrogate_pair c1
            else second_surrogate first_i16 c.cur c1
          else done first_i16 c1
    ]

-- HANDLE_ESCAPE_CHAR
abbrev pub simple_escape : ℕ → Option ℕ
simple_escape x =
    if x == b'"'
    then some b'"'
    else if x == b'\\'
    then some b'\\'
    else if x == b'/'
    then some b'/'
    else if x == b'b'
    then some 8
    else if x == b'f'
    then some 12
    else if x == b'n'
    then some 10
    else if x == b'r'
    then some 13
    else if x == b't'
    then some 9
    else none

-- How a round of the loop ends: by a `return`, or with the string so far and the next position.
pub data Round : Type 0 where
  stop : Outcome Bytes → Round
  next : Bytes → Context → Round

-- The `switch` behind a backslash.
unfoldable pub escape_round : Bytes → Context → Round
escape_round out_str c = elim (simple_escape (deref c)) [
  | some x ↦ next (out_str ++ x ∷ []) (advance c)
  | none ↦
      if deref c == b'u'
      then elim (unicode_escape c) [
        | done code_point c1 ↦ next (out_str ++ push_utf8 code_point) c1
        | failed c1 ↦ stop (failed c1)
        | check_failed ↦ stop check_failed
        | out_of_fuel ↦ stop out_of_fuel
      ]
      else stop (failed (set_error invalid_escape c))
]

-- One round of the loop of `NextStringWithFullHandling`, its exit at `end_` included.
unfoldable pub full_round : Bool → Cursor → Bytes → Context → Round
full_round signed start_pos out_str c = elim c.cur.rest [
  | [] ↦ stop (fail_at start_pos unterminated_string c)
  | x ∷ s ↦
      if below_space signed x
      then stop (failed (set_error invalid_control_character c))
      else if x == b'"'
      then stop (done out_str (advance c))
      else if x == b'\\'
      then escape_round out_str (advance c)
      else next (out_str ++ x ∷ []) (advance c)
]

-- The loop leaves on a `stop`, and goes on with a `next`.
unfoldable pub after_round : Round → (Bytes → Context → Outcome Bytes) → Outcome Bytes
after_round (stop r) go_on = r
after_round (next out_str c) go_on = go_on out_str c

unfoldable pub full_loop : ℕ → Bool → Cursor → Bytes → Context → Outcome Bytes
full_loop zero signed start_pos out_str c = out_of_fuel
full_loop (suc fuel) signed start_pos out_str c =
    after_round (full_round signed start_pos out_str c) (full_loop fuel signed start_pos)

-- Each round moves the cursor on, so that the bytes left are fuel enough.
unfoldable pub next_string_with_full_handling : Bool → Cursor → Bytes → Context → Outcome Bytes
next_string_with_full_handling signed start_pos out_str c =
    full_loop (suc (length c.cur.rest)) signed start_pos out_str c

-- The loop of `NextString` over the bytes from the cursor on; `seen` stands between the opening
-- quote and the cursor.
unfoldable pub simple_loop : Bytes → Bool → Cursor → Bytes → Context → Outcome Bytes
simple_loop [] signed start_pos seen c = fail_at start_pos unterminated_string c
simple_loop (x ∷ s) signed start_pos seen c =
    let more = simple_loop s signed start_pos (seen ++ x ∷ []) (advance c) in
    if x == b'"'
    then done seen (advance c)
    else if below_space signed x || x == b'\\'
    then next_string_with_full_handling signed start_pos seen c
    else more

-- `NextString`
unfoldable pub next_string : Bool → Context → Outcome Bytes
next_string signed c =
    let c1 = advance c in
    if deref c == b'"' then simple_loop c1.cur.rest signed c.cur [] c1 else check_failed
