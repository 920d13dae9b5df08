-- ===== src/Json/Number.antt =====
-- `NextNumber` of the JSON parser, with the literals that stand for numbers.
pub mod Text
pub mod RoundTrip
pub mod Progress
use litetvm_ffi.Prelude.{
  ℕ, [], ◌∷◌, ◌++◌, Bool, true, false, ◌&&◌, ◌||◌, not, Option, none, some, Bytes, codes, leb, ◌==◌,
  if◌then◌else◌,
}
use litetvm_ffi.Json.Context.{
  Cursor, Context, Outcome, done, failed, deref, advance, match_literal, set_error, expecting_value,
}
use litetvm_ffi.Json.Decimal.{is_digit, strtoimax, Scanned}
use litetvm_ffi.Json.Strings.{fail_at}
use litetvm_ffi.Json.Value.{Value, int, float, Doubles}

-- The characters that the loop collects, and those of them that no integer has.
abbrev pub is_number_char : ℕ → Bool
is_number_char x = is_digit x || x == b'e' || x == b'E' || x == b'+' || x == b'-' || x == b'.'

abbrev pub is_float_char : ℕ → Bool
is_float_char x = x == b'.' || x == b'e' || x == b'E'

-- What the loop leaves: `temp_buffer`, `maybe_int` and the cursor.
pub record Collected : Type 0 where
  pub temp_buffer : Bytes
  pub maybe_int : Bool
  pub ctx : Context

-- The loop over the bytes from the cursor on.
unfoldable pub number_loop : Bytes → Bytes → Bool → Context → Collected
number_loop [] buffer maybe_int c = record { temp_buffer = buffer; maybe_int = maybe_int; ctx = c }
number_loop (x ∷ s) buffer maybe_int c =
    let more =
      number_loop s (buffer ++ x ∷ []) (if is_float_char x then false else maybe_int) (advance c) in
    if is_number_char x
    then more
    else record { temp_buffer = buffer; maybe_int = maybe_int; ctx = c }

-- A literal gives `v`; where it is not there, the error is reported at `start_pos`.
unfoldable pub literal_value : {V : Type 0} → Bytes → V → Cursor → Context → Outcome V
literal_value pattern v start_pos c =
    let (found, c1) = match_literal pattern c in
    if found then done v c1 else fail_at start_pos expecting_value c1

is_empty : Bytes → Bool
is_empty [] = true
is_empty (x ∷ s) = false

module _ (doubles : Doubles) where
  open doubles use {Double, infinity, neg_infinity, nan, strtod}

  -- The `double` branch.
  unfoldable pub convert_double : Cursor → Bytes → Context → Outcome (Value Double)
  convert_double start_pos buffer c = elim (strtod buffer) [
    | some d ↦ done (float d) c
    | none ↦ fail_at start_pos expecting_value c
  ]

  -- "parse from temp_buffer_". An `intmax_t` is an `int64_t`, so its range is no further test.
  unfoldable pub convert_number : Cursor → Collected → Outcome (Value Double)
  unfolding is_empty
  convert_number start_pos r =
      let scanned = strtoimax r.temp_buffer in
      if r.maybe_int && (not scanned.out_of_range && is_empty scanned.end_ptr)
      then done (int scanned.value) r.ctx
      else convert_double start_pos r.temp_buffer r.ctx

  -- The part of the method behind the sign.
  unfoldable pub number_digits : Cursor → Bytes → Context → Outcome (Value Double)
  unfolding is_empty
  number_digits start_pos buffer c =
      let r = number_loop c.cur.rest buffer true c in
      if is_empty r.temp_buffer
      then failed (set_error expecting_value r.ctx)
      else convert_number start_pos r

  -- `NextNumber`
  unfoldable pub next_number : Context → Outcome (Value Double)
  next_number c = elim c.cur.rest [
    | [] ↦ failed (set_error expecting_value c)
    | x ∷ s ↦
        if x == b'-'
        then if deref (advance c) == b'I'
          then literal_value (codes "Infinity") (float neg_infinity) c.cur (advance c)
          else number_digits c.cur (b'-' ∷ []) (advance c)
        else if x == b'I'
        then literal_value (codes "Infinity") (float infinity) c.cur c
        else if x == b'N'
        then literal_value (codes "NaN") (float nan) c.cur c
        else number_digits c.cur [] c
  ]
