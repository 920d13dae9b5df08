-- ===== src/Json/Number/Progress.antt =====
-- `NextNumber` and the literals read at least one byte of a text that is not empty, or return `false`.
use litetvm_ffi.Prelude.{
  ℕ, suc, ◌<◌, ◌≤◌, [], ◌∷◌, ◌++◌, Bool, true, false, ◌&&◌, not, ◌==◌, if◌then◌else◌, if_cases,
  option_cases, arith, Bytes, codes, length,
}
use litetvm_ffi.Json.Context.{
  Cursor, Context, Outcome, done, failed, set_error, expecting_value, advance, put, match_literal,
  deref,
}
use litetvm_ffi.Json.Context.Progress.{left, Advances, left-match_literal}
use litetvm_ffi.Json.Decimal.{strtoimax}
use litetvm_ffi.Json.Number.{
  is_number_char, is_float_char, Collected, number_loop, literal_value, is_empty, convert_double,
  convert_number, number_digits, next_number,
}
use litetvm_ffi.Json.Strings.{fail_at}
use litetvm_ffi.Json.Value.{Value, float, Doubles}

-- A literal that is looked for with less than `n` bytes left.
pub literal_value-Advances :
    {V : Type 0} (pattern s : Bytes) (v : V) (start : Cursor) (c : Context) (n : ℕ)
    → length s < n
    → Advances n (literal_value pattern v start (put s c))
unfolding literal_value
literal_value-Advances pattern s v start c n h =
    if_cases (Advances n) (match_literal pattern (put s c)).0
      (λ _. omega (arith, left-match_literal pattern s c)) (λ _. tt)

-- A literal that begins at the cursor.
literal_value-Advances_at :
    {V : Type 0} (p : ℕ) (ps : Bytes) (x : ℕ) (s : Bytes) (v : V) (start : Cursor) (c : Context)
    → Advances (suc (length s)) (literal_value (p ∷ ps) v start (put (x ∷ s) c))
unfolding literal_value match_literal
literal_value-Advances_at p ps x s v start c =
    let P : Bool × Context → Type 0 = λ r.
      Advances (suc (length s)) (if r.0 then done v r.1 else fail_at start expecting_value r.1) in
    if_cases P (p == x)
      (λ _.
        literal_value-Advances ps s v start (advance (put (x ∷ s) c)) (suc (length s))
          (omega arith))
      (λ _. tt)

number_loop-left :
    (s buffer : Bytes) (maybe_int : Bool) (c : Context)
    → left (number_loop s buffer maybe_int (put s c)).ctx ≤ length s
unfolding number_loop
number_loop-left [] buffer m c = omega arith
number_loop-left (x ∷ s) buffer m c =
    let P : Collected → Type 0 = λ r. left r.ctx ≤ suc (length s) in
    if_cases P (is_number_char x)
      (λ _. omega (
        arith,
        number_loop-left s (buffer ++ x ∷ []) (if is_float_char x then false else m)
            (advance (put (x ∷ s) c)),
      ))
      (λ _. omega arith)

module _ (doubles : Doubles) where
  open doubles use {Double, strtod, infinity, neg_infinity, nan}

  convert_number-Advances :
      (start : Cursor) (r : Collected) (n : ℕ)
      → left r.ctx < n
      → Advances n (convert_number doubles start r)
  unfolding convert_number convert_double
  convert_number-Advances start r n h =
      if_cases (Advances n)
        (r.maybe_int
          && (not (strtoimax r.temp_buffer).out_of_range
              && is_empty (strtoimax r.temp_buffer).end_ptr))
        (λ _. h) (λ _. option_cases (Advances n) (strtod r.temp_buffer) (λ _. tt) (λ d _. h))

  -- What is done with the collected text.
  converted : Cursor → Collected → Outcome (Value Double)
  converted start r =
      if is_empty r.temp_buffer
      then failed (set_error expecting_value r.ctx)
      else convert_number doubles start r

  converted-Advances :
      (start : Cursor) (r : Collected) (n : ℕ) → left r.ctx < n → Advances n (converted start r)
  unfolding converted
  converted-Advances start r n h =
      if_cases (Advances n) (is_empty r.temp_buffer) (λ _. tt)
        (λ _. convert_number-Advances start r n h)

  number_digits-Advances :
      (start : Cursor) (buffer s : Bytes) (c : Context) (n : ℕ)
      → length s < n
      → Advances n (number_digits doubles start buffer (put s c))
  unfolding number_digits converted
  number_digits-Advances start buffer s c n h =
      converted-Advances start (number_loop s buffer true (put s c)) n
        (omega (arith, number_loop-left s buffer true c))

  number_digits-Advances_at :
      (start : Cursor) (x : ℕ) (s : Bytes) (c : Context)
      → Advances (suc (length s)) (number_digits doubles start [] (put (x ∷ s) c))
  unfolding number_digits number_loop is_empty converted
  number_digits-Advances_at start x s c =
      if_cases (λ r. Advances (suc (length s)) (converted start r)) (is_number_char x)
        (λ _.
          let m = if is_float_char x then false else true in
          let d = advance (put (x ∷ s) c) in
          converted-Advances start (number_loop s (x ∷ []) m d) _
            (omega (arith, number_loop-left s (x ∷ []) m d)))
        (λ _. tt)

  -- A number is at least one byte.
  pub next_number-Advances :
      (x : ℕ) (s : Bytes) (c : Context)
      → Advances (suc (length s)) (next_number doubles (put (x ∷ s) c))
  unfolding next_number
  next_number-Advances x s c =
      let d = put (x ∷ s) c in
      let P : Outcome (Value Double) → Type 0 = Advances (suc (length s)) in
      if_cases P (x == b'-')
        (λ _.
          if_cases P (deref (advance d) == b'I')
            (λ _.
              literal_value-Advances (codes "Infinity") s (float neg_infinity) d.cur (advance d) _
                (omega arith))
            (λ _. number_digits-Advances d.cur (b'-' ∷ []) s (advance d) _ (omega arith)))
        (λ _.
          if_cases P (x == b'I')
            (λ _. literal_value-Advances_at b'I' (codes "nfinity") x s (float infinity) d.cur c)
            (λ _.
              if_cases P (x == b'N')
                (λ _. literal_value-Advances_at b'N' (codes "aN") x s (float nan) d.cur c)
                (λ _. number_digits-Advances_at d.cur x s c)))
