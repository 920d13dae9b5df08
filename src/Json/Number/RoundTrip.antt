-- ===== src/Json/Number/RoundTrip.antt =====
-- `NextNumber` reads back the integers that `WriteInt` prints, and the doubles that `WriteFloat` does
-- where the C library's `strtod` does.
use litetvm_ffi.Prelude.{
  ℕ, suc, [], ◌∷◌, ◌++◌, true, false, ◌≡◌, ◌≢◌, refl, sym, ap, ◌∙◌, arith, some, Bytes, All, ◌==◌,
  codes,
}
use litetvm_ffi.Prelude.Int.{ℤ, pos, negsuc}
use litetvm_ffi.Json.Context.{Cursor, Context, Reads, put, match_literal}
use litetvm_ffi.Json.Decimal.{
  IsDigit, print_int, IsInt64, digits_of-IsDigit, digits_of-ne-nil, strtoimax-print_int, max_digits,
}
use litetvm_ffi.Json.Number.{
  is_float_char, Collected, convert_double, convert_number, next_number, literal_value,
}
use litetvm_ffi.Json.Number.Text.{
  IsNumberChar, EndsNumber, IsNumberText, has_float_char, IsCollected, next_number-Converts,
  is_number_char_lem, is_float_char_lem,
}
use litetvm_ffi.Json.Value.{int, float, Doubles}
use litetvm_ffi.Json.Writer.{float_text}

digit-IsNumberChar :
    (x : ℕ) → IsDigit x → (IsNumberChar x) × (is_float_char x ≡ false) × ((x == b'-') ≡ false)
digit-IsNumberChar x h =
    (sym (is_number_char_lem x) ∙ ground (arith, h), ground (arith, h), ground (arith, h))

digits-IsNumberChar : (s : Bytes) → All IsDigit s → All IsNumberChar s
digits-IsNumberChar [] h = tt
digits-IsNumberChar (x ∷ s) h = ((digit-IsNumberChar x h.0).0, digits-IsNumberChar s h.1)

digits-has_float_char : (s : Bytes) → All IsDigit s → has_float_char s ≡ false
unfolding has_float_char
digits-has_float_char [] h = refl
digits-has_float_char (x ∷ s) h =
    rw (sym (is_float_char_lem x) ∙ (digit-IsNumberChar x h.0).1, digits-has_float_char s h.1)

digits-IsNumberText : (s : Bytes) → s ≢ [] → All IsDigit s → IsNumberText s
digits-IsNumberText [] n h = absurd (n refl)
digits-IsNumberText (x ∷ []) n h = let d = digit-IsNumberChar x h.0 in (d.0, d.2)
digits-IsNumberText (x ∷ y ∷ s) n h =
    let all = digits-IsNumberChar (x ∷ y ∷ s) h in (all.0, all.1.0, all.1.1)

negative-IsNumberText : (s : Bytes) → s ≢ [] → All IsDigit s → IsNumberText (b'-' ∷ s)
negative-IsNumberText [] n h = absurd (n refl)
negative-IsNumberText (x ∷ s) n h = let all = digits-IsNumberChar (x ∷ s) h in (refl, all.0, all.1)

-- A printed integer looks like a number, and like no double.
pub print_int-IsNumberText :
    (z : ℤ) → IsNumberText (print_int z) × (has_float_char (print_int z) ≡ false)
unfolding print_int has_float_char
print_int-IsNumberText (pos n) =
    let h = digits_of-IsDigit max_digits n in
    (digits-IsNumberText _ (digits_of-ne-nil 19 n) h, digits-has_float_char _ h)
print_int-IsNumberText (negsuc n) =
    let h = digits_of-IsDigit max_digits (suc n) in
    (negative-IsNumberText _ (digits_of-ne-nil 19 (suc n)) h, digits-has_float_char _ h)

module _ (doubles : Doubles) where
  open doubles use {
    Double, is_nan, is_inf, is_negative, is_small_integer, print_general, infinity, neg_infinity,
    nan, strtod,
  }

  convert-int :
      (z : ℤ) (rest : Bytes) (start : Cursor) (r : Collected)
      → IsInt64 z
      → IsCollected (print_int z) true rest r
      → Reads (int z) rest (convert_number doubles start r)
  unfolding convert_number
  convert-int z rest start r h k =
      rw (k.flagged, k.buffered, strtoimax-print_int z h) (refl, k.left)

  convert-float :
      (d : Double) (s rest : Bytes) (start : Cursor) (r : Collected)
      → strtod s ≡ some d
      → IsCollected s false rest r
      → Reads (float d) rest (convert_number doubles start r)
  unfolding convert_number convert_double
  convert-float d s rest start r h k =
      rw (k.flagged, k.buffered) (rw (h, convert_double) (refl, k.left))

  -- Every `int64_t` is read back from its decimal print, with whatever stands behind that the number's
  -- loop does not collect.
  pub next_number-print_int :
      (z : ℤ) (rest : Bytes) (c : Context)
      → IsInt64 z
      → EndsNumber rest
      → Reads (int z) rest (next_number doubles (put (print_int z ++ rest) c))
  next_number-print_int z rest c h ends =
      let t = print_int-IsNumberText z in
      let k = next_number-Converts doubles (print_int z) rest c t.0 ends in
      rw k.converts (convert-int z rest k.start k.collected h (rw t.1 at k.is_collected))

  -- A double that is read back from its print: the infinities and the NaN of the parser, or a double
  -- whose text has a point or an exponent and which `strtod` reads back.
  pub data IsReadableDouble (d : Double) : Type 0 where
    is_the_nan : is_nan d ≡ true → d ≡ nan → IsReadableDouble d
    is_the_infinity :
        is_nan d ≡ false
        → is_inf d ≡ true
        → is_negative d ≡ false
        → d ≡ infinity
        → IsReadableDouble d
    is_the_neg_infinity :
        is_nan d ≡ false
        → is_inf d ≡ true
        → is_negative d ≡ true
        → d ≡ neg_infinity
        → IsReadableDouble d
    is_finite :
        is_nan d ≡ false
        → is_inf d ≡ false
        → IsNumberText (float_text doubles d)
        → has_float_char (float_text doubles d) ≡ true
        → strtod (float_text doubles d) ≡ some d
        → IsReadableDouble d

  pub float_text-nan : (d : Double) → is_nan d ≡ true → float_text doubles d ≡ codes "NaN"
  unfolding float_text
  float_text-nan d a = rw a

  pub float_text-infinity :
      (d : Double)
      → is_nan d ≡ false
      → is_inf d ≡ true
      → is_negative d ≡ false
      → float_text doubles d ≡ codes "Infinity"
  unfolding float_text
  float_text-infinity d a b n = rw (a, b, n)

  pub float_text-neg_infinity :
      (d : Double)
      → is_nan d ≡ false
      → is_inf d ≡ true
      → is_negative d ≡ true
      → float_text doubles d ≡ codes "-Infinity"
  unfolding float_text
  float_text-neg_infinity d a b n = rw (a, b, n)

  -- The parser's NaN, the two infinities, and every finite double whose printed text has characters of
  -- JSON's numbers alone (digits, signs, points, 'e' and 'E', and not a minus sign alone), with a point or
  -- an exponent among them, and that `strtod` reads back from there, are read back from what `WriteFloat`
  -- prints, with whatever stands behind that begins with none of these characters.
  pub next_number-float_text :
      (d : Double) (rest : Bytes) (c : Context)
      → IsReadableDouble d
      → EndsNumber rest
      → Reads (float d) rest (next_number doubles (put (float_text doubles d ++ rest) c))
  next_number-float_text d rest c (is_the_nan a e) ends =
      unfold next_number literal_value match_literal in
      rw (float_text-nan d a) (ap float (sym e), refl)
  next_number-float_text d rest c (is_the_infinity a b n e) ends =
      unfold next_number literal_value match_literal in
      rw (float_text-infinity d a b n) (ap float (sym e), refl)
  next_number-float_text d rest c (is_the_neg_infinity a b n e) ends =
      unfold next_number literal_value match_literal in
      rw (float_text-neg_infinity d a b n) (ap float (sym e), refl)
  next_number-float_text d rest c (is_finite a b t p r) ends =
      let k = next_number-Converts doubles (float_text doubles d) rest c t ends in
      rw k.converts (convert-float d _ rest k.start k.collected r (rw p at k.is_collected))

  -- A double that is finite, that WriteFloat does not take for an integer below 2 ^ 53, and whose "%.17g"
  -- is the decimal text of an integer of 64 bits is read back from what WriteFloat prints as that integer,
  -- and not as a double, with whatever stands behind that the number's loop does not collect.
  pub next_number-float_text_int :
      (d : Double) (z : ℤ) (rest : Bytes) (c : Context)
      → is_nan d ≡ false
      → is_inf d ≡ false
      → is_small_integer d ≡ false
      → print_general d ≡ print_int z
      → IsInt64 z
      → EndsNumber rest
      → Reads (int z) rest (next_number doubles (put (float_text doubles d ++ rest) c))
  unfolding float_text
  next_number-float_text_int d z rest c number finite large same h ends =
      rw (number, finite, large) (rw same (next_number-print_int z rest c h ends))
