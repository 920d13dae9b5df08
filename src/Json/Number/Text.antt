-- ===== src/Json/Number/Text.antt =====
-- `NextNumber` on a text that looks like a number.
use litetvm_ffi.Prelude.{
  ℕ, [], ◌∷◌, ◌++◌, Bool, true, false, ◌&&◌, ◌||◌, not, ◌≡◌, ◌∙◌, refl, sym, arith, Bytes, codes,
  All, ◌==◌, ==_iff, inl, inr, Bool-cases, if◌then◌else◌, append_assoc, append-nil,
}
use litetvm_ffi.Json.Context.{Cursor, Context, Outcome, put, advance}
use litetvm_ffi.Json.Number.{
  is_number_char, is_float_char, Collected, number_loop, convert_number, number_digits, next_number,
}
use litetvm_ffi.Json.Value.{Value, Doubles}

abbrev occurs_in : Bytes → ℕ → Bool
occurs_in [] x = false
occurs_in (y ∷ s) x = x == y || occurs_in s x

-- The characters of the numbers of JSON (RFC 8259, section 6)
abbrev pub IsNumberChar : ℕ → Type 0
IsNumberChar x = occurs_in (codes "0123456789+-.eE") x ≡ true

-- What may stand behind a number: nothing that could be a part of it.
abbrev pub EndsNumber : Bytes → Type 0
EndsNumber [] = Unit
EndsNumber (x ∷ s) = occurs_in (codes "0123456789+-.eE") x ≡ false

-- The text has a point or an exponent.
unfoldable pub has_float_char : Bytes → Bool
has_float_char [] = false
has_float_char (x ∷ s) = occurs_in (codes ".eE") x || has_float_char s

pub is_number_char_lem : (x : ℕ) → is_number_char x ≡ occurs_in (codes "0123456789+-.eE") x
is_number_char_lem x = ground arith

pub is_float_char_lem : (x : ℕ) → is_float_char x ≡ occurs_in (codes ".eE") x
is_float_char_lem x = ground arith

-- The loop has collected `buffer` and left `rest`.
pub record IsCollected (buffer : Bytes) (maybe_int : Bool) (rest : Bytes) (r : Collected)
    : Type 0 where
  pub buffered : r.temp_buffer ≡ buffer
  pub flagged : r.maybe_int ≡ maybe_int
  pub left : r.ctx.cur.rest ≡ rest

number_loop-IsCollected :
    (s buffer rest : Bytes) (maybe_int : Bool) (c : Context)
    → All IsNumberChar s
    → EndsNumber rest
    → IsCollected
        (buffer ++ s)
        (maybe_int && not (has_float_char s))
        rest
        (number_loop (s ++ rest) buffer maybe_int (put (s ++ rest) c))
unfolding number_loop has_float_char
number_loop-IsCollected [] buffer [] m c h e = record {
  buffered = sym (append-nil buffer);
  flagged = ground arith;
  left = refl;
}
number_loop-IsCollected [] buffer (x ∷ s) m c h e =
    rw (is_number_char_lem x ∙ e)
      (record { buffered = sym (append-nil buffer); flagged = ground arith; left = refl })
number_loop-IsCollected (x ∷ s) buffer rest m c h e = rw (is_number_char_lem x ∙ h.0) (
    let r =
      number_loop-IsCollected s (buffer ++ x ∷ []) rest (if is_float_char x then false else m)
        (advance (put (x ∷ (s ++ rest)) c)) h.1 e in
    record {
      buffered = r.buffered ∙ append_assoc buffer (x ∷ []) s;
      flagged = r.flagged ∙ ground (arith, is_float_char_lem x);
      left = r.left;
    })

-- A text that the method takes for a number as a whole: it has characters of numbers alone, and a sign
-- is not all of it.
abbrev pub IsNumberText : Bytes → Type 0
IsNumberText [] = ⊥
IsNumberText (x ∷ []) = IsNumberChar x × ((x == b'-') ≡ false)
IsNumberText (x ∷ y ∷ s) = IsNumberChar x × IsNumberChar y × All IsNumberChar s

module _ (doubles : Doubles) where
  open doubles use {Double, strtod}

  number_digits-convert :
      (start : Cursor) (buffer s rest : Bytes) (x : ℕ) (xs : Bytes) (c : Context)
      → buffer ++ s ≡ x ∷ xs
      → All IsNumberChar s
      → EndsNumber rest
      → number_digits doubles start buffer (put (s ++ rest) c)
        ≡ convert_number doubles start (number_loop (s ++ rest) buffer true (put (s ++ rest) c))
  unfolding number_digits
  number_digits-convert start buffer s rest x xs c e h ends =
      let filled = (number_loop-IsCollected s buffer rest true c h ends).buffered ∙ e in rw filled

  -- `NextNumber` converts what it has collected.
  pub record Converts (s rest : Bytes) (o : Outcome (Value Double)) : Type 0 where
    pub start : Cursor
    pub collected : Collected
    pub is_collected : IsCollected s (not (has_float_char s)) rest collected
    pub converts : o ≡ convert_number doubles start collected

  pub next_number-Converts :
      (s rest : Bytes) (c : Context)
      → IsNumberText s
      → EndsNumber rest
      → Converts s rest (next_number doubles (put (s ++ rest) c))
  unfolding next_number has_float_char
  next_number-Converts [] rest c h ends = absurd h
  next_number-Converts (x ∷ []) rest c (h, no_sign) ends =
      let d = put ((x ∷ []) ++ rest) c in
      let other : ((x == b'I') ≡ false) × ((x == b'N') ≡ false) = ground arith in
      record {
        start = d.cur;
        collected = number_loop ((x ∷ []) ++ rest) [] true d;
        is_collected = number_loop-IsCollected (x ∷ []) [] rest true c (h, tt) ends;
        converts =
            rw (no_sign, other.0, other.1)
              (number_digits-convert d.cur [] (x ∷ []) rest x [] c refl (h, tt) ends);
      }
  next_number-Converts (x ∷ y ∷ s) rest c (h, k, all) ends = elim (Bool-cases (x == b'-')) [
    | inl sign ↦
        let d = put ((x ∷ y ∷ s) ++ rest) c in
        let not_infinity : (y == b'I') ≡ false = ground arith in
        let r = number_loop-IsCollected (y ∷ s) (b'-' ∷ []) rest true (advance d) (k, all) ends in
        let same : x ≡ b'-' = (==_iff x _).0 sign in
        record {
          start = d.cur;
          collected =
              number_loop ((y ∷ s) ++ rest) (b'-' ∷ []) true (put ((y ∷ s) ++ rest) (advance d));
          is_collected =
              rw same (record { buffered = r.buffered; flagged = r.flagged; left = r.left });
          converts =
              rw (sign, not_infinity)
                (number_digits-convert d.cur (b'-' ∷ []) (y ∷ s) rest b'-' (y ∷ s) (advance d) refl
                  (k, all) ends);
        }
    | inr no_sign ↦
        let d = put ((x ∷ y ∷ s) ++ rest) c in
        let other : ((x == b'I') ≡ false) × ((x == b'N') ≡ false) = ground arith in
        record {
          start = d.cur;
          collected = number_loop ((x ∷ y ∷ s) ++ rest) [] true d;
          is_collected = number_loop-IsCollected (x ∷ y ∷ s) [] rest true c (h, (k, all)) ends;
          converts =
              rw (no_sign, other.0, other.1)
                (number_digits-convert d.cur [] (x ∷ y ∷ s) rest x (y ∷ s) c refl (h, (k, all))
                  ends);
        }
  ]
