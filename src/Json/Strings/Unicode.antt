-- ===== src/Json/Strings/Unicode.antt =====
-- Every code point that JSON can escape, in one `\u` or as a surrogate pair, is read as its UTF-8 bytes.
use litetvm_ffi.Prelude.{
  ℕ, suc, ◌+◌, ◌-◌, ◌*◌, ◌/◌, ◌%◌, ◌^◌, ◌<◌, ◌≤◌, [], ◌∷◌, ◌++◌, Bool, true, false, ◌&&◌, ◌⊎◌,
  Option, none, some, leb, ltb, if◌then◌else◌, if_cases, ◌≡◌, ◌∙◌, sym, ap, subst, refl, arith,
  Bytes, length,
}
use litetvm_ffi.Json.Context.{
  Cursor, Context, Outcome, done, failed, check_failed, out_of_fuel, Reads, put, advance,
  match_literal, invalid_unicode_escape, invalid_surrogate_pair,
}
use litetvm_ffi.Json.Strings.{
  hex_val, hex_loop, parse_4hex, push_utf8, fail_at, second_surrogate, unicode_escape, stop, next,
  escape_round, full_round, after_round, full_loop, next_string_with_full_handling, next_string,
}
use litetvm_ffi.Json.Strings.Rounds.{GoesOn, after_round-GoesOn, backslash_round, hex_loop_digit}
use litetvm_ffi.Json.Strings.RoundTrip.{simple_loop_backslash}
use litetvm_ffi.Json.Strings.Utf8.{IsUtf8, push_utf8-IsUtf8}

-- A hexadecimal digit, in upper or in lower case
unfoldable pub hex_digit : Bool → ℕ → ℕ
hex_digit upper d =
    if ltb d 10 then b'0' + d else if upper then b'A' + (d - 10) else b'a' + (d - 10)

-- Four digits, each of them in a case of its own
abbrev hex4 : (ℕ → Bool) → ℕ → Bytes
hex4 upper n =
    hex_digit (upper 0) (n / 4096 % 16)
    ∷ hex_digit (upper 1) (n / 256 % 16)
    ∷ hex_digit (upper 2) (n / 16 % 16)
    ∷ hex_digit (upper 3) (n % 16)
    ∷ []

-- The cases of the digits behind the first four
abbrev last_four : (ℕ → Bool) → ℕ → Bool
last_four upper i = upper (4 + i)

-- The two halves of a surrogate pair, behind a backslash.
abbrev pair_text : (ℕ → Bool) → ℕ → ℕ → Bytes
pair_text upper high low =
    b'u' ∷ (hex4 upper high ++ b'\\' ∷ b'u' ∷ hex4 (last_four upper) (0xDC00 + low))

-- What may stand behind a backslash for a code point (RFC 8259, section 7): its four digits, or those
-- of the two halves of its surrogate pair. `upper` says which of the digits are in upper case.
unfoldable pub escape_text : (ℕ → Bool) → ℕ → Bytes
escape_text upper code_point =
    if ltb code_point 0x10000
    then b'u' ∷ hex4 upper code_point
    else pair_text upper (0xD800 + (code_point - 0x10000) / 1024) ((code_point - 0x10000) % 1024)

-- A code point that is no surrogate.
abbrev pub IsScalar : ℕ → Type 0
IsScalar code_point = (code_point < 0xD800) ⊎ ((0xE000 ≤ code_point) × (code_point < 0x110000))

-- The context behind four digits.
abbrev behind : Bytes → Context → Context
behind t c = record c { cur = record { rest = t; offset = c.cur.offset + 1 + 1 + 1 + 1 } }

hex_val-hex_digit : (upper : Bool) (d : ℕ) → d < 16 → hex_val (hex_digit upper d) ≡ some d
unfolding hex_val hex_digit
hex_val-hex_digit true d h = ground arith
hex_val-hex_digit false d h = ground arith

parse_4hex-hex4 :
    (upper : ℕ → Bool)
    → (n : ℕ) (t : Bytes) (c : Context) → n < 65536
    → parse_4hex (put (hex4 upper n ++ t) c) ≡ (some n, behind t c)
unfolding parse_4hex
parse_4hex-hex4 upper n t c h =
    let a = n / 4096 % 16 in
    let b = n / 256 % 16 in
    let d = n / 16 % 16 in
    hex_loop_digit 3 0 a _ (hex_val-hex_digit (upper 0) a (omega arith))
    ∙ hex_loop_digit 2 (0 * 16 + a) b _ (hex_val-hex_digit (upper 1) b (omega arith))
    ∙ hex_loop_digit 1 ((0 * 16 + a) * 16 + b) d _ (hex_val-hex_digit (upper 2) d (omega arith))
    ∙ hex_loop_digit 0 (((0 * 16 + a) * 16 + b) * 16 + d) (n % 16) _
        (hex_val-hex_digit (upper 3) (n % 16) (omega arith))
    ∙ (unfold hex_loop in ground arith)

-- The second half of a pair, behind the first.
second_surrogate-Reads :
    (upper : ℕ → Bool)
    → (high low : ℕ) (pos : Cursor) (t : Bytes) (c : Context) → low < 1024
    → Reads
        ((high - 0xD800) * 2 ^ 10 + low + 0x10000)
        t
        (second_surrogate high pos (put (b'\\' ∷ b'u' ∷ (hex4 upper (0xDC00 + low) ++ t)) c))
unfolding second_surrogate match_literal
second_surrogate-Reads upper high low pos t c h =
    let d = advance (advance (put (b'\\' ∷ b'u' ∷ (hex4 upper (0xDC00 + low) ++ t)) c)) in
    subst
      (λ (r : Option ℕ × Context). Reads ((high - 0xD800) * 2 ^ 10 + low + 0x10000) t (elim r.0 [
        | none ↦ fail_at d.cur invalid_unicode_escape r.1
        | some second_i16 ↦
            if leb 0xDC00 second_i16 && leb second_i16 0xDFFF
            then done ((high - 0xD800) * 2 ^ 10 + (second_i16 - 0xDC00) + 0x10000) r.1
            else fail_at d.cur invalid_surrogate_pair r.1
      ]))
      (sym (parse_4hex-hex4 upper (0xDC00 + low) t d (omega arith)))
      (let inside : (leb 0xDC00 (0xDC00 + low) && leb (0xDC00 + low) 0xDFFF) ≡ true =
          ground arith in
        rw inside (omega arith, refl))

-- The outcome of a `\u` escape whose first four digits are read.
unicode_escape-first :
    (upper : ℕ → Bool)
    → (P : Outcome ℕ → Type 0) (n : ℕ) (t : Bytes) (c : Context) → n < 65536
    → let d = put (b'u' ∷ (hex4 upper n ++ t)) c in
      P (
        if leb 0xD800 n && leb n 0xDFFF
        then if leb 0xDC00 n
          then fail_at d.cur invalid_surrogate_pair (behind t (advance d))
          else second_surrogate n d.cur (behind t (advance d))
        else done n (behind t (advance d)))
      → P (unicode_escape d)
unfolding unicode_escape
unicode_escape-first upper P n t c h k =
    let d = put (b'u' ∷ (hex4 upper n ++ t)) c in
    subst
      (λ (r : Option ℕ × Context). P (elim r.0 [
        | none ↦ fail_at d.cur invalid_unicode_escape r.1
        | some first_i16 ↦
            if leb 0xD800 first_i16 && leb first_i16 0xDFFF
            then if leb 0xDC00 first_i16
              then fail_at d.cur invalid_surrogate_pair r.1
              else second_surrogate first_i16 d.cur r.1
            else done first_i16 r.1
      ]))
      (sym (parse_4hex-hex4 upper n t (advance d) h)) k

surrogate_pair-Reads :
    (upper : ℕ → Bool)
    → (high low : ℕ) (t : Bytes) (c : Context) → 0xD800 ≤ high
    → high < 0xDC00
    → low < 1024
    → Reads
        ((high - 0xD800) * 2 ^ 10 + low + 0x10000)
        t
        (unicode_escape (put (pair_text upper high low ++ t) c))
surrogate_pair-Reads upper high low t c from to h =
    let surrogate : (leb 0xD800 high && leb high 0xDFFF) ≡ true = ground arith in
    let first : leb 0xDC00 high ≡ false = ground arith in
    unicode_escape-first upper (Reads _ t) high
      (b'\\' ∷ b'u' ∷ (hex4 (last_four upper) (0xDC00 + low) ++ t)) c (omega arith)
      (rw (surrogate, first)
        (second_surrogate-Reads (last_four upper) high low _ t (behind [] (advance (put [] c))) h))

unicode_escape-Reads :
    (upper : ℕ → Bool)
    → (code_point : ℕ) (t : Bytes) (c : Context) → IsScalar code_point
    → Reads code_point t (unicode_escape (put (escape_text upper code_point ++ t) c))
unfolding escape_text
unicode_escape-Reads upper n t c scalar =
    if_cases (λ w. Reads n t (unicode_escape (put (w ++ t) c))) (ltb n 0x10000)
      (λ small.
        let plain : (leb 0xD800 n && leb n 0xDFFF) ≡ false = ground arith in
        unicode_escape-first upper (Reads n t) n t c (ground arith) (rw plain (refl, refl)))
      (λ large.
        let q = (n - 0x10000) / 1024 in
        let low = (n - 0x10000) % 1024 in
        let bound : (0x10000 ≤ n) × (n < 0x110000) = ground arith in
        let joined : (0xD800 + q - 0xD800) * 2 ^ 10 + low + 0x10000 ≡ n = omega (arith, bound.0) in
        subst (λ m. Reads m t (unicode_escape (put (pair_text upper (0xD800 + q) low ++ t) c)))
          joined
          (surrogate_pair-Reads upper (0xD800 + q) low t c (omega arith) (omega (arith, bound.1))
            (omega arith)))

escape_text-u :
    (upper : ℕ → Bool) → (code_point : ℕ) → (s : Bytes) × (escape_text upper code_point ≡ b'u' ∷ s)
unfolding escape_text
escape_text-u upper n =
    if_cases (λ w. (s : Bytes) × (w ≡ b'u' ∷ s)) (ltb n 0x10000) (λ _. (_, refl)) (λ _. (_, refl))

-- A round over an escape whose letter is 'u'.
unicode_round-GoesOn :
    (code_point : ℕ) (out t : Bytes) (o : Outcome ℕ)
    → Reads code_point t o
    → GoesOn (out ++ push_utf8 code_point) t (elim o [
      | done n c1 ↦ next (out ++ push_utf8 n) c1
      | failed c1 ↦ stop (failed c1)
      | check_failed ↦ stop check_failed
      | out_of_fuel ↦ stop out_of_fuel
    ])
unicode_round-GoesOn n out t (done m c) h = (ap (λ k. out ++ push_utf8 k) h.0, h.1)
unicode_round-GoesOn n out t (failed c) h = absurd h
unicode_round-GoesOn n out t check_failed h = absurd h
unicode_round-GoesOn n out t out_of_fuel h = absurd h

escape_round-GoesOn :
    (upper : ℕ → Bool)
    → (code_point : ℕ) (out t : Bytes) (c : Context) → IsScalar code_point
    → GoesOn
        (out ++ push_utf8 code_point)
        t
        (escape_round out (put (escape_text upper code_point ++ t) c))
unfolding escape_round
escape_round-GoesOn upper n out t c scalar =
    let run = unicode_round-GoesOn n out t _ (unicode_escape-Reads upper n t c scalar) in
    let w = escape_text-u upper n in rw w.1 (rw w.1 at run)

closing_round :
    (fuel : ℕ) (signed : Bool) (start : Cursor) (out rest : Bytes) (c : Context)
    → Reads out rest (full_loop (suc fuel) signed start out (put (b'"' ∷ rest) c))
unfolding full_loop full_round after_round
closing_round fuel true start out rest c = (refl, refl)
closing_round fuel false start out rest c = (refl, refl)

handling-escape_text :
    (upper : ℕ → Bool)
    → (signed : Bool) (start : Cursor) (code_point : ℕ) (rest : Bytes) (c : Context)
    → IsScalar code_point
    → Reads (push_utf8 code_point) rest (
        next_string_with_full_handling signed start []
          (put (b'\\' ∷ (escape_text upper code_point ++ b'"' ∷ rest)) c))
unfolding next_string_with_full_handling full_loop
handling-escape_text upper signed start n rest c scalar =
    let t = escape_text upper n ++ b'"' ∷ rest in
    rw (backslash_round signed start [] t c) (
      after_round-GoesOn _ (full_loop (suc (length t)) signed start) (push_utf8 n) (b'"' ∷ rest) _
        rest (escape_round-GoesOn upper n [] (b'"' ∷ rest) (advance (put (b'\\' ∷ []) c)) scalar)
        (closing_round (length t) signed start (push_utf8 n) rest))

-- A string that is one escape of a code point, by four hexadecimal digits or by the eight of its
-- surrogate pair, each digit in upper or in lower case, is read as the UTF-8 encoding of the code point,
-- and the method stops right behind the closing quote. The code point is any but a surrogate.
pub next_string-escape_text :
    (upper : ℕ → Bool)
    → (signed : Bool) (code_point : ℕ) (rest : Bytes) (c : Context) → IsScalar code_point
    → (s : Bytes) × IsUtf8 code_point s
      × Reads s rest (
          next_string signed (put (b'"' ∷ b'\\' ∷ (escape_text upper code_point ++ b'"' ∷ rest)) c))
unfolding next_string
next_string-escape_text upper signed n rest c scalar = (
  push_utf8 n,
  push_utf8-IsUtf8 n (ground arith),
  rw
      (simple_loop_backslash (escape_text upper n ++ b'"' ∷ rest) signed
        (put (b'"' ∷ b'\\' ∷ (escape_text upper n ++ b'"' ∷ rest)) c).cur []
        (advance (put (b'"' ∷ b'\\' ∷ (escape_text upper n ++ b'"' ∷ rest)) c)))
      (handling-escape_text upper signed _ n rest (advance (put (b'"' ∷ []) c)) scalar),
)
