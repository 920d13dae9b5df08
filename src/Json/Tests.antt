-- ===== src/Json/Tests.antt =====
-- Runs of the JSON parser and writer, and their theorems at concrete inputs, over a small type of
-- doubles.
use litetvm_ffi.Map.Assoc.{KeyApi}
use litetvm_ffi.Prelude.{
  [], ◌∷◌, ◌++◌, Bool, true, false, ◌&&◌, none, some, ◌≡◌, ◌≢◌, refl, arith, Bytes, codes,
  if◌then◌else◌, ◌==◌, inr, ◌↔◌, ltb,
}
use litetvm_ffi.Prelude.Int.{pos, negsuc}
use litetvm_ffi.Json.Context.{Reads, put, new_context}
use litetvm_ffi.Json.Decimal.{print_int, digits_of}
use litetvm_ffi.Json.Escape.{escape_string}
use litetvm_ffi.Json.Number.{next_number}
use litetvm_ffi.Json.Number.RoundTrip.{
  next_number-print_int, next_number-float_text, next_number-float_text_int, IsReadableDouble,
  is_finite,
}
use litetvm_ffi.Json.Number.Text.{has_float_char}
use litetvm_ffi.Json.Parser.Readable.{IsReadableValue}
use litetvm_ffi.Json.Parser.{value, parse}
use litetvm_ffi.Json.Parser.RoundTrip.{parse-stringify}
use litetvm_ffi.Json.Strings.{next_string, push_utf8}
use litetvm_ffi.Json.Strings.RoundTrip.{next_string-escape_string}
use litetvm_ffi.Json.Parser.Progress.Total.{Answers, parse-Answers}
use litetvm_ffi.Json.Strings.Utf8.{IsUtf8, push_utf8-IsUtf8}
use litetvm_ffi.Json.Strings.Unicode.{escape_text, next_string-escape_text}
use litetvm_ffi.Json.Strings.Signed.{RefusesAt, piece, nothing, next_string-RefusesAt}
use litetvm_ffi.Json.Strings.Rounds.{plain}
use litetvm_ffi.Json.Value.{
  Value, int, float, string, array, object, nil, cons, end, field, Doubles, other,
}
use litetvm_ffi.Json.Writer.{Writer, Written, float_text, stringify}
use litetvm_ffi.Json.Writer.Errors.{stringify_iff}
use litetvm_ffi.Json.Writer.Text.{IsPrintable, text, stringify-text}

data Sample : Type 0 where
  plus_infinity : Sample
  minus_infinity : Sample
  not_a_number : Sample
  one_half : Sample
  two_to_53 : Sample

abbrev same_bytes : Bytes → Bytes → Bool
same_bytes [] [] = true
same_bytes (x ∷ s) (y ∷ t) = (x == y) && same_bytes s t
same_bytes s t = false

abbrev sample_is_nan : Sample → Bool
sample_is_nan not_a_number = true
sample_is_nan d = false

abbrev sample_is_inf : Sample → Bool
sample_is_inf plus_infinity = true
sample_is_inf minus_infinity = true
sample_is_inf d = false

abbrev sample_is_negative : Sample → Bool
sample_is_negative minus_infinity = true
sample_is_negative d = false

abbrev sample_print_general : Sample → Bytes
sample_print_general two_to_53 = codes "9007199254740992"
sample_print_general d = codes "0.5"

abbrev samples : Doubles
samples = record {
  Double = Sample;
  infinity = plus_infinity;
  neg_infinity = minus_infinity;
  nan = not_a_number;
  is_nan = sample_is_nan;
  is_inf = sample_is_inf;
  is_negative = sample_is_negative;
  is_small_integer = λ d. false;
  print_fixed = λ d. [];
  print_general = sample_print_general;
  strtod = λ s. if same_bytes s (codes "0.5") then some one_half else none;
}

same_bytes_iff : (a b : Bytes) → (same_bytes a b ≡ true) ↔ (a ≡ b)
same_bytes_iff [] [] = ((λ _. refl), λ _. refl)
same_bytes_iff [] (b ∷ bs) = ((λ e. absurd (cc e)), λ e. absurd (cc e))
same_bytes_iff (a ∷ as') [] = ((λ e. absurd (cc e)), λ e. absurd (cc e))
same_bytes_iff (a ∷ as') (b ∷ bs) = (
  (λ e. ground (arith, (same_bytes_iff as' bs).0, e)),
  λ e. ground (arith, (same_bytes_iff as' bs).1, e),
)

-- Texts as keys
abbrev texts : KeyApi Bytes
texts = record { any_equal = same_bytes; any_equal_iff = same_bytes_iff; any_hash = λ a. 0 }

-- {"k": [7, -2, 0.5, "a\n"], "e": {}}
abbrev sample : Value Sample
sample = object (
    field (string (codes "k"))
      (array (
        cons (int (pos 7))
          (cons (int (negsuc 1)) (cons (float one_half) (cons (string (97 ∷ 10 ∷ [])) nil)))))
      (field (string (codes "e")) (object end) end))

next_string-escape_string_example :
    Reads
      (97 ∷ 34 ∷ [])
      (codes "]")
      (next_string true (put (escape_string (97 ∷ 34 ∷ []) ++ codes "]") (new_context [])))
next_string-escape_string_example =
    next_string-escape_string true (97 ∷ 34 ∷ []) (codes "]") (new_context [])
      (omega arith, (omega arith, tt))

next_number-print_int_example :
    Reads
      (int (negsuc 41))
      (codes ",")
      (next_number samples (put (print_int (negsuc 41) ++ codes ",") (new_context [])))
next_number-print_int_example =
    next_number-print_int samples (negsuc 41) (codes ",") (new_context []) (omega arith) refl

one_half-IsReadableDouble : IsReadableDouble samples one_half
unfolding float_text has_float_char
one_half-IsReadableDouble = is_finite refl refl (refl, refl, (refl, tt)) refl refl

next_number-float_text_example :
    Reads
      (float one_half)
      (codes ",")
      (next_number samples (put (float_text samples one_half ++ codes ",") (new_context [])))
next_number-float_text_example =
    next_number-float_text samples one_half (codes ",") (new_context []) one_half-IsReadableDouble
      refl

keys-ne : ◌≢◌ {A = Value Sample} (string (codes "e")) (string (codes "k"))
keys-ne = ground arith

sample-IsReadableValue : IsReadableValue samples true sample
sample-IsReadableValue = (
  (
    (omega arith, tt),
    (
      omega arith,
      (omega arith, (one_half-IsReadableDouble, ((omega arith, (omega arith, tt)), tt))),
    ),
    ((omega arith, tt), (tt, (tt, omega arith)), tt),
  ),
  (((keys-ne, tt), (tt, tt)), omega arith),
)

stringify-text_example :
    stringify samples sample (pos 2)
    ≡ Written.ok (record {
      indent = pos 2;
      total_indent = pos 0;
      result = text samples (pos 2) (pos 0) sample;
    })
stringify-text_example =
    stringify-text samples (pos 2) sample (tt, (tt, (tt, (tt, (tt, tt)))), (tt, tt, tt))

parse-stringify_example :
    (w : Writer) × (stringify samples sample (pos 2) ≡ Written.ok w)
    × (parse samples texts true false w.result ≡ value sample)
parse-stringify_example =
    parse-stringify samples texts true (pos 2) sample false sample-IsReadableValue

two_to_53_text : sample_print_general two_to_53 ≡ print_int (pos 9007199254740992)
unfolding print_int digits_of
two_to_53_text = refl

next_number-float_text_int_example :
    Reads
      (int (pos 9007199254740992))
      (codes "]")
      (next_number samples (put (float_text samples two_to_53 ++ codes "]") (new_context [])))
next_number-float_text_int_example =
    next_number-float_text_int samples two_to_53 (pos 9007199254740992) (codes "]") (new_context [])
      refl refl refl two_to_53_text (omega arith) refl

parse-Answers_example :
    Answers samples texts true true (parse samples texts true true (codes "[1, {\"a\": tru"))
parse-Answers_example = parse-Answers samples texts true true (codes "[1, {\"a\": tru")

push_utf8-IsUtf8_example : IsUtf8 0x20AC (push_utf8 0x20AC)
push_utf8-IsUtf8_example = push_utf8-IsUtf8 0x20AC (omega arith)

-- U+1F600, which is escaped as a surrogate pair, \uD83D\uDe00 with the digits of both cases.
next_string-escape_text_example :
    (s : Bytes) × IsUtf8 0x1F600 s
    × Reads s (codes "]") (
        next_string true (
          put
            (b'"' ∷ b'\\' ∷ (escape_text (λ i. ltb i 5) 0x1F600 ++ b'"' ∷ codes "]"))
            (new_context [])))
next_string-escape_text_example =
    next_string-escape_text (λ i. ltb i 5) true 0x1F600 (codes "]") (new_context [])
      (inr (omega arith, omega arith))

-- "a/é", with the slash as it is
next_string-RefusesAt_example :
    RefusesAt
      (0xC3 ∷ 0xA9 ∷ 34 ∷ [])
      (next_string true (put (b'"' ∷ (codes "a/" ++ 0xC3 ∷ 0xA9 ∷ 34 ∷ [])) (new_context [])))
next_string-RefusesAt_example =
    next_string-RefusesAt (codes "a/") (codes "a/") 0xC3 (0xA9 ∷ 34 ∷ []) (new_context [])
      (piece (plain refl refl refl) (piece (plain refl refl refl) nothing))
      (omega arith, (omega arith, tt)) (omega arith)

stringify_iff_example :
    ((w : Writer) × (stringify samples (array (cons (other 70) nil)) (pos 2) ≡ Written.ok w))
    ↔ IsPrintable {D = Sample} (array (cons (other 70) nil))
stringify_iff_example = stringify_iff samples (array (cons (other 70) nil)) (pos 2)
