-- ===== src/Json/Parser/RoundTrip.antt =====
-- `json::Parse` gives back every value that `json::Stringify` was given, whatever the indent.
use litetvm_ffi.Map.Assoc.{KeyApi}
use litetvm_ffi.Prelude.{
  ℕ, zero, suc, List, [], ◌++◌, Bool, true, false, ◌≡◌, ◌<◌, refl, arith, Bytes, length, append-nil,
}
use litetvm_ffi.Prelude.Int.{ℤ, pos}
use litetvm_ffi.Json.Context.{Context, put, put_eq, skip_spaces, match_literal, new_context}
use litetvm_ffi.Json.Context.Spaces.{skip_spaces-blank}
use litetvm_ffi.Json.Decimal.{print_int}
use litetvm_ffi.Json.Escape.{escape_string}
use litetvm_ffi.Json.Number.Text.{EndsNumber}
use litetvm_ffi.Json.Number.{literal_value}
use litetvm_ffi.Json.Number.RoundTrip.{next_number-print_int, next_number-float_text}
use litetvm_ffi.Json.Parser.{
  Parsed, ok, error, check_failed, object_failed, out_of_fuel, parse_dispatch, parse_value, value,
  parse_tail, conclude, parse,
}
use litetvm_ffi.Json.Parser.Arrays.{array-Parses}
use litetvm_ffi.Json.Parser.ArrayRounds.{Parses, ItemsParse, parse_value-skip}
use litetvm_ffi.Json.Parser.Objects.{object-Parses}
use litetvm_ffi.Json.Parser.ObjectRounds.{FieldsParse}
use litetvm_ffi.Json.Parser.Readable.{
  IsReadableValue, AreReadable, HaveReadable, IsReadableValue-IsPrintable, print_int-StartsNumber,
  float_text-StartsNumber, depth, items_depth, fields_depth,
}
use litetvm_ffi.Json.Parser.Texts.{text-StartsValue, depth-le-length}
use litetvm_ffi.Json.Parser.Steps.{
  state, ParsesTo, in_context-ParsesTo, map_string-Reads, parse_dispatch-number,
}
use litetvm_ffi.Json.Strings.RoundTrip.{next_string-escape_string}
use litetvm_ffi.Json.Value.{
  Value, null, boolean, int, float, string, array, object, other, Items, nil, cons, Fields, end,
  field, Doubles,
}
use litetvm_ffi.Json.Writer.{Writer, Written, stringify, float_text}
use litetvm_ffi.Json.Writer.Text.{text, stringify-text}

module _ (doubles : Doubles) where
  open doubles use {Double}

  module _ (keys : KeyApi Bytes) (signed : Bool) (indent : ℤ) where
    -- A value that is no array and no object is parsed by one method of the context.
    leaf-Parses :
        (fuel : ℕ) (v : Value Double)
        → IsReadableValue doubles signed v
        → ((level : ℤ) (rest : Bytes) (d : Context) (items : List (Value Double))
              (entries : List (Value Double × Value Double))
            → EndsNumber rest
            → ParsesTo v rest items entries (
                parse_dispatch doubles keys signed
                  (parse_value doubles keys signed fuel)
                  (state (put (text doubles indent level v ++ rest) d) items entries)))
        → Parses doubles keys signed indent (suc fuel) v
    leaf-Parses fuel v r k level ws rest c items entries blank ends =
        parse_value-skip doubles keys signed indent fuel v ws (text doubles indent level v ++ rest)
          rest c items entries blank (text-StartsValue doubles signed indent v level rest r)
          (λ d. k level rest d items entries ends)

    null-Parses : (fuel : ℕ) → Parses doubles keys signed indent (suc fuel) null
    unfolding text parse_dispatch literal_value match_literal
    null-Parses fuel =
        leaf-Parses fuel null tt (λ level rest d items entries ends. (refl, refl, refl, refl))

    boolean-Parses :
        (fuel : ℕ) (b : Bool) → Parses doubles keys signed indent (suc fuel) (boolean b)
    unfolding text parse_dispatch literal_value match_literal
    boolean-Parses fuel true =
        leaf-Parses fuel (boolean true) tt
          (λ level rest d items entries ends. (refl, refl, refl, refl))
    boolean-Parses fuel false =
        leaf-Parses fuel (boolean false) tt
          (λ level rest d items entries ends. (refl, refl, refl, refl))

    int-Parses :
        (fuel : ℕ) (z : ℤ)
        → IsReadableValue doubles signed (int z)
        → Parses doubles keys signed indent (suc fuel) (int z)
    unfolding text
    int-Parses fuel z r = leaf-Parses fuel (int z) r (λ level rest d items entries ends.
        rw
          (parse_dispatch-number doubles keys signed _ rest _ d items entries
            (print_int-StartsNumber doubles signed z))
          (in_context-ParsesTo (int z) rest (state (put (print_int z ++ rest) d) items entries) _
            (next_number-print_int doubles z rest d r ends)))

    float-Parses :
        (fuel : ℕ) (x : Double)
        → IsReadableValue doubles signed (float x)
        → Parses doubles keys signed indent (suc fuel) (float x)
    unfolding text
    float-Parses fuel x r = leaf-Parses fuel (float x) r (λ level rest d items entries ends.
        rw
          (parse_dispatch-number doubles keys signed _ rest _ d items entries
            (float_text-StartsNumber doubles signed x r))
          (in_context-ParsesTo (float x) rest
            (state (put (float_text doubles x ++ rest) d) items entries) _
            (next_number-float_text doubles x rest d r ends)))

    string-Parses :
        (fuel : ℕ) (s : Bytes)
        → IsReadableValue doubles signed (string s)
        → Parses doubles keys signed indent (suc fuel) (string s)
    unfolding text parse_dispatch escape_string
    string-Parses fuel s r = leaf-Parses fuel (string s) r (λ level rest d items entries ends.
        in_context-ParsesTo (string s) rest (state (put (escape_string s ++ rest) d) items entries)
          _ (map_string-Reads Double s rest _ (next_string-escape_string signed s rest d r)))

    mutual
      value-Parses :
          (v : Value Double) (fuel : ℕ)
          → IsReadableValue doubles signed v
          → depth v < fuel
          → Parses doubles keys signed indent fuel v
      value-Parses v zero r enough = absurd (omega arith)
      value-Parses null (suc n) r enough = null-Parses n
      value-Parses (boolean b) (suc n) r enough = boolean-Parses n b
      value-Parses (int z) (suc n) r enough = int-Parses n z r
      value-Parses (float x) (suc n) r enough = float-Parses n x r
      value-Parses (string s) (suc n) r enough = string-Parses n s r
      value-Parses (array vs) (suc n) r enough =
          array-Parses doubles keys signed indent n vs (items-Parse vs n r (omega arith)) r
      value-Parses (object fs) (suc n) r enough =
          object-Parses doubles keys signed indent n fs (fields-Parse fs n r.0 (omega arith)) r
      value-Parses (other i) (suc n) r enough = absurd r

      items-Parse :
          (vs : Items Double) (fuel : ℕ)
          → AreReadable doubles signed vs
          → items_depth vs < fuel
          → ItemsParse doubles keys signed indent fuel vs
      items-Parse nil fuel r enough = tt
      items-Parse (cons v vs) fuel r enough =
          (value-Parses v fuel r.0 (omega arith), items-Parse vs fuel r.1 (omega arith))

      fields-Parse :
          (fs : Fields Double) (fuel : ℕ)
          → HaveReadable doubles signed fs
          → fields_depth fs < fuel
          → FieldsParse doubles keys signed indent fuel fs
      fields-Parse end fuel r enough = tt
      fields-Parse (field k v fs) fuel r enough =
          (value-Parses v fuel r.1 (omega arith), fields-Parse fs fuel r.2 (omega arith))

    parse_tail-end :
        (wants_message : Bool) (v : Value Double) (c : Context)
        → (skip_spaces c).cur.rest ≡ []
        → parse_tail doubles keys signed wants_message v c ≡ value v
    unfolding parse_tail
    parse_tail-end wants_message v c h = rw (parse_tail, h)

    conclude-value :
        (wants_message : Bool) (v : Value Double) (r : Parsed Double)
        → ParsesTo v [] [] [] r
        → conclude doubles keys signed wants_message r ≡ value v
    unfolding conclude
    conclude-value wants_message v (ok v' p) (e, left, _, _) =
        rw (e, put_eq p.ctx left)
          (parse_tail-end wants_message v (put [] p.ctx) (skip_spaces-blank [] [] p.ctx tt tt))
    conclude-value wants_message v (error c) h = absurd h
    conclude-value wants_message v check_failed h = absurd h
    conclude-value wants_message v (object_failed range) h = absurd h
    conclude-value wants_message v out_of_fuel h = absurd h

    parse-text :
        (v : Value Double) (level : ℤ) (wants_message : Bool)
        → IsReadableValue doubles signed v
        → parse doubles keys signed wants_message (text doubles indent level v) ≡ value v
    unfolding parse new_context
    parse-text v level wants_message r =
        let t = text doubles indent level v in
        let run =
          value-Parses v (suc (length t)) r
            (omega (arith, depth-le-length doubles signed indent v level)) level [] []
            (new_context []) [] [] tt tt in
        conclude-value wants_message v _ (rw (append-nil t) at run)

    -- A value whose parts can all be written and read is printed, whatever the indent, and parsing the
    -- text gives the value back: 64-bit integers; the two infinities, the parser's NaN, and the finite
    -- doubles whose text has characters of JSON's numbers alone, a point or an exponent among them, and is
    -- read back by `strtod`; strings of readable bytes (below 0x80 where `char` is signed); arrays; and
    -- objects of at most three entries with such strings for keys, none of them twice.
    pub parse-stringify :
        (v : Value Double) (wants_message : Bool)
        → IsReadableValue doubles signed v
        → (w : Writer) × (stringify doubles v indent ≡ Written.ok w)
          × (parse doubles keys signed wants_message w.result ≡ value v)
    parse-stringify v wants_message r = (
      _,
      stringify-text doubles indent v (IsReadableValue-IsPrintable doubles signed v r),
      parse-text v (pos 0) wants_message r,
    )
