-- ===== src/Json/Parser/Objects.antt =====
-- `ParseObject` reads back the text of an object of at most three entries whose keys are readable strings, none of them twice,
-- and whose values are read back.
use litetvm_ffi.Map.Assoc.{KeyApi}
use litetvm_ffi.Prelude.{
  ℕ, suc, List, [], ◌∷◌, ◌++◌, Bool, true, false, ◌≡◌, ◌∙◌, refl, sym, ap, subst, some, arith,
  Bytes, length, length-append, append_assoc, append-nil,
}
use litetvm_ffi.Prelude.Int.{ℤ}
use litetvm_ffi.Json.Context.{Context, put, advance, skip_spaces}
use litetvm_ffi.Json.Escape.{escape_string}
use litetvm_ffi.Json.Parser.{
  Parser, Parsed, object_loop, object_start, parse_object, parse_dispatch, parse_value, with_ctx,
}
use litetvm_ffi.Json.Parser.ArrayRounds.{Parses, parse_value-skip}
use litetvm_ffi.Json.Parser.Readable.{IsReadableValue, HaveReadable, HasFewKeys}
use litetvm_ffi.Json.Parser.Texts.{separator-IsBlank, length-fields_list-le}
use litetvm_ffi.Json.Parser.Steps.{state, ParsesTo, skip_spaces-state}
use litetvm_ffi.Json.Object.{as_values, create_object}
use litetvm_ffi.Json.Object.Small.{create_object-small, length-as_values}
use litetvm_ffi.Json.Value.{
  Value, string, object, Fields, end, field, Doubles, DistinctKeys, fields_list, fields_of,
  fields_of-fields_list,
}
use litetvm_ffi.Json.Writer.Text.{separator, colon, deeper, text, fields_text}
use litetvm_ffi.Json.Parser.ObjectRounds.{FieldsParse, object_loop-fields}

module _ (doubles : Doubles) where
  open doubles use {Double}

  module _ (keys : KeyApi Bytes) (signed : Bool) (indent : ℤ) where
    text_keys :
        (fs : Fields Double)
        → HaveReadable doubles signed fs
        → (kvs : List (Bytes × Value Double)) × (fields_list fs ≡ as_values kvs)
    text_keys end h = ([], refl)
    text_keys (field (string s) v fs) h =
        let (kvs, e) = text_keys fs h.2 in ((s, v) ∷ kvs, ap (λ l. (string s, v) ∷ l) e)
    text_keys (field k v fs) h = absurd h.0

    -- The object of the entries is made.
    create_object-fields :
        (fs : Fields Double)
        → HaveReadable doubles signed fs
        → HasFewKeys fs
        → create_object keys (fields_list fs) ≡ some fs
    create_object-fields fs h (distinct, few) =
        let (kvs, e) = text_keys fs h in
        ap (create_object keys) e
        ∙ create_object-small keys kvs (subst DistinctKeys e distinct)
            (omega (arith, few, ap length e, length-as_values kvs))
        ∙ ap some (ap fields_of (sym e) ∙ fields_of-fields_list fs)

    object_start-loop :
        (parse_nested : Parser Double → Parsed Double) (top : ℕ) (s t : Bytes) (c : Context)
        (items : List (Value Double)) (entries : List (Value Double × Value Double))
        → object_start keys signed parse_nested top
            (state (put (escape_string s ++ t) c) items entries)
          ≡ object_loop keys signed parse_nested
              (suc (length (escape_string s ++ t)))
              top
              (state (put (escape_string s ++ t) c) items entries)
    unfolding object_start escape_string
    object_start-loop parse_nested top s t c items entries = refl

    -- `ParseObject`, behind the opening brace.
    object_start-Parses :
        (fuel : ℕ) (fs : Fields Double) (level : ℤ) (rest : Bytes) (c : Context)
        (items : List (Value Double)) (entries : List (Value Double × Value Double))
        → FieldsParse doubles keys signed indent fuel fs
        → HaveReadable doubles signed fs
        → HasFewKeys fs
        → ParsesTo (object fs) rest items entries (
            object_start keys signed (parse_value doubles keys signed fuel) (length entries) (
              with_ctx skip_spaces (
                state
                  (put
                    (fields_text doubles indent (deeper indent level) true fs
                      ++ (separator indent level ++ b'}' ∷ rest))
                    c)
                  items
                  entries)))
    unfolding text
    object_start-Parses fuel end level rest c items entries h r distinct =
        skip_spaces-state
          (λ p.
            ParsesTo (object end) rest items entries
              (object_start keys signed (parse_value doubles keys signed fuel) (length entries) p))
          (separator indent level) (b'}' ∷ rest) c items entries
          (separator-IsBlank doubles signed indent level) refl
          (λ d. unfold object_start in (refl, refl, refl, refl))
    object_start-Parses fuel (field (string s) v fs) level rest c items entries h r distinct =
        let inner = deeper indent level in
        let sep = separator indent inner in
        let t = text doubles indent inner v in
        let ts = fields_text doubles indent inner false fs in
        let close = separator indent level ++ b'}' ∷ rest in
        let entry = escape_string s ++ (colon indent ++ (t ++ (ts ++ close))) in
        let e : (sep ++ (escape_string s ++ (colon indent ++ (t ++ ts)))) ++ close ≡ sep ++ entry =
          simp append_assoc in
        rw e (
          skip_spaces-state
            (λ p.
              ParsesTo (object (field (string s) v fs)) rest items entries (
                object_start keys signed (parse_value doubles keys signed fuel) (length entries) p))
            sep entry c items entries (separator-IsBlank doubles signed indent inner)
            (unfold escape_string in refl)
            (λ d.
              rw
                (object_start-loop (parse_value doubles keys signed fuel) (length entries) s
                  (colon indent ++ (t ++ (ts ++ close))) d items entries)
                (let loop =
                    object_loop-fields doubles keys signed indent fuel level rest fs
                      (field (string s) v fs) (string s) v (suc (length entry)) inner d items
                      entries [] h r
                      (omega (
                        arith,
                        length-append (escape_string s) (colon indent ++ (t ++ (ts ++ close))),
                        length-append (colon indent) (t ++ (ts ++ close)),
                        length-append t (ts ++ close),
                        length-append ts close,
                        length-fields_list-le doubles signed indent fs inner,
                      ))
                      (create_object-fields (field (string s) v fs) r distinct) in
                  rw (append-nil entries) at loop)))
    object_start-Parses fuel (field k v fs) level rest c items entries h r distinct = absurd r.0

    -- An object is read back if its values are, with one more of fuel.
    pub object-Parses :
        (fuel : ℕ) (fs : Fields Double)
        → FieldsParse doubles keys signed indent fuel fs
        → IsReadableValue doubles signed (object fs)
        → Parses doubles keys signed indent (suc fuel) (object fs)
    unfolding text
    object-Parses fuel fs h r level ws rest c items entries blank ends =
        let inside = fields_text doubles indent (deeper indent level) true fs in
        let sep = separator indent level in
        parse_value-skip doubles keys signed indent fuel (object fs) ws
          (text doubles indent level (object fs) ++ rest) rest c items entries blank
          (refl, refl, refl)
          (λ d.
            unfold parse_dispatch parse_object in
            rw (append_assoc inside (sep ++ b'}' ∷ []) rest, append_assoc sep (b'}' ∷ []) rest)
              (object_start-Parses fuel fs level rest (advance (put (b'{' ∷ []) d)) items entries h
                r.0 r.1))
