-- ===== src/Json/Parser/Arrays.antt =====
-- `ParseArray` reads back the text of an array whose elements are read back.
use litetvm_ffi.Map.Assoc.{KeyApi}
use litetvm_ffi.Prelude.{
  ℕ, suc, List, [], ◌∷◌, ◌++◌, Bool, true, false, ◌≡◌, refl, arith, Bytes, length, length-append,
  append_assoc, append-nil,
}
use litetvm_ffi.Prelude.Int.{ℤ}
use litetvm_ffi.Json.Context.{Context, put, advance, skip_spaces}
use litetvm_ffi.Json.Parser.{
  Parser, Parsed, array_loop, array_start, parse_array, parse_dispatch, parse_value, with_ctx,
}
use litetvm_ffi.Json.Parser.Readable.{AreReadable}
use litetvm_ffi.Json.Parser.Texts.{text-StartsValue, separator-IsBlank, length-items_list-le}
use litetvm_ffi.Json.Parser.Steps.{state, ParsesTo, skip_spaces-state, StartsValue}
use litetvm_ffi.Json.Value.{Value, array, Items, nil, cons, Doubles, items_of-items_list}
use litetvm_ffi.Json.Writer.Text.{separator, deeper, text, items_text}
use litetvm_ffi.Json.Parser.ArrayRounds.{
  StartsValue-IsSolid, peek_start, Parses, ItemsParse, parse_value-skip, array_loop-items,
}

module _ (doubles : Doubles) where
  open doubles use {Double}

  module _ (keys : KeyApi Bytes) (signed : Bool) (indent : ℤ) where
    array_start-loop :
        (parse_nested : Parser Double → Parsed Double) (top : ℕ) (t : Bytes) (c : Context)
        (items : List (Value Double)) (entries : List (Value Double × Value Double))
        → StartsValue t
        → array_start parse_nested top (state (put t c) items entries)
          ≡ array_loop parse_nested (suc (length t)) top (state (put t c) items entries)
    unfolding array_start
    array_start-loop parse_nested top t c items entries h =
        let (x, e, other, _) = peek_start t c h in rw (e, array_start) (rw other)

    -- `ParseArray`, behind the opening bracket.
    array_start-Parses :
        (fuel : ℕ) (vs : Items Double) (level : ℤ) (rest : Bytes) (c : Context)
        (items : List (Value Double)) (entries : List (Value Double × Value Double))
        → ItemsParse doubles keys signed indent fuel vs
        → AreReadable doubles signed vs
        → ParsesTo (array vs) rest items entries (
            array_start (parse_value doubles keys signed fuel) (length items) (
              with_ctx skip_spaces (
                state
                  (put
                    (items_text doubles indent (deeper indent level) true vs
                      ++ (separator indent level ++ b']' ∷ rest))
                    c)
                  items
                  entries)))
    unfolding text
    array_start-Parses fuel nil level rest c items entries h r =
        skip_spaces-state
          (λ p.
            ParsesTo (array nil) rest items entries
              (array_start (parse_value doubles keys signed fuel) (length items) p))
          (separator indent level) (b']' ∷ rest) c items entries
          (separator-IsBlank doubles signed indent level) refl
          (λ d. unfold array_start in (refl, refl, refl, refl))
    array_start-Parses fuel (cons v vs) level rest c items entries h r =
        let inner = deeper indent level in
        let t = text doubles indent inner v in
        let ts = items_text doubles indent inner false vs in
        let close = separator indent level ++ b']' ∷ rest in
        let start = text-StartsValue doubles signed indent v inner (ts ++ close) r.0 in
        rw (append_assoc (separator indent inner) (t ++ ts) close, append_assoc t ts close)
          (skip_spaces-state
            (λ p.
              ParsesTo (array (cons v vs)) rest items entries
                (array_start (parse_value doubles keys signed fuel) (length items) p))
            (separator indent inner) (t ++ (ts ++ close)) c items entries
            (separator-IsBlank doubles signed indent inner) (StartsValue-IsSolid _ start)
            (λ d.
              rw
                (array_start-loop (parse_value doubles keys signed fuel) (length items) _ d items
                  entries start)
                (let loop =
                    array_loop-items doubles keys signed indent fuel level rest vs v
                      (suc (length (t ++ (ts ++ close)))) inner d items [] entries h r
                      (omega (
                        arith,
                        length-append t (ts ++ close),
                        length-append ts close,
                        length-items_list-le doubles signed indent vs inner,
                      )) in
                  rw (append-nil items, items_of-items_list vs) at loop)))

    -- An array is read back if its elements are, with one more of fuel.
    pub array-Parses :
        (fuel : ℕ) (vs : Items Double)
        → ItemsParse doubles keys signed indent fuel vs
        → AreReadable doubles signed vs
        → Parses doubles keys signed indent (suc fuel) (array vs)
    unfolding text
    array-Parses fuel vs h r level ws rest c items entries blank ends =
        let inside = items_text doubles indent (deeper indent level) true vs in
        parse_value-skip doubles keys signed indent fuel (array vs) ws
          (text doubles indent level (array vs) ++ rest) rest c items entries blank
          (refl, refl, refl)
          (λ d.
            unfold parse_dispatch parse_array in
            rw
              (
                append_assoc inside (separator indent level ++ b']' ∷ []) rest,
                append_assoc (separator indent level) (b']' ∷ []) rest,
              )
              (array_start-Parses fuel vs level rest (advance (put (b'[' ∷ []) d)) items entries h
                r))
