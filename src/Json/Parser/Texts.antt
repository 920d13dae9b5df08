-- ===== src/Json/Parser/Texts.antt =====
-- What the texts of such values begin and end with, and how long they are.
use litetvm_ffi.Prelude.{
  ℕ, [], ◌∷◌, ◌++◌, Bool, true, false, refl, inl, inr, Bool-cases, arith, Bytes, length,
  length-append, ◌≤◌,
}
use litetvm_ffi.Prelude.Int.{ℤ, is_zero, pos_part}
use litetvm_ffi.Json.Context.Spaces.{IsBlank, replicate-IsBlank}
use litetvm_ffi.Json.Decimal.{print_int}
use litetvm_ffi.Json.Escape.{escape_string}
use litetvm_ffi.Json.Number.Text.{EndsNumber}
use litetvm_ffi.Json.Parser.Steps.{StartsValue}
use litetvm_ffi.Json.Value.{
  Value, null, boolean, int, float, string, array, object, other, Items, nil, cons, Fields, end,
  field, Doubles, fields_list, items_list,
}
use litetvm_ffi.Json.Writer.Text.{
  separator, comma, colon, deeper, key_text, text, items_text, fields_text,
}
use litetvm_ffi.Json.Parser.Readable.{
  depth, items_depth, fields_depth, IsReadableValue, print_int-StartsNumber,
  float_text-StartsNumber, StartsNumber-StartsValue,
}

module _ (doubles : Doubles) (signed : Bool) where
  open doubles use {Double}

  module _ (indent : ℤ) where
    -- The text of a value begins with no space and no closing bracket, whatever stands behind it.
    pub text-StartsValue :
        (v : Value Double) (level : ℤ) (rest : Bytes)
        → IsReadableValue doubles signed v
        → StartsValue (text doubles indent level v ++ rest)
    unfolding text escape_string
    text-StartsValue null level rest h = (refl, refl, refl)
    text-StartsValue (boolean true) level rest h = (refl, refl, refl)
    text-StartsValue (boolean false) level rest h = (refl, refl, refl)
    text-StartsValue (int z) level rest h =
        StartsNumber-StartsValue doubles signed (print_int z) rest
          (print_int-StartsNumber doubles signed z)
    text-StartsValue (float d) level rest h =
        StartsNumber-StartsValue doubles signed _ rest (float_text-StartsNumber doubles signed d h)
    text-StartsValue (string s) level rest h = (refl, refl, refl)
    text-StartsValue (array vs) level rest h = (refl, refl, refl)
    text-StartsValue (object fs) level rest h = (refl, refl, refl)
    text-StartsValue (other i) level rest h = absurd h

    pub separator-IsBlank : (level : ℤ) → IsBlank (separator indent level)
    unfolding separator
    separator-IsBlank level = elim (Bool-cases (is_zero indent)) [
      | inl e ↦ rw e tt
      | inr e ↦ rw e (refl, replicate-IsBlank (pos_part level))
    ]

    -- The text is long enough for the fuel of the parser.
    mutual
      unfolding text

      pub depth-le-length :
          (v : Value Double) (level : ℤ) → depth v ≤ length (text doubles indent level v)
      depth-le-length (array vs) level = omega (
        arith,
        items_depth-le-length vs (deeper indent level) true,
        length-append (items_text doubles indent (deeper indent level) true vs)
            (separator indent level ++ b']' ∷ []),
      )
      depth-le-length (object fs) level = omega (
        arith,
        fields_depth-le-length fs (deeper indent level) true,
        length-append (fields_text doubles indent (deeper indent level) true fs)
            (separator indent level ++ b'}' ∷ []),
      )
      depth-le-length null level = omega arith
      depth-le-length (boolean b) level = omega arith
      depth-le-length (int z) level = omega arith
      depth-le-length (float d) level = omega arith
      depth-le-length (string s) level = omega arith
      depth-le-length (other i) level = omega arith

      items_depth-le-length :
          (vs : Items Double) (level : ℤ) (first : Bool)
          → items_depth vs ≤ length (items_text doubles indent level first vs)
      items_depth-le-length nil level first = omega arith
      items_depth-le-length (cons v vs) level first =
          let t = text doubles indent level v in
          let ts = items_text doubles indent level false vs in
          omega (
            arith,
            depth-le-length v level,
            items_depth-le-length vs level false,
            length-append (comma first) (separator indent level ++ (t ++ ts)),
            length-append (separator indent level) (t ++ ts),
            length-append t ts,
          )

      fields_depth-le-length :
          (fs : Fields Double) (level : ℤ) (first : Bool)
          → fields_depth fs ≤ length (fields_text doubles indent level first fs)
      fields_depth-le-length end level first = omega arith
      fields_depth-le-length (field k v fs) level first =
          let t = text doubles indent level v in
          let ts = fields_text doubles indent level false fs in
          omega (
            arith,
            depth-le-length v level,
            fields_depth-le-length fs level false,
            length-append (comma first)
                (separator indent level ++ (key_text k ++ (colon indent ++ (t ++ ts)))),
            length-append (separator indent level) (key_text k ++ (colon indent ++ (t ++ ts))),
            length-append (key_text k) (colon indent ++ (t ++ ts)),
            length-append (colon indent) (t ++ ts),
            length-append t ts,
          )

    pub length-items_list-le :
        (vs : Items Double) (level : ℤ)
        → length (items_list vs) ≤ length (items_text doubles indent level false vs)
    unfolding text
    length-items_list-le nil level = omega arith
    length-items_list-le (cons v vs) level =
        let t = text doubles indent level v in
        let ts = items_text doubles indent level false vs in
        omega (
          arith,
          length-items_list-le vs level,
          length-append (separator indent level) (t ++ ts),
          length-append t ts,
        )

    pub length-fields_list-le :
        (fs : Fields Double) (level : ℤ)
        → length (fields_list fs) ≤ length (fields_text doubles indent level false fs)
    unfolding text
    length-fields_list-le end level = omega arith
    length-fields_list-le (field k v fs) level =
        let t = text doubles indent level v in
        let ts = fields_text doubles indent level false fs in
        omega (
          arith,
          length-fields_list-le fs level,
          length-append (separator indent level) (key_text k ++ (colon indent ++ (t ++ ts))),
          length-append (key_text k) (colon indent ++ (t ++ ts)),
          length-append (colon indent) (t ++ ts),
          length-append t ts,
        )

    separator-EndsNumber :
        (level : ℤ) (x : ℕ) (rest : Bytes)
        → EndsNumber (x ∷ rest)
        → EndsNumber (separator indent level ++ x ∷ rest)
    unfolding separator
    separator-EndsNumber level x rest h = elim (Bool-cases (is_zero indent)) [
      | inl e ↦ rw e h
      | inr e ↦ rw e refl
    ]

    -- Behind an element stand a comma or the closing bracket, and spaces before it.
    pub items_text-EndsNumber :
        (vs : Items Double) (level close : ℤ) (rest : Bytes)
        → EndsNumber
            (items_text doubles indent level false vs ++ (separator indent close ++ b']' ∷ rest))
    unfolding text
    items_text-EndsNumber nil level close rest = separator-EndsNumber close b']' rest refl
    items_text-EndsNumber (cons v vs) level close rest = refl

    pub fields_text-EndsNumber :
        (fs : Fields Double) (level close : ℤ) (rest : Bytes)
        → EndsNumber
            (fields_text doubles indent level false fs ++ (separator indent close ++ b'}' ∷ rest))
    unfolding text
    fields_text-EndsNumber end level close rest = separator-EndsNumber close b'}' rest refl
    fields_text-EndsNumber (field k v fs) level close rest = refl
