-- ===== src/Json/Writer.antt =====
-- `JSONWriter`. The text goes to the end of `result_`; TVM_FFI_THROW ends the writing.
pub mod Text
pub mod Errors
use litetvm_ffi.Prelude.{
  ℕ, [], ◌∷◌, ◌++◌, Bool, true, false, Bytes, codes, replicate, if◌then◌else◌, ◌≡◌, Option,
}
use litetvm_ffi.Prelude.Int.{ℤ, pos, ◌+ℤ◌, ◌-ℤ◌, is_zero, pos_part}
use litetvm_ffi.Json.Decimal.{print_int}
use litetvm_ffi.Json.Escape.{escape_string}
use litetvm_ffi.Json.Value.{
  Value, null, boolean, int, float, string, array, object, other, Items, nil, cons, Fields, end,
  field, Doubles,
}

-- The fields of `JSONWriter`.
pub record Writer : Type 0 where
  pub indent : ℤ
  pub total_indent : ℤ
  pub result : Bytes

pub data Written : Type 0 where
  ok : Writer → Written
  unsupported_type : Written
  key_not_string : Written

infixl 5 ◌>>=◌
abbrev pub ◌>>=◌ : Written → (Writer → Written) → Written
ok w >>= f = f w
unsupported_type >>= f = unsupported_type
key_not_string >>= f = key_not_string

-- `WriteLiteral`, and `*out_iter_++ = c`
abbrev pub write_literal : Bytes → Writer → Writer
write_literal s w = record w { result = w.result ++ s }

abbrev pub write_char : ℕ → Writer → Writer
write_char x w = write_literal (x ∷ []) w

-- `WriteIndent`
unfoldable pub write_indent : Writer → Writer
write_indent w = write_literal (10 ∷ replicate (pos_part w.total_indent) b' ') w

-- `if (indent_ != 0) WriteIndent();`
unfoldable pub maybe_indent : Writer → Writer
maybe_indent w = if is_zero w.indent then w else write_indent w

-- The start of an array or an object: its bracket, and one level more.
unfoldable pub open_bracket : ℕ → Writer → Writer
open_bracket x w =
    let v = write_char x w in
    if is_zero w.indent then v else record v { total_indent = v.total_indent +ℤ v.indent }

-- The end: one level less, on a line of its own, and the bracket.
unfoldable pub close_bracket : ℕ → Writer → Writer
close_bracket x w =
    let v = record w { total_indent = w.total_indent -ℤ w.indent } in
    write_char x (if is_zero w.indent then w else write_indent v)

-- A comma in front of every element but the first.
abbrev pub maybe_comma : Bool → Writer → Writer
maybe_comma first w = if first then w else write_char b',' w

-- The key of an entry, which has to be a string, and the colon.
unfoldable pub write_key : {D : Type 0} → Value D → Writer → Written
write_key (string s) w =
    let u = write_char b':' (write_literal (escape_string s) w) in
    ok (if is_zero w.indent then u else write_char b' ' u)
write_key k w = key_not_string

module _ (doubles : Doubles) where
  open doubles use {
    Double, is_nan, is_inf, is_negative, is_small_integer, print_fixed, print_general,
  }

  -- The text of `WriteFloat`.
  unfoldable pub float_text : Double → Bytes
  float_text d =
      if is_nan d
      then codes "NaN"
      else if is_inf d
      then (if is_negative d then codes "-Infinity" else codes "Infinity")
      else if is_small_integer d
      then print_fixed d
      else print_general d

  -- `WriteValue`, with the loops of `WriteArray` and `WriteObject`; the flag is `i == 0`.
  unfoldable mutual
    pub write_value : Value Double → Writer → Written
    write_value null w = ok (write_literal (codes "null") w)
    write_value (boolean true) w = ok (write_literal (codes "true") w)
    write_value (boolean false) w = ok (write_literal (codes "false") w)
    write_value (int z) w = ok (write_literal (print_int z) w)
    write_value (float d) w = ok (write_literal (float_text d) w)
    write_value (string s) w = ok (write_literal (escape_string s) w)
    write_value (array vs) w =
        write_items vs true (open_bracket b'[' w) >>= λ v. ok (close_bracket b']' v)
    write_value (object fs) w =
        write_fields fs true (open_bracket b'{' w) >>= λ v. ok (close_bracket b'}' v)
    write_value (other i) w = unsupported_type

    pub write_items : Items Double → Bool → Writer → Written
    write_items nil first w = ok w
    write_items (cons v vs) first w =
        write_value v (maybe_indent (maybe_comma first w)) >>= write_items vs false

    pub write_fields : Fields Double → Bool → Writer → Written
    write_fields end first w = ok w
    write_fields (field k v fs) first w =
        write_key k (maybe_indent (maybe_comma first w)) >>= write_value v >>= write_fields fs false

  -- `JSONWriter::Stringify`; without an indent the source takes 0.
  unfoldable pub stringify : Value Double → ℤ → Written
  stringify v indent = write_value v (record { indent = indent; total_indent = pos 0; result = [] })
