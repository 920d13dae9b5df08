-- ===== src/Dtype/BoolCode.antt =====
-- The types with the code kDLBool have names that are not read back.
use litetvm_ffi.Prelude.{
  ℕ, [], ◌∷◌, ◌++◌, true, false, ◌&&◌, Option, some, Bytes, codes, ltb, leb, ◌==◌, if_cases, ◌≡◌,
  ◌≢◌, refl, arith,
}
use litetvm_ffi.Json.Decimal.{print_nat, digits_of, max_digits, digits_of-ne-nil}
use litetvm_ffi.Dtype.Types.{Dlpack, CustomTypes, value_error}
use litetvm_ffi.Dtype.Lanes.{lanes_text, strip, is_end}
use litetvm_ffi.Dtype.Print.{code_as_c_str, code_text, dl_data_type_to_string}
use litetvm_ffi.Dtype.Parse.{parse_other_name, parse_name, string_view_to_dl_data_type}
use litetvm_ffi.Dtype.RoundTrip.{same_code, e3m4-lt}

is_end-append : (s t : Bytes) → s ≢ [] → is_end (s ++ t) ≡ false
is_end-append [] t ne = absurd (ne refl)
is_end-append (x ∷ s) t ne = refl

is_end-print_nat : (n : ℕ) (t : Bytes) → is_end (print_nat n ++ t) ≡ false
unfolding print_nat
is_end-print_nat n t = is_end-append (digits_of max_digits n) t (digits_of-ne-nil 19 n)

module _ (dlpack : Dlpack) (customs : CustomTypes) where
  open dlpack use {
    k_int, k_uint, k_float, k_opaque_handle, k_bfloat, k_bool, k_float8_e3m4, base_codes,
  }

  -- What the tests on the code kDLBool give.
  bool_code :
      ((k_bool == k_int) ≡ false)
      × ((k_bool == k_uint) ≡ false)
      × ((k_bool == k_float) ≡ false)
      × ((k_bool == k_opaque_handle) ≡ false)
      × ((k_bool == k_bfloat) ≡ false)
      × (ltb k_bool k_float8_e3m4 ≡ true)
      × (leb 129 k_bool ≡ false)
  bool_code =
      let (a, b, c, d, e, f) = base_codes in
      let g = e3m4-lt dlpack customs in
      (
        ground arith,
        ground arith,
        ground arith,
        ground arith,
        ground arith,
        ground arith,
        ground arith,
      )

  code_text-bool : code_text dlpack customs k_bool ≡ some (codes "bool")
  unfolding code_text code_as_c_str
  code_text-bool =
      let t = bool_code in rw (t.6, t.0, t.1, t.2, t.3, t.4, same_code dlpack customs k_bool) refl

  string_view-bool_text :
      (bits : ℕ) (t : Bytes)
      → string_view_to_dl_data_type dlpack customs (codes "bool" ++ (print_nat bits ++ t))
        ≡ value_error
  unfolding string_view_to_dl_data_type parse_name parse_other_name strip
  string_view-bool_text bits t = rw (is_end-print_nat bits t) refl

  -- Every type with the code kDLBool, whatever its bits and lanes, has a name that
  -- StringViewToDLDataType_ refuses with a ValueError.
  pub string_view-bool_code :
      (bits lanes : ℕ)
      → (s : Bytes) × (dl_data_type_to_string dlpack customs
            (record { code = k_bool; bits = bits; lanes = lanes })
          ≡ some s)
        × (string_view_to_dl_data_type dlpack customs s ≡ value_error)
  unfolding dl_data_type_to_string
  string_view-bool_code bits lanes =
      let t = bool_code in
      let P : Option Bytes → Type 0 = λ r.
        (s : Bytes) × (r ≡ some s) × (string_view_to_dl_data_type dlpack customs s ≡ value_error) in
      if_cases P (bits == 1 && (lanes == 1 && k_bool == k_uint)) (λ a_bool. absurd (ground arith))
        (λ _.
          rw (t.3, code_text-bool)
            (rw (t.3, t.5) (_, refl, string_view-bool_text bits (lanes_text lanes))))
