-- ===== src/Dtype/RoundTrip.antt =====
-- The names of the integer and floating-point types with a given number of bits are read back.
use litetvm_ffi.Prelude.{
  ℕ, ◌-◌, ◌%◌, ◌<◌, ◌≤◌, [], ◌∷◌, ◌++◌, true, false, ◌&&◌, Option, none, some, Bytes, codes, All,
  ltb, leb, ◌==◌, if_cases, ◌≡◌, ◌≢◌, ◌∙◌, refl, ap, arith,
}
use litetvm_ffi.Json.Decimal.{
  print_nat, IsDigit, digits_of, max_digits, digits_of-IsDigit, digits_of-ne-nil,
}
use litetvm_ffi.Dtype.Types.{Dlpack, CustomTypes, DlDataType, ok}
use litetvm_ffi.Dtype.Lanes.{lanes_text, strip, read_bits_lanes}
use litetvm_ffi.Dtype.Print.{code_as_c_str, code_text, dl_data_type_to_string}
use litetvm_ffi.Dtype.Parse.{
  parse_float_name, parse_other_name, parse_name, string_view_to_dl_data_type,
}
use litetvm_ffi.Dtype.Scan.{
  IsPrintedLanes, strtoul-print_nat, read_scaled-lanes_text, lanes_text-EndsDigits,
}

read_bits_lanes-print :
    (code default_bits bits lanes : ℕ)
    → 1 ≤ bits
    → bits < 256
    → IsPrintedLanes lanes
    → read_bits_lanes code default_bits (print_nat bits ++ lanes_text lanes)
      ≡ ok (record { code = code; bits = bits; lanes = lanes })
unfolding read_bits_lanes
read_bits_lanes-print code default_bits bits lanes low high h =
    let given : (bits % 256 == 0) ≡ false = ground arith in
    rw (strtoul-print_nat bits (lanes_text lanes) (omega arith) (lanes_text-EndsDigits lanes)) (
      rw given (
        read_scaled-lanes_text code (bits % 256) lanes h
        ∙ ap (λ b. ok (record { code = code; bits = b; lanes = lanes })) (omega arith)))

-- No name of a small format begins with printed bits.
strip_small-digits :
    (p : ℕ) (s t : Bytes)
    → s ≢ []
    → All IsDigit s
    → strip (b'_' ∷ []) t ≡ none
    → strip (p ∷ b'_' ∷ []) (s ++ t) ≡ none
unfolding strip
strip_small-digits p [] t ne h e = absurd (ne refl)
strip_small-digits p (x ∷ []) t ne h e = if_cases (λ r. r ≡ none) (p == x) (λ _. e) (λ _. refl)
strip_small-digits p (x ∷ y ∷ s) t ne h e =
    let differs : (b'_' == y) ≡ false = ground (arith, h.1.0) in
    if_cases (λ r. r ≡ none) (p == x) (λ _. rw differs) (λ _. refl)

lanes_text-small : (lanes : ℕ) → strip (b'_' ∷ []) (lanes_text lanes) ≡ none
unfolding strip lanes_text
lanes_text-small lanes =
    let P : Bytes → Type 0 = λ w. strip (b'_' ∷ []) w ≡ none in
    if_cases P (ltb lanes 0x8000) (λ _. if_cases P (ltb 1 lanes) (λ _. refl) (λ _. refl))
      (λ _. if_cases P (ltb 1 (0x10000 - lanes)) (λ _. refl) (λ _. refl))

strip_small-print :
    (p bits lanes : ℕ) → strip (p ∷ b'_' ∷ []) (print_nat bits ++ lanes_text lanes) ≡ none
unfolding print_nat
strip_small-print p bits lanes =
    strip_small-digits p (digits_of max_digits bits) (lanes_text lanes) (digits_of-ne-nil 19 bits)
      (digits_of-IsDigit max_digits bits) (lanes_text-small lanes)

-- A code whose types are named by their bits.
pub data IsSized (dlpack : Dlpack) : ℕ → Type 0 where
  an_int : IsSized dlpack dlpack.k_int
  a_uint : IsSized dlpack dlpack.k_uint
  a_float : IsSized dlpack dlpack.k_float
  a_bfloat : IsSized dlpack dlpack.k_bfloat

module _ (dlpack : Dlpack) (customs : CustomTypes) where
  open dlpack use {
    k_int, k_uint, k_float, k_opaque_handle, k_bfloat, k_float8_e3m4, base_codes, float8_codes,
    small_codes,
  }

  name_of : {code : ℕ} → IsSized dlpack code → Bytes
  name_of an_int = codes "int"
  name_of a_uint = codes "uint"
  name_of a_float = codes "float"
  name_of a_bfloat = codes "bfloat"

  pub e3m4-lt : k_float8_e3m4 < 129
  e3m4-lt = omega (
    arith, float8_codes.0, float8_codes.1, float8_codes.2, float8_codes.3, float8_codes.4,
    float8_codes.5, float8_codes.6, small_codes.0, small_codes.1, small_codes.2, small_codes.3,
  )

  -- The sized codes are no code of a handle, come before the small formats, and are not custom.
  sized_code :
      {code : ℕ}
      → IsSized dlpack code
      → ((code == k_opaque_handle) ≡ false)
        × (ltb code k_float8_e3m4 ≡ true)
        × (leb 129 code ≡ false)
  sized_code an_int =
      let (a, b, c, d, e, f) = base_codes in
      let g = e3m4-lt in (ground arith, ground arith, ground arith)
  sized_code a_uint =
      let (a, b, c, d, e, f) = base_codes in
      let g = e3m4-lt in (ground arith, ground arith, ground arith)
  sized_code a_float =
      let (a, b, c, d, e, f) = base_codes in
      let g = e3m4-lt in (ground arith, ground arith, ground arith)
  sized_code a_bfloat =
      let (a, b, c, d, e, f) = base_codes in
      let g = e3m4-lt in (ground arith, ground arith, ground arith)

  pub same_code : (n : ℕ) → (n == n) ≡ true
  same_code n = ground arith

  code_as_c_str-sized :
      {code : ℕ} (k : IsSized dlpack code) → code_as_c_str dlpack customs code ≡ some (name_of k)
  unfolding code_as_c_str name_of
  code_as_c_str-sized an_int = rw (same_code k_int) refl
  code_as_c_str-sized a_uint =
      let other : (k_uint == k_int) ≡ false = ground (arith, base_codes.0) in
      rw (other, same_code k_uint) refl
  code_as_c_str-sized a_float =
      let (a, b, c, d, e, f) = base_codes in
      let other : ((k_float == k_int) ≡ false) × ((k_float == k_uint) ≡ false) =
        (ground arith, ground arith) in
      rw (other.0, other.1, same_code k_float) refl
  code_as_c_str-sized a_bfloat =
      let (a, b, c, d, e, f) = base_codes in
      let other : ((k_bfloat == k_int) ≡ false)
          × ((k_bfloat == k_uint) ≡ false)
          × ((k_bfloat == k_float) ≡ false) =
        (ground arith, ground arith, ground arith) in
      rw (other.0, other.1, other.2, (sized_code a_bfloat).0, same_code k_bfloat) refl

  code_text-sized :
      {code : ℕ} (k : IsSized dlpack code) → code_text dlpack customs code ≡ some (name_of k)
  unfolding code_text
  code_text-sized k = rw ((sized_code k).2) (code_as_c_str-sized k)

  parse_float_name-print :
      (bits lanes : ℕ)
      → 1 ≤ bits
      → bits < 256
      → IsPrintedLanes lanes
      → parse_float_name dlpack customs (print_nat bits ++ lanes_text lanes)
        ≡ ok (record { code = k_float; bits = bits; lanes = lanes })
  unfolding parse_float_name
  parse_float_name-print bits lanes low high h =
      rw
        (
          parse_float_name,
          strip_small-print b'8' bits lanes,
          strip_small-print b'6' bits lanes,
          strip_small-print b'4' bits lanes,
        )
        (read_bits_lanes-print k_float 32 bits lanes low high h)

  parse_name-sized :
      {code : ℕ} (k : IsSized dlpack code) (bits lanes : ℕ)
      → 1 ≤ bits
      → bits < 256
      → IsPrintedLanes lanes
      → parse_name dlpack customs (name_of k ++ (print_nat bits ++ lanes_text lanes))
        ≡ ok (record { code = code; bits = bits; lanes = lanes })
  unfolding parse_name strip name_of
  parse_name-sized an_int bits lanes low high h =
      read_bits_lanes-print k_int 32 bits lanes low high h
  parse_name-sized a_uint bits lanes low high h =
      read_bits_lanes-print k_uint 32 bits lanes low high h
  parse_name-sized a_float bits lanes low high h = parse_float_name-print bits lanes low high h
  parse_name-sized a_bfloat bits lanes low high h =
      unfold parse_other_name in read_bits_lanes-print k_bfloat 16 bits lanes low high h

  string_view-sized :
      {code : ℕ} (k : IsSized dlpack code) (bits lanes : ℕ)
      → 1 ≤ bits
      → bits < 256
      → IsPrintedLanes lanes
      → string_view_to_dl_data_type dlpack customs
          (name_of k ++ (print_nat bits ++ lanes_text lanes))
        ≡ ok (record { code = code; bits = bits; lanes = lanes })
  unfolding string_view_to_dl_data_type strip name_of
  string_view-sized an_int bits lanes low high h = parse_name-sized an_int bits lanes low high h
  string_view-sized a_uint bits lanes low high h = parse_name-sized a_uint bits lanes low high h
  string_view-sized a_float bits lanes low high h = parse_name-sized a_float bits lanes low high h
  string_view-sized a_bfloat bits lanes low high h = parse_name-sized a_bfloat bits lanes low high h

  string_view-bool :
      string_view_to_dl_data_type dlpack customs (codes "bool")
      ≡ ok (record { code = k_uint; bits = 1; lanes = 1 })
  unfolding string_view_to_dl_data_type parse_name parse_other_name strip
  string_view-bool = refl

  -- An integer, unsigned integer, floating-point or bfloat type of 1 to 255 bits, with any lanes, fixed or
  -- scalable, but 0 and -1, has a name, and the name is read back as the type.
  pub string_view-to_string :
      {code : ℕ} (bits lanes : ℕ)
      → IsSized dlpack code
      → 1 ≤ bits
      → bits < 256
      → IsPrintedLanes lanes
      → let dtype : DlDataType = record { code = code; bits = bits; lanes = lanes } in
        (s : Bytes) × (dl_data_type_to_string dlpack customs dtype ≡ some s)
        × (string_view_to_dl_data_type dlpack customs s ≡ ok dtype)
  unfolding dl_data_type_to_string
  string_view-to_string {code} bits lanes k low high h =
      let P : Option Bytes → Type 0 = λ r.
        (s : Bytes) × (r ≡ some s)
        × (string_view_to_dl_data_type dlpack customs s
            ≡ ok (record { code = code; bits = bits; lanes = lanes })) in
      if_cases P (bits == 1 && (lanes == 1 && code == k_uint))
        (λ a_bool.
          let e : (k_uint ≡ code) × (1 ≡ bits) × (1 ≡ lanes) =
            (ground arith, ground arith, ground arith) in
          (
            codes "bool",
            refl,
            string_view-bool ∙ (λ i. ok (record { code = e.0 i; bits = e.1 i; lanes = e.2 i })),
          ))
        (λ _.
          rw ((sized_code k).0, code_text-sized k)
            (rw ((sized_code k).0, (sized_code k).1)
              (_, refl, string_view-sized k bits lanes low high h)))
