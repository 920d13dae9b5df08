-- ===== src/Dtype/Parse.antt =====
-- StringViewToDLDataType_ of src/ffi/dtype.cpp: the tests on the front of a name.
use litetvm_ffi.Prelude.{◌||◌, none, some, Bytes, codes, if◌then◌else◌}
use litetvm_ffi.Dtype.Types.{Dlpack, CustomTypes, Converted, ok, value_error}
use litetvm_ffi.Dtype.Lanes.{strip, is_end, same_text, read_bits_lanes, parse_float, parse_custom}

module _ (dlpack : Dlpack) (customs : CustomTypes) where
  open dlpack use {
    k_int, k_uint, k_float, k_opaque_handle, k_bfloat, k_float8_e3m4, k_float8_e4m3,
    k_float8_e4m3b11fnuz, k_float8_e4m3fn, k_float8_e4m3fnuz, k_float8_e5m2, k_float8_e5m2fnuz,
    k_float8_e8m0fnu, k_float6_e2m3fn, k_float6_e3m2fn, k_float4_e2m1fn,
  }

  -- The names behind "float8_", with the text from there on.
  unfoldable pub parse_float8 : Bytes → Converted
  parse_float8 s = elim (strip (codes "e3m4") s) [
    | some rest ↦ parse_float k_float8_e3m4 8 rest
    | none ↦ elim (strip (codes "e4m3") s) [
      | some rest ↦ elim (strip (codes "b11fnuz") rest) [
        | some t ↦ parse_float k_float8_e4m3b11fnuz 8 t
        | none ↦ elim (strip (codes "fn") rest) [
          | some t ↦ elim (strip (codes "uz") t) [
            | some u ↦ parse_float k_float8_e4m3fnuz 8 u
            | none ↦ parse_float k_float8_e4m3fn 8 t
          ]
          | none ↦ parse_float k_float8_e4m3 8 rest
        ]
      ]
      | none ↦ elim (strip (codes "e5m2fnuz") s) [
        | some rest ↦ parse_float k_float8_e5m2fnuz 8 rest
        | none ↦ elim (strip (codes "e5m2") s) [
          | some rest ↦ parse_float k_float8_e5m2 8 rest
          | none ↦ elim (strip (codes "e8m0fnu") s) [
            | some rest ↦ parse_float k_float8_e8m0fnu 8 rest
            | none ↦ value_error
          ]
        ]
      ]
    ]
  ]

  -- The names behind "float6_" and "float4_".
  unfoldable pub parse_float6 : Bytes → Converted
  parse_float6 s = elim (strip (codes "e2m3fn") s) [
    | some rest ↦ parse_float k_float6_e2m3fn 6 rest
    | none ↦ elim (strip (codes "e3m2fn") s) [
      | some rest ↦ parse_float k_float6_e3m2fn 6 rest
      | none ↦ value_error
    ]
  ]

  unfoldable pub parse_float4 : Bytes → Converted
  parse_float4 s = elim (strip (codes "e2m1fn") s) [
    | some rest ↦ parse_float k_float4_e2m1fn 4 rest
    | none ↦ value_error
  ]

  -- The names behind "float".
  unfoldable pub parse_float_name : Bytes → Converted
  parse_float_name s = elim (strip (codes "8_") s) [
    | some rest ↦ parse_float8 rest
    | none ↦ elim (strip (codes "6_") s) [
      | some rest ↦ parse_float6 rest
      | none ↦ elim (strip (codes "4_") s) [
        | some rest ↦ parse_float4 rest
        | none ↦ read_bits_lanes k_float 32 s
      ]
    ]
  ]

  -- The names behind none of "int", "uint", "float" and "handle".
  unfoldable pub parse_other_name : Bytes → Converted
  parse_other_name s =
      let other : Converted = elim (strip (codes "bfloat") s) [
        | some rest ↦ read_bits_lanes k_bfloat 16 rest
        | none ↦ elim (strip (codes "custom") s) [
          | some rest ↦ parse_custom customs rest
          | none ↦ value_error
        ]
      ] in
      if same_text (codes "bool") s
      then ok (record { code = k_uint; bits = 1; lanes = 1 })
      else other

  -- The chain of tests on the front of the name.
  unfoldable pub parse_name : Bytes → Converted
  parse_name s = elim (strip (codes "int") s) [
    | some rest ↦ read_bits_lanes k_int 32 rest
    | none ↦ elim (strip (codes "uint") s) [
      | some rest ↦ read_bits_lanes k_uint 32 rest
      | none ↦ elim (strip (codes "float") s) [
        | some rest ↦ parse_float_name rest
        | none ↦ elim (strip (codes "handle") s) [
          | some rest ↦ read_bits_lanes k_opaque_handle 64 rest
          | none ↦ parse_other_name s
        ]
      ]
    ]
  ]

  -- `StringViewToDLDataType_`
  unfoldable pub string_view_to_dl_data_type : Bytes → Converted
  string_view_to_dl_data_type s =
      if is_end s || same_text (codes "void") s
      then ok (record { code = k_opaque_handle; bits = 0; lanes = 0 })
      else parse_name s
