-- ===== src/Dtype/Print.antt =====
-- DLDataTypeToString_ of src/ffi/dtype.cpp, and DLDataTypeCodeAsCStr of include/ffi/dtype.h.
use litetvm_ffi.Prelude.{
  ℕ, [], ◌++◌, ◌&&◌, Option, none, some, Bytes, codes, ltb, leb, ◌==◌, if◌then◌else◌,
}
use litetvm_ffi.Json.Decimal.{print_nat}
use litetvm_ffi.Dtype.Types.{Dlpack, CustomTypes, DlDataType, k_ext_custom_begin}
use litetvm_ffi.Dtype.Lanes.{lanes_text}

module _ (dlpack : Dlpack) (customs : CustomTypes) where
  open dlpack use {
    k_int, k_uint, k_float, k_opaque_handle, k_bfloat, k_bool, k_float8_e3m4, k_float8_e4m3,
    k_float8_e4m3b11fnuz, k_float8_e4m3fn, k_float8_e4m3fnuz, k_float8_e5m2, k_float8_e5m2fnuz,
    k_float8_e8m0fnu, k_float6_e2m3fn, k_float6_e3m2fn, k_float4_e2m1fn,
  }
  open customs use {get_custom_type_name}

  -- `DLDataTypeCodeAsCStr`, with `none` for the ValueError on an unknown code.
  unfoldable pub code_as_c_str : ℕ → Option Bytes
  code_as_c_str code =
      if code == k_int
      then some (codes "int")
      else if code == k_uint
      then some (codes "uint")
      else if code == k_float
      then some (codes "float")
      else if code == k_opaque_handle
      then some (codes "handle")
      else if code == k_bfloat
      then some (codes "bfloat")
      else if code == k_bool
      then some (codes "bool")
      else if code == k_float8_e3m4
      then some (codes "float8_e3m4")
      else if code == k_float8_e4m3
      then some (codes "float8_e4m3")
      else if code == k_float8_e4m3b11fnuz
      then some (codes "float8_e4m3b11fnuz")
      else if code == k_float8_e4m3fn
      then some (codes "float8_e4m3fn")
      else if code == k_float8_e4m3fnuz
      then some (codes "float8_e4m3fnuz")
      else if code == k_float8_e5m2
      then some (codes "float8_e5m2")
      else if code == k_float8_e5m2fnuz
      then some (codes "float8_e5m2fnuz")
      else if code == k_float8_e8m0fnu
      then some (codes "float8_e8m0fnu")
      else if code == k_float6_e2m3fn
      then some (codes "float6_e2m3fn")
      else if code == k_float6_e3m2fn
      then some (codes "float6_e3m2fn")
      else if code == k_float4_e2m1fn
      then some (codes "float4_e2m1fn")
      else if leb k_ext_custom_begin code
      then some (codes "custom")
      else none

  -- The name of the code, with which the name of a type begins.
  unfoldable pub code_text : ℕ → Option Bytes
  code_text code =
      if leb k_ext_custom_begin code
      then some (codes "custom[" ++ (get_custom_type_name code ++ codes "]"))
      else code_as_c_str code

  -- `DLDataTypeToString_`
  unfoldable pub dl_data_type_to_string : DlDataType → Option Bytes
  dl_data_type_to_string dtype =
      if dtype.bits == 1 && (dtype.lanes == 1 && dtype.code == k_uint)
      then some (codes "bool")
      else if dtype.code == k_opaque_handle && (dtype.lanes == 0 && dtype.bits == 0)
      then some []
      else elim (code_text dtype.code) [
        | none ↦ none
        | some name ↦
            if dtype.code == k_opaque_handle
            then some name
            else some (
                name
                ++ ((if ltb dtype.code k_float8_e3m4 then print_nat dtype.bits else [])
                    ++ lanes_text dtype.lanes))
      ]
