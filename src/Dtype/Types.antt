-- ===== src/Dtype/Types.antt =====
-- The data types of src/ffi/dtype.cpp, and what the code takes from elsewhere.
use litetvm_ffi.Prelude.{ℕ, ◌<◌, Option, Bytes}

-- The codes of the header dlpack.h, which numbers them in this order.
pub record Dlpack : Type 0 where
  pub k_int : ℕ
  pub k_uint : ℕ
  pub k_float : ℕ
  pub k_opaque_handle : ℕ
  pub k_bfloat : ℕ
  pub k_bool : ℕ
  pub k_float8_e3m4 : ℕ
  pub k_float8_e4m3 : ℕ
  pub k_float8_e4m3b11fnuz : ℕ
  pub k_float8_e4m3fn : ℕ
  pub k_float8_e4m3fnuz : ℕ
  pub k_float8_e5m2 : ℕ
  pub k_float8_e5m2fnuz : ℕ
  pub k_float8_e8m0fnu : ℕ
  pub k_float6_e2m3fn : ℕ
  pub k_float6_e3m2fn : ℕ
  pub k_float4_e2m1fn : ℕ
  pub base_codes :
      (k_int < k_uint)
      × (k_uint < k_float)
      × (k_float < k_opaque_handle)
      × (k_opaque_handle < k_bfloat)
      × (k_bfloat < k_bool)
      × (k_bool < k_float8_e3m4)
  pub float8_codes :
      (k_float8_e3m4 < k_float8_e4m3)
      × (k_float8_e4m3 < k_float8_e4m3b11fnuz)
      × (k_float8_e4m3b11fnuz < k_float8_e4m3fn)
      × (k_float8_e4m3fn < k_float8_e4m3fnuz)
      × (k_float8_e4m3fnuz < k_float8_e5m2)
      × (k_float8_e5m2 < k_float8_e5m2fnuz)
      × (k_float8_e5m2fnuz < k_float8_e8m0fnu)
  pub small_codes :
      (k_float8_e8m0fnu < k_float6_e2m3fn)
      × (k_float6_e2m3fn < k_float6_e3m2fn)
      × (k_float6_e3m2fn < k_float4_e2m1fn)
      × (k_float4_e2m1fn < 129)

-- The registered functions dtype.get_custom_type_name and dtype.get_custom_type_code.
pub record CustomTypes : Type 0 where
  pub get_custom_type_name : ℕ → Bytes
  pub get_custom_type_code : Bytes → Option ℕ

-- `DLDataType`: two bytes and 16 bits of lanes, which a negative number marks as scalable.
pub record DlDataType : Type 0 where
  pub code : ℕ
  pub bits : ℕ
  pub lanes : ℕ

-- How StringViewToDLDataType_ ends: with a data type, with a ValueError, with the error of the registered
-- function, or with a read behind the NUL.
pub data Converted : Type 0 where
  ok : DlDataType → Converted
  value_error : Converted
  custom_error : Converted
  overread : Converted

abbrev pub k_ext_custom_begin : ℕ
k_ext_custom_begin = 129
