-- ===== src/Dtype/Tests.antt =====
-- The theorems on names of data types at concrete data types, with the numbers of dlpack.h.
use litetvm_ffi.Prelude.{refl, some, none, ◌≡◌, arith, Bytes, codes, ◌++◌}
use litetvm_ffi.Dtype.Types.{Dlpack, CustomTypes, ok, overread, value_error}
use litetvm_ffi.Dtype.Print.{dl_data_type_to_string}
use litetvm_ffi.Dtype.Parse.{string_view_to_dl_data_type}
use litetvm_ffi.Dtype.RoundTrip.{string_view-to_string, a_bfloat}
use litetvm_ffi.Dtype.Custom.{string_view-overread}
use litetvm_ffi.Dtype.BoolCode.{string_view-bool_code}

abbrev numbers : Dlpack
numbers = record {
  k_int = 0;
  k_uint = 1;
  k_float = 2;
  k_opaque_handle = 3;
  k_bfloat = 4;
  k_bool = 6;
  k_float8_e3m4 = 7;
  k_float8_e4m3 = 8;
  k_float8_e4m3b11fnuz = 9;
  k_float8_e4m3fn = 10;
  k_float8_e4m3fnuz = 11;
  k_float8_e5m2 = 12;
  k_float8_e5m2fnuz = 13;
  k_float8_e8m0fnu = 14;
  k_float6_e2m3fn = 15;
  k_float6_e3m2fn = 16;
  k_float4_e2m1fn = 17;
  base_codes = (omega arith, omega arith, omega arith, omega arith, omega arith, omega arith);
  float8_codes =
      (omega arith, omega arith, omega arith, omega arith, omega arith, omega arith, omega arith);
  small_codes = (omega arith, omega arith, omega arith, omega arith);
}

abbrev no_customs : CustomTypes
no_customs = record {
  get_custom_type_name = λ code. codes "custom";
  get_custom_type_code = λ name. none;
}

-- bfloat16xvscalex4
string_view-to_string_example :
    (s : Bytes) × (dl_data_type_to_string numbers no_customs
        (record { code = 4; bits = 16; lanes = 65532 })
      ≡ some s)
    × (string_view_to_dl_data_type numbers no_customs s
        ≡ ok (record { code = 4; bits = 16; lanes = 65532 }))
string_view-to_string_example =
    string_view-to_string numbers no_customs 16 65532 a_bfloat (omega arith) (omega arith)
      (omega arith, omega arith)

string_view-bool_code_example :
    (s : Bytes) × (dl_data_type_to_string numbers no_customs
        (record { code = 6; bits = 8; lanes = 1 })
      ≡ some s)
    × (string_view_to_dl_data_type numbers no_customs s ≡ value_error)
string_view-bool_code_example = string_view-bool_code numbers no_customs 8 1

string_view-overread_example :
    string_view_to_dl_data_type numbers no_customs (codes "custom[" ++ codes "abc") ≡ overread
string_view-overread_example =
    string_view-overread numbers no_customs (codes "abc") (refl, (refl, (refl, tt)))
