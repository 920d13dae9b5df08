-- ===== src/Base64/Tests.antt =====
-- Runs of the Base64 codec, and its theorems at concrete inputs.
use litetvm_ffi.Prelude.{◌%◌, [], ◌∷◌, ◌≡◌, ◌≢◌, ◌↔◌, refl, inl, inr, arith, Bytes, codes, length}
use litetvm_ffi.Base64.{
  enc, ok, invalid_encoding, table_overrun, encode_group, encode_one, encode_two, base64_encode,
  base64_decode,
}
use litetvm_ffi.Base64.RoundTrip.{base64_decode-encode}
use litetvm_ffi.Base64.Bounds.{
  ReturnsWithin, base64_decode-ReturnsWithin, base64_decode_refuses_iff, base64_decode-overrun,
}

abbrev hi : Bytes
hi = 72 ∷ 105 ∷ 255 ∷ 0 ∷ []

encoded_hi : base64_encode hi ≡ codes "SGn/AA=="
unfolding base64_encode encode_group encode_one encode_two enc
encoded_hi = refl

base64_decode-encode_example : base64_decode (base64_encode hi) ≡ ok hi
base64_decode-encode_example =
    base64_decode-encode hi (omega arith, (omega arith, (omega arith, (omega arith, tt))))

base64_decode-ReturnsWithin_example : ReturnsWithin 3 (base64_decode (codes "TWFu"))
base64_decode-ReturnsWithin_example =
    base64_decode-ReturnsWithin (codes "TWFu")
      (omega arith, (omega arith, (omega arith, (omega arith, tt)))) refl

base64_decode_refuses_iff_example :
    (base64_decode (codes "TWF") ≡ invalid_encoding) ↔ (length (codes "TWF") % 4 ≢ 0)
base64_decode_refuses_iff_example = base64_decode_refuses_iff (codes "TWF")

base64_decode-overrun_example : base64_decode (codes "TW{u") ≡ table_overrun
base64_decode-overrun_example =
    base64_decode-overrun (codes "TW{u") refl (inr (inr (inl (omega arith))))
