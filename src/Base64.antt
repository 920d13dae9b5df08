-- ===== src/Base64.antt =====
-- include/ffi/extra/base64.h: the encoder and the decoder, as loops over bytes.
pub mod RoundTrip
pub mod Bounds
mod Tests
use litetvm_ffi.Prelude.{
  ℕ, zero, suc, ◌+◌, ◌-◌, ◌*◌, ◌/◌, ◌%◌, ◌^◌, bit_and, bit_or, List, [], ◌∷◌, ◌++◌, Bool, true,
  false, ◌&&◌, ◌≡◌, refl, Bytes, codes, get_or, length, ltb, ◌==◌, if◌then◌else◌,
}

-- `x >> k` and `x << k` on an int32_t that stays below 2 ^ 31.
abbrev pub shr : ℕ → ℕ → ℕ
shr x k = x / 2 ^ k

abbrev pub shl : ℕ → ℕ → ℕ
shl x k = x * 2 ^ k

-- '='
abbrev pub pad : ℕ
pad = b'='

abbrev pub k_encode_table : Bytes
k_encode_table = codes "ABCDEFGHIJKLMNOPQRSTUVWXYZabcdefghijklmnopqrstuvwxyz0123456789+/"

-- `kEncodeTable[i]`; every index that the encoder makes is below 64.
unfoldable pub enc : ℕ → ℕ
enc i = get_or k_encode_table i 0

-- One round of the main loop: three bytes into four characters.
unfoldable pub encode_group : ℕ → ℕ → ℕ → Bytes
encode_group b0 b1 b2 =
    enc (shr b0 2)
    ∷ enc (bit_and (bit_or (shl b0 4) (shr b1 4)) 0x3f)
    ∷ enc (bit_and (bit_or (shl b1 2) (shr b2 6)) 0x3f)
    ∷ enc (bit_and b2 0x3f)
    ∷ []

-- The branch for `bytes.size % 3 == 1`.
unfoldable pub encode_one : ℕ → Bytes
encode_one b0 = enc (shr b0 2) ∷ enc (bit_and (shl b0 4) 0x3f) ∷ pad ∷ pad ∷ []

-- The branch for `bytes.size % 3 == 2`.
unfoldable pub encode_two : ℕ → ℕ → Bytes
encode_two b0 b1 =
    enc (shr b0 2)
    ∷ enc (bit_and (bit_or (shl b0 4) (shr b1 4)) 0x3f)
    ∷ enc (bit_and (shl b1 2) 0x3f)
    ∷ pad
    ∷ []

-- `Base64Encode`: the groups of three in order, then the one or two bytes that are left.
pub base64_encode : Bytes → Bytes
base64_encode [] = []
base64_encode (b0 ∷ []) = encode_one b0
base64_encode (b0 ∷ b1 ∷ []) = encode_two b0 b1
base64_encode (b0 ∷ b1 ∷ b2 ∷ rest) = encode_group b0 b1 b2 ++ base64_encode rest

-- `kDecodeTable`, in the runs in which the source writes it.
abbrev pub k_decode_table : Bytes
k_decode_table =
    0 ∷ 0 ∷ 0 ∷ 0 ∷ 0 ∷ 0 ∷ 0 ∷ 0 ∷ 0 ∷ 0 ∷ 0 ∷ 0 ∷ 0 ∷ 0 ∷ 0 ∷ 0 ∷ 0 ∷ 0 ∷ 0 ∷ 0 ∷ 0 ∷ 0 ∷ 0 ∷ 0
    ∷ 0 ∷ 0 ∷ 0 ∷ 0 ∷ 0 ∷ 0 ∷ 0 ∷ 0 ∷ 0 ∷ 0 ∷ 0 ∷ 0 ∷ 0 ∷ 0 ∷ 0 ∷ 0 ∷ 0 ∷ 0 ∷ 0 ∷ 62 ∷ 0 ∷ 0 ∷ 0
    ∷ 63 ∷ 52 ∷ 53 ∷ 54 ∷ 55 ∷ 56 ∷ 57 ∷ 58 ∷ 59 ∷ 60 ∷ 61 ∷ 0 ∷ 0 ∷ 0 ∷ 0 ∷ 0 ∷ 0 ∷ 0 ∷ 0 ∷ 1 ∷ 2
    ∷ 3 ∷ 4 ∷ 5 ∷ 6 ∷ 7 ∷ 8 ∷ 9 ∷ 10 ∷ 11 ∷ 12 ∷ 13 ∷ 14 ∷ 15 ∷ 16 ∷ 17 ∷ 18 ∷ 19 ∷ 20 ∷ 21 ∷ 22
    ∷ 23 ∷ 24 ∷ 25 ∷ 0 ∷ 0 ∷ 0 ∷ 0 ∷ 0 ∷ 0 ∷ 26 ∷ 27 ∷ 28 ∷ 29 ∷ 30 ∷ 31 ∷ 32 ∷ 33 ∷ 34 ∷ 35 ∷ 36
    ∷ 37 ∷ 38 ∷ 39 ∷ 40 ∷ 41 ∷ 42 ∷ 43 ∷ 44 ∷ 45 ∷ 46 ∷ 47 ∷ 48 ∷ 49 ∷ 50 ∷ 51 ∷ []

-- What the decoder does: the bytes, the failed check on the size, or a read behind the table, whose
-- result C++ does not define.
pub data Decoded : Type 0 where
  ok : Bytes → Decoded
  invalid_encoding : Decoded
  table_overrun : Decoded

infixl 5 ◌>>=◌
abbrev pub ◌>>=◌ : Decoded → (Bytes → Decoded) → Decoded
ok bs >>= f = f bs
invalid_encoding >>= f = invalid_encoding
table_overrun >>= f = table_overrun

unfoldable pub dec : ℕ → ℕ
dec c = get_or k_decode_table c 0

-- `value_i24`
unfoldable pub value_i24 : ℕ → ℕ → ℕ → ℕ → ℕ
unfolding dec
value_i24 c0 c1 c2 c3 =
    bit_or (bit_or (bit_or (shl (dec c0) 18) (shl (dec c1) 12)) (shl (dec c2) 6)) (dec c3)

in_table : ℕ → Bool
in_table c = ltb c (length k_decode_table)

-- One round of the loop: four characters into three bytes, less those that '=' stands for.
unfoldable pub decode_group : ℕ → ℕ → ℕ → ℕ → Decoded
unfolding in_table
decode_group c0 c1 c2 c3 =
    let v = value_i24 c0 c1 c2 c3 in
    if in_table c0 && in_table c1 && in_table c2 && in_table c3
    then ok (
        bit_and (shr v 16) 0xff ∷ (if c2 == pad then [] else bit_and (shr v 8) 0xff ∷ [])
        ++ (if c3 == pad then [] else bit_and v 0xff ∷ []))
    else table_overrun

-- The loop over the groups; the size has been checked to be a multiple of four.
unfoldable pub decode_loop : Bytes → Decoded
decode_loop (c0 ∷ c1 ∷ c2 ∷ c3 ∷ rest) = do
  out ← decode_group c0 c1 c2 c3
  tail ← decode_loop rest
  ok (out ++ tail)
decode_loop _ = ok []

-- `Base64Decode`
pub base64_decode : Bytes → Decoded
base64_decode [] = ok []
base64_decode (c ∷ cs) = if length (c ∷ cs) % 4 == 0 then decode_loop (c ∷ cs) else invalid_encoding
