-- ===== src/Base64/RoundTrip.antt =====
-- Decoding what the encoder wrote, group by group.
use litetvm_ffi.Prelude.{
  ℕ, zero, suc, ◌+◌, ◌*◌, ◌/◌, ◌%◌, ◌^◌, ◌<◌, bit_and, bit_or, [], ◌∷◌, ◌++◌, Bool, true, false,
  ◌&&◌, ◌≡◌, ◌∙◌, refl, arith, Bytes, All, length, ltb, ◌==◌, ==_iff, if◌then◌else◌, lt→ltb,
}
use litetvm_ffi.Prelude.Bits.{or_shifted, and_63, and_255}
use litetvm_ffi.Base64.{
  enc, dec, pad, encode_group, encode_one, encode_two, base64_encode, ok, value_i24, decode_group,
  decode_loop, base64_decode, ◌>>=◌, in_table, k_decode_table,
}

-- The two tables are inverse, characters of the alphabet are inside the second, and '=' is none.
check_below : ℕ → Bool
check_below zero = true
check_below (suc i) =
    dec (enc i) == i
    && ltb (enc i) (length k_decode_table)
    && (if enc i == pad then false else true)
    && check_below i

check_below-64 : check_below 64 ≡ true
unfolding check_below enc dec
check_below-64 = refl

check_below_sound :
    (n i : ℕ)
    → check_below n ≡ true
    → i < n
    → (dec (enc i) ≡ i) × (enc i < length k_decode_table) × ((enc i == pad) ≡ false)
unfolding check_below
check_below_sound zero i h lt = absurd (omega arith)
check_below_sound (suc n) i h lt = ground (arith, check_below_sound n i)

-- What the tables say of one index.
table_lem :
    (i : ℕ)
    → i < 64
    → (dec (enc i) ≡ i) × (enc i < length k_decode_table) × ((enc i == pad) ≡ false)
table_lem i = check_below_sound 64 i check_below-64

-- The four sextets put together, as a number.
pub join_sextets : ℕ → ℕ → ℕ → ℕ → ℕ
join_sextets i0 i1 i2 i3 = i0 * 2 ^ 18 + i1 * 2 ^ 12 + i2 * 2 ^ 6 + i3

or_join :
    (i0 i1 i2 i3 : ℕ)
    → i0 < 64
    → i1 < 64
    → i2 < 64
    → i3 < 64
    → bit_or (bit_or (bit_or (i0 * 2 ^ 18) (i1 * 2 ^ 12)) (i2 * 2 ^ 6)) i3
      ≡ join_sextets i0 i1 i2 i3
unfolding join_sextets
or_join i0 i1 i2 i3 h0 h1 h2 h3 =
    let high : i0 * 2 ^ 18 + i1 * 2 ^ 12 ≡ (i0 * 64 + i1) * 2 ^ 12 = omega arith in
    let most : (i0 * 64 + i1) * 2 ^ 12 + i2 * 2 ^ 6 ≡ (i0 * 4096 + i1 * 64 + i2) * 2 ^ 6 =
      omega arith in
    rw (or_shifted 18 i0 (i1 * 2 ^ 12) (omega arith)) (
      rw high (
        rw (or_shifted 12 (i0 * 64 + i1) (i2 * 2 ^ 6) (omega arith))
          (rw most (rw (or_shifted 6 (i0 * 4096 + i1 * 64 + i2) i3 (omega arith)) (omega arith)))))

-- A character that the decode table maps to the sextet `i`.
record Sextet (c i : ℕ) : Type 0 where
  decodes : dec c ≡ i
  inside : in_table c ≡ true
  small : i < 64

enc-Sextet : (i : ℕ) → i < 64 → Sextet (enc i) i
unfolding in_table
enc-Sextet i h =
    let (same, inside, _) = table_lem i h in
    record { decodes = same; inside = lt→ltb (enc i) _ inside; small = h }

pad-Sextet : Sextet pad 0
unfolding in_table dec
pad-Sextet = record { decodes = refl; inside = refl; small = omega arith }

decode_sextets :
    (c0 c1 c2 c3 i0 i1 i2 i3 : ℕ)
    → Sextet c0 i0
    → Sextet c1 i1
    → Sextet c2 i2
    → Sextet c3 i3
    → let v = join_sextets i0 i1 i2 i3 in
      decode_group c0 c1 c2 c3
      ≡ ok (
          (v / 2 ^ 16) % 256 ∷ (if c2 == pad then [] else (v / 2 ^ 8) % 256 ∷ [])
          ++ (if c3 == pad then [] else v % 256 ∷ []))
decode_sextets c0 c1 c2 c3 i0 i1 i2 i3 s0 s1 s2 s3 =
    let v : value_i24 c0 c1 c2 c3 ≡ join_sextets i0 i1 i2 i3 =
      unfold value_i24 in
      rw (s0.decodes, s1.decodes, s2.decodes, s3.decodes)
        (or_join i0 i1 i2 i3 s0.small s1.small s2.small s3.small) in
    unfold decode_group in rw (v, s0.inside, s1.inside, s2.inside, s3.inside) (simp (and_255))

abbrev pub IsByte : ℕ → Type 0
IsByte b = b < 256

-- The two middle sextets of a group, as the encoder cuts them out of a pair of bytes.
middle : (k : ℕ) (a b : ℕ) → b < 2 ^ k → bit_and (bit_or (a * 2 ^ k) b) 0x3f ≡ (a * 2 ^ k + b) % 64
middle k a b h = rw (or_shifted k a b h, and_63)

encode_group-sextets :
    (b0 b1 b2 : ℕ)
    → IsByte b1
    → IsByte b2
    → encode_group b0 b1 b2
      ≡ enc (b0 / 4)
        ∷ enc ((b0 * 16 + b1 / 16) % 64)
        ∷ enc ((b1 * 4 + b2 / 64) % 64)
        ∷ enc (b2 % 64)
        ∷ []
unfolding encode_group
encode_group-sextets b0 b1 b2 h1 h2 =
    rw (middle 4 b0 (b1 / 16) (omega arith), middle 2 b1 (b2 / 64) (omega arith), and_63)

encode_two-sextets :
    (b0 b1 : ℕ)
    → IsByte b1
    → encode_two b0 b1
      ≡ enc (b0 / 4) ∷ enc ((b0 * 16 + b1 / 16) % 64) ∷ enc ((b1 * 4) % 64) ∷ pad ∷ []
unfolding encode_two
encode_two-sextets b0 b1 h1 = rw (middle 4 b0 (b1 / 16) (omega arith), and_63)

encode_one-sextets : (b0 : ℕ) → encode_one b0 ≡ enc (b0 / 4) ∷ enc ((b0 * 16) % 64) ∷ pad ∷ pad ∷ []
unfolding encode_one
encode_one-sextets b0 = rw and_63

decode-encode_group :
    (b0 b1 b2 : ℕ) (rest : Bytes)
    → IsByte b0
    → IsByte b1
    → IsByte b2
    → decode_loop (encode_group b0 b1 b2 ++ rest)
      ≡ (decode_loop rest >>= λ tail. ok (b0 ∷ b1 ∷ b2 ∷ tail))
unfolding decode_loop
decode-encode_group b0 b1 b2 rest h0 h1 h2 =
    let i1 = (b0 * 16 + b1 / 16) % 64 in
    let i2 = (b1 * 4 + b2 / 64) % 64 in
    let i3 = b2 % 64 in
    let s2 = table_lem i2 (omega arith) in
    let s3 = table_lem i3 (omega arith) in
    let v = join_sextets (b0 / 4) i1 i2 i3 in
    let e0 : (v / 2 ^ 16) % 256 ≡ b0 = unfold join_sextets in omega arith in
    let e1 : (v / 2 ^ 8) % 256 ≡ b1 = unfold join_sextets in omega arith in
    let e2 : v % 256 ≡ b2 = unfold join_sextets in omega arith in
    rw (encode_group-sextets b0 b1 b2 h1 h2) (
      rw
        (decode_sextets (enc (b0 / 4)) (enc i1) (enc i2) (enc i3) (b0 / 4) i1 i2 i3
          (enc-Sextet (b0 / 4) (omega arith)) (enc-Sextet i1 (omega arith))
          (enc-Sextet i2 (omega arith)) (enc-Sextet i3 (omega arith)))
        (rw (s2.2, s3.2) (rw (e0, e1, e2))))

decode-encode_two :
    (b0 b1 : ℕ) → IsByte b0 → IsByte b1 → decode_loop (encode_two b0 b1) ≡ ok (b0 ∷ b1 ∷ [])
unfolding decode_loop
decode-encode_two b0 b1 h0 h1 =
    let i1 = (b0 * 16 + b1 / 16) % 64 in
    let i2 = (b1 * 4) % 64 in
    let s2 = table_lem i2 (omega arith) in
    let v = join_sextets (b0 / 4) i1 i2 0 in
    let e0 : (v / 2 ^ 16) % 256 ≡ b0 = unfold join_sextets in omega arith in
    let e1 : (v / 2 ^ 8) % 256 ≡ b1 = unfold join_sextets in omega arith in
    rw (encode_two-sextets b0 b1 h1) (
      rw
        (decode_sextets (enc (b0 / 4)) (enc i1) (enc i2) pad (b0 / 4) i1 i2 0
          (enc-Sextet (b0 / 4) (omega arith)) (enc-Sextet i1 (omega arith))
          (enc-Sextet i2 (omega arith)) pad-Sextet)
        (rw s2.2 (rw (e0, e1))))

decode-encode_one : (b0 : ℕ) → IsByte b0 → decode_loop (encode_one b0) ≡ ok (b0 ∷ [])
unfolding decode_loop
decode-encode_one b0 h0 =
    let i1 = (b0 * 16) % 64 in
    let v = join_sextets (b0 / 4) i1 0 0 in
    let e0 : (v / 2 ^ 16) % 256 ≡ b0 = unfold join_sextets in omega arith in
    rw (encode_one-sextets b0) (
      rw
        (decode_sextets (enc (b0 / 4)) (enc i1) pad pad (b0 / 4) i1 0 0
          (enc-Sextet (b0 / 4) (omega arith)) (enc-Sextet i1 (omega arith)) pad-Sextet pad-Sextet)
        (rw e0))

decode_loop-encode : (bs : Bytes) → All IsByte bs → decode_loop (base64_encode bs) ≡ ok bs
unfolding base64_encode
decode_loop-encode [] h = unfold decode_loop in refl
decode_loop-encode (b0 ∷ []) h = decode-encode_one b0 h.0
decode_loop-encode (b0 ∷ b1 ∷ []) h = decode-encode_two b0 b1 h.0 h.1.0
decode_loop-encode (b0 ∷ b1 ∷ b2 ∷ bs) h =
    rw (decode-encode_group b0 b1 b2 (base64_encode bs) h.0 h.1.0 h.1.1.0)
      (rw (decode_loop-encode bs h.1.1.1))

-- The encoded text of `n` bytes has 4 * ⌈n / 3⌉ characters: the size that padding makes up.
pub length-base64_encode : (bs : Bytes) → length (base64_encode bs) ≡ 4 * ((length bs + 2) / 3)
unfolding base64_encode encode_group encode_one encode_two
length-base64_encode [] = omega arith
length-base64_encode (b0 ∷ []) = omega arith
length-base64_encode (b0 ∷ b1 ∷ []) = omega arith
length-base64_encode (b0 ∷ b1 ∷ b2 ∷ bs) = omega (arith, length-base64_encode bs)

pub base64_decode-loop : (s : Bytes) → length s % 4 ≡ 0 → base64_decode s ≡ decode_loop s
unfolding base64_decode
base64_decode-loop [] h = unfold decode_loop in refl
base64_decode-loop (c ∷ cs) h = rw ((==_iff (length (c ∷ cs) % 4) 0).1 h)

-- Decoding what was encoded gives the bytes back, for every sequence of bytes.
pub base64_decode-encode : (bs : Bytes) → All IsByte bs → base64_decode (base64_encode bs) ≡ ok bs
base64_decode-encode bs h =
    base64_decode-loop (base64_encode bs) (omega (arith, length-base64_encode bs))
    ∙ decode_loop-encode bs h
