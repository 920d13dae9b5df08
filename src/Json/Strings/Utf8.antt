-- ===== src/Json/Strings/Utf8.antt =====
-- The bytes that an escape is turned into are the UTF-8 encoding of its code point.
use litetvm_ffi.Prelude.{
  ℕ, ◌+◌, ◌*◌, ◌/◌, ◌%◌, ◌<◌, ◌≤◌, bit_and, bit_or, [], ◌∷◌, ◌≡◌, refl, arith, Bytes, ltb, if_cases,
}
use litetvm_ffi.Prelude.Bits.{or_shifted, and_63}
use litetvm_ffi.Json.Strings.{push_utf8}

-- `s` is the UTF-8 encoding of `code_point`: the shortest of the four forms, with six bits in each
-- continuation byte.
pub data IsUtf8 (code_point : ℕ) (s : Bytes) : Type 0 where
  one : code_point < 0x80 → s ≡ code_point ∷ [] → IsUtf8 code_point s
  two :
      (a b : ℕ)
      → 0x80 ≤ code_point
      → a < 32
      → b < 64
      → code_point ≡ a * 64 + b
      → s ≡ (0xC0 + a) ∷ (0x80 + b) ∷ []
      → IsUtf8 code_point s
  three :
      (a b c : ℕ)
      → 0x800 ≤ code_point
      → a < 16
      → b < 64
      → c < 64
      → code_point ≡ (a * 64 + b) * 64 + c
      → s ≡ (0xE0 + a) ∷ (0x80 + b) ∷ (0x80 + c) ∷ []
      → IsUtf8 code_point s
  four :
      (a b c d : ℕ)
      → 0x10000 ≤ code_point
      → a < 8
      → b < 64
      → c < 64
      → d < 64
      → code_point ≡ ((a * 64 + b) * 64 + c) * 64 + d
      → s ≡ (0xF0 + a) ∷ (0x80 + b) ∷ (0x80 + c) ∷ (0x80 + d) ∷ []
      → IsUtf8 code_point s

continuation : (x : ℕ) → bit_or 0x80 (bit_and x 0x3F) ≡ 0x80 + x % 64
continuation x = rw (and_63 x) (or_shifted 6 2 (x % 64) (omega arith))

-- The encoding is right for every code point that three bytes of six bits and one of three can hold.
pub push_utf8-IsUtf8 :
    (code_point : ℕ) → code_point < 0x200000 → IsUtf8 code_point (push_utf8 code_point)
unfolding push_utf8
push_utf8-IsUtf8 n h =
    if_cases (IsUtf8 n) (ltb n 0x80) (λ l. one (ground arith) refl)
      (λ l1.
        if_cases (IsUtf8 n) (ltb n 0x800)
          (λ l.
            two (n / 64) (n % 64) (ground arith) (ground arith) (omega arith) (omega arith)
              (rw (or_shifted 5 6 (n / 64) (ground arith), continuation n)))
          (λ l2.
            if_cases (IsUtf8 n) (ltb n 0x10000)
              (λ l.
                three (n / 4096) (n / 64 % 64) (n % 64) (ground arith) (ground arith) (omega arith)
                  (omega arith) (omega arith)
                  (rw (
                    or_shifted 4 14 (n / 4096) (ground arith),
                    continuation (n / 64),
                    continuation n,
                  )))
              (λ l.
                four (n / 262144) (n / 4096 % 64) (n / 64 % 64) (n % 64) (ground arith)
                  (omega arith) (omega arith) (omega arith) (omega arith) (omega arith)
                  (rw (
                    or_shifted 3 30 (n / 262144) (omega arith),
                    continuation (n / 4096),
                    continuation (n / 64),
                    continuation n,
                  )))))
