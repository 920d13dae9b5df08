-- ===== src/Base64/Bounds.antt =====
-- What the decoder does on any text: the size check, reads inside and behind the table, and the
-- size of the result.
use litetvm_ffi.Prelude.{
  ℕ, ◌+◌, ◌*◌, ◌/◌, ◌%◌, ◌≤◌, ◌<◌, [], ◌∷◌, ◌++◌, ◌≡◌, ◌≢◌, ◌↔◌, ◌⊎◌, inl, inr, ◌∙◌, sym, refl,
  arith, Bytes, All, length, length-append, lt→ltb,
}
use litetvm_ffi.Base64.{
  Decoded, ok, invalid_encoding, table_overrun, ◌>>=◌, in_table, decode_group, decode_loop,
  base64_decode,
}
use litetvm_ffi.Base64.RoundTrip.{base64_decode-loop}

-- A character that the decode table has an entry for: its 123 entries end at 'z'.
abbrev pub InTable : ℕ → Type 0
InTable c = c < 123

-- The decoder returned, with `n` bytes at most.
abbrev pub ReturnsWithin : ℕ → Decoded → Type 0
ReturnsWithin n (ok out) = length out ≤ n
ReturnsWithin n invalid_encoding = ⊥
ReturnsWithin n table_overrun = ⊥

decode_group-ReturnsWithin :
    (c0 c1 c2 c3 : ℕ)
    → InTable c0
    → InTable c1
    → InTable c2
    → InTable c3
    → ReturnsWithin 3 (decode_group c0 c1 c2 c3)
unfolding decode_group in_table
decode_group-ReturnsWithin c0 c1 c2 c3 h0 h1 h2 h3 =
    rw (lt→ltb c0 123 h0, lt→ltb c1 123 h1, lt→ltb c2 123 h2, lt→ltb c3 123 h3) (ground arith)

join-ReturnsWithin :
    (d e : Decoded) (m n : ℕ)
    → ReturnsWithin m d
    → ReturnsWithin n e
    → ReturnsWithin (m + n) (d >>= λ out. e >>= λ tail. ok (out ++ tail))
join-ReturnsWithin (ok out) (ok tail) m n h k = omega (arith, length-append out tail)
join-ReturnsWithin (ok out) invalid_encoding m n h k = k
join-ReturnsWithin (ok out) table_overrun m n h k = k
join-ReturnsWithin invalid_encoding e m n h k = absurd h
join-ReturnsWithin table_overrun e m n h k = absurd h

grow-ReturnsWithin : (d : Decoded) (m n : ℕ) → m ≤ n → ReturnsWithin m d → ReturnsWithin n d
grow-ReturnsWithin (ok out) m n le h = omega arith
grow-ReturnsWithin invalid_encoding m n le h = h
grow-ReturnsWithin table_overrun m n le h = h

decode_loop-ReturnsWithin :
    (s : Bytes) → All InTable s → ReturnsWithin (length s / 4 * 3) (decode_loop s)
unfolding decode_loop
decode_loop-ReturnsWithin (c0 ∷ c1 ∷ c2 ∷ c3 ∷ s) h =
    grow-ReturnsWithin _ (3 + length s / 4 * 3) _ (omega arith) (
      join-ReturnsWithin (decode_group c0 c1 c2 c3) (decode_loop s) 3 (length s / 4 * 3)
        (decode_group-ReturnsWithin c0 c1 c2 c3 h.0 h.1.0 h.1.1.0 h.1.1.1.0)
        (decode_loop-ReturnsWithin s h.1.1.1.1))
decode_loop-ReturnsWithin _ h = omega arith

-- A text of characters up to 'z' is decoded, with three bytes for each group at most, if its size is
-- a multiple of four.
pub base64_decode-ReturnsWithin :
    (s : Bytes)
    → All InTable s
    → length s % 4 ≡ 0
    → ReturnsWithin (length s / 4 * 3) (base64_decode s)
base64_decode-ReturnsWithin s h whole =
    rw (base64_decode-loop s whole) (decode_loop-ReturnsWithin s h)

decode_group-ne-invalid : (c0 c1 c2 c3 : ℕ) → decode_group c0 c1 c2 c3 ≢ invalid_encoding
unfolding decode_group
decode_group-ne-invalid c0 c1 c2 c3 = ground arith

join-ne-invalid :
    (d e : Decoded)
    → d ≢ invalid_encoding
    → e ≢ invalid_encoding
    → (d >>= λ out. e >>= λ tail. ok (out ++ tail)) ≢ invalid_encoding
join-ne-invalid (ok out) (ok tail) h k = ground arith
join-ne-invalid (ok out) invalid_encoding h k = k
join-ne-invalid (ok out) table_overrun h k = k
join-ne-invalid invalid_encoding e h k = h
join-ne-invalid table_overrun e h k = h

decode_loop-ne-invalid : (s : Bytes) → decode_loop s ≢ invalid_encoding
unfolding decode_loop
decode_loop-ne-invalid (c0 ∷ c1 ∷ c2 ∷ c3 ∷ s) =
    join-ne-invalid (decode_group c0 c1 c2 c3) (decode_loop s) (decode_group-ne-invalid c0 c1 c2 c3)
      (decode_loop-ne-invalid s)
decode_loop-ne-invalid _ = ground arith

base64_decode-refuses : (s : Bytes) → length s % 4 ≢ 0 → base64_decode s ≡ invalid_encoding
unfolding base64_decode
base64_decode-refuses [] h = absurd (omega arith)
base64_decode-refuses (c ∷ s) h = ground arith

-- A text is refused exactly if its size is no multiple of four.
pub base64_decode_refuses_iff :
    (s : Bytes) → (base64_decode s ≡ invalid_encoding) ↔ (length s % 4 ≢ 0)
base64_decode_refuses_iff s = (
  λ e whole. decode_loop-ne-invalid s (sym (base64_decode-loop s whole) ∙ e),
  base64_decode-refuses s,
)

-- Some character has no entry in the decode table.
abbrev pub Exceeds : Bytes → Type 0
Exceeds [] = ⊥
Exceeds (c ∷ s) = (123 ≤ c) ⊎ Exceeds s

-- The first group of a text with such a character has one, or the rest of the text has.
decode_group-overrun :
    (c0 c1 c2 c3 : ℕ) → Exceeds (c0 ∷ c1 ∷ c2 ∷ c3 ∷ []) → decode_group c0 c1 c2 c3 ≡ table_overrun
unfolding decode_group in_table
decode_group-overrun c0 c1 c2 c3 (inl h) = ground arith
decode_group-overrun c0 c1 c2 c3 (inr (inl h)) = ground arith
decode_group-overrun c0 c1 c2 c3 (inr (inr (inl h))) = ground arith
decode_group-overrun c0 c1 c2 c3 (inr (inr (inr (inl h)))) = ground arith
decode_group-overrun c0 c1 c2 c3 (inr (inr (inr (inr h)))) = absurd h

split_group :
    (c0 c1 c2 c3 : ℕ) (s : Bytes)
    → Exceeds (c0 ∷ c1 ∷ c2 ∷ c3 ∷ s)
    → Exceeds (c0 ∷ c1 ∷ c2 ∷ c3 ∷ []) ⊎ Exceeds s
split_group c0 c1 c2 c3 s (inl h) = inl (inl h)
split_group c0 c1 c2 c3 s (inr (inl h)) = inl (inr (inl h))
split_group c0 c1 c2 c3 s (inr (inr (inl h))) = inl (inr (inr (inl h)))
split_group c0 c1 c2 c3 s (inr (inr (inr (inl h)))) = inl (inr (inr (inr (inl h))))
split_group c0 c1 c2 c3 s (inr (inr (inr (inr h)))) = inr h

join-overrun :
    (d e : Decoded)
    → d ≢ invalid_encoding
    → (d ≡ table_overrun) ⊎ (e ≡ table_overrun)
    → (d >>= λ out. e >>= λ tail. ok (out ++ tail)) ≡ table_overrun
join-overrun (ok out) e n (inl h) = cc
join-overrun (ok out) e n (inr h) = rw h
join-overrun invalid_encoding e n h = absurd (n refl)
join-overrun table_overrun e n h = refl

decode_loop-overrun : (s : Bytes) → length s % 4 ≡ 0 → Exceeds s → decode_loop s ≡ table_overrun
unfolding decode_loop
decode_loop-overrun [] whole h = absurd h
decode_loop-overrun (c0 ∷ []) whole h = absurd (omega arith)
decode_loop-overrun (c0 ∷ c1 ∷ []) whole h = absurd (omega arith)
decode_loop-overrun (c0 ∷ c1 ∷ c2 ∷ []) whole h = absurd (omega arith)
decode_loop-overrun (c0 ∷ c1 ∷ c2 ∷ c3 ∷ s) whole h =
    join-overrun (decode_group c0 c1 c2 c3) (decode_loop s) (decode_group-ne-invalid c0 c1 c2 c3)
      (elim (split_group c0 c1 c2 c3 s h) [
        | inl k ↦ inl (decode_group-overrun c0 c1 c2 c3 k)
        | inr k ↦ inr (decode_loop-overrun s (omega arith) k)
      ])

-- In a text of a good size, one character without an entry in the table makes the decoder read behind
-- the table.
pub base64_decode-overrun :
    (s : Bytes) → length s % 4 ≡ 0 → Exceeds s → base64_decode s ≡ table_overrun
base64_decode-overrun s whole h = base64_decode-loop s whole ∙ decode_loop-overrun s whole h
