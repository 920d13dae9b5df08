-- ===== src/Json/Strings/RoundTrip.antt =====
-- The parser's `NextString` reads back what `EscapeString` wrote.
use litetvm_ffi.Prelude.{
  ℕ, zero, suc, ◌<◌, ◌≤◌, [], ◌∷◌, ◌++◌, Bool, true, false, ◌≡◌, sym, refl, arith, Bytes, All,
  length, ◌==◌, length-append, append-nil, append_assoc,
}
use litetvm_ffi.Json.Context.{Cursor, Context, Reads, put, advance}
use litetvm_ffi.Json.Escape.{escape_code, escape_byte, escape_bytes, escape_string}
use litetvm_ffi.Json.Strings.{
  below_space, full_round, after_round, full_loop, next_string_with_full_handling, simple_loop,
  next_string,
}
use litetvm_ffi.Json.Strings.Rounds.{
  IsReadable, full_round-Escaped, after_round-GoesOn, Escaped, simple, coded, plain,
  escape_byte-Escaped, below_space-readable,
}

-- The loop over a whole escaped text.
full_loop-escape_bytes :
    (s : Bytes) (fuel : ℕ) (signed : Bool) (start : Cursor) (out rest : Bytes) (c : Context)
    → All (IsReadable signed) s
    → length s < fuel
    → Reads
        (out ++ s)
        rest
        (full_loop fuel signed start out (put (escape_bytes s ++ b'"' ∷ rest) c))
full_loop-escape_bytes s zero signed start out rest c h enough = absurd (omega arith)
full_loop-escape_bytes [] (suc fuel) true start out rest c h enough =
    unfold full_loop full_round after_round escape_bytes in (sym (append-nil out), refl)
full_loop-escape_bytes [] (suc fuel) false start out rest c h enough =
    unfold full_loop full_round after_round escape_bytes in (sym (append-nil out), refl)
full_loop-escape_bytes (b ∷ s) (suc fuel) signed start out rest c h enough =
    step (λ d. full_loop-escape_bytes s fuel signed start (out ++ b ∷ []) rest d h.1 (omega arith))
  where
    step :
        ((d : Context)
          → Reads
              ((out ++ b ∷ []) ++ s)
              rest
              (full_loop fuel signed start (out ++ b ∷ []) (put (escape_bytes s ++ b'"' ∷ rest) d)))
        → Reads
            (out ++ b ∷ s)
            rest
            (full_loop (suc fuel) signed start out (put (escape_bytes (b ∷ s) ++ b'"' ∷ rest) c))
    step later =
        unfold full_loop escape_bytes in
        rw
          (
            append_assoc (escape_byte b) (escape_bytes s) (b'"' ∷ rest),
            ← append_assoc out (b ∷ []) s,
          )
          (after_round-GoesOn _ (full_loop fuel signed start) (out ++ b ∷ []) _ _ rest
            (full_round-Escaped signed start out b _ c h.0 (escape_byte-Escaped b)) later)

length-Escaped : {b : ℕ} {w : Bytes} → Escaped b w → 0 < length w
unfolding escape_code
length-Escaped (simple x e) = omega arith
length-Escaped (coded h) = omega arith
length-Escaped (plain h k l) = omega arith

pub length-escape_bytes : (s : Bytes) → length s ≤ length (escape_bytes s)
unfolding escape_bytes
length-escape_bytes [] = omega arith
length-escape_bytes (b ∷ s) = omega (
  arith,
  length-append (escape_byte b) (escape_bytes s),
  length-Escaped (escape_byte-Escaped b),
  length-escape_bytes s,
)

-- From the first backslash on the full handling takes over, and it reads the rest.
handling-escape_bytes :
    (s : Bytes) (signed : Bool) (start : Cursor) (seen rest : Bytes) (c : Context)
    → All (IsReadable signed) s
    → Reads
        (seen ++ s)
        rest
        (next_string_with_full_handling signed start seen (put (escape_bytes s ++ b'"' ∷ rest) c))
unfolding next_string_with_full_handling
handling-escape_bytes s signed start seen rest c h =
    full_loop-escape_bytes s _ signed start seen rest c h
      (omega (arith, length-append (escape_bytes s) (b'"' ∷ rest), length-escape_bytes s))

pub simple_loop_backslash :
    (s : Bytes) (signed : Bool) (start : Cursor) (seen : Bytes) (c : Context)
    → simple_loop (b'\\' ∷ s) signed start seen c
      ≡ next_string_with_full_handling signed start seen c
unfolding simple_loop
simple_loop_backslash s true start seen c = refl
simple_loop_backslash s false start seen c = refl

pub simple_loop_plain :
    (b : ℕ) (s : Bytes) (signed : Bool) (start : Cursor) (seen : Bytes) (c : Context)
    → below_space signed b ≡ false
    → (b == b'"') ≡ false
    → (b == b'\\') ≡ false
    → simple_loop (b ∷ s) signed start seen c
      ≡ simple_loop s signed start (seen ++ b ∷ []) (advance c)
unfolding simple_loop
simple_loop_plain b s signed start seen c h1 h2 h3 = rw (h2, h1, h3)

-- The first loop of `NextString`: over plain bytes, up to a backslash or the closing quote.
simple_loop-Escaped :
    (b : ℕ) (s : Bytes) {w : Bytes} (signed : Bool) (start : Cursor) (seen rest : Bytes)
    (c : Context)
    → IsReadable signed b
    → Escaped b w
    → let t = w ++ (escape_bytes s ++ b'"' ∷ rest) in
      Reads (seen ++ b ∷ s) rest (next_string_with_full_handling signed start seen (put t c))
      → ((d : Context)
          → Reads ((seen ++ b ∷ []) ++ s) rest (
              simple_loop
                (escape_bytes s ++ b'"' ∷ rest)
                signed
                start
                (seen ++ b ∷ [])
                (put (escape_bytes s ++ b'"' ∷ rest) d)))
      → Reads (seen ++ b ∷ s) rest (simple_loop t signed start seen (put t c))
simple_loop-Escaped b s signed start seen rest c h (simple x e) full later =
    rw (simple_loop_backslash _ signed start seen _) full
simple_loop-Escaped b s signed start seen rest c h (coded small) full later =
    unfold escape_code in rw (simple_loop_backslash _ signed start seen _) full
simple_loop-Escaped b s signed start seen rest c h (plain n1 n2 n3) full later =
    rw
      (
        simple_loop_plain b _ signed start seen _ (below_space-readable signed b h n1) n2 n3,
        ← append_assoc seen (b ∷ []) s,
      )
      (later (advance (put (b ∷ []) c)))

simple_loop-escape_bytes :
    (s : Bytes) (signed : Bool) (start : Cursor) (seen rest : Bytes) (c : Context)
    → All (IsReadable signed) s
    → let t = escape_bytes s ++ b'"' ∷ rest in
      Reads (seen ++ s) rest (simple_loop t signed start seen (put t c))
unfolding escape_bytes
simple_loop-escape_bytes [] signed start seen rest c h =
    unfold simple_loop in (sym (append-nil seen), refl)
simple_loop-escape_bytes (b ∷ s) signed start seen rest c h =
    rw (append_assoc (escape_byte b) (escape_bytes s) (b'"' ∷ rest)) (
      simple_loop-Escaped b s signed start seen rest c h.0 (escape_byte-Escaped b)
        (rw (append_assoc (escape_byte b) (escape_bytes s) (b'"' ∷ rest)) at
          (handling-escape_bytes (b ∷ s) signed start seen rest c h))
        (λ d. simple_loop-escape_bytes s signed start (seen ++ b ∷ []) rest d h.1))

-- `NextString` reads a string of readable bytes that `EscapeString` wrote, and stops right behind its
-- closing quote.
pub next_string-escape_string :
    (signed : Bool) (s rest : Bytes) (c : Context)
    → All (IsReadable signed) s
    → Reads s rest (next_string signed (put (escape_string s ++ rest) c))
unfolding next_string escape_string
next_string-escape_string signed s rest c h =
    rw (append_assoc (escape_bytes s) (b'"' ∷ []) rest)
      (simple_loop-escape_bytes s signed _ [] rest (advance (put (b'"' ∷ []) c)) h)
