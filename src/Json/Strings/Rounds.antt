-- ===== src/Json/Strings/Rounds.antt =====
-- Rounds of the loop over a string: over a plain byte, and over each kind of escape that
-- `EscapeString` writes.
use litetvm_ffi.Prelude.{
  ℕ, suc, ◌+◌, ◌*◌, ◌/◌, ◌%◌, ◌<◌, [], ◌∷◌, ◌++◌, Bool, true, false, ◌||◌, ◌≡◌, ◌∙◌, sym, subst,
  refl, arith, Option, some, Bytes, ltb, leb, ◌==◌, ==_iff, lt→ltb, ap, if_cases,
}
use litetvm_ffi.Json.Context.{Cursor, Context, Outcome, done, Reads, put, put_eq, deref, advance}
use litetvm_ffi.Json.Escape.{hex_char, escape_code, escape_byte}
use litetvm_ffi.Json.Strings.{
  below_space, hex_val, hex_loop, parse_4hex, push_utf8, unicode_escape, Round, stop, next,
  escape_round, full_round, after_round, simple_escape,
}

-- A byte that the parser takes as it stands or behind a backslash: on a platform with a signed `char`,
-- an ASCII byte.
abbrev pub IsReadable : Bool → ℕ → Type 0
IsReadable true b = b < 128
IsReadable false b = b < 256

-- A round that went on with `out`, and has `rest` left.
abbrev pub GoesOn : Bytes → Bytes → Round → Type 0
GoesOn out rest (next out' c) = (out' ≡ out) × (c.cur.rest ≡ rest)
GoesOn out rest (stop r) = ⊥

pub hex_val-hex_char : (d : ℕ) → d < 16 → hex_val (hex_char d) ≡ some d
unfolding hex_val
hex_val-hex_char d h = ground arith

pub hex_loop_digit :
    (n result digit : ℕ) (c : Context)
    → hex_val (deref c) ≡ some digit
    → hex_loop (suc n) result c ≡ hex_loop n (result * 16 + digit) (advance c)
unfolding hex_loop
hex_loop_digit n result digit c e = rw (e, hex_loop)

hex_val-zero : hex_val b'0' ≡ some 0
unfolding hex_val
hex_val-zero = refl

parse_4hex-escape_code :
    (b : ℕ) (t : Bytes) (c : Context)
    → b < 128
    → parse_4hex (put (b'0' ∷ b'0' ∷ hex_char (b / 16) ∷ hex_char (b % 16) ∷ t) c)
      ≡ (some b, record c { cur = record { rest = t; offset = c.cur.offset + 1 + 1 + 1 + 1 } })
unfolding parse_4hex
parse_4hex-escape_code b t c h =
    hex_loop_digit 3 0 0 _ hex_val-zero
    ∙ hex_loop_digit 2 (0 * 16 + 0) 0 _ hex_val-zero
    ∙ hex_loop_digit 1 ((0 * 16 + 0) * 16 + 0) (b / 16) _ (hex_val-hex_char (b / 16) (omega arith))
    ∙ hex_loop_digit 0 (((0 * 16 + 0) * 16 + 0) * 16 + b / 16) (b % 16) _
        (hex_val-hex_char (b % 16) (omega arith))
    ∙ (unfold hex_loop in ground arith)

plain_round :
    (signed : Bool) (start : Cursor) (out : Bytes) (b : ℕ) (t : Bytes) (c : Context)
    → below_space signed b ≡ false
    → (b == b'"') ≡ false
    → (b == b'\\') ≡ false
    → GoesOn (out ++ b ∷ []) t (full_round signed start out (put (b ∷ t) c))
unfolding full_round
plain_round signed start out b t c h1 h2 h3 = rw (h1, h2, h3) (refl, refl)

pub backslash_round :
    (signed : Bool) (start : Cursor) (out : Bytes) (t : Bytes) (c : Context)
    → full_round signed start out (put (b'\\' ∷ t) c)
      ≡ escape_round out (advance (put (b'\\' ∷ t) c))
unfolding full_round
backslash_round true start out t c = refl
backslash_round false start out t c = refl

unicode_escape_ascii :
    (b : ℕ) (c c1 : Context)
    → b < 128
    → parse_4hex (advance c) ≡ (some b, c1)
    → unicode_escape c ≡ done b c1
unfolding unicode_escape
unicode_escape_ascii b c c1 h e =
    let low : leb 0xD800 b ≡ false = ground arith in
    rw (e, unicode_escape) (rw low (ap (λ (r : Option ℕ × Context). done b r.1) e))

push_utf8_ascii : (b : ℕ) → b < 128 → push_utf8 b ≡ b ∷ []
unfolding push_utf8
push_utf8_ascii b h = rw (lt→ltb b 128 h)

-- A `\u` escape of an ASCII code.
code_round :
    (out : Bytes) (b : ℕ) (t : Bytes) (c : Context)
    → b < 128
    → GoesOn (out ++ b ∷ []) t (escape_round out (advance (put (escape_code b ++ t) c)))
unfolding escape_round escape_code
code_round out b t c h =
    let c2 = record c { cur = record { rest = []; offset = c.cur.offset + 1 + 1 } } in
    rw
      (
        unicode_escape_ascii b (advance (put (escape_code b ++ t) c)) _ h
            (parse_4hex-escape_code b t c2 h),
        push_utf8_ascii b h,
      )
      (refl, refl)

-- A two-character escape.
simple_round :
    (out : Bytes) (b : ℕ) (c : Context)
    → simple_escape (deref c) ≡ some b
    → escape_round out c ≡ next (out ++ b ∷ []) (advance c)
unfolding escape_round
simple_round out b c e = rw (e, escape_round)

-- What the writer makes of one byte.
pub data Escaped (b : ℕ) : Bytes → Type 0 where
  simple : (x : ℕ) → simple_escape x ≡ some b → Escaped b (b'\\' ∷ x ∷ [])
  coded : b < 128 → Escaped b (escape_code b)
  plain : ltb b 0x20 ≡ false → (b == b'"') ≡ false → (b == b'\\') ≡ false → Escaped b (b ∷ [])

simple_case : (b x y : ℕ) → simple_escape x ≡ some y → (b == y) ≡ true → Escaped b (b'\\' ∷ x ∷ [])
simple_case b x y e same = simple x (e ∙ ap some (sym ((==_iff b y).0 same)))

pub escape_byte-Escaped : (b : ℕ) → Escaped b (escape_byte b)
unfolding escape_byte
escape_byte-Escaped b =
    let P = Escaped b in
    if_cases P (b == b'"') (simple_case b b'"' b'"' refl) λ quote.
      if_cases P (b == b'\\') (simple_case b b'\\' b'\\' refl) λ backslash.
        if_cases P (b == b'/') (simple_case b b'/' b'/' refl) λ _.
          if_cases P (b == 8) (simple_case b b'b' 8 refl) λ _.
            if_cases P (b == 12) (simple_case b b'f' 12 refl) λ _.
              if_cases P (b == 10) (simple_case b b'n' 10 refl) λ _.
                if_cases P (b == 13) (simple_case b b'r' 13 refl) λ _.
                  if_cases P (b == 9) (simple_case b b't' 9 refl) λ _.
                    if_cases P (ltb b 0x20 || b == 0x7f) (λ control. coded (ground arith))
                      (λ printable. plain (ground arith) quote backslash)

pub below_space-readable :
    (signed : Bool) (b : ℕ)
    → IsReadable signed b
    → ltb b 0x20 ≡ false
    → below_space signed b ≡ false
below_space-readable true b h n = ground arith
below_space-readable false b h n = ground arith

code_full_round :
    (signed : Bool) (start : Cursor) (out : Bytes) (b : ℕ) (t : Bytes) (c : Context)
    → full_round signed start out (put (escape_code b ++ t) c)
      ≡ escape_round out (advance (put (escape_code b ++ t) c))
unfolding escape_code
code_full_round signed start out b t c = backslash_round signed start out _ c

-- One byte as it was written takes one round.
pub full_round-Escaped :
    (signed : Bool) (start : Cursor) (out : Bytes) (b : ℕ) {w : Bytes} (t : Bytes) (c : Context)
    → IsReadable signed b
    → Escaped b w
    → GoesOn (out ++ b ∷ []) t (full_round signed start out (put (w ++ t) c))
full_round-Escaped signed start out b t c h (simple x e) =
    rw
      (
        backslash_round signed start out (x ∷ t) c,
        simple_round out b (advance (put (b'\\' ∷ x ∷ t) c)) e,
      )
      (refl, refl)
full_round-Escaped signed start out b t c h (coded small) =
    rw (code_full_round signed start out b t c) (code_round out b t c small)
full_round-Escaped signed start out b t c h (plain n1 n2 n3) =
    plain_round signed start out b t c (below_space-readable signed b h n1) n2 n3

-- What follows a round that goes on.
pub after_round-next :
    (P : Outcome Bytes → Type 0) (r : Round) (go_on : Bytes → Context → Outcome Bytes)
    (out t : Bytes)
    → GoesOn out t r
    → ((c : Context) → P (go_on out (put t c)))
    → P (after_round r go_on)
unfolding after_round
after_round-next P (stop o) go_on out t h k = absurd h
after_round-next P (next out' c) go_on out t h k =
    subst (λ o. P (go_on o c)) (sym h.0) (subst (λ d. P (go_on out d)) (sym (put_eq c h.1)) (k c))

pub after_round-GoesOn :
    (r : Round) (go_on : Bytes → Context → Outcome Bytes) (out t v rest : Bytes)
    → GoesOn out t r
    → ((c : Context) → Reads v rest (go_on out (put t c)))
    → Reads v rest (after_round r go_on)
after_round-GoesOn r go_on out t v rest = after_round-next (Reads v rest) r go_on out t
