-- ===== src/Json/Strings/Signed.antt =====
-- Where a `char` is signed, a byte from 0x80 on is less than a space, and a string with one is refused.
use litetvm_ffi.Prelude.{
  ℕ, zero, suc, ◌<◌, ◌≤◌, [], ◌∷◌, ◌++◌, true, false, ◌≡◌, refl, arith, Bytes, All, length,
  length-append, append_assoc, ◌==◌, ◌||◌,
}
use litetvm_ffi.Json.Context.{
  Cursor, Context, Outcome, failed, put, advance, set_error, invalid_control_character,
}
use litetvm_ffi.Json.Escape.{escape_code}
use litetvm_ffi.Json.Strings.{
  below_space, stop, full_round, after_round, full_loop, next_string_with_full_handling,
  simple_loop, next_string,
}
use litetvm_ffi.Json.Strings.Rounds.{
  IsReadable, Escaped, simple, coded, plain, below_space-readable, full_round-Escaped,
  after_round-next,
}
use litetvm_ffi.Json.Strings.RoundTrip.{simple_loop_backslash, simple_loop_plain}

-- The method returned `false` with the message on a control character, before the bytes `t`.
abbrev pub RefusesAt : {A : Type 0} → Bytes → Outcome A → Type 0
RefusesAt {A} t o = (c : Context) × (o ≡ failed (set_error invalid_control_character (put t c)))

high_round :
    (start : Cursor) (out : Bytes) (b : ℕ) (t : Bytes) (c : Context)
    → 0x80 ≤ b
    → full_round true start out (put (b ∷ t) c)
      ≡ stop (failed (set_error invalid_control_character (put (b ∷ t) c)))
unfolding full_round
high_round start out b t c h = let below : below_space true b ≡ true = ground arith in rw below

-- The text `w` spells the bytes `s`: each as it stands, by a backslash and a letter, or by `\u00` and two
-- digits. A quote, a backslash and a control character do not stand for themselves.
pub data IsSpelled : Bytes → Bytes → Type 0 where
  nothing : IsSpelled [] []
  piece : {x : ℕ} {s w u : Bytes} → Escaped x w → IsSpelled s u → IsSpelled (x ∷ s) (w ++ u)

length-Escaped : (x : ℕ) {w : Bytes} → Escaped x w → 1 ≤ length w
length-Escaped x (simple y e) = omega arith
length-Escaped x (coded small) = unfold escape_code in omega arith
length-Escaped x (plain n1 n2 n3) = omega arith

length-IsSpelled : (s w : Bytes) → IsSpelled s w → length s ≤ length w
length-IsSpelled s w nothing = omega arith
length-IsSpelled s w (piece {x = x} {s = s'} {w = v} {u = u} e h) =
    omega (arith, length-append v u, length-Escaped x e, length-IsSpelled s' u h)

full_loop-RefusesAt :
    (s w : Bytes) (fuel : ℕ) (start : Cursor) (out : Bytes) (b : ℕ) (t : Bytes) (c : Context)
    → IsSpelled s w
    → All (IsReadable true) s
    → 0x80 ≤ b
    → length s < fuel
    → RefusesAt (b ∷ t) (full_loop fuel true start out (put (w ++ b ∷ t) c))
unfolding full_loop
full_loop-RefusesAt s w zero start out b t c spelled h high enough = absurd (omega arith)
full_loop-RefusesAt s w (suc fuel) start out b t c nothing h high enough =
    unfold after_round in rw (high_round start out b t c high) (c, refl)
full_loop-RefusesAt s w (suc fuel) start out b t c
      (piece {x = x} {s = s'} {w = v} {u = u} e spelled) h high enough =
    let later : (d : Context)
        → RefusesAt (b ∷ t) (full_loop fuel true start (out ++ x ∷ []) (put (u ++ b ∷ t) d)) =
      λ d.
        full_loop-RefusesAt s' u fuel start (out ++ x ∷ []) b t d spelled h.1 high (omega arith) in
    rw (append_assoc v u (b ∷ t)) (
      after_round-next (RefusesAt (b ∷ t)) _ (full_loop fuel true start) (out ++ x ∷ []) _
        (full_round-Escaped true start out x _ c h.0 e) later)

handling-RefusesAt :
    (s w : Bytes) (start : Cursor) (seen : Bytes) (b : ℕ) (t : Bytes) (c : Context)
    → IsSpelled s w
    → All (IsReadable true) s
    → 0x80 ≤ b
    → RefusesAt (b ∷ t) (next_string_with_full_handling true start seen (put (w ++ b ∷ t) c))
unfolding next_string_with_full_handling
handling-RefusesAt s w start seen b t c spelled h high =
    full_loop-RefusesAt s w _ start seen b t c spelled h high
      (omega (arith, length-append w (b ∷ t), length-IsSpelled s w spelled))

simple_loop_high :
    (b : ℕ) (t : Bytes) (start : Cursor) (seen : Bytes) (c : Context)
    → 0x80 ≤ b
    → simple_loop (b ∷ t) true start seen c ≡ next_string_with_full_handling true start seen c
unfolding simple_loop
simple_loop_high b t start seen c h =
    let quote : (b == b'"') ≡ false = ground arith in
    let stops : (below_space true b || b == b'\\') ≡ true = ground arith in rw (quote, stops)

simple_loop-Escaped-RefusesAt :
    (x : ℕ) (s : Bytes) {w : Bytes} (start : Cursor) (seen t : Bytes) (c : Context) (u : Bytes)
    → IsReadable true x
    → Escaped x w
    → RefusesAt u (next_string_with_full_handling true start seen (put (w ++ t) c))
    → ((d : Context) → RefusesAt u (simple_loop t true start (seen ++ x ∷ []) (put t d)))
    → RefusesAt u (simple_loop (w ++ t) true start seen (put (w ++ t) c))
simple_loop-Escaped-RefusesAt x s start seen t c u h (simple y e) full later =
    rw (simple_loop_backslash (y ∷ t) true start seen (put (b'\\' ∷ y ∷ t) c)) full
simple_loop-Escaped-RefusesAt x s start seen t c u h (coded small) full later =
    unfold escape_code in rw (simple_loop_backslash _ true start seen _) full
simple_loop-Escaped-RefusesAt x s start seen t c u h (plain n1 n2 n3) full later =
    rw (simple_loop_plain x t true start seen _ (below_space-readable true x h n1) n2 n3)
      (later (advance (put (x ∷ []) c)))

simple_loop-RefusesAt :
    (s w : Bytes) (start : Cursor) (seen : Bytes) (b : ℕ) (t : Bytes) (c : Context)
    → IsSpelled s w
    → All (IsReadable true) s
    → 0x80 ≤ b
    → let v = w ++ b ∷ t in RefusesAt (b ∷ t) (simple_loop v true start seen (put v c))
simple_loop-RefusesAt s w start seen b t c nothing h high =
    rw (simple_loop_high b t start seen (put (b ∷ t) c) high)
      (handling-RefusesAt [] [] start seen b t c nothing tt high)
simple_loop-RefusesAt s w start seen b t c (piece {x = x} {s = s'} {w = v} {u = u} e spelled) h
      high =
    let later =
      λ (d : Context). simple_loop-RefusesAt s' u start (seen ++ x ∷ []) b t d spelled h.1 high in
    let full = handling-RefusesAt s w start seen b t c (piece e spelled) h high in
    rw (append_assoc v u (b ∷ t)) (
      simple_loop-Escaped-RefusesAt x s' start seen (u ++ b ∷ t) c (b ∷ t) h.0 e
        (rw (append_assoc v u (b ∷ t)) at full) later)

-- On a platform with a signed `char`, `NextString` refuses a string in which a byte from 0x80 on stands
-- as it is, behind ASCII bytes of which each stands as it is too, by a backslash and a letter, or by
-- `\u00` and two lower-case digits: the method returns `false`, at that byte, with the message on a
-- control character.
pub next_string-RefusesAt :
    (s w : Bytes) (b : ℕ) (t : Bytes) (c : Context)
    → IsSpelled s w
    → All (IsReadable true) s
    → 0x80 ≤ b
    → RefusesAt (b ∷ t) (next_string true (put (b'"' ∷ (w ++ b ∷ t)) c))
unfolding next_string
next_string-RefusesAt s w b t c spelled h high =
    simple_loop-RefusesAt s w _ [] b t (advance (put (b'"' ∷ []) c)) spelled h high
