-- ===== src/Json/Strings/Progress.antt =====
-- `NextString` reads at least its opening quote, or returns `false`: its loops end.
use litetvm_ffi.Prelude.{
  ℕ, zero, suc, ◌+◌, ◌*◌, ◌<◌, ◌≤◌, [], ◌∷◌, ◌++◌, Bool, true, ◌&&◌, ◌||◌, ◌==◌, Option-cases, inl,
  inr, leb, if_cases, option_cases, ◌≡◌, arith, Bytes, codes, length,
}
use litetvm_ffi.Json.Context.{
  Cursor, Context, Outcome, done, failed, check_failed, out_of_fuel, advance, put, match_literal,
  deref,
}
use litetvm_ffi.Json.Context.Progress.{
  left, Advances, Advances-mono, left-advance, left-match_literal,
}
use litetvm_ffi.Json.Strings.{
  below_space, hex_val, hex_loop, parse_4hex, push_utf8, second_surrogate, unicode_escape,
  simple_escape, Round, stop, next, escape_round, full_round, after_round, full_loop,
  next_string_with_full_handling, simple_loop, next_string,
}

left-hex_loop : (n result : ℕ) (c : Context) → left (hex_loop n result c).1 ≤ left c
unfolding hex_loop
left-hex_loop zero result c = omega arith
left-hex_loop (suc n) result c = elim (Option-cases (hex_val (deref c))) [
  | inl e ↦ rw (e, hex_loop) (omega arith)
  | inr (digit, e) ↦
      rw (e, hex_loop)
        (omega (arith, left-hex_loop n (result * 16 + digit) (advance c), left-advance c))
]

left-parse_4hex : (c : Context) → left (parse_4hex c).1 ≤ left c
unfolding parse_4hex
left-parse_4hex c = left-hex_loop 4 0 c

second_surrogate-Advances :
    (first : ℕ) (pos : Cursor) (c : Context) (n : ℕ)
    → left c < n
    → Advances n (second_surrogate first pos c)
unfolding second_surrogate
second_surrogate-Advances first pos c n h =
    let m = match_literal (codes "\\u") c in
    let P : Outcome ℕ → Type 0 = Advances n in
    if_cases P m.0
      (λ _.
        option_cases P (parse_4hex m.1).0 (λ _. tt)
          (λ second _.
            if_cases P (leb 0xDC00 second && leb second 0xDFFF)
              (λ _.
                omega (arith, left-parse_4hex m.1, left-match_literal (codes "\\u") c.cur.rest c))
              (λ _. tt)))
      (λ _. tt)

unicode_escape-Advances : (c : Context) (n : ℕ) → left c < n → Advances n (unicode_escape c)
unfolding unicode_escape
unicode_escape-Advances c n h =
    let P : Outcome ℕ → Type 0 = Advances n in
    let fewer : left (parse_4hex (advance c)).1 < n =
      omega (arith, left-parse_4hex (advance c), left-advance c) in
    option_cases P (parse_4hex (advance c)).0 (λ _. tt)
      (λ first _.
        if_cases P (leb 0xD800 first && leb first 0xDFFF)
          (λ _.
            if_cases P (leb 0xDC00 first) (λ _. tt)
              (λ _. second_surrogate-Advances first c.cur (parse_4hex (advance c)).1 n fewer))
          (λ _. fewer))

-- A round ended, with a string or with the string so far only where less than `n` bytes are left.
Settles : ℕ → Round → Type 0
Settles n (stop r) = Advances n r
Settles n (next out c) = left c < n

unicode_round-Settles :
    (out : Bytes) (r : Outcome ℕ) (n : ℕ)
    → Advances n r
    → Settles n (elim r [
      | done code_point c1 ↦ next (out ++ push_utf8 code_point) c1
      | failed c1 ↦ stop (failed c1)
      | check_failed ↦ stop check_failed
      | out_of_fuel ↦ stop out_of_fuel
    ])
unfolding Settles
unicode_round-Settles out (done code_point c) n h = h
unicode_round-Settles out (failed c) n h = tt
unicode_round-Settles out check_failed n h = h
unicode_round-Settles out out_of_fuel n h = h

escape_round-Settles :
    (out : Bytes) (c : Context) (n : ℕ) → left c < n → Settles n (escape_round out c)
unfolding escape_round Settles
escape_round-Settles out c n h =
    option_cases (Settles n) (simple_escape (deref c))
      (λ _.
        if_cases (Settles n) (deref c == b'u')
          (λ _. unicode_round-Settles out (unicode_escape c) n (unicode_escape-Advances c n h))
          (λ _. tt))
      (λ x _. omega (arith, left-advance c))

full_round-Settles :
    (signed : Bool) (start : Cursor) (out s : Bytes) (c : Context)
    → Settles (length s) (full_round signed start out (put s c))
unfolding full_round Settles
full_round-Settles signed start out [] c = tt
full_round-Settles signed start out (x ∷ s) c =
    let d = put (x ∷ s) c in
    let P = Settles (suc (length s)) in
    if_cases P (below_space signed x) (λ _. tt)
      (λ _.
        if_cases P (x == b'"') (λ _. omega arith)
          (λ _.
            if_cases P (x == b'\\') (λ _. escape_round-Settles out (advance d) _ (omega arith))
              (λ _. omega arith)))

after_round-Advances :
    (r : Round) (go_on : Bytes → Context → Outcome Bytes) (n : ℕ)
    → Settles n r
    → ((out : Bytes) (c : Context) → left c < n → Advances (left c) (go_on out c))
    → Advances n (after_round r go_on)
unfolding after_round Settles
after_round-Advances (stop r) go_on n h k = h
after_round-Advances (next out c) go_on n h k =
    Advances-mono (left c) n (go_on out c) (omega arith) (k out c h)

full_loop-Advances :
    (fuel : ℕ) (signed : Bool) (start : Cursor) (out : Bytes) (c : Context)
    → left c < fuel
    → Advances (left c) (full_loop fuel signed start out c)
unfolding full_loop
full_loop-Advances zero signed start out c h = absurd (omega arith)
full_loop-Advances (suc fuel) signed start out c h =
    after_round-Advances (full_round signed start out c) (full_loop fuel signed start) (left c)
      (full_round-Settles signed start out c.cur.rest c)
      (λ out' c' less. full_loop-Advances fuel signed start out' c' (omega arith))

handling-Advances :
    (signed : Bool) (start : Cursor) (out : Bytes) (c : Context)
    → Advances (left c) (next_string_with_full_handling signed start out c)
unfolding next_string_with_full_handling
handling-Advances signed start out c =
    full_loop-Advances (suc (left c)) signed start out c (omega arith)

simple_loop-Advances :
    (s : Bytes) (signed : Bool) (start : Cursor) (seen : Bytes) (c : Context)
    → Advances (length s) (simple_loop s signed start seen (put s c))
unfolding simple_loop
simple_loop-Advances [] signed start seen c = tt
simple_loop-Advances (x ∷ s) signed start seen c =
    let d = put (x ∷ s) c in
    let P : Outcome Bytes → Type 0 = Advances (suc (length s)) in
    if_cases P (x == b'"') (λ _. omega arith)
      (λ _.
        if_cases P (below_space signed x || x == b'\\') (λ _. handling-Advances signed start seen d)
          (λ _.
            Advances-mono (length s) _ _ (omega arith)
              (simple_loop-Advances s signed start (seen ++ x ∷ []) (advance d))))

-- A string is at least one byte, and where there is an opening quote the method returns.
pub next_string-Advances :
    (signed : Bool) (x : ℕ) (s : Bytes) (c : Context)
    → (x == b'"') ≡ true
    → Advances (suc (length s)) (next_string signed (put (x ∷ s) c))
unfolding next_string
next_string-Advances signed x s c quote = rw quote (
    Advances-mono (length s) _ _ (omega arith)
      (simple_loop-Advances s signed _ [] (advance (put (x ∷ s) c))))
