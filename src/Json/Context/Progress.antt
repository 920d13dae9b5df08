-- ===== src/Json/Context/Progress.antt =====
-- How far the methods of `JSONParserContext` read: a method that returns a result has moved the cursor
-- on, and no method ends but by returning.
use litetvm_ffi.Prelude.{ℕ, suc, ◌<◌, ◌≤◌, [], ◌∷◌, Bool, ◌==◌, if_cases, arith, Bytes, length}
use litetvm_ffi.Json.Context.{
  Context, Outcome, done, failed, check_failed, out_of_fuel, tail, advance, put, is_space,
  skip_space, skip_spaces_loop, skip_spaces, match_literal,
}

-- The bytes that are left to read.
abbrev pub left : Context → ℕ
left c = length c.cur.rest

-- The method returned: with `false`, or with less than `n` bytes left.
abbrev pub Advances : {A : Type 0} → ℕ → Outcome A → Type 0
Advances n (done a c) = left c < n
Advances n (failed c) = Unit
Advances n check_failed = ⊥
Advances n out_of_fuel = ⊥

pub Advances-mono : {A : Type 0} (m n : ℕ) (o : Outcome A) → m ≤ n → Advances m o → Advances n o
Advances-mono m n (done a c) le h = omega arith
Advances-mono m n (failed c) le h = tt
Advances-mono m n check_failed le h = h
Advances-mono m n out_of_fuel le h = h

length-tail : (s : Bytes) → length (tail s) ≤ length s
length-tail [] = omega arith
length-tail (x ∷ s) = omega arith

pub left-advance : (c : Context) → left (advance c) ≤ left c
left-advance c = length-tail c.cur.rest

left-skip_spaces_loop : (s : Bytes) (c : Context) → left (skip_spaces_loop s (put s c)) ≤ length s
unfolding skip_spaces_loop skip_space
left-skip_spaces_loop [] c = omega arith
left-skip_spaces_loop (x ∷ s) c =
    let P : Context → Type 0 = λ d. left d ≤ suc (length s) in
    if_cases P (is_space x)
      (λ _. omega (arith, left-skip_spaces_loop s (skip_space x s (put (x ∷ s) c))))
      (λ _. omega arith)

pub left-skip_spaces : (c : Context) → left (skip_spaces c) ≤ left c
unfolding skip_spaces
left-skip_spaces c = left-skip_spaces_loop c.cur.rest c

pub left-match_literal :
    (pattern s : Bytes) (c : Context) → left (match_literal pattern (put s c)).1 ≤ length s
unfolding match_literal
left-match_literal [] s c = omega arith
left-match_literal (p ∷ ps) [] c = omega arith
left-match_literal (p ∷ ps) (x ∷ s) c =
    let P : Bool × Context → Type 0 = λ r. left r.1 ≤ suc (length s) in
    if_cases P (p == x) (λ _. omega (arith, left-match_literal ps s (advance (put (x ∷ s) c))))
      (λ _. omega arith)
