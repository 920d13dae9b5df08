-- ===== src/Json/Parser/Progress/Arrays.antt =====
-- `ParseArray` reads on in each round, and ends.
use litetvm_ffi.Prelude.{
  ℕ, zero, suc, ◌<◌, ◌≤◌, List, ◌∷◌, ◌==◌, if_cases, option_cases, arith, Bytes, length,
}
use litetvm_ffi.Map.Assoc.{KeyApi}
use litetvm_ffi.Json.Context.{Context, peek, put}
use litetvm_ffi.Json.Context.Progress.{left, left-advance, left-skip_spaces}
use litetvm_ffi.Json.Parser.{
  Parser, Parsed, skip_next, is_next, array_next, push_value, array_round, array_loop, array_start,
  parse_array,
}
use litetvm_ffi.Json.Value.{Value}
use litetvm_ffi.Json.Parser.Progress.{
  Moves, Moves-mono, bind-Moves, left-skip_next, Goes, Reading, Reading-Goes,
}
use litetvm_ffi.Json.Parser.Steps.{state}

module _ {D : Type 0} (keys : KeyApi Bytes) where
  module _ (parse_value : Parser D → Parsed D) where
    array_next-Moves :
        (top : ℕ) (go_on : Parser D → Parsed D) (q : Parser D) (n : ℕ)
        → left q.ctx < n
        → Goes keys n go_on
        → Moves keys n (array_next parse_value top go_on q)
    unfolding array_next
    array_next-Moves top go_on q n h k =
        if_cases (Moves keys n) (is_next b',' q.ctx)
          (λ _. k (skip_next q) (omega (arith, left-skip_next q, left-advance q.ctx)))
          (λ _.
            if_cases (Moves keys n) (is_next b']' q.ctx) (λ _. omega (arith, left-advance q.ctx))
              (λ _. tt))

    array_round-Moves :
        (top : ℕ) (go_on : Parser D → Parsed D) (p : Parser D) (n : ℕ)
        → Moves keys n (parse_value p)
        → Goes keys n go_on
        → Moves keys n (array_round parse_value top go_on p)
    unfolding array_round
    array_round-Moves top go_on p n h k =
        option_cases (Moves keys n) (peek p.ctx) (λ _. tt)
          (λ x _. bind-Moves keys (parse_value p) _ n h (λ v q less.
            array_next-Moves top go_on (push_value parse_value v q) n
              (omega (arith, left-skip_spaces q.ctx)) k))

    array_loop-Reading :
        (fuel k top : ℕ)
        → Reading keys k parse_value
        → fuel ≤ k
        → Reading keys fuel (array_loop parse_value fuel top)
    unfolding array_loop
    array_loop-Reading zero k top reads le p h = absurd (omega arith)
    array_loop-Reading (suc fuel) k top reads le p h =
        array_round-Moves top (array_loop parse_value fuel top) p (left p.ctx)
          (reads p (omega arith))
          (Reading-Goes keys (left p.ctx) fuel _ (omega arith)
            (array_loop-Reading fuel k top reads (omega arith)))

    array_start-Moves :
        (k top : ℕ) (q : Parser D) (n : ℕ)
        → Reading keys k parse_value
        → left q.ctx < n
        → n ≤ k
        → Moves keys n (array_start parse_value top q)
    unfolding array_start
    array_start-Moves k top q n reads h le =
        option_cases (Moves keys n) (peek q.ctx) (λ _. tt)
          (λ x _.
            if_cases (Moves keys n) (x == b']') (λ _. omega (arith, left-advance q.ctx))
              (λ _.
                Moves-mono keys (left q.ctx) n _ (omega arith) (
                  array_loop-Reading (suc (left q.ctx)) k top reads (omega arith) q (omega arith))))

    pub parse_array-Moves :
        (k x : ℕ) (s : Bytes) (c : Context) (items : List (Value D))
        (entries : List (Value D × Value D))
        → Reading keys k parse_value
        → suc (length s) ≤ k
        → Moves keys
            (suc (length s))
            (parse_array parse_value (state (put (x ∷ s) c) items entries))
    unfolding parse_array
    parse_array-Moves k x s c items entries reads le =
        let p = state (put (x ∷ s) c) items entries in
        array_start-Moves k (length items) (skip_next p) (suc (length s)) reads
          (omega (arith, left-skip_next p)) le
