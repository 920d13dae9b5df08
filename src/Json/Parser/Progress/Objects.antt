-- ===== src/Json/Parser/Progress/Objects.antt =====
-- `ParseObject` reads on in each round, and ends.
use litetvm_ffi.Map.Assoc.{KeyApi}
use litetvm_ffi.Prelude.{take, drop}
use litetvm_ffi.Json.Object.{create_object}
use litetvm_ffi.Prelude.{
  ℕ, zero, suc, ◌<◌, ◌≤◌, List, [], ◌∷◌, Bool, ◌==◌, if_cases, option_cases, arith, Bytes, length,
}
use litetvm_ffi.Json.Context.{Context, peek, advance, put, skip_spaces}
use litetvm_ffi.Json.Context.Progress.{left, left-advance, left-skip_spaces}
use litetvm_ffi.Json.Strings.{next_string}
use litetvm_ffi.Json.Strings.Progress.{next_string-Advances}
use litetvm_ffi.Json.Parser.{
  Parser, Parsed, in_context, map_string, with_ctx, skip_next, is_next, make_object, object_next,
  push_entry, object_value, object_round, object_loop, object_start, parse_object,
}
use litetvm_ffi.Json.Value.{Value}
use litetvm_ffi.Json.Parser.Progress.{
  Moves, Moves-mono, in_context-Moves, map_string-Advances, bind-Moves, left-skip_next, Goes,
  Reading, Reading-Goes,
}
use litetvm_ffi.Json.Parser.Steps.{state}

module _ {D : Type 0} (keys : KeyApi Bytes) (signed : Bool)
    (parse_value : Parser D → Parsed D) where
  make_object-Moves :
      (range : List (Value D × Value D)) (p : Parser D) (n : ℕ)
      → left p.ctx < n
      → Moves keys n (make_object keys signed parse_value range p)
  make_object-Moves range p n h =
      option_cases (Moves keys n) (create_object keys range) (λ fails. fails) (λ fs made. h)

  object_next-Moves :
      (top : ℕ) (go_on : Parser D → Parsed D) (q : Parser D) (n : ℕ)
      → left q.ctx < n
      → Goes keys n go_on
      → Moves keys n (object_next keys signed parse_value top go_on q)
  unfolding object_next
  object_next-Moves top go_on q n h k =
      if_cases (Moves keys n) (is_next b'}' q.ctx)
        (λ _.
          make_object-Moves (drop top q.object_temp_stack)
            (record q { ctx = advance q.ctx; object_temp_stack = take top q.object_temp_stack }) n
            (omega (arith, left-advance q.ctx)))
        (λ _.
          if_cases (Moves keys n) (is_next b',' q.ctx)
            (λ _. k (skip_next q) (omega (arith, left-skip_next q, left-advance q.ctx))) (λ _. tt))

  object_value-Moves :
      (top : ℕ) (go_on : Parser D → Parsed D) (key : Value D) (q : Parser D) (n : ℕ)
      → left q.ctx < n
      → Goes keys n parse_value
      → Goes keys n go_on
      → Moves keys n (object_value keys signed parse_value top go_on key q)
  unfolding object_value
  object_value-Moves top go_on key q n h reads k =
      if_cases (Moves keys n) (is_next b':' q.ctx)
        (λ _.
          bind-Moves keys (parse_value (with_ctx advance q)) _ n
            (reads (with_ctx advance q) (omega (arith, left-advance q.ctx)))
            (λ v r less.
              object_next-Moves top go_on (push_entry keys signed parse_value key v r) n
                (omega (arith, left-skip_spaces r.ctx)) k))
        (λ _. tt)

  -- A round at a text that is not empty.
  object_round-Moves_at :
      (top : ℕ) (go_on : Parser D → Parsed D) (x : ℕ) (s : Bytes) (c : Context)
      (items : List (Value D)) (entries : List (Value D × Value D))
      → Goes keys (suc (length s)) parse_value
      → Goes keys (suc (length s)) go_on
      → Moves keys
          (suc (length s))
          (object_round keys signed parse_value top go_on (state (put (x ∷ s) c) items entries))
  unfolding object_round
  object_round-Moves_at top go_on x s c items entries reads k =
      let p = state (put (x ∷ s) c) items entries in
      let n = suc (length s) in
      if_cases (Moves keys n) (x == b'"')
        (λ quote.
          bind-Moves keys (in_context p (map_string (next_string signed p.ctx))) _ n
            (in_context-Moves keys p _ n (
              map_string-Advances D (next_string signed p.ctx) n
                (next_string-Advances signed x s c quote)))
            (λ key q less.
              object_value-Moves top go_on key (with_ctx skip_spaces q) n
                (omega (arith, left-skip_spaces q.ctx)) reads k))
        (λ _. tt)

  object_round-Moves :
      (top : ℕ) (go_on : Parser D → Parsed D) (s : Bytes) (c : Context) (items : List (Value D))
      (entries : List (Value D × Value D))
      → Goes keys (length s) parse_value
      → Goes keys (length s) go_on
      → Moves keys
          (length s)
          (object_round keys signed parse_value top go_on (state (put s c) items entries))
  object_round-Moves top go_on [] c items entries reads k = unfold object_round in tt
  object_round-Moves top go_on (x ∷ s) c items entries reads k =
      object_round-Moves_at top go_on x s c items entries reads k

  object_loop-Reading :
      (fuel k top : ℕ)
      → Reading keys k parse_value
      → fuel ≤ k
      → Reading keys fuel (object_loop keys signed parse_value fuel top)
  unfolding object_loop
  object_loop-Reading zero k top reads le p h = absurd (omega arith)
  object_loop-Reading (suc fuel) k top reads le p h =
      object_round-Moves top (object_loop keys signed parse_value fuel top) p.ctx.cur.rest p.ctx
        p.array_temp_stack p.object_temp_stack
        (Reading-Goes keys (left p.ctx) k parse_value (omega arith) reads)
        (Reading-Goes keys (left p.ctx) fuel _ (omega arith)
          (object_loop-Reading fuel k top reads (omega arith)))

  object_start-Moves :
      (k top : ℕ) (q : Parser D) (n : ℕ)
      → Reading keys k parse_value
      → left q.ctx < n
      → n ≤ k
      → Moves keys n (object_start keys signed parse_value top q)
  unfolding object_start
  object_start-Moves k top q n reads h le =
      option_cases (Moves keys n) (peek q.ctx) (λ _. tt)
        (λ x _.
          if_cases (Moves keys n) (x == b'}') (λ _. omega (arith, left-advance q.ctx))
            (λ _.
              Moves-mono keys (left q.ctx) n _ (omega arith)
                (object_loop-Reading (suc (left q.ctx)) k top reads (omega arith) q (omega arith))))

  pub parse_object-Moves :
      (k x : ℕ) (s : Bytes) (c : Context) (items : List (Value D))
      (entries : List (Value D × Value D))
      → Reading keys k parse_value
      → suc (length s) ≤ k
      → Moves keys
          (suc (length s))
          (parse_object keys signed parse_value (state (put (x ∷ s) c) items entries))
  unfolding parse_object
  parse_object-Moves k x s c items entries reads le =
      let p = state (put (x ∷ s) c) items entries in
      object_start-Moves k (length entries) (skip_next p) (suc (length s)) reads
        (omega (arith, left-skip_next p)) le
