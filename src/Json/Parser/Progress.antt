-- ===== src/Json/Parser/Progress.antt =====
-- The parser ends on every text: its loops and its recursion read on, so that the fuel is enough.
pub mod Arrays
pub mod Objects
pub mod Total
use litetvm_ffi.Map.Assoc.{KeyApi}
use litetvm_ffi.Prelude.{
  ℕ, zero, suc, ◌<◌, ◌≤◌, List, [], ◌∷◌, ◌++◌, Bool, true, false, ◌==◌, Option, none, some,
  if◌then◌else◌, if_cases, option_cases, ◌≡◌, ◌≢◌, refl, arith, Bytes, codes, length,
}
use litetvm_ffi.Json.Context.{
  Context, Outcome, done, failed, peek, advance, put, skip_spaces, set_error, extra_data,
  syntax_error_context, finalize_error_msg,
}
use litetvm_ffi.Json.Context.Progress.{left, Advances, left-advance, left-skip_spaces}
use litetvm_ffi.Json.Number.Progress.{literal_value-Advances, next_number-Advances}
use litetvm_ffi.Json.Strings.{next_string}
use litetvm_ffi.Json.Strings.Progress.{next_string-Advances}
use litetvm_ffi.Json.Object.{create_object}
use litetvm_ffi.Json.Parser.{
  Parser, Parsed, ok, error, check_failed, object_failed, out_of_fuel, ◌>>=◌, in_context,
  map_string, with_ctx, skip_next, is_next, array_next, push_value, array_round, array_loop,
  array_start, parse_array, object_next, push_entry, object_value, object_round, object_loop,
  object_start, parse_object, ParseResult, value, null_with_message, value_error, internal_error,
  no_result, parse_dispatch, parse_value, report, parse_tail, conclude, parse,
}
use litetvm_ffi.Json.Value.{Value, null, boolean, string, Doubles}

pub map_string-Advances :
    (D : Type 0) (o : Outcome Bytes) (n : ℕ)
    → Advances n o
    → Advances {A = Value D} n (map_string o)
map_string-Advances D (done s c) n h = h
map_string-Advances D (failed c) n h = tt
map_string-Advances D Outcome.check_failed n h = h
map_string-Advances D Outcome.out_of_fuel n h = h

module _ {D : Type 0} where
  pub left-skip_next : (p : Parser D) → left (skip_next p).ctx ≤ left (advance p.ctx)
  left-skip_next p = left-skip_spaces (advance p.ctx)

module _ {D : Type 0} (keys : KeyApi Bytes) where
  -- The method returned, with `false` or with less than `n` bytes left, or it ended where the constructor
  -- of an object does not return.
  abbrev pub Moves : ℕ → Parsed D → Type 0
  Moves n (ok v p) = left p.ctx < n
  Moves n (error c) = Unit
  Moves n check_failed = ⊥
  Moves n (object_failed range) = create_object keys range ≡ none
  Moves n out_of_fuel = ⊥

  pub Moves-mono : (m n : ℕ) (r : Parsed D) → m ≤ n → Moves m r → Moves n r
  Moves-mono m n (ok v p) le h = omega arith
  Moves-mono m n (error c) le h = tt
  Moves-mono m n check_failed le h = h
  Moves-mono m n (object_failed range) le h = h
  Moves-mono m n out_of_fuel le h = h

  pub in_context-Moves :
      (p : Parser D) (o : Outcome (Value D)) (n : ℕ) → Advances n o → Moves n (in_context p o)
  in_context-Moves p (done v c) n h = h
  in_context-Moves p (failed c) n h = tt
  in_context-Moves p Outcome.check_failed n h = h
  in_context-Moves p Outcome.out_of_fuel n h = h

  pub bind-Moves :
      (r : Parsed D) (f : Value D → Parser D → Parsed D) (n : ℕ)
      → Moves n r
      → ((v : Value D) (p : Parser D) → left p.ctx < n → Moves n (f v p))
      → Moves n (r >>= f)
  bind-Moves (ok v p) f n h k = k v p h
  bind-Moves (error c) f n h k = tt
  bind-Moves check_failed f n h k = h
  bind-Moves (object_failed range) f n h k = h
  bind-Moves out_of_fuel f n h k = h

  -- A parsing method that ends with less than `n` bytes left wherever less than `n` are.
  abbrev pub Goes : ℕ → (Parser D → Parsed D) → Type 0
  Goes n go_on = (p : Parser D) → left p.ctx < n → Moves n (go_on p)

  -- The method reads something of every text of less than `k` bytes.
  abbrev pub Reading : ℕ → (Parser D → Parsed D) → Type 0
  Reading k parse = (p : Parser D) → left p.ctx < k → Moves (left p.ctx) (parse p)

  pub Reading-Goes :
      (n k : ℕ) (parse : Parser D → Parsed D) → n ≤ k → Reading k parse → Goes n parse
  Reading-Goes n k parse le h p less =
      Moves-mono (left p.ctx) n (parse p) (omega arith) (h p (omega arith))
