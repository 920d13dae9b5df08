-- ===== src/Json/Parser/Progress/Total.antt =====
-- `JSONParser::Parse` returns a value or a message on every text.
use litetvm_ffi.Map.Assoc.{KeyApi}
use litetvm_ffi.Prelude.{none}
use litetvm_ffi.Json.Object.{create_object}
use litetvm_ffi.Prelude.{
  ℕ, zero, suc, ◌≤◌, List, [], ◌∷◌, Bool, true, false, ◌==◌, if_cases, option_cases, ◌≡◌, ◌≢◌, refl,
  arith, Bytes, codes, length,
}
use litetvm_ffi.Json.Context.{
  Context, peek, advance, put, skip_spaces, set_error, extra_data, syntax_error_context,
  finalize_error_msg, new_context,
}
use litetvm_ffi.Json.Context.Progress.{left, left-skip_spaces}
use litetvm_ffi.Json.Number.Progress.{literal_value-Advances, next_number-Advances}
use litetvm_ffi.Json.Strings.{next_string}
use litetvm_ffi.Json.Strings.Progress.{next_string-Advances}
use litetvm_ffi.Json.Parser.{
  Parser, Parsed, ok, error, check_failed, object_failed, out_of_fuel, in_context, with_ctx,
  ParseResult, value, null_with_message, value_error, internal_error, no_object, no_result,
  checked_message, parse_dispatch, parse_value, report, parse_tail, conclude, parse,
}
use litetvm_ffi.Json.Value.{Value, null, boolean, Doubles}
use litetvm_ffi.Json.Number.{literal_value}
use litetvm_ffi.Json.Parser.Progress.Arrays.{parse_array-Moves}
use litetvm_ffi.Json.Parser.Progress.Objects.{parse_object-Moves}
use litetvm_ffi.Json.Parser.Progress.{
  Moves, Moves-mono, in_context-Moves, map_string-Advances, Reading,
}
use litetvm_ffi.Json.Parser.Steps.{state}

cons-ne-nil : (x : ℕ) (s : Bytes) → x ∷ s ≢ []
cons-ne-nil x s = ground arith

shown_message-ne-nil :
    (m t : Bytes) → t ≢ [] → (elim m as (λ _. Bytes) [ [] ↦ t | x ∷ s ↦ x ∷ s ]) ≢ []
shown_message-ne-nil [] t h = h
shown_message-ne-nil (x ∷ s) t h = cons-ne-nil x s

finalize_error_msg-ne-nil : (c : Context) → finalize_error_msg c ≢ []
unfolding finalize_error_msg syntax_error_context
finalize_error_msg-ne-nil c =
    shown_message-ne-nil c.error_msg (syntax_error_context (codes "Syntax error near") c)
      (cons-ne-nil _ _)

module _ (doubles : Doubles) where
  open doubles use {Double}

  module _ (keys : KeyApi Bytes) (signed : Bool) where
    parse_dispatch-Moves :
        (k : ℕ) (nested : Parser Double → Parsed Double) (s : Bytes) (c : Context)
        (items : List (Value Double)) (entries : List (Value Double × Value Double))
        → Reading keys k nested
        → length s ≤ k
        → Moves keys
            (length s)
            (parse_dispatch doubles keys signed nested (state (put s c) items entries))
    unfolding parse_dispatch
    parse_dispatch-Moves k nested [] c items entries reads le = tt
    parse_dispatch-Moves k nested (x ∷ s) c items entries reads le =
        let p = state (put (x ∷ s) c) items entries in
        let n = suc (length s) in
        let M : Parsed Double → Type 0 = Moves keys n in
        if_cases M (x == b'{')
          (λ _. parse_object-Moves keys signed nested k x s c items entries reads le)
          (λ _.
            if_cases M (x == b'[')
              (λ _. parse_array-Moves keys nested k x s c items entries reads le)
              (λ _.
                if_cases M (x == b'"')
                  (λ quote. in_context-Moves keys p _ n (
                    map_string-Advances Double (next_string signed p.ctx) n
                      (next_string-Advances signed x s c quote)))
                  (λ _.
                    if_cases M (x == b't') (λ _. literal (codes "rue") (boolean true))
                      (λ _.
                        if_cases M (x == b'f') (λ _. literal (codes "alse") (boolean false))
                          (λ _.
                            if_cases M (x == b'n') (λ _. literal (codes "ull") null)
                              (λ _.
                                in_context-Moves keys p _ n
                                  (next_number-Advances doubles x s c)))))))
      where
        literal :
            (pattern : Bytes) (v : Value Double)
            → Moves keys (suc (length s)) (
                in_context
                  (state (put (x ∷ s) c) items entries)
                  (literal_value pattern v (put (x ∷ s) c).cur (advance (put (x ∷ s) c))))
        literal pattern v =
            let p = state (put (x ∷ s) c) items entries in
            in_context-Moves keys p _ (suc (length s)) (
              literal_value-Advances pattern s v p.ctx.cur (advance p.ctx) (suc (length s))
                (omega arith))

    -- `ParseValue` reads at least one byte or returns `false` where the fuel is more than the bytes left.
    parse_value-Reading : (fuel : ℕ) → Reading keys fuel (parse_value doubles keys signed fuel)
    unfolding parse_value
    parse_value-Reading zero p h = absurd (omega arith)
    parse_value-Reading (suc fuel) p h =
        let q = with_ctx skip_spaces p in
        let fewer = left-skip_spaces p.ctx in
        Moves-mono keys (left q.ctx) (left p.ctx) _ fewer (
          parse_dispatch-Moves fuel (parse_value doubles keys signed fuel) q.ctx.cur.rest q.ctx
            q.array_temp_stack q.object_temp_stack (parse_value-Reading fuel)
            (omega (arith, fewer)))

    -- How `Parse` may end: with a value, with a message that is not empty, where one is asked for as the
    -- message and else as the error, or where the constructor of an object does not return.
    abbrev pub Answers : Bool → ParseResult Double → Type 0
    Answers wants_message (value v) = Unit
    Answers wants_message (null_with_message m) = (wants_message ≡ true) × (m ≢ [])
    Answers wants_message (value_error m) = (wants_message ≡ false) × (m ≢ [])
    Answers wants_message internal_error = ⊥
    Answers wants_message (no_object range) = create_object keys range ≡ none
    Answers wants_message no_result = ⊥

    checked_message-Answers : (m : Bytes) → m ≢ [] → Answers true (checked_message m)
    checked_message-Answers [] h = absurd (h refl)
    checked_message-Answers (x ∷ s) h = (refl, h)

    report-Answers :
        (wants_message : Bool) (c : Context)
        → Answers wants_message (report doubles keys signed wants_message c)
    unfolding report
    report-Answers true c =
        checked_message-Answers (finalize_error_msg c) (finalize_error_msg-ne-nil c)
    report-Answers false c = (refl, finalize_error_msg-ne-nil c)

    conclude-Answers :
        (wants_message : Bool) (r : Parsed Double) (n : ℕ)
        → Moves keys n r
        → Answers wants_message (conclude doubles keys signed wants_message r)
    unfolding conclude parse_tail
    conclude-Answers wants_message (ok v p) n h =
        option_cases (Answers wants_message) (peek (skip_spaces p.ctx)) (λ _. tt)
          (λ x _. report-Answers wants_message (set_error extra_data (skip_spaces p.ctx)))
    conclude-Answers wants_message (error c) n h = report-Answers wants_message c
    conclude-Answers wants_message check_failed n h = absurd h
    conclude-Answers wants_message (object_failed range) n h = h
    conclude-Answers wants_message out_of_fuel n h = absurd h

    -- The loops and the recursion of the parser end on every text: with a value, or with a message that is
    -- not empty, which is returned where it is asked for and thrown as an error where it is not. The only
    -- other end is that of the Map's constructor on the entries of an object, where it does not return.
    pub parse-Answers :
        (wants_message : Bool) (text : Bytes)
        → Answers wants_message (parse doubles keys signed wants_message text)
    unfolding parse new_context
    parse-Answers wants_message text =
        conclude-Answers wants_message _ (length text)
          (parse_value-Reading (suc (length text)) (state (new_context text) [] []) (omega arith))
