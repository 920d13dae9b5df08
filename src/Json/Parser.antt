-- ===== src/Json/Parser.antt =====
-- `JSONParser`: values, arrays and objects by recursive descent over `JSONParserContext`.
pub mod Steps
pub mod Readable
pub mod Texts
pub mod ArrayRounds
pub mod Arrays
pub mod ObjectRounds
pub mod Objects
pub mod RoundTrip
pub mod Progress
use litetvm_ffi.Map.Assoc.{KeyApi}
use litetvm_ffi.Prelude.{
  ℕ, zero, suc, List, [], ◌∷◌, ◌++◌, Bool, true, false, Option, none, some, Bytes, codes, length,
  take, drop, ◌==◌, if◌then◌else◌,
}
use litetvm_ffi.Json.Context.{
  Context, new_context, Outcome, done, failed, peek, advance, skip_spaces, set_error,
  expecting_value, extra_data, expecting_property_name, expecting_colon, expecting_comma,
  finalize_error_msg,
}
use litetvm_ffi.Json.Number.{literal_value, next_number}
use litetvm_ffi.Json.Strings.{next_string}
use litetvm_ffi.Json.Object.{create_object}
use litetvm_ffi.Json.Value.{
  Value, null, boolean, string, array, nil, object, end, items_of, Doubles,
}

-- The fields of `JSONParser` that change; `storage_` is the text that the context runs through.
pub record Parser (D : Type 0) : Type 0 where
  pub ctx : Context
  pub array_temp_stack : List (Value D)
  pub object_temp_stack : List (Value D × Value D)

-- How a parsing method ends. Once one has returned `false`, all that is read is the context.
pub data Parsed (D : Type 0) : Type 0 where
  ok : Value D → Parser D → Parsed D
  error : Context → Parsed D
  check_failed : Parsed D
  -- the constructor of an object does not return for this range
  object_failed : List (Value D × Value D) → Parsed D
  out_of_fuel : Parsed D

infixl 5 ◌>>=◌
abbrev pub ◌>>=◌ : {D : Type 0} → Parsed D → (Value D → Parser D → Parsed D) → Parsed D
ok v p >>= f = f v p
error c >>= f = error c
check_failed >>= f = check_failed
object_failed range >>= f = object_failed range
out_of_fuel >>= f = out_of_fuel

-- A method of the context, called by the parser.
abbrev pub in_context : {D : Type 0} → Parser D → Outcome (Value D) → Parsed D
in_context p (done v c) = ok v (record p { ctx = c })
in_context p (failed c) = error c
in_context p Outcome.check_failed = check_failed
in_context p Outcome.out_of_fuel = out_of_fuel

abbrev pub map_string : {D : Type 0} → Outcome Bytes → Outcome (Value D)
map_string (done s c) = done (string s) c
map_string (failed c) = failed c
map_string Outcome.check_failed = Outcome.check_failed
map_string Outcome.out_of_fuel = Outcome.out_of_fuel

abbrev pub with_ctx : {D : Type 0} → (Context → Context) → Parser D → Parser D
with_ctx f p = record p { ctx = f p.ctx }

abbrev pub skip_next : {D : Type 0} → Parser D → Parser D
skip_next p = with_ctx (λ c. skip_spaces (advance c)) p

-- Whether the next byte is `x`.
abbrev pub is_next : ℕ → Context → Bool
is_next x c = elim (peek c) [ none ↦ false | some y ↦ y == x ]

module _ {D : Type 0} (parse_value : Parser D → Parsed D) where
  -- What stands behind a value of an array, with the spaces skipped and the value on the stack.
  unfoldable pub array_next : ℕ → (Parser D → Parsed D) → Parser D → Parsed D
  array_next stack_top go_on q =
      let more = go_on (skip_next q) in
      if is_next b',' q.ctx
      then more
      else if is_next b']' q.ctx
      then ok (array (items_of (drop stack_top q.array_temp_stack)))
          (record q { ctx = advance q.ctx; array_temp_stack = take stack_top q.array_temp_stack })
      else error (set_error expecting_comma q.ctx)

  -- `array_temp_stack_.emplace_back`, and the spaces behind the value.
  abbrev pub push_value : Value D → Parser D → Parser D
  push_value v p =
      with_ctx skip_spaces (record p { array_temp_stack = p.array_temp_stack ++ v ∷ [] })

  -- One round of the loop.
  unfoldable pub array_round : ℕ → (Parser D → Parsed D) → Parser D → Parsed D
  array_round stack_top go_on p = elim (peek p.ctx) [
    | none ↦ error p.ctx
    | some x ↦ parse_value p >>= λ v q. array_next stack_top go_on (push_value v q)
  ]

  unfoldable pub array_loop : ℕ → ℕ → Parser D → Parsed D
  array_loop zero stack_top p = out_of_fuel
  array_loop (suc fuel) stack_top p = array_round stack_top (array_loop fuel stack_top) p

  -- `ParseArray` behind the bracket and the spaces. Each round moves the cursor on, so that the bytes
  -- left are fuel enough.
  unfoldable pub array_start : ℕ → Parser D → Parsed D
  array_start stack_top q = elim (peek q.ctx) [
    | none ↦ error (set_error expecting_value q.ctx)
    | some x ↦
        let round = array_loop (suc (length q.ctx.cur.rest)) stack_top q in
        if x == b']' then ok (array nil) (with_ctx advance q) else round
  ]

  -- `ParseArray`
  unfoldable pub parse_array : Parser D → Parsed D
  parse_array p = array_start (length p.array_temp_stack) (skip_next p)

module _ {D : Type 0} (keys : KeyApi Bytes) (signed : Bool)
    (parse_value : Parser D → Parsed D) where
  -- `*out = json::Object(...)`
  abbrev pub make_object : List (Value D × Value D) → Parser D → Parsed D
  make_object range p = elim (create_object keys range) [
    | none ↦ object_failed range
    | some fs ↦ ok (object fs) p
  ]

  -- What stands behind an entry of an object, with the spaces skipped and the entry on the stack.
  unfoldable pub object_next : ℕ → (Parser D → Parsed D) → Parser D → Parsed D
  object_next stack_top go_on q =
      let more = go_on (skip_next q) in
      if is_next b'}' q.ctx
      then make_object (drop stack_top q.object_temp_stack)
          (record q { ctx = advance q.ctx; object_temp_stack = take stack_top q.object_temp_stack })
      else if is_next b',' q.ctx
      then more
      else error (set_error expecting_comma q.ctx)

  -- `object_temp_stack_.emplace_back`, and the spaces behind the value.
  abbrev pub push_entry : Value D → Value D → Parser D → Parser D
  push_entry key v p =
      with_ctx skip_spaces (record p { object_temp_stack = p.object_temp_stack ++ (key, v) ∷ [] })

  -- The part of a round behind the key and its spaces: the colon and the value.
  unfoldable pub object_value : ℕ → (Parser D → Parsed D) → Value D → Parser D → Parsed D
  object_value stack_top go_on key q =
      let rest = parse_value (with_ctx advance q) >>= λ v r.
      object_next stack_top go_on (push_entry key v r) in
      if is_next b':' q.ctx then rest else error (set_error expecting_colon q.ctx)

  -- One round of the loop.
  unfoldable pub object_round : ℕ → (Parser D → Parsed D) → Parser D → Parsed D
  object_round stack_top go_on p = elim (peek p.ctx) [
    | none ↦ error p.ctx
    | some x ↦
        let rest = in_context p (map_string (next_string signed p.ctx)) >>= λ key q.
        object_value stack_top go_on key (with_ctx skip_spaces q) in
        if x == b'"' then rest else error (set_error expecting_property_name p.ctx)
  ]

  unfoldable pub object_loop : ℕ → ℕ → Parser D → Parsed D
  object_loop zero stack_top p = out_of_fuel
  object_loop (suc fuel) stack_top p = object_round stack_top (object_loop fuel stack_top) p

  -- `ParseObject` behind the brace and the spaces.
  unfoldable pub object_start : ℕ → Parser D → Parsed D
  object_start stack_top q = elim (peek q.ctx) [
    | none ↦ error (set_error expecting_property_name q.ctx)
    | some x ↦
        let round = object_loop (suc (length q.ctx.cur.rest)) stack_top q in
        if x == b'}' then ok (object end) (with_ctx advance q) else round
  ]

  -- `ParseObject`
  unfoldable pub parse_object : Parser D → Parsed D
  parse_object p = object_start (length p.object_temp_stack) (skip_next p)

-- What `JSONParser::Parse` does: it returns a value, with an empty message where one is asked for; it
-- returns a null with a message; or it throws a ValueError with the message.
-- `internal_error`: a TVM_FFI_ICHECK of the parser throws. `no_object`: the constructor of an object ends in
-- another way than by a return.
pub data ParseResult (D : Type 0) : Type 0 where
  value : Value D → ParseResult D
  null_with_message : Bytes → ParseResult D
  value_error : Bytes → ParseResult D
  internal_error : ParseResult D
  no_object : List (Value D × Value D) → ParseResult D
  no_result : ParseResult D

-- The return behind `TVM_FFI_ICHECK(!error_msg->empty())`.
abbrev pub checked_message : {D : Type 0} → Bytes → ParseResult D
checked_message [] = internal_error
checked_message (x ∷ s) = null_with_message (x ∷ s)

module _ (doubles : Doubles) where
  open doubles use {Double}

  module _ (keys : KeyApi Bytes) (signed : Bool) where
    -- The `switch` of `ParseValue`, behind the spaces; `parse_nested` parses the values inside.
    unfoldable pub parse_dispatch : (Parser Double → Parsed Double) → Parser Double → Parsed Double
    parse_dispatch parse_nested p =
        let start_pos = p.ctx.cur in
        elim (peek p.ctx) [
          | none ↦ error (set_error expecting_value p.ctx)
          | some x ↦
              let nested_object = parse_object keys signed parse_nested p in
              let nested_array = parse_array parse_nested p in
              if x == b'{'
              then nested_object
              else if x == b'['
              then nested_array
              else if x == b'"'
              then in_context p (map_string (next_string signed p.ctx))
              else if x == b't'
              then in_context p
                  (literal_value (codes "rue") (boolean true) start_pos (advance p.ctx))
              else if x == b'f'
              then in_context p
                  (literal_value (codes "alse") (boolean false) start_pos (advance p.ctx))
              else if x == b'n'
              then in_context p (literal_value (codes "ull") null start_pos (advance p.ctx))
              else in_context p (next_number doubles p.ctx)
        ]

    -- `ParseValue`; the fuel bounds how deep values are nested.
    unfoldable pub parse_value : ℕ → Parser Double → Parsed Double
    parse_value zero p = out_of_fuel
    parse_value (suc fuel) p = parse_dispatch (parse_value fuel) (with_ctx skip_spaces p)

    -- `FinalizeErrorMsg`, and where the message goes.
    unfoldable pub report : Bool → Context → ParseResult Double
    report wants_message c =
        let msg = finalize_error_msg c in
        if wants_message then checked_message msg else value_error msg

    -- `ParseTail`, for the value that has been parsed.
    unfoldable pub parse_tail : Bool → Value Double → Context → ParseResult Double
    parse_tail wants_message v c =
        let c1 = skip_spaces c in
        elim (peek c1) [ none ↦ value v | some x ↦ report wants_message (set_error extra_data c1) ]

    -- What `JSONParser::Parse` makes of the outcome of `ParseValue`.
    unfoldable pub conclude : Bool → Parsed Double → ParseResult Double
    conclude wants_message (ok v p) = parse_tail wants_message v p.ctx
    conclude wants_message (error c) = report wants_message c
    conclude wants_message check_failed = internal_error
    conclude wants_message (object_failed range) = no_object range
    conclude wants_message out_of_fuel = no_result

    -- `JSONParser::Parse`; `wants_message` says whether `error_msg` is not null.
    unfoldable pub parse : Bool → Bytes → ParseResult Double
    parse wants_message text = conclude wants_message (
        parse_value (suc (length text))
          (record { ctx = new_context text; array_temp_stack = []; object_temp_stack = [] }))
