-- ===== src/Json/Context.antt =====
-- `JSONParserContext`: the cursor, the line that it is on, and the error message.
-- A pointer is the text from it to `end_` with its distance from `begin_`. `String` keeps a NUL behind
-- its bytes, so that `*cur_` at `end_` reads 0.
pub mod Spaces
pub mod Progress
use litetvm_ffi.Prelude.{
  ℕ, ◌+◌, ◌-◌, [], ◌∷◌, ◌++◌, Bool, true, false, ◌||◌, Option, none, some, Bytes, codes, ◌==◌,
  if◌then◌else◌, ◌≡◌, ap,
}
use litetvm_ffi.Json.Decimal.{print_nat}

pub record Cursor : Type 0 where
  pub rest : Bytes
  pub offset : ℕ

pub record Context : Type 0 where
  pub cur : Cursor
  pub last_line_begin : ℕ
  pub line_counter : ℕ
  pub error_msg : Bytes

-- The constructor of `JSONParserContext`.
unfoldable pub new_context : Bytes → Context
new_context text = record {
  cur = record { rest = text; offset = 0 };
  last_line_begin = 0;
  line_counter = 1;
  error_msg = [];
}

-- How a method ends: with a result, with `false` and the message set, with a failed TVM_FFI_ICHECK,
-- or not within the fuel.
pub data Outcome {ℓ} (A : Type ℓ) : Type ℓ where
  done : A → Context → Outcome A
  failed : Context → Outcome A
  check_failed : Outcome A
  out_of_fuel : Outcome A

-- `Peek`: the next byte, or `none` for -1.
abbrev pub peek : Context → Option ℕ
peek c = elim c.cur.rest [ [] ↦ none | x ∷ s ↦ some x ]

-- `*cur_`
abbrev pub deref : Context → ℕ
deref c = elim c.cur.rest [ [] ↦ 0 | x ∷ s ↦ x ]

abbrev pub tail : Bytes → Bytes
tail [] = []
tail (x ∷ s) = s

-- `++cur_`, which `SkipNextAssumeNoSpace` is too.
abbrev pub advance : Context → Context
advance c = record c { cur = record { rest = tail c.cur.rest; offset = c.cur.offset + 1 } }

-- `SetCurrentPosForBetterErrorMsg`
abbrev pub set_current_pos : Cursor → Context → Context
set_current_pos p c = record c { cur = p }

abbrev pub is_space : ℕ → Bool
is_space x = x == b' ' || x == 9 || x == 10 || x == 13

-- One round of the loop of `SkipSpaces` over the byte `x`, with `s` behind it.
skip_space : ℕ → Bytes → Context → Context
skip_space x s c =
    let newline = x == 10 in
    record c {
      cur = record { rest = s; offset = c.cur.offset + 1 };
      last_line_begin = if newline then c.cur.offset + 1 else c.last_line_begin;
      line_counter = if newline then c.line_counter + 1 else c.line_counter;
    }

skip_spaces_loop : Bytes → Context → Context
unfolding skip_space
skip_spaces_loop [] c = c
skip_spaces_loop (x ∷ s) c =
    let next = skip_spaces_loop s (skip_space x s c) in if is_space x then next else c

-- `SkipSpaces`
unfoldable pub skip_spaces : Context → Context
unfolding skip_spaces_loop
skip_spaces c = skip_spaces_loop c.cur.rest c

-- `MatchLiteral`: whether the pattern is there. The cursor stops at the first difference.
unfoldable pub match_literal : Bytes → Context → Bool × Context
match_literal [] c = (true, c)
match_literal (p ∷ ps) c = elim c.cur.rest [
  | [] ↦ (false, c)
  | x ∷ s ↦ if p == x then match_literal ps (advance c) else (false, c)
]

-- `GetSyntaxErrorContext`
unfoldable pub syntax_error_context : Bytes → Context → Bytes
syntax_error_context err_prefix c =
    let column = c.cur.offset - c.last_line_begin + 1 in
    let shown : Bytes = elim err_prefix [ [] ↦ codes "Syntax error" | x ∷ s ↦ x ∷ s ] in
    shown
    ++ codes ": line "
    ++ print_nat c.line_counter
    ++ codes " column "
    ++ print_nat column
    ++ codes " (char "
    ++ print_nat c.cur.offset
    ++ codes ")"

-- The `SetError…` methods, by their texts.
unfoldable pub set_error : Bytes → Context → Context
set_error err_prefix c = record c { error_msg = syntax_error_context err_prefix c }

abbrev pub expecting_value : Bytes
expecting_value = codes "Expecting value"

abbrev pub invalid_control_character : Bytes
invalid_control_character = codes "Invalid control character at"

abbrev pub unterminated_string : Bytes
unterminated_string = codes "Unterminated string starting at"

abbrev pub invalid_unicode_escape : Bytes
invalid_unicode_escape = codes "Invalid \\uXXXX escape"

abbrev pub invalid_surrogate_pair : Bytes
invalid_surrogate_pair = codes "Invalid surrogate pair of \\uXXXX escapes"

abbrev pub invalid_escape : Bytes
invalid_escape = codes "Invalid \\escape"

abbrev pub extra_data : Bytes
extra_data = codes "Extra data"

abbrev pub expecting_property_name : Bytes
expecting_property_name = codes "Expecting property name enclosed in double quotes"

abbrev pub expecting_colon : Bytes
expecting_colon = codes "Expecting ':' delimiter"

abbrev pub expecting_comma : Bytes
expecting_comma = codes "Expecting ',' delimiter"

-- `FinalizeErrorMsg`
unfoldable pub finalize_error_msg : Context → Bytes
finalize_error_msg c = elim c.error_msg [
  | [] ↦ syntax_error_context (codes "Syntax error near") c
  | x ∷ s ↦ x ∷ s
]

-- The method returned `v`, with `rest` still to read.
abbrev pub Reads : {A : Type 0} → A → Bytes → Outcome A → Type 0
Reads v rest (done a c) = (a ≡ v) × (c.cur.rest ≡ rest)
Reads v rest (failed c) = ⊥
Reads v rest check_failed = ⊥
Reads v rest out_of_fuel = ⊥

-- The same context with other text to read.
abbrev pub put : Bytes → Context → Context
put s c = record c { cur = record { rest = s; offset = c.cur.offset } }

-- A context is known to read `s`: it can be put in that form.
pub put_eq : (c : Context) {s : Bytes} → c.cur.rest ≡ s → c ≡ put s c
put_eq c e = ap (λ t. put t c) e
