-- ===== src/Json/Parser/Steps.antt =====
-- How the parsing methods go on after one another: what a method has read, and the state it leaves.
use litetvm_ffi.Map.Assoc.{KeyApi}
use litetvm_ffi.Prelude.{
  ℕ, List, [], ◌∷◌, ◌++◌, Bool, false, ◌≡◌, refl, sym, ap, subst, arith, Bytes, ◌==◌,
}
use litetvm_ffi.Json.Context.{
  Context, Outcome, done, failed, Reads, put, put_eq, skip_spaces, is_space,
}
use litetvm_ffi.Json.Context.Spaces.{IsBlank, IsSolid, skip_spaces-blank}
use litetvm_ffi.Json.Number.{next_number}
use litetvm_ffi.Json.Number.Text.{IsNumberChar}
use litetvm_ffi.Json.Parser.{
  Parser, Parsed, ok, error, check_failed, object_failed, out_of_fuel, ◌>>=◌, in_context,
  map_string, with_ctx, parse_dispatch,
}
use litetvm_ffi.Json.Value.{Value, string, Doubles}

module _ {D : Type 0} where
  -- A parser with its context and its two stacks.
  abbrev pub state : Context → List (Value D) → List (Value D × Value D) → Parser D
  state c items entries = record { ctx = c; array_temp_stack = items; object_temp_stack = entries }

  -- The method returned `v`, with `rest` to read and the stacks as given.
  abbrev pub ParsesTo :
      Value D → Bytes → List (Value D) → List (Value D × Value D) → Parsed D → Type 0
  ParsesTo v rest items entries (ok v' p) =
      (v' ≡ v)
      × (p.ctx.cur.rest ≡ rest)
      × (p.array_temp_stack ≡ items)
      × (p.object_temp_stack ≡ entries)
  ParsesTo v rest items entries (error c) = ⊥
  ParsesTo v rest items entries check_failed = ⊥
  ParsesTo v rest items entries (object_failed range) = ⊥
  ParsesTo v rest items entries out_of_fuel = ⊥

  pub in_context-ParsesTo :
      (v : Value D) (rest : Bytes) (p : Parser D) (o : Outcome (Value D))
      → Reads v rest o
      → ParsesTo v rest p.array_temp_stack p.object_temp_stack (in_context p o)
  in_context-ParsesTo v rest p (done v' c) h = (h.0, h.1, refl, refl)
  in_context-ParsesTo v rest p (failed c) h = absurd h
  in_context-ParsesTo v rest p Outcome.check_failed h = absurd h
  in_context-ParsesTo v rest p Outcome.out_of_fuel h = absurd h

  -- What follows a method is run in the state that the method leaves.
  pub bind-ParsesTo :
      (P : Parsed D → Type 0) (f : Value D → Parser D → Parsed D) (v : Value D) (rest : Bytes)
      (items : List (Value D)) (entries : List (Value D × Value D)) (r : Parsed D)
      → ParsesTo v rest items entries r
      → ((c : Context) → P (f v (state (put rest c) items entries)))
      → P (r >>= f)
  bind-ParsesTo P f v rest items entries (ok v' p) (e, l, a, o) k =
      subst (λ w. P (f w p)) (sym e)
        (subst (λ q. P (f v q))
          (sym
            λ i. record { ctx = put (l i) p.ctx; array_temp_stack = a i; object_temp_stack = o i })
          (k p.ctx))
  bind-ParsesTo P f v rest items entries (error c) h k = absurd h
  bind-ParsesTo P f v rest items entries check_failed h k = absurd h
  bind-ParsesTo P f v rest items entries (object_failed range) h k = absurd h
  bind-ParsesTo P f v rest items entries out_of_fuel h k = absurd h

  -- Spaces are skipped; what is behind them starts with no space.
  pub skip_spaces-state :
      (P : Parser D → Type 0) (ws t : Bytes) (c : Context) (items : List (Value D))
      (entries : List (Value D × Value D))
      → IsBlank ws
      → IsSolid t
      → ((d : Context) → P (state (put t d) items entries))
      → P (with_ctx skip_spaces (state (put (ws ++ t) c) items entries))
  skip_spaces-state P ws t c items entries blank solid k =
      subst (λ d. P (state d items entries))
        (sym (put_eq (skip_spaces (put (ws ++ t) c)) (skip_spaces-blank ws t c blank solid)))
        (k (skip_spaces (put (ws ++ t) c)))

pub map_string-Reads :
    (D : Type 0) (s rest : Bytes) (o : Outcome Bytes)
    → Reads s rest o
    → Reads {A = Value D} (string s) rest (map_string o)
map_string-Reads D s rest (done s' c) h = (ap string h.0, h.1)
map_string-Reads D s rest (failed c) h = absurd h
map_string-Reads D s rest Outcome.check_failed h = absurd h
map_string-Reads D s rest Outcome.out_of_fuel h = absurd h

-- The first byte of a value: no space, and no end of an array or an object.
abbrev pub IsValueStart : ℕ → Type 0
IsValueStart x = (is_space x ≡ false) × ((x == b']') ≡ false) × ((x == b'}') ≡ false)

abbrev pub StartsValue : Bytes → Type 0
StartsValue [] = ⊥
StartsValue (x ∷ s) = IsValueStart x

-- The first byte of a number: none that `ParseValue` has a case for.
abbrev pub IsNumberStart : ℕ → Type 0
IsNumberStart x =
    ((x == b'{') ≡ false)
    × ((x == b'[') ≡ false)
    × ((x == b'"') ≡ false)
    × ((x == b't') ≡ false)
    × ((x == b'f') ≡ false)
    × ((x == b'n') ≡ false)

abbrev pub StartsNumber : Bytes → Type 0
StartsNumber [] = ⊥
StartsNumber (x ∷ s) = IsNumberStart x × IsValueStart x

pub number_char-start : (x : ℕ) → IsNumberChar x → IsNumberStart x × IsValueStart x
number_char-start x h = (
  (ground arith, ground arith, ground arith, ground arith, ground arith, ground arith),
  (ground arith, ground arith, ground arith),
)

module _ (doubles : Doubles) where
  open doubles use {Double}

  module _ (keys : KeyApi Bytes) (signed : Bool) where
    pub parse_dispatch-number :
        (s rest : Bytes) (parse_nested : Parser Double → Parsed Double) (c : Context)
        (items : List (Value Double)) (entries : List (Value Double × Value Double))
        → StartsNumber s
        → parse_dispatch doubles keys signed parse_nested (state (put (s ++ rest) c) items entries)
          ≡ in_context
              (state (put (s ++ rest) c) items entries)
              (next_number doubles (put (s ++ rest) c))
    unfolding parse_dispatch
    parse_dispatch-number [] rest parse_nested c items entries h = absurd h
    parse_dispatch-number (x ∷ s) rest parse_nested c items entries ((a, b, q, t, f, n), _) =
        rw (a, b, q, t, f, n)
