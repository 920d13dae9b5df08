-- ===== src/Json/Parser/ObjectRounds.antt =====
-- The rounds of the loop of `ParseObject` over the text of an object.
use litetvm_ffi.Map.Assoc.{KeyApi}
use litetvm_ffi.Prelude.{some, none, Option, subst, sym}
use litetvm_ffi.Json.Parser.{make_object, object_failed, ok}
use litetvm_ffi.Prelude.{
  ℕ, zero, suc, List, [], ◌∷◌, ◌++◌, Bool, false, ◌≡◌, ◌∙◌, ◌<◌, refl, ap, arith, Bytes, length,
  take-append, drop-append, append_assoc, inl, inr, Bool-cases, All,
}
use litetvm_ffi.Prelude.Int.{ℤ, is_zero}
use litetvm_ffi.Json.Context.{Context, put, advance, skip_spaces}
use litetvm_ffi.Json.Context.Spaces.{IsBlank}
use litetvm_ffi.Json.Escape.{escape_string}
use litetvm_ffi.Json.Number.Text.{EndsNumber}
use litetvm_ffi.Json.Parser.{
  Parser, Parsed, object_next, object_value, object_round, object_loop, ◌>>=◌, parse_value,
  with_ctx, push_entry, in_context, map_string,
}
use litetvm_ffi.Json.Parser.ArrayRounds.{Parses}
use litetvm_ffi.Json.Parser.Readable.{HaveReadable}
use litetvm_ffi.Json.Parser.Texts.{separator-IsBlank, fields_text-EndsNumber}
use litetvm_ffi.Json.Parser.Steps.{
  state, ParsesTo, bind-ParsesTo, in_context-ParsesTo, map_string-Reads, skip_spaces-state,
}
use litetvm_ffi.Json.Strings.{next_string}
use litetvm_ffi.Json.Strings.RoundTrip.{next_string-escape_string}
use litetvm_ffi.Json.Strings.Rounds.{IsReadable}
use litetvm_ffi.Json.Object.{create_object}
use litetvm_ffi.Json.Value.{Value, string, object, Fields, end, field, Doubles, fields_list}
use litetvm_ffi.Json.Writer.Text.{separator, colon, key_text, text, fields_text}

-- The colon, and a blank behind it.
colon-split : (indent : ℤ) → (ws : Bytes) × (colon indent ≡ b':' ∷ ws) × IsBlank ws
unfolding colon
colon-split indent = elim (Bool-cases (is_zero indent)) [
  | inl e ↦ ([], rw e, tt)
  | inr e ↦ (b' ' ∷ [], rw e, (refl, tt))
]

module _ (doubles : Doubles) where
  open doubles use {Double}

  module _ (keys : KeyApi Bytes) (signed : Bool) (indent : ℤ) where
    abbrev pub FieldsParse : ℕ → Fields Double → Type 0
    FieldsParse fuel end = Unit
    FieldsParse fuel (field k v fs) = Parses doubles keys signed indent fuel v × FieldsParse fuel fs

    module _ (fuel : ℕ) (close : ℤ) (rest : Bytes) where
      abbrev nested : Parser Double → Parsed Double
      nested = parse_value doubles keys signed fuel

      -- What stands behind an entry of the object.
      abbrev after : ℤ → Fields Double → Bytes
      after level fs =
          fields_text doubles indent level false fs ++ (separator indent close ++ b'}' ∷ rest)

      -- The part of a round behind the key.
      object_value-Parses :
          (k v : Value Double) (t : Bytes) (level : ℤ) (top : ℕ)
          (go_on : Parser Double → Parsed Double) (c : Context) (items : List (Value Double))
          (entries : List (Value Double × Value Double)) (P : Parsed Double → Type 0)
          → Parses doubles keys signed indent fuel v
          → EndsNumber t
          → ((d : Context)
              → P (
                  object_next keys signed nested top go_on
                    (push_entry keys signed nested k v (state (put t d) items entries))))
          → P (
              object_value keys signed nested top go_on k (
                with_ctx skip_spaces (
                  state
                    (put (colon indent ++ (text doubles indent level v ++ t)) c)
                    items
                    entries)))
      object_value-Parses k v t level top go_on c items entries P h ends next =
          let (ws, e, blank) = colon-split indent in
          rw e (
            skip_spaces-state (λ q. P (object_value keys signed nested top go_on k q)) []
              (b':' ∷ (ws ++ (text doubles indent level v ++ t))) c items entries tt refl
              (λ d.
                unfold object_value in
                bind-ParsesTo P
                  (λ w r.
                    object_next keys signed nested top go_on (push_entry keys signed nested k w r))
                  v t items entries _
                  (h level ws t (advance (put (b':' ∷ []) d)) items entries blank ends) next))

      -- A round reads one key and its value, and goes on behind it.
      object_round-Parses :
          (s : Bytes) (v : Value Double) (t : Bytes) (level : ℤ) (top : ℕ)
          (go_on : Parser Double → Parsed Double) (c : Context) (items : List (Value Double))
          (entries : List (Value Double × Value Double)) (P : Parsed Double → Type 0)
          → All (IsReadable signed) s
          → Parses doubles keys signed indent fuel v
          → EndsNumber t
          → ((d : Context)
              → P (
                  object_next keys signed nested top go_on
                    (push_entry keys signed nested (string s) v (state (put t d) items entries))))
          → P (
              object_round keys signed nested top go_on (
                state
                  (put (escape_string s ++ (colon indent ++ (text doubles indent level v ++ t))) c)
                  items
                  entries))
      object_round-Parses s v t level top go_on c items entries P readable h ends next =
          let u = colon indent ++ (text doubles indent level v ++ t) in
          let p = state (put (escape_string s ++ u) c) items entries in
          let key =
            in_context-ParsesTo (string s) u p _
              (map_string-Reads Double s u _ (next_string-escape_string signed s u c readable)) in
          let rest_of_round : P (
              in_context p (map_string (next_string signed p.ctx)) >>= λ k q.
              object_value keys signed nested top go_on k (with_ctx skip_spaces q)) =
            bind-ParsesTo P
              (λ k q. object_value keys signed nested top go_on k (with_ctx skip_spaces q))
              (string s) u items entries _ key
              (λ d.
                object_value-Parses (string s) v t level top go_on d items entries P h ends next) in
          unfold object_round escape_string in rest_of_round

      make_object-made :
          (range : List (Value Double × Value Double)) (p : Parser Double) (fs : Fields Double)
          (P : Parsed Double → Type 0)
          → create_object keys range ≡ some fs
          → P (ok (object fs) p)
          → P (make_object keys signed nested range p)
      make_object-made range p fs P made h =
          subst
            (λ (o : Option (Fields Double)). P (elim o as (λ _. Parsed Double) [
              | none ↦ object_failed range
              | some gs ↦ ok (object gs) p
            ]))
            (sym made) h

      -- Behind the last entry the object is made of what lies on the stack above its start.
      object_next-close :
          (k v : Value Double) (fs : Fields Double) (go_on : Parser Double → Parsed Double)
          (c : Context) (items : List (Value Double))
          (base before : List (Value Double × Value Double))
          → create_object keys (before ++ (k, v) ∷ []) ≡ some fs
          → ParsesTo (object fs) rest items base (
              object_next keys signed nested (length base) go_on (
                push_entry keys signed nested k v
                  (state (put (separator indent close ++ b'}' ∷ rest) c) items (base ++ before))))
      object_next-close k v fs go_on c items base before made =
          let all = before ++ (k, v) ∷ [] in
          rw (append_assoc base before ((k, v) ∷ [])) (
            skip_spaces-state
              (λ q.
                ParsesTo (object fs) rest items base
                  (object_next keys signed nested (length base) go_on q))
              (separator indent close) (b'}' ∷ rest) c items (base ++ all)
              (separator-IsBlank doubles signed indent close) refl
              (λ d.
                unfold object_next in
                make_object-made _ _ fs (ParsesTo (object fs) rest items base)
                  (ap (create_object keys) (drop-append base all) ∙ made)
                  (refl, refl, refl, take-append base all)))

      -- Behind any other entry stands a comma, and the loop goes on at the next key.
      object_next-comma :
          (k v : Value Double) (s : Bytes) (w : Value Double) (fs : Fields Double) (level : ℤ)
          (top : ℕ) (go_on : Parser Double → Parsed Double) (c : Context)
          (items : List (Value Double)) (entries : List (Value Double × Value Double))
          (P : Parsed Double → Type 0)
          → ((d : Context)
              → P (
                  go_on (
                    state
                      (put
                        (escape_string s
                          ++ (colon indent ++ (text doubles indent level w ++ after level fs)))
                        d)
                      items
                      (entries ++ (k, v) ∷ []))))
          → P (
              object_next keys signed nested top go_on (
                push_entry keys signed nested k v
                  (state (put (after level (field (string s) w fs)) c) items entries)))
      unfolding text
      object_next-comma k v s w fs level top go_on c items entries P next =
          let t = text doubles indent level w in
          let ts = fields_text doubles indent level false fs in
          let sep = separator indent level in
          let end_text = separator indent close ++ b'}' ∷ rest in
          let entry = escape_string s ++ (colon indent ++ (t ++ ts)) in
          let e : (sep ++ entry) ++ end_text
              ≡ sep ++ (escape_string s ++ (colon indent ++ (t ++ (ts ++ end_text)))) =
            simp append_assoc in
          skip_spaces-state (λ q. P (object_next keys signed nested top go_on q)) []
            (b',' ∷ ((sep ++ entry) ++ end_text)) c items (entries ++ (k, v) ∷ []) tt refl
            (λ d.
              unfold object_next in
              rw e (
                skip_spaces-state (λ q. P (go_on q)) sep
                  (escape_string s ++ (colon indent ++ (t ++ (ts ++ end_text))))
                  (advance (put (b',' ∷ []) d)) items (entries ++ (k, v) ∷ [])
                  (separator-IsBlank doubles signed indent level) (unfold escape_string in refl)
                  next))

      pub object_loop-fields :
          (fs made : Fields Double) (k v : Value Double) (rounds : ℕ) (level : ℤ) (c : Context)
          (items : List (Value Double)) (base before : List (Value Double × Value Double))
          → FieldsParse fuel (field k v fs)
          → HaveReadable doubles signed (field k v fs)
          → length (fields_list fs) < rounds
          → create_object keys (before ++ (k, v) ∷ fields_list fs) ≡ some made
          → ParsesTo (object made) rest items base (
              object_loop keys signed nested rounds (length base) (
                state
                  (put
                    (key_text k
                      ++ (colon indent ++ (text doubles indent level v ++ after level fs)))
                    c)
                  items
                  (base ++ before)))
      unfolding object_loop
      object_loop-fields fs made k v zero level c items base before h r enough m =
          absurd (omega arith)
      object_loop-fields end made (string s) v (suc n) level c items base before h r enough m =
          object_round-Parses s v (after level end) level (length base)
            (object_loop keys signed nested n (length base)) c items (base ++ before)
            (ParsesTo (object made) rest items base) r.0 h.0
            (fields_text-EndsNumber doubles signed indent end level close rest)
            (λ d.
              unfold text in
              object_next-close (string s) v made (object_loop keys signed nested n (length base)) d
                items base before m)
      object_loop-fields (field (string s') w fs) made (string s) v (suc n) level c items base
            before h r enough m =
          let P = ParsesTo (object made) rest items base in
          let go_on = object_loop keys signed nested n (length base) in
          let rest_of = colon indent ++ (text doubles indent level w ++ after level fs) in
          let later : (d : Context)
              → P (
                  go_on (
                    state (put (escape_string s' ++ rest_of) d) items
                      ((base ++ before) ++ (string s, v) ∷ []))) =
            λ d. rw (append_assoc base before ((string s, v) ∷ [])) (
              object_loop-fields fs made (string s') w n level d items base
                (before ++ (string s, v) ∷ []) h.1 r.2 (omega arith)
                (rw (append_assoc before ((string s, v) ∷ []) ((string s', w) ∷ fields_list fs))
                  m)) in
          object_round-Parses s v (after level (field (string s') w fs)) level (length base) go_on c
            items (base ++ before) P r.0 h.0
            (fields_text-EndsNumber doubles signed indent (field (string s') w fs) level close rest)
            (λ d.
              object_next-comma (string s) v s' w fs level (length base) go_on d items
                (base ++ before) P later)
      object_loop-fields (field k' w fs) made (string s) v (suc n) level c items base before h r
            enough m =
          absurd r.2.0
      object_loop-fields fs made k v (suc n) level c items base before h r enough m = absurd r.0
