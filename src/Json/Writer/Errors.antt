-- ===== src/Json/Writer/Errors.antt =====
-- What `JSONWriter` refuses: values of other types, and keys that are no strings, wherever they stand.
use litetvm_ffi.Prelude.{Bool, true, false, ◌≡◌, ◌↔◌, subst, sym}
use litetvm_ffi.Prelude.Int.{ℤ}
use litetvm_ffi.Json.Value.{
  Value, null, boolean, int, float, string, array, object, other, Items, nil, cons, Fields, end,
  field, Doubles,
}
use litetvm_ffi.Json.Writer.{
  Writer, Written, ok, unsupported_type, key_not_string, ◌>>=◌, maybe_indent, open_bracket,
  maybe_comma, write_key, write_value, write_items, write_fields, stringify,
}
use litetvm_ffi.Json.Writer.Text.{
  IsString, IsPrintable, ArePrintable, HavePrintable, stringify-text,
}

abbrev Succeeds : Written → Type 0
Succeeds (ok w) = Unit
Succeeds unsupported_type = ⊥
Succeeds key_not_string = ⊥

bind-Succeeds :
    (r : Written) (f : Writer → Written)
    → Succeeds (r >>= f)
    → Succeeds r × ((w : Writer) × Succeeds (f w))
bind-Succeeds (ok w) f h = (tt, (w, h))
bind-Succeeds unsupported_type f h = absurd h
bind-Succeeds key_not_string f h = absurd h

write_key-Succeeds : {D : Type 0} (k : Value D) (w : Writer) → Succeeds (write_key k w) → IsString k
unfolding write_key
write_key-Succeeds (string s) w h = tt
write_key-Succeeds null w h = h
write_key-Succeeds (boolean b) w h = h
write_key-Succeeds (int z) w h = h
write_key-Succeeds (float d) w h = h
write_key-Succeeds (array vs) w h = h
write_key-Succeeds (object fs) w h = h
write_key-Succeeds (other i) w h = h

module _ (doubles : Doubles) where
  open doubles use {Double}

  mutual
    unfolding write_value

    write_value-Succeeds :
        (v : Value Double) (w : Writer) → Succeeds (write_value doubles v w) → IsPrintable v
    write_value-Succeeds null w h = tt
    write_value-Succeeds (boolean b) w h = tt
    write_value-Succeeds (int z) w h = tt
    write_value-Succeeds (float d) w h = tt
    write_value-Succeeds (string s) w h = tt
    write_value-Succeeds (array vs) w h =
        write_items-Succeeds vs true (open_bracket b'[' w) (bind-Succeeds _ _ h).0
    write_value-Succeeds (object fs) w h =
        write_fields-Succeeds fs true (open_bracket b'{' w) (bind-Succeeds _ _ h).0
    write_value-Succeeds (other i) w h = h

    write_items-Succeeds :
        (vs : Items Double) (first : Bool) (w : Writer)
        → Succeeds (write_items doubles vs first w)
        → ArePrintable vs
    write_items-Succeeds nil first w h = tt
    write_items-Succeeds (cons v vs) first w h =
        let (one, (u, others)) =
          bind-Succeeds (write_value doubles v (maybe_indent (maybe_comma first w)))
            (write_items doubles vs false) h in
        (write_value-Succeeds v _ one, write_items-Succeeds vs false u others)

    write_fields-Succeeds :
        (fs : Fields Double) (first : Bool) (w : Writer)
        → Succeeds (write_fields doubles fs first w)
        → HavePrintable fs
    write_fields-Succeeds end first w h = tt
    write_fields-Succeeds (field k v fs) first w h =
        let key = write_key k (maybe_indent (maybe_comma first w)) in
        let (entry, (u, others)) =
          bind-Succeeds (key >>= write_value doubles v) (write_fields doubles fs false) h in
        let (named, (t, valued)) = bind-Succeeds key (write_value doubles v) entry in
        (
          write_key-Succeeds k _ named,
          write_value-Succeeds v t valued,
          write_fields-Succeeds fs false u others,
        )

  -- The writer writes a text exactly for the values that JSON has a notation for: in every other case,
  -- a value of another type or a key that is no string, however deep, it throws.
  pub stringify_iff :
      (v : Value Double) (indent : ℤ)
      → ((w : Writer) × (stringify doubles v indent ≡ ok w)) ↔ IsPrintable v
  unfolding stringify
  stringify_iff v indent = (
    λ h. write_value-Succeeds v _ (subst Succeeds (sym h.1) tt),
    λ h. (_, stringify-text doubles indent v h),
  )
