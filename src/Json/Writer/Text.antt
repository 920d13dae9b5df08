-- ===== src/Json/Writer/Text.antt =====
-- The text that `JSONWriter` is to write, by recursion on the value, and that it writes it.
use litetvm_ffi.Prelude.{
  ℕ, [], ◌∷◌, ◌++◌, Bool, true, false, Bytes, codes, replicate, if◌then◌else◌, ◌≡◌, refl, sym, ap,
  append_assoc, append-nil, inl, inr, Bool-cases,
}
use litetvm_ffi.Prelude.Int.{ℤ, pos, ◌+ℤ◌, is_zero, pos_part, +ℤ_cancel}
use litetvm_ffi.Json.Decimal.{print_int}
use litetvm_ffi.Json.Escape.{escape_string}
use litetvm_ffi.Json.Value.{
  Value, null, boolean, int, float, string, array, object, other, Items, nil, cons, Fields, end,
  field, Doubles,
}
use litetvm_ffi.Json.Writer.{
  Writer, ok, write_indent, maybe_indent, open_bracket, close_bracket, maybe_comma, float_text,
  write_key, write_value, write_items, write_fields, stringify,
}

-- A line break and the indentation of a level; nothing if the indent is zero.
unfoldable pub separator : ℤ → ℤ → Bytes
separator indent level = if is_zero indent then [] else 10 ∷ replicate (pos_part level) b' '

-- The level inside a bracket.
abbrev pub deeper : ℤ → ℤ → ℤ
deeper indent level = if is_zero indent then level else level +ℤ indent

abbrev pub comma : Bool → Bytes
comma first = if first then [] else b',' ∷ []

unfoldable pub colon : ℤ → Bytes
colon indent = if is_zero indent then b':' ∷ [] else b':' ∷ b' ' ∷ []

abbrev pub key_text : {D : Type 0} → Value D → Bytes
key_text (string s) = escape_string s
key_text k = []

module _ (doubles : Doubles) (indent : ℤ) where
  open doubles use {Double}

  unfoldable mutual
    pub text : ℤ → Value Double → Bytes
    text level null = codes "null"
    text level (boolean true) = codes "true"
    text level (boolean false) = codes "false"
    text level (int z) = print_int z
    text level (float d) = float_text doubles d
    text level (string s) = escape_string s
    text level (array vs) =
        b'[' ∷ (items_text (deeper indent level) true vs ++ (separator indent level ++ b']' ∷ []))
    text level (object fs) =
        b'{' ∷ (fields_text (deeper indent level) true fs ++ (separator indent level ++ b'}' ∷ []))
    text level (other i) = []

    pub items_text : ℤ → Bool → Items Double → Bytes
    items_text level first nil = []
    items_text level first (cons v vs) =
        comma first ++ (separator indent level ++ (text level v ++ items_text level false vs))

    pub fields_text : ℤ → Bool → Fields Double → Bytes
    fields_text level first end = []
    fields_text level first (field k v fs) =
        comma first
        ++ (separator indent level
            ++ (key_text k ++ (colon indent ++ (text level v ++ fields_text level false fs))))

-- A key that is a string.
abbrev pub IsString : {D : Type 0} → Value D → Type 0
IsString (string s) = Unit
IsString v = ⊥

-- A value that JSON has a notation for: no value of another type, and strings for keys.
abbrev mutual
  pub IsPrintable : {D : Type 0} → Value D → Type 0
  IsPrintable (array vs) = ArePrintable vs
  IsPrintable (object fs) = HavePrintable fs
  IsPrintable (other i) = ⊥
  IsPrintable v = Unit

  pub ArePrintable : {D : Type 0} → Items D → Type 0
  ArePrintable nil = Unit
  ArePrintable (cons v vs) = IsPrintable v × ArePrintable vs

  pub HavePrintable : {D : Type 0} → Fields D → Type 0
  HavePrintable end = Unit
  HavePrintable (field k v fs) = IsString k × IsPrintable v × HavePrintable fs

abbrev writer : ℤ → ℤ → Bytes → Writer
writer indent level out = record { indent = indent; total_indent = level; result = out }

module _ (indent level : ℤ) (out : Bytes) where
  maybe_indent-separator :
      maybe_indent (writer indent level out) ≡ writer indent level (out ++ separator indent level)
  unfolding maybe_indent write_indent separator
  maybe_indent-separator = elim (Bool-cases (is_zero indent)) [
    | inl e ↦ rw e (ap (writer indent level) (sym (append-nil out)))
    | inr e ↦ rw e
  ]

  maybe_comma-comma :
      (first : Bool)
      → maybe_comma first (writer indent level out) ≡ writer indent level (out ++ comma first)
  maybe_comma-comma true = ap (writer indent level) (sym (append-nil out))
  maybe_comma-comma false = refl

  open_bracket-deeper :
      (x : ℕ)
      → open_bracket x (writer indent level out)
        ≡ writer indent (deeper indent level) (out ++ x ∷ [])
  unfolding open_bracket
  open_bracket-deeper x = elim (Bool-cases (is_zero indent)) [ inl e ↦ rw e | inr e ↦ rw e ]

  close_bracket-deeper :
      (x : ℕ)
      → close_bracket x (writer indent (deeper indent level) out)
        ≡ writer indent level (out ++ (separator indent level ++ x ∷ []))
  unfolding close_bracket write_indent separator
  close_bracket-deeper x = elim (Bool-cases (is_zero indent)) [
    | inl e ↦ rw e
    | inr e ↦ rw (e, +ℤ_cancel level indent) (rw append_assoc)
  ]

  write_key-text :
      {D : Type 0} (k : Value D)
      → IsString k
      → write_key k (writer indent level out)
        ≡ ok (writer indent level (out ++ (key_text k ++ colon indent)))
  unfolding write_key colon
  write_key-text (string s) h = elim (Bool-cases (is_zero indent)) [
    | inl e ↦ rw e (rw append_assoc)
    | inr e ↦ rw e (simp append_assoc)
  ]
  write_key-text null h = absurd h
  write_key-text k h = absurd h

module _ (doubles : Doubles) (indent : ℤ) where
  open doubles use {Double}

  mutual
    unfolding write_value text

    write_value-text :
        (v : Value Double) (level : ℤ) (out : Bytes)
        → IsPrintable v
        → write_value doubles v (writer indent level out)
          ≡ ok (writer indent level (out ++ text doubles indent level v))
    write_value-text null level out h = refl
    write_value-text (boolean true) level out h = refl
    write_value-text (boolean false) level out h = refl
    write_value-text (int z) level out h = refl
    write_value-text (float d) level out h = refl
    write_value-text (string s) level out h = refl
    write_value-text (array vs) level out h = rw (open_bracket-deeper indent level out b'[') (
        rw (write_items-text vs (deeper indent level) true (out ++ b'[' ∷ []) h)
          (rw (close_bracket-deeper indent level _ b']') (simp append_assoc)))
    write_value-text (object fs) level out h = rw (open_bracket-deeper indent level out b'{') (
        rw (write_fields-text fs (deeper indent level) true (out ++ b'{' ∷ []) h)
          (rw (close_bracket-deeper indent level _ b'}') (simp append_assoc)))
    write_value-text (other i) level out h = absurd h

    write_items-text :
        (vs : Items Double) (level : ℤ) (first : Bool) (out : Bytes)
        → ArePrintable vs
        → write_items doubles vs first (writer indent level out)
          ≡ ok (writer indent level (out ++ items_text doubles indent level first vs))
    write_items-text nil level first out h =
        ap (λ t. ok (writer indent level t)) (sym (append-nil out))
    write_items-text (cons v vs) level first out h =
        rw (maybe_comma-comma indent level out first, maybe_indent-separator indent level _)
          (rw (write_value-text v level _ h.0)
            (rw (write_items-text vs level false _ h.1) (simp append_assoc)))

    write_fields-text :
        (fs : Fields Double) (level : ℤ) (first : Bool) (out : Bytes)
        → HavePrintable fs
        → write_fields doubles fs first (writer indent level out)
          ≡ ok (writer indent level (out ++ fields_text doubles indent level first fs))
    write_fields-text end level first out h =
        ap (λ t. ok (writer indent level t)) (sym (append-nil out))
    write_fields-text (field k v fs) level first out h =
        rw
          (
            maybe_comma-comma indent level out first,
            maybe_indent-separator indent level _,
            write_key-text indent level _ k h.0,
          )
          (rw (write_value-text v level _ h.1)
            (rw (write_fields-text fs level false _ h.2) (simp append_assoc)))

  -- The writer writes the text of every printable value, with every indent.
  pub stringify-text :
      (v : Value Double)
      → IsPrintable v
      → stringify doubles v indent
        ≡ ok (record {
          indent = indent;
          total_indent = pos 0;
          result = text doubles indent (pos 0) v;
        })
  unfolding stringify
  stringify-text v h = write_value-text v (pos 0) [] h
