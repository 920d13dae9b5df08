-- ===== src/Json/Parser/Readable.antt =====
-- The values that are read back.
use litetvm_ffi.Prelude.{ℕ, suc, ◌<◌, length, [], ◌∷◌, ◌++◌, Bool, refl, Bytes, All}
use Prim.Native.Nat.{max}
use litetvm_ffi.Prelude.Int.{ℤ}
use litetvm_ffi.Json.Decimal.{IsInt64, print_int}
use litetvm_ffi.Json.Number.Text.{IsNumberText}
use litetvm_ffi.Json.Number.RoundTrip.{
  IsReadableDouble, is_the_nan, is_the_infinity, is_the_neg_infinity, is_finite,
  print_int-IsNumberText, float_text-nan, float_text-infinity, float_text-neg_infinity,
}
use litetvm_ffi.Json.Parser.Steps.{StartsValue, StartsNumber, number_char-start}
use litetvm_ffi.Json.Strings.Rounds.{IsReadable}
use litetvm_ffi.Json.Value.{
  Value, null, boolean, int, float, string, array, object, other, Items, nil, cons, Fields, end,
  field, Doubles, DistinctKeys, fields_list,
}
use litetvm_ffi.Json.Writer.{float_text}
use litetvm_ffi.Json.Writer.Text.{IsPrintable, ArePrintable, HavePrintable, IsString}

-- How deep a value is nested.
abbrev mutual
  pub depth : {D : Type 0} → Value D → ℕ
  depth (array vs) = suc (items_depth vs)
  depth (object fs) = suc (fields_depth fs)
  depth v = 0

  pub items_depth : {D : Type 0} → Items D → ℕ
  items_depth nil = 0
  items_depth (cons v vs) = max (depth v) (items_depth vs)

  pub fields_depth : {D : Type 0} → Fields D → ℕ
  fields_depth end = 0
  fields_depth (field k v fs) = max (depth v) (fields_depth fs)

abbrev pub IsReadableKey : {D : Type 0} → Bool → Value D → Type 0
IsReadableKey signed (string s) = All (IsReadable signed) s
IsReadableKey signed k = ⊥

-- No key comes twice, and the map has the small layout.
abbrev pub HasFewKeys : {D : Type 0} → Fields D → Type 0
HasFewKeys fs = DistinctKeys (fields_list fs) × (length (fields_list fs) < 4)

module _ (doubles : Doubles) (signed : Bool) where
  open doubles use {Double}

  -- A value that is read back as it was: 64-bit integers, doubles that are read back, strings of
  -- readable bytes, and objects of at most three entries whose keys are such strings, none of them twice.
  abbrev mutual
    pub IsReadableValue : Value Double → Type 0
    IsReadableValue (int z) = IsInt64 z
    IsReadableValue (float d) = IsReadableDouble doubles d
    IsReadableValue (string s) = All (IsReadable signed) s
    IsReadableValue (array vs) = AreReadable vs
    IsReadableValue (object fs) = HaveReadable fs × HasFewKeys fs
    IsReadableValue (other i) = ⊥
    IsReadableValue v = Unit

    pub AreReadable : Items Double → Type 0
    AreReadable nil = Unit
    AreReadable (cons v vs) = IsReadableValue v × AreReadable vs

    pub HaveReadable : Fields Double → Type 0
    HaveReadable end = Unit
    HaveReadable (field k v fs) = IsReadableKey signed k × IsReadableValue v × HaveReadable fs

  key-IsString : (k : Value Double) → IsReadableKey signed k → IsString k
  key-IsString (string s) h = tt
  key-IsString null h = absurd h
  key-IsString k h = absurd h

  -- Such a value is printed.
  mutual
    pub IsReadableValue-IsPrintable : (v : Value Double) → IsReadableValue v → IsPrintable v
    IsReadableValue-IsPrintable (array vs) h = AreReadable-ArePrintable vs h
    IsReadableValue-IsPrintable (object fs) h = HaveReadable-HavePrintable fs h.0
    IsReadableValue-IsPrintable (other i) h = h
    IsReadableValue-IsPrintable null h = tt
    IsReadableValue-IsPrintable (boolean b) h = tt
    IsReadableValue-IsPrintable (int z) h = tt
    IsReadableValue-IsPrintable (float d) h = tt
    IsReadableValue-IsPrintable (string s) h = tt

    AreReadable-ArePrintable : (vs : Items Double) → AreReadable vs → ArePrintable vs
    AreReadable-ArePrintable nil h = tt
    AreReadable-ArePrintable (cons v vs) h =
        (IsReadableValue-IsPrintable v h.0, AreReadable-ArePrintable vs h.1)

    HaveReadable-HavePrintable : (fs : Fields Double) → HaveReadable fs → HavePrintable fs
    HaveReadable-HavePrintable end h = tt
    HaveReadable-HavePrintable (field k v fs) h =
        (key-IsString k h.0, IsReadableValue-IsPrintable v h.1, HaveReadable-HavePrintable fs h.2)

  number_text-start : (s : Bytes) → IsNumberText s → StartsNumber s
  number_text-start [] h = h
  number_text-start (x ∷ []) h = number_char-start x h.0
  number_text-start (x ∷ y ∷ s) h = number_char-start x h.0

  pub print_int-StartsNumber : (z : ℤ) → StartsNumber (print_int z)
  print_int-StartsNumber z = number_text-start (print_int z) (print_int-IsNumberText z).0

  pub float_text-StartsNumber :
      (d : Double) → IsReadableDouble doubles d → StartsNumber (float_text doubles d)
  float_text-StartsNumber d (is_the_nan a e) =
      rw (float_text-nan doubles d a) ((refl, refl, refl, refl, refl, refl), (refl, refl, refl))
  float_text-StartsNumber d (is_the_infinity a b n e) =
      rw (float_text-infinity doubles d a b n)
        ((refl, refl, refl, refl, refl, refl), (refl, refl, refl))
  float_text-StartsNumber d (is_the_neg_infinity a b n e) =
      rw (float_text-neg_infinity doubles d a b n)
        ((refl, refl, refl, refl, refl, refl), (refl, refl, refl))
  float_text-StartsNumber d (is_finite a b t p r) = number_text-start _ t

  pub StartsNumber-StartsValue : (s rest : Bytes) → StartsNumber s → StartsValue (s ++ rest)
  StartsNumber-StartsValue [] rest h = absurd h
  StartsNumber-StartsValue (x ∷ s) rest h = h.1
