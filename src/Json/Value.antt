-- ===== src/Json/Value.antt =====
-- `json::Value`, which is `Any`, and what the JSON code takes from elsewhere: the C library's `double`.
use litetvm_ffi.Prelude.{ℕ, List, [], ◌∷◌, Bool, Option, ◌≡◌, ◌≢◌, refl, ap, Bytes}
use litetvm_ffi.Prelude.Int.{ℤ}

-- The values by their type index. A key of an object is any value; only the writer asks for a string.
-- `other` is a value of a type that JSON has no notation for, by its type index.
mutual
  pub data Value (D : Type 0) : Type 0 where
    null : Value D
    boolean : Bool → Value D
    int : ℤ → Value D
    float : D → Value D
    string : Bytes → Value D
    array : Items D → Value D
    object : Fields D → Value D
    other : ℕ → Value D

  -- `json::Array`
  pub data Items (D : Type 0) : Type 0 where
    nil : Items D
    cons : Value D → Items D → Items D

  -- `json::Object`, in the order of its iterator
  pub data Fields (D : Type 0) : Type 0 where
    end : Fields D
    field : Value D → Value D → Fields D → Fields D

abbrev pub items_of : {D : Type 0} → List (Value D) → Items D
items_of [] = nil
items_of (v ∷ vs) = cons v (items_of vs)

abbrev pub fields_of : {D : Type 0} → List (Value D × Value D) → Fields D
fields_of [] = end
fields_of ((k, v) ∷ kvs) = field k v (fields_of kvs)

-- `double`, and what the C library computes with it: `std::isnan`, `std::isinf`, `value < 0`, the test
-- that the value is an integer below 2 ^ 53, "%.1f" and "%.17g", and `strtod`, with `none` where
-- `errno` is set or the text is not read to its end.
pub record Doubles : Type 1 where
  pub Double : Type 0
  pub infinity : Double
  pub neg_infinity : Double
  pub nan : Double
  pub is_nan : Double → Bool
  pub is_inf : Double → Bool
  pub is_negative : Double → Bool
  pub is_small_integer : Double → Bool
  pub print_fixed : Double → Bytes
  pub print_general : Double → Bytes
  pub strtod : Bytes → Option Double

-- `key` is the key of none of the entries.
abbrev pub Absent : {D : Type 0} → Value D → List (Value D × Value D) → Type 0
Absent key [] = Unit
Absent key ((k, v) ∷ kvs) = (k ≢ key) × Absent key kvs

abbrev pub DistinctKeys : {D : Type 0} → List (Value D × Value D) → Type 0
DistinctKeys [] = Unit
DistinctKeys ((k, v) ∷ kvs) = Absent k kvs × DistinctKeys kvs

abbrev pub items_list : {D : Type 0} → Items D → List (Value D)
items_list nil = []
items_list (cons v vs) = v ∷ items_list vs

abbrev pub fields_list : {D : Type 0} → Fields D → List (Value D × Value D)
fields_list end = []
fields_list (field k v fs) = (k, v) ∷ fields_list fs

pub items_of-items_list : {D : Type 0} (vs : Items D) → items_of (items_list vs) ≡ vs
items_of-items_list nil = refl
items_of-items_list (cons v vs) = ap (cons v) (items_of-items_list vs)

pub fields_of-fields_list : {D : Type 0} (fs : Fields D) → fields_of (fields_list fs) ≡ fs
fields_of-fields_list end = refl
fields_of-fields_list (field k v fs) = ap (field k v) (fields_of-fields_list fs)
