-- ===== src/TypeTable/Tests.antt =====
-- Runs of the type table, and the theorems at concrete inputs.
use litetvm_ffi.Prelude.{
  ℕ, suc, ◌+◌, Bool, true, false, none, some, [], ◌∷◌, ◌++◌, ◌≡◌, ◌↔◌, refl, arith, ◌==◌, ==_iff,
  inr,
}
use litetvm_ffi.Map.Assoc.{KeyApi, lookup, upsert}
use litetvm_ffi.TypeTable.Result.{ok}
use litetvm_ffi.TypeTable.{
  Entry, TypeTable, Request, new_entry, get_or_alloc_type_index, type_key_to_index,
}
use litetvm_ffi.TypeTable.Valid.{IsValid}
use litetvm_ffi.TypeTable.Growth.{Grows}
use litetvm_ffi.TypeTable.Invariant.{
  IsDeclared, get_or_alloc_type_index-IsValid, get_or_alloc_type_index-Grows,
}
use litetvm_ffi.TypeTable.Instance.{Target, Derives, IsRegistered, is_object_instance}
use litetvm_ffi.TypeTable.Derives.{is_object_instance-Derives}
use litetvm_ffi.TypeTable.Registered.{IsReady, get_or_alloc_type_index-new}

-- Numbers as keys
abbrev pub numbers : KeyApi ℕ
numbers = record { any_equal = λ a b. a == b; any_equal_iff = ==_iff; any_hash = λ a. a }

abbrev Table : Type 0
Table = TypeTable ℕ ℕ ℕ ℕ

abbrev empty : Table
empty = record { type_counter = 128; size = 128; entry = λ _. none; type_key2index = [] }

empty-IsValid : IsValid empty
empty-IsValid = record {
  full = refl;
  begun = omega arith;
  small = omega arith;
  placed = λ i e there. absurd (cc there);
  apart = λ i j a b there. absurd (cc there);
  ancestors = λ i e there. absurd (cc there);
}

-- Object, a class below it with two slots for others, and two classes below that: one with a slot for
-- another, which takes the slots of its parent, and one that overflows
abbrev object : Request ℕ
object = record {
  type_key = 1;
  static_type_index = some 64;
  type_depth = 0;
  num_child_slots = 0;
  child_slots_can_overflow = true;
  parent_type_index = none;
}

abbrev dynamic : ℕ → ℕ → ℕ → ℕ → Request ℕ
dynamic key depth slots parent = record {
  type_key = key;
  static_type_index = none;
  type_depth = depth;
  num_child_slots = slots;
  child_slots_can_overflow = true;
  parent_type_index = some parent;
}

object-IsDeclared : IsDeclared empty object
object-IsDeclared = record {
  flat = λ _. refl;
  built_in = λ i e. let same : 64 ≡ i = cc in omega (arith, same);
  leaf = λ _ _. refl;
  open_parent = λ i o p e parent. absurd (cc parent);
}

dynamic-IsDeclared :
    (t : Table) (key depth slots parent : ℕ) → IsDeclared t (dynamic key (suc depth) slots parent)
dynamic-IsDeclared t key depth slots parent = record {
  flat = λ e. absurd (omega (arith, e));
  built_in = λ i e. absurd (cc e);
  leaf = λ i e. absurd (cc e);
  open_parent = λ i o p e. absurd (cc e);
}

abbrev base : Request ℕ
base = dynamic 2 1 2 64

abbrev pooled : Request ℕ
pooled = dynamic 3 2 1 128

abbrev overflowed : Request ℕ
overflowed = dynamic 4 2 0 128

abbrev alloc : Request ℕ → Table → Table
alloc r t = (get_or_alloc_type_index numbers r t).1

abbrev with_object : Table
with_object = alloc object empty

abbrev with_base : Table
with_base = alloc base with_object

abbrev with_pooled : Table
with_pooled = alloc pooled with_base

abbrev with_all : Table
with_all = alloc overflowed with_pooled

indices :
    ((get_or_alloc_type_index numbers base with_object).0 ≡ ok 128)
    × ((get_or_alloc_type_index numbers pooled with_base).0 ≡ ok 129)
    × ((get_or_alloc_type_index numbers overflowed with_pooled).0 ≡ ok 131)
unfolding get_or_alloc_type_index lookup upsert
indices = (refl, refl, refl)

with_object-IsValid : IsValid with_object
with_object-IsValid =
    get_or_alloc_type_index-IsValid numbers empty object object-IsDeclared empty-IsValid

with_base-IsValid : IsValid with_base
with_base-IsValid =
    get_or_alloc_type_index-IsValid numbers with_object base
      (dynamic-IsDeclared with_object 2 0 2 64) with_object-IsValid

with_pooled-IsValid : IsValid with_pooled
with_pooled-IsValid =
    get_or_alloc_type_index-IsValid numbers with_base pooled
      (dynamic-IsDeclared with_base 3 1 1 128) with_base-IsValid

get_or_alloc_type_index-IsValid_example :
    IsValid (get_or_alloc_type_index numbers overflowed with_pooled).1
get_or_alloc_type_index-IsValid_example =
    get_or_alloc_type_index-IsValid numbers with_pooled overflowed
      (dynamic-IsDeclared with_pooled 4 1 0 128) with_pooled-IsValid

with_all-IsValid : IsValid with_all
with_all-IsValid =
    get_or_alloc_type_index-IsValid numbers with_pooled overflowed
      (dynamic-IsDeclared with_pooled 4 1 0 128) with_pooled-IsValid

get_or_alloc_type_index-Grows_example :
    Grows with_pooled (get_or_alloc_type_index numbers overflowed with_pooled).1
get_or_alloc_type_index-Grows_example =
    get_or_alloc_type_index-Grows numbers with_pooled overflowed
      (dynamic-IsDeclared with_pooled 4 1 0 128) with_pooled-IsValid

-- The entries
abbrev object_entry : Entry ℕ ℕ ℕ ℕ
object_entry = new_entry object none 64 1 []

abbrev base_entry : ℕ → Entry ℕ ℕ ℕ ℕ
base_entry n =
    let e : Entry ℕ ℕ ℕ ℕ = new_entry base (some object_entry) 128 3 (64 ∷ []) in
    record e { allocated_slots = n }

abbrev overflowed_entry : Entry ℕ ℕ ℕ ℕ
overflowed_entry = new_entry overflowed (some (base_entry 3)) 131 1 (64 ∷ 128 ∷ [])

-- The class that was registered as `base`
abbrev base_class : Target
base_class = record {
  runtime_type_index = 128;
  type_depth = 1;
  type_child_slots = 2;
  type_child_slots_can_overflow = true;
  is_object = false;
  type_final = false;
}

base-IsRegistered : IsRegistered with_all base_class (base_entry 3)
unfolding get_or_alloc_type_index lookup upsert
base-IsRegistered = record {
  there = refl;
  depth = refl;
  slots = refl;
  overflow = λ e. absurd (cc e);
}

overflowed_there : with_all.entry 131 ≡ some overflowed_entry
unfolding get_or_alloc_type_index lookup upsert
overflowed_there = refl

-- The type at 131 stands outside of the class's range.
is_object_instance-Derives_example :
    (r : Bool) × (is_object_instance base_class 131 with_all ≡ (ok r, with_all))
    × ((r ≡ true) ↔ Derives with_all 128 131)
is_object_instance-Derives_example =
    is_object_instance-Derives with_all with_all-IsValid base_class (base_entry 3) base-IsRegistered
      131 overflowed_entry overflowed_there refl (λ e. absurd (cc e))

overflowed_is_base : (is_object_instance base_class 131 with_all).0 ≡ ok true
unfolding is_object_instance get_or_alloc_type_index lookup upsert
overflowed_is_base = refl

base_there : with_pooled.entry 128 ≡ some (base_entry 3)
unfolding get_or_alloc_type_index lookup upsert
base_there = refl

overflowed-IsReady : IsReady with_pooled overflowed 128 (base_entry 3)
unfolding get_or_alloc_type_index lookup upsert
overflowed-IsReady = record {
  dynamic = refl;
  parent = refl;
  there = refl;
  deep = refl;
  room = inr refl;
  small = omega arith;
}

new_key : lookup numbers 4 with_pooled.type_key2index ≡ none
unfolding get_or_alloc_type_index lookup upsert
new_key = refl

get_or_alloc_type_index-new_example :
    (i : ℕ) × (u : Table) × (get_or_alloc_type_index numbers overflowed with_pooled ≡ (ok i, u))
    × (u.entry i
        ≡ some (new_entry overflowed (some (base_entry 3)) i (0 + 1) ((64 ∷ []) ++ 128 ∷ [])))
    × (type_key_to_index numbers 4 u ≡ (ok i, u))
get_or_alloc_type_index-new_example =
    get_or_alloc_type_index-new with_pooled overflowed 128 (base_entry 3) with_pooled-IsValid
      overflowed-IsReady numbers new_key
