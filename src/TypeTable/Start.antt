-- ===== src/TypeTable/Start.antt =====
-- src/ffi/object.cpp: the constructor of `TypeTable`, which registers Object and the built-in types. The
-- metadata of Object is a local variable one of whose members is not set: it is the parameter `unset`.
pub mod Rooted
use litetvm_ffi.Prelude.{ℕ, true, false, none, some, List, [], ◌∷◌, Bytes, codes}
use litetvm_ffi.Map.Assoc.{KeyApi}
use litetvm_ffi.TypeTable.Result.{Action, ◌>>◌, pure}
use litetvm_ffi.TypeTable.{Request, dyn_object_begin, get_or_alloc_type_index}
use litetvm_ffi.TypeTable.Members.{Registry, on_types, register_type_metadata}

-- The members before the constructor's body, and the places that its loop adds
abbrev pub no_types : {V : Type 0} → Registry Bytes V
no_types = record {
  types = record {
    type_counter = dyn_object_begin;
    size = dyn_object_begin;
    entry = λ _. none;
    type_key2index = [];
  };
  any_pool = [];
  type_attr_columns = [];
  type_attr_name_to_column_index = [];
}

-- The call for Object
abbrev pub object_request : Request Bytes
object_request = record {
  type_key = codes "ffi.Object";
  static_type_index = some 64;
  type_depth = 0;
  num_child_slots = 0;
  child_slots_can_overflow = true;
  parent_type_index = none;
}

-- `ReserveBuiltinTypeIndex`
abbrev pub builtin_request : Bytes → ℕ → Request Bytes
builtin_request key i = record {
  type_key = key;
  static_type_index = some i;
  type_depth = 0;
  num_child_slots = 0;
  child_slots_can_overflow = false;
  parent_type_index = none;
}

-- The calls of it, in their order
abbrev pub builtin_types : List (Bytes × ℕ)
builtin_types =
    (codes "None", 0)
    ∷ (codes "int", 1)
    ∷ (codes "float", 3)
    ∷ (codes "bool", 2)
    ∷ (codes "const char*", 8)
    ∷ (codes "void*", 4)
    ∷ (codes "DataType", 5)
    ∷ (codes "Device", 6)
    ∷ (codes "TVMFFIByteArray*", 9)
    ∷ (codes "ObjectRValueRef", 10)
    ∷ (codes "ffi.SmallStr", 11)
    ∷ (codes "ffi.SmallBytes", 12)
    ∷ []

abbrev pub opaque_py_request : Request Bytes
opaque_py_request = record {
  type_key = codes "ffi.OpaquePyObject";
  static_type_index = some 74;
  type_depth = 1;
  num_child_slots = 0;
  child_slots_can_overflow = false;
  parent_type_index = some 64;
}

module _ {V : Type 0} (keys : KeyApi Bytes) where
  unfoldable pub reserve_builtins : List (Bytes × ℕ) → Action (Registry Bytes V) (Unit {0})
  reserve_builtins [] = pure tt
  reserve_builtins ((key, i) ∷ rest) =
      on_types (get_or_alloc_type_index keys (builtin_request key i)) >> reserve_builtins rest

  -- `TypeTable::TypeTable`, with the size of Object
  unfoldable pub new_type_table : ℕ → ℕ → Action (Registry Bytes V) (Unit {0})
  unfolding reserve_builtins
  new_type_table object_size unset = do
    on_types (get_or_alloc_type_index keys object_request)
    register_type_metadata 64 (record {
      doc = [];
      creator = 0;
      total_size = object_size;
      structural_eq_hash_kind = unset;
    })
    reserve_builtins builtin_types
    on_types (get_or_alloc_type_index keys opaque_py_request)
    pure tt
