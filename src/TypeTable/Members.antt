-- ===== src/TypeTable/Members.antt =====
-- src/ffi/object.cpp: what the reflection registers of a type: its fields, methods and metadata, and the
-- columns of attributes. Texts are copied into a pool that only grows, so that a pointer stays good; a
-- pointer to a copied text or value is its place in the pool, or null. Addresses, sizes and functions
-- are numbers.
use litetvm_ffi.Prelude.{
  ℕ, zero, suc, ◌+◌, ◌-◌, Bool, not, Option, none, some, List, [], ◌∷◌, ◌++◌, Bytes, ltb, ◌==◌,
  if◌then◌else◌, leb, length, get_elem?, get_or, replicate, bit_and,
}
use litetvm_ffi.Map.Assoc.{KeyApi, lookup, upsert}
use litetvm_ffi.Map.Dense.Links.{store}
use litetvm_ffi.TypeTable.Result.{
  ok, err, Fault, runtime_error, exited, bad_access, Action, ◌>>=◌, pure, fail,
}
use litetvm_ffi.TypeTable.{Entry, TypeTable, get_type_entry}

-- `TVMFFIFieldInfo` and `TVMFFIMethodInfo`, with texts `T` and values `A`
pub record FieldInfo (T A : Type 0) : Type 0 where
  pub name : T
  pub doc : T
  pub metadata : T
  pub flags : ℕ
  pub field_size : ℕ
  pub alignment : ℕ
  pub offset : ℕ
  pub getter : ℕ
  pub setter : ℕ
  pub default_value : A
  pub field_static_type_index : ℕ

pub record MethodInfo (T A : Type 0) : Type 0 where
  pub name : T
  pub doc : T
  pub metadata : T
  pub flags : ℕ
  pub method : A

pub record TypeMetadata (T : Type 0) : Type 0 where
  pub doc : T
  pub creator : ℕ
  pub total_size : ℕ
  pub structural_eq_hash_kind : ℕ

-- A cell of `any_pool_`
pub data Cell (V : Type 0) : Type 0 where
  text : Bytes → Cell V
  value : V → Cell V

abbrev pub Pointer : Type 0
Pointer = Option ℕ

abbrev pub Types : Type 0 → Type 0
Types K =
    TypeTable K (FieldInfo Pointer Pointer) (MethodInfo Pointer Pointer) (TypeMetadata Pointer)

-- `TypeAttrColumnData`, with the number of values that the C interface sees; its pointer `data` is to the
-- values of `data_`.
pub record Column (V : Type 0) : Type 0 where
  pub data_ : List (Option V)
  pub size : ℕ

-- `TypeTable` with its members behind the table of types
pub record Registry (K V : Type 0) : Type 0 where
  pub types : Types K
  pub any_pool : List (Cell V)
  pub type_attr_columns : List (Column V)
  pub type_attr_name_to_column_index : List (K × ℕ)

-- `flags & kTVMFFIFieldFlagBitMaskHasDefault`
abbrev pub has_default : ℕ → Bool
has_default flags = not (bit_and flags 2 == 0)

-- The infos with the pointers to the copies
abbrev pub stored_field :
    {V : Type 0}
    → FieldInfo Bytes V
    → Pointer
    → Pointer
    → Pointer
    → Pointer
    → FieldInfo Pointer Pointer
stored_field info name doc metadata default_value = record {
  name = name;
  doc = doc;
  metadata = metadata;
  flags = info.flags;
  field_size = info.field_size;
  alignment = info.alignment;
  offset = info.offset;
  getter = info.getter;
  setter = info.setter;
  default_value = default_value;
  field_static_type_index = info.field_static_type_index;
}

abbrev pub stored_method :
    {V : Type 0}
    → MethodInfo Bytes V
    → Pointer
    → Pointer
    → Pointer
    → Pointer
    → MethodInfo Pointer Pointer
stored_method info name doc metadata method = record {
  name = name;
  doc = doc;
  metadata = metadata;
  flags = info.flags;
  method = method;
}

module _ {K V : Type 0} where
  -- `CopyString` and `CopyAny`
  unfoldable pub copy_string : Bytes → Action (Registry K V) Pointer
  copy_string s r =
      if length s == 0
      then (ok none, r)
      else (ok (some (length r.any_pool)), record r { any_pool = r.any_pool ++ text s ∷ [] })

  unfoldable pub copy_any : V → Action (Registry K V) Pointer
  copy_any v r = (ok (some (length r.any_pool)), record r { any_pool = r.any_pool ++ value v ∷ [] })

  -- The copy of a field's default value, or null where it has none
  unfoldable pub copy_default : FieldInfo Bytes V → Action (Registry K V) Pointer
  unfolding copy_any
  copy_default info = if has_default info.flags then copy_any info.default_value else pure none

  -- An operation on the table of types alone
  abbrev pub on_types : {A : Type 0} → Action (Types K) A → Action (Registry K V) A
  on_types m r = let q = m r.types in (q.0, record r { types = q.1 })

  -- A write through the pointer that `GetTypeEntry` returned
  abbrev pub revise :
      ℕ
      → Entry K (FieldInfo Pointer Pointer) (MethodInfo Pointer Pointer) (TypeMetadata Pointer)
      → Action (Registry K V) (Unit {0})
  revise i e r =
      (ok tt, record r { types = record r.types { entry = store i (some e) r.types.entry } })

  -- `RegisterTypeField`
  unfoldable pub register_type_field : ℕ → FieldInfo Bytes V → Action (Registry K V) (Unit {0})
  unfolding copy_string copy_default get_type_entry
  register_type_field i info = do
    e ← on_types (get_type_entry i)
    name ← copy_string info.name
    doc ← copy_string info.doc
    metadata ← copy_string info.metadata
    default_value ← copy_default info
    revise i (record e {
      type_fields_data =
          e.type_fields_data ++ stored_field info name doc metadata default_value ∷ [];
    })

  -- `RegisterTypeMethod`
  unfoldable pub register_type_method : ℕ → MethodInfo Bytes V → Action (Registry K V) (Unit {0})
  unfolding copy_string copy_any get_type_entry
  register_type_method i info = do
    e ← on_types (get_type_entry i)
    name ← copy_string info.name
    doc ← copy_string info.doc
    metadata ← copy_string info.metadata
    method ← copy_any info.method
    revise i (record e {
      type_methods_data = e.type_methods_data ++ stored_method info name doc metadata method ∷ [];
    })

  -- `RegisterTypeMetadata`
  unfoldable pub register_type_metadata : ℕ → TypeMetadata Bytes → Action (Registry K V) (Unit {0})
  unfolding copy_string get_type_entry
  register_type_metadata i metadata = do
    e ← on_types (get_type_entry i)
    (elim e.metadata [
      | some old ↦ fail runtime_error
      | none ↦ do
        doc ← copy_string metadata.doc
        revise i (record e {
          metadata = some (record {
            doc = doc;
            creator = metadata.creator;
            total_size = metadata.total_size;
            structural_eq_hash_kind = metadata.structural_eq_hash_kind;
          });
        })
    ])

-- `column->data_.resize(n, Any(nullptr))` of a column that is shorter, with the size behind it
abbrev pub enlarge : {V : Type 0} → ℕ → Column V → Column V
enlarge n c =
    let values = c.data_ ++ replicate (n - length c.data_) none in
    if ltb (length c.data_) n then record { data_ = values; size = length values } else c

-- One element of a list is written.
abbrev pub set {ℓ} : {A : Type ℓ} → List A → ℕ → A → List A
set [] i v = []
set (x ∷ xs) zero v = v ∷ xs
set (x ∷ xs) (suc i) v = x ∷ set xs i v

-- How `RegisterTypeAttr` ends where the value is already set: it throws, with the type's key in the
-- message; `TVMFFIGetTypeInfo` ends the process where the type has no entry.
unfoldable pub already_set : {K : Type 0} → ℕ → Types K → Fault
unfolding get_type_entry
already_set i t = elim (get_type_entry i t).0 [ ok e ↦ runtime_error | err x ↦ exited ]

module _ {K V : Type 0} where
  -- `RegisterTypeAttr` behind the choice of the column
  unfoldable pub set_attr : ℕ → Option V → ℕ → Action (Registry K V) (Unit {0})
  unfolding already_set
  set_attr i v c r = elim (get_elem? r.type_attr_columns c) [
    | none ↦ (err bad_access, r)
    | some old ↦
        let column = enlarge (i + 1) old in
        let larger : Registry K V = record r {
          type_attr_columns = set r.type_attr_columns c column;
        } in
        if i == 0 then (ok tt, larger) else (elim (get_elem? column.data_ i) [
          | none ↦ (err bad_access, larger)
          | some (some w) ↦ (err (already_set i r.types), larger)
          | some none ↦ (
            ok tt,
            record r {
              type_attr_columns =
                  set r.type_attr_columns c (record column { data_ = set column.data_ i v });
            },
          )
        ])
  ]

module _ {K V : Type 0} (keys : KeyApi K) where
  -- The column of a name, a new one for a new name
  unfoldable pub column_index : K → Action (Registry K V) ℕ
  column_index name r = elim (lookup keys name r.type_attr_name_to_column_index) [
    | some c ↦ (ok c, r)
    | none ↦
        let c = length r.type_attr_columns in
        (
          ok c,
          record r {
            type_attr_columns = r.type_attr_columns ++ record { data_ = []; size = 0 } ∷ [];
            type_attr_name_to_column_index = upsert keys name c r.type_attr_name_to_column_index;
          },
        )
  ]

  -- `RegisterTypeAttr`
  unfoldable pub register_type_attr : ℕ → K → Option V → Action (Registry K V) (Unit {0})
  unfolding column_index set_attr
  register_type_attr i name v = column_index name >>= set_attr i v

  -- `GetTypeAttrColumn`
  unfoldable pub get_type_attr_column : K → Registry K V → Option (Column V)
  get_type_attr_column name r = elim (lookup keys name r.type_attr_name_to_column_index) [
    | none ↦ none
    | some c ↦ get_elem? r.type_attr_columns c
  ]

-- `TypeAttrColumn::operator[]` (include/ffi/reflection/accessor.h)
abbrev pub read_column : {V : Type 0} → ℕ → Column V → Option V
read_column j c = if leb c.size j then none else get_or c.data_ j none
