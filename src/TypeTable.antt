-- ===== src/TypeTable.antt =====
-- src/ffi/object.cpp: the global table of object types, which gives each type its index. The table has
-- an entry or null in each place; the places behind an entry may be reserved for the types below it.
-- A pointer to an entry is the place of the entry, and the map of type keys is its list of entries.
pub mod Result
pub mod Valid
pub mod Changes
pub mod Rules
pub mod Allocate
pub mod Pool
pub mod Install
pub mod Growth
pub mod Invariant
pub mod Instance
pub mod Ancestry
pub mod Derives
pub mod Members
pub mod Attributes
pub mod RegisterAttr
pub mod Revise
pub mod Start
mod Tests
mod MemberTests
pub mod New
pub mod Registered
use litetvm_ffi.Prelude.{
  ℕ, zero, suc, ◌+◌, ◌^◌, ◌<◌, Bool, true, false, ◌&&◌, not, Option, none, some, List, [], ◌∷◌,
  ◌++◌, ltb, leb, ◌==◌, if◌then◌else◌, length,
}
use litetvm_ffi.Map.Assoc.{KeyApi, lookup, upsert}
use litetvm_ffi.Map.Dense.Links.{store}
use Result.{
  check_failed, bad_access, int_overflow, Action, ok, err, ◌>>=◌, ◌>>◌, pure, fail, get, put,
}

-- `TypeTable::Entry`, the fields that the allocation of indices uses. `F`, `M` and `D` are what the
-- reflection stores of the type's fields, its methods and its metadata.
pub record Entry (K F M D : Type 0) : Type 0 where
  pub type_index : ℕ
  pub type_depth : ℕ
  pub type_key : K
  pub type_ancestors : List ℕ
  pub num_slots : ℕ
  pub allocated_slots : ℕ
  pub child_slots_can_overflow : Bool
  pub type_fields_data : List F
  pub type_methods_data : List M
  pub metadata : Option D

pub record TypeTable (K F M D : Type 0) : Type 0 where
  pub type_counter : ℕ
  -- `type_table_`: its size, and its places
  pub size : ℕ
  pub entry : ℕ → Option (Entry K F M D)
  pub type_key2index : List (K × ℕ)

-- The arguments of `GetOrAllocTypeIndex`; a negative index is none.
pub record Request (K : Type 0) : Type 0 where
  pub type_key : K
  pub static_type_index : Option ℕ
  pub type_depth : ℕ
  pub num_child_slots : ℕ
  pub child_slots_can_overflow : Bool
  pub parent_type_index : Option ℕ

-- kTVMFFIDynObjectBegin
abbrev pub dyn_object_begin : ℕ
dyn_object_begin = 128

module _ {S : Type 0} where
  -- TVM_FFI_ICHECK
  abbrev pub check : Bool → Action S (Unit {0})
  check b s = if b then (ok tt, s) else (err check_failed, s)

  -- A sum of two numbers as an int32_t
  abbrev pub add_32 : ℕ → ℕ → Action S ℕ
  add_32 a b s = if ltb (a + b) (2 ^ 31) then (ok (a + b), s) else (err int_overflow, s)

module _ {K F M D : Type 0} where
  -- `type_table_[i].get()`
  abbrev pub entry_at : ℕ → Action (TypeTable K F M D) (Option (Entry K F M D))
  entry_at i t = if ltb i t.size then (ok (t.entry i), t) else (err bad_access, t)

  -- `type_table_[i] = e`
  abbrev pub set_entry : ℕ → Entry K F M D → Action (TypeTable K F M D) (Unit {0})
  set_entry i e t =
      if ltb i t.size
      then (ok tt, record t { entry = store i (some e) t.entry })
      else (err bad_access, t)

  -- `type_table_[i]->type_index`
  unfoldable pub known_index : ℕ → Action (TypeTable K F M D) ℕ
  known_index i = do e ← entry_at i; elim e [ none ↦ fail bad_access | some e ↦ pure e.type_index ]

  -- The parent's entry
  unfoldable pub find_parent : Option ℕ → Action (TypeTable K F M D) (Option (Entry K F M D))
  find_parent none t = (ok none, t)
  find_parent (some i) t = if ltb i t.size then (ok (t.entry i), t) else (err check_failed, t)

  -- Step 0: a static index has to be free.
  unfoldable pub static_index : ℕ → Action (TypeTable K F M D) ℕ
  static_index i t =
      if ltb i t.size
      then elim (t.entry i) [ none ↦ (ok i, t) | some e ↦ (err check_failed, t) ]
      else (err check_failed, t)

  -- Step 1: the slot comes from the parent's reserved pool.
  unfoldable pub pool_index : ℕ → Entry K F M D → Action (TypeTable K F M D) ℕ
  pool_index slots p = do
    i ← add_32 p.type_index p.allocated_slots
    set_entry p.type_index (record p { allocated_slots = p.allocated_slots + slots })
    pure i

  -- Step 2: the slots come from the end of the table, which grows.
  unfoldable pub overflow_index : ℕ → Entry K F M D → Action (TypeTable K F M D) ℕ
  overflow_index slots p = do
    check p.child_slots_can_overflow
    t ← get
    counter ← add_32 t.type_counter slots
    put (record t { type_counter = counter })
    check (leb t.size counter)
    put (record t { type_counter = counter; size = counter })
    pure t.type_counter

  -- `allocated_tindex`
  unfoldable pub allocate_index : Request K → Option (Entry K F M D) → Action (TypeTable K F M D) ℕ
  unfolding static_index pool_index overflow_index
  allocate_index r parent = elim r.static_type_index [
    | some i ↦ static_index i
    | none ↦ elim parent [
      | none ↦ fail check_failed
      | some p ↦ do
        slots ← add_32 r.num_child_slots 1
        allocated ← add_32 p.allocated_slots slots
        if leb allocated p.num_slots then pool_index slots p else overflow_index slots p
    ]
  ]

  -- The ancestors that the constructor of `Entry` sets up
  unfoldable pub ancestors_of : ℕ → Option (Entry K F M D) → Action (TypeTable K F M D) (List ℕ)
  ancestors_of zero parent = pure []
  ancestors_of (suc d) none = fail check_failed
  ancestors_of (suc d) (some p) = do
    check (suc d == p.type_depth + 1)
    pure (p.type_ancestors ++ p.type_index ∷ [])

  -- The constructor of `Entry`
  abbrev pub new_entry : Request K → Option (Entry K F M D) → ℕ → ℕ → List ℕ → Entry K F M D
  new_entry r parent i slots ancestors = record {
    type_index = i;
    type_depth = r.type_depth;
    type_key = r.type_key;
    type_ancestors = ancestors;
    num_slots = slots;
    allocated_slots = 1;
    child_slots_can_overflow = elim parent [
      | none ↦ r.child_slots_can_overflow
      | some p ↦ p.child_slots_can_overflow && r.child_slots_can_overflow
    ];
    type_fields_data = [];
    type_methods_data = [];
    metadata = none;
  }

  -- What stands behind the allocation of the index: the checks, and the new entry
  unfoldable pub install :
      Request K → Option (Entry K F M D) → ℕ → Action (TypeTable K F M D) (Unit {0})
  unfolding ancestors_of
  install r parent i = do
    check (elim parent [ none ↦ true | some p ↦ ltb p.type_index i ])
    slots ← add_32 r.num_child_slots 1
    ancestors ← ancestors_of r.type_depth parent
    set_entry i (new_entry r parent i slots ancestors)

  -- A type with a new key
  unfoldable pub new_type : Request K → Action (TypeTable K F M D) ℕ
  unfolding find_parent allocate_index install
  new_type r = do
    parent ← find_parent r.parent_type_index
    i ← allocate_index r parent
    install r parent i
    pure i

  -- `GetTypeEntry`
  unfoldable pub get_type_entry : ℕ → Action (TypeTable K F M D) (Entry K F M D)
  get_type_entry i t =
      if ltb i t.size
      then elim (t.entry i) [ none ↦ (err check_failed, t) | some e ↦ (ok e, t) ]
      else (err check_failed, t)

module _ {K F M D : Type 0} (keys : KeyApi K) where
  -- `type_key2index_.Set`
  abbrev pub set_key : K → ℕ → Action (TypeTable K F M D) (Unit {0})
  set_key k i t = (ok tt, record t { type_key2index = upsert keys k i t.type_key2index })

  -- `GetOrAllocTypeIndex`
  unfoldable pub get_or_alloc_type_index : Request K → Action (TypeTable K F M D) ℕ
  unfolding known_index new_type
  get_or_alloc_type_index r t = elim (lookup keys r.type_key t.type_key2index) [
    | some i ↦ known_index i t
    | none ↦ (do i ← new_type r; set_key r.type_key i; pure i) t
  ]

  -- `TypeKeyToIndex`
  unfoldable pub type_key_to_index : K → Action (TypeTable K F M D) ℕ
  type_key_to_index k t = elim (lookup keys k t.type_key2index) [
    | none ↦ (err check_failed, t)
    | some i ↦ (ok i, t)
  ]
