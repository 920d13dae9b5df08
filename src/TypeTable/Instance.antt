-- ===== src/TypeTable/Instance.antt =====
-- include/ffi/object.h: `IsObjectInstance`, the test whether an object's type is a class or stands below
-- it. It looks at the class's range of slots first, and at the ancestors only where children may be
-- outside of the range.
use litetvm_ffi.Prelude.{
  ℕ, suc, ◌+◌, ◌%◌, ◌^◌, Bool, true, false, ◌&&◌, Option, none, some, ◌≡◌, leb, ltb, ◌==◌,
  if◌then◌else◌, get_elem?,
}
use litetvm_ffi.TypeTable.Result.{bad_access, Action, ◌>>=◌, pure, fail}
use litetvm_ffi.TypeTable.{Entry, TypeTable, entry_at, get_type_entry}

-- What the compiler knows of the class that is asked for, with its `RuntimeTypeIndex`
pub record Target : Type 0 where
  pub runtime_type_index : ℕ
  pub type_depth : ℕ
  pub type_child_slots : ℕ
  pub type_child_slots_can_overflow : Bool
  pub is_object : Bool
  pub type_final : Bool

-- The test for the reserved slots. The end is a sum with a uint32_t that becomes an int32_t, which is
-- negative from 2 ^ 31 on.
abbrev pub in_slots : Target → ℕ → Bool
in_slots c i =
    let total : ℕ = (c.runtime_type_index + c.type_child_slots + 1) % 2 ^ 32 in
    leb c.runtime_type_index i && (ltb total (2 ^ 31) && ltb i total)

module _ {K F M D : Type 0} where
  -- `type_ancestors[_type_depth]->type_index == target_type_index`
  unfoldable pub ancestor_at : Target → Entry K F M D → Action (TypeTable K F M D) Bool
  ancestor_at c info = elim (get_elem? info.type_ancestors c.type_depth) [
    | none ↦ fail bad_access
    | some a ↦ entry_at a >>= λ (ancestor : Option (Entry K F M D)). elim ancestor [
      | none ↦ fail bad_access
      | some p ↦ pure (p.type_index == c.runtime_type_index)
    ]
  ]

  -- The lookup in the table
  unfoldable pub ancestor_is : Target → ℕ → Action (TypeTable K F M D) Bool
  unfolding ancestor_at get_type_entry
  ancestor_is c i = do
    info ← get_type_entry i
    if ltb c.type_depth info.type_depth then ancestor_at c info else pure false

  -- `IsObjectInstance`
  unfoldable pub is_object_instance : Target → ℕ → Action (TypeTable K F M D) Bool
  unfolding ancestor_is
  is_object_instance c i =
      if c.is_object
      then pure true
      else if c.type_final
      then pure (i == c.runtime_type_index)
      else if (if c.type_child_slots == 0 then i == c.runtime_type_index else in_slots c i)
      then pure true
      else if c.type_child_slots_can_overflow
      then (if ltb i c.runtime_type_index then pure false else ancestor_is c i)
      else pure false

  -- The type at `i` is the class at `o`, or its parent derives from it.
  pub data Derives (t : TypeTable K F M D) (o : ℕ) : ℕ → Type 0 where
    self : Derives t o o
    child :
        {p : ℕ} (i d : ℕ) (e : Entry K F M D)
        → t.entry i ≡ some e
        → e.type_depth ≡ suc d
        → get_elem? e.type_ancestors d ≡ some p
        → Derives t o p
        → Derives t o i

  -- The table has the class, as its declaration says.
  pub record IsRegistered (t : TypeTable K F M D) (c : Target) (e : Entry K F M D) : Type 0 where
    pub there : t.entry c.runtime_type_index ≡ some e
    pub depth : e.type_depth ≡ c.type_depth
    pub slots : e.num_slots ≡ c.type_child_slots + 1
    pub overflow : c.type_child_slots_can_overflow ≡ false → e.child_slots_can_overflow ≡ false
