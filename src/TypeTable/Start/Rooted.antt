-- ===== src/TypeTable/Start/Rooted.antt =====
-- The table that the constructor of `TypeTable` leaves: each of its calls keeps it valid, with Object in its
-- place.
use litetvm_ffi.Prelude.{
  ℕ, ◌<◌, true, none, some, List, [], ◌∷◌, ◌≡◌, refl, sym, ap, ◌∙◌, arith, Bytes,
}
use litetvm_ffi.Map.Assoc.{KeyApi, lookup}
use litetvm_ffi.TypeTable.Result.{Result, Action, ◌>>◌, pure}
use litetvm_ffi.TypeTable.{Entry, Request, dyn_object_begin, new_entry, get_or_alloc_type_index}
use litetvm_ffi.TypeTable.Valid.{IsValid}
use litetvm_ffi.TypeTable.Members.{
  FieldInfo, MethodInfo, TypeMetadata, Pointer, Types, Registry, on_types, register_type_metadata,
}
use litetvm_ffi.TypeTable.Changes.{some-injective}
use litetvm_ffi.TypeTable.Rules.{bind-cases}
use litetvm_ffi.TypeTable.Invariant.{
  IsDeclared, Kept, get_or_alloc_type_index-Kept, get_or_alloc_type_index-IsValid,
}
use litetvm_ffi.TypeTable.Revise.{register_type_metadata-Kept}
use litetvm_ffi.TypeTable.Start.{
  no_types, object_request, builtin_request, builtin_types, opaque_py_request, reserve_builtins,
  new_type_table,
}

no_types-IsValid : (V : Type 0) → IsValid (no_types {V = V}).types
no_types-IsValid V = record {
  full = refl;
  begun = omega arith;
  small = omega arith;
  placed = λ i e there. absurd (cc there);
  apart = λ i j a b there. absurd (cc there);
  ancestors = λ i e there. absurd (cc there);
}

-- A valid table with Object in its place
record IsRooted (t : Types Bytes) : Type 0 where
  valid : IsValid t
  root : Entry Bytes (FieldInfo Pointer Pointer) (MethodInfo Pointer Pointer) (TypeMetadata Pointer)
  there : t.entry 64 ≡ some root
  overflows : root.child_slots_can_overflow ≡ true

Kept-IsRooted : (t u : Types Bytes) → Kept t u → IsRooted t → IsRooted u
Kept-IsRooted t u k h =
    let (b, there, r) = k.grows 64 h.root h.there in
    record { valid = k.valid; root = b; there = there; overflows = r.overflow ∙ h.overflows }

builtin-IsDeclared :
    (t : Types Bytes) (key : Bytes) (i : ℕ)
    → i < dyn_object_begin
    → IsDeclared t (builtin_request key i)
builtin-IsDeclared t key i low = record {
  flat = λ _. refl;
  built_in = λ j e. let same : i ≡ j = cc in omega (arith, same, low);
  leaf = λ _ _. refl;
  open_parent = λ j o p e parent. absurd (cc parent);
}

abbrev AllBuiltIn : List (Bytes × ℕ) → Type 0
AllBuiltIn [] = Unit
AllBuiltIn ((key, i) ∷ rest) = (i < dyn_object_begin) × AllBuiltIn rest

alloc-IsRooted :
    (keys : KeyApi Bytes) (r : Request Bytes) (t : Types Bytes)
    → IsDeclared t r
    → IsRooted t
    → IsRooted (get_or_alloc_type_index keys r t).1
alloc-IsRooted keys r t d h =
    Kept-IsRooted t (get_or_alloc_type_index keys r t).1
      (get_or_alloc_type_index-Kept keys t r d h.valid) h

module _ {V : Type 0} (keys : KeyApi Bytes) where
  abbrev Rooted : {A : Type 0} → Result A × Registry Bytes V → Type 0
  Rooted q = IsRooted q.1.types

  reserve_builtins-Rooted :
      (l : List (Bytes × ℕ)) (r : Registry Bytes V)
      → AllBuiltIn l
      → IsRooted r.types
      → Rooted (reserve_builtins keys l r)
  unfolding reserve_builtins
  reserve_builtins-Rooted [] r low h = h
  reserve_builtins-Rooted ((key, i) ∷ rest) r low h =
      let made =
        alloc-IsRooted keys (builtin_request key i) r.types (builtin-IsDeclared r.types key i low.0)
          h in
      bind-cases Rooted (on_types (get_or_alloc_type_index keys (builtin_request key i)))
        (λ _. reserve_builtins keys rest) r
        (λ j e.
          reserve_builtins-Rooted rest
            (on_types (get_or_alloc_type_index keys (builtin_request key i)) r).1 low.1 made)
        (λ x e. made)

module _ (V : Type 0) (keys : KeyApi Bytes) where
  first-IsRooted : IsRooted (get_or_alloc_type_index keys object_request (no_types {V = V}).types).1
  unfolding get_or_alloc_type_index lookup
  first-IsRooted = record {
    valid =
        get_or_alloc_type_index-IsValid keys (no_types {V = V}).types object_request
          (record {
            flat = λ _. refl;
            built_in = λ i e. let same : 64 ≡ i = cc in omega (arith, same);
            leaf = λ _ _. refl;
            open_parent = λ i o p e parent. absurd (cc parent);
          })
          (no_types-IsValid V);
    root = new_entry object_request none 64 1 [];
    there = refl;
    overflows = refl;
  }

  metadata-IsRooted :
      (m : TypeMetadata Bytes) (r : Registry Bytes V)
      → IsRooted r.types
      → Rooted keys (register_type_metadata 64 m r)
  metadata-IsRooted m r h =
      Kept-IsRooted r.types (register_type_metadata 64 m r).1.types
        (register_type_metadata-Kept r.types h.valid 64 m r refl) h

  opaque_py-IsDeclared : (t : Types Bytes) → IsRooted t → IsDeclared t opaque_py_request
  opaque_py-IsDeclared t h = record {
    flat = λ e. absurd (omega (arith, e));
    built_in = λ i e. let same : 74 ≡ i = cc in omega (arith, same);
    leaf = λ _ _. refl;
    open_parent = λ i o p e parent there.
        let place : 64 ≡ o = cc in
        let same : h.root ≡ p = some-injective h.root p (sym h.there ∙ ap t.entry place ∙ there) in
        ap
          (λ (x : Entry Bytes (FieldInfo Pointer Pointer) (MethodInfo Pointer Pointer)
              (TypeMetadata Pointer)).
            x.child_slots_can_overflow)
          (sym same)
        ∙ h.overflows;
  }

  -- The table that the constructor of TypeTable leaves is valid.
  pub new_type_table-IsValid :
      (object_size unset : ℕ)
      → IsValid (new_type_table keys object_size unset (no_types {V = V})).1.types
  unfolding new_type_table
  new_type_table-IsValid object_size unset =
      let object : Action (Registry Bytes V) ℕ =
        on_types (get_or_alloc_type_index keys object_request) in
      let m : TypeMetadata Bytes = record {
        doc = [];
        creator = 0;
        total_size = object_size;
        structural_eq_hash_kind = unset;
      } in
      let py : Action (Registry Bytes V) ℕ =
        on_types (get_or_alloc_type_index keys opaque_py_request) in
      let r : Registry Bytes V = (object no_types).1 in
      let done : IsRooted (new_type_table keys object_size unset (no_types {V = V})).1.types =
        bind-cases (Rooted keys) object
          (λ _.
            register_type_metadata 64 m >> (reserve_builtins keys builtin_types >> (py >> pure tt)))
          no_types
          (λ i _.
            bind-cases (Rooted keys) (register_type_metadata 64 m)
              (λ _. reserve_builtins keys builtin_types >> (py >> pure tt)) r
              (λ _ _.
                let r' = (register_type_metadata 64 m r).1 in
                let h = metadata-IsRooted m r first-IsRooted in
                let h' = reserve_builtins-Rooted keys builtin_types r' (omega arith) h in
                bind-cases (Rooted keys) (reserve_builtins keys builtin_types) (λ _. py >> pure tt)
                  r'
                  (λ _ _.
                    let r'' = (reserve_builtins keys builtin_types r').1 in
                    let last =
                      alloc-IsRooted keys opaque_py_request r''.types
                        (opaque_py-IsDeclared r''.types h') h' in
                    bind-cases (Rooted keys) py (λ _. pure tt) r'' (λ _ _. last) (λ _ _. last))
                  (λ _ _. h'))
              (λ _ _. metadata-IsRooted m r first-IsRooted))
          (λ _ _. first-IsRooted) in
      done.valid
