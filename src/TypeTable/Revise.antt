-- ===== src/TypeTable/Revise.antt =====
-- What is registered of a type keeps the table of types valid, and each entry in its place.
use litetvm_ffi.Prelude.{
  arith, ℕ, Option, none, some, List, [], ◌∷◌, ◌++◌, ◌≡◌, refl, sym, ap, ◌∙◌, Bytes, option_cases,
  ltb, ◌==◌, length, if_cases,
}
use litetvm_ffi.Map.Dense.Links.{store}
use litetvm_ffi.TypeTable.Result.{Result, ok, runtime_error, Action, ◌>>=◌, fail}
use litetvm_ffi.TypeTable.{Entry, TypeTable, get_type_entry}
use litetvm_ffi.TypeTable.Valid.{IsValid, IsRevised}
use litetvm_ffi.TypeTable.Changes.{rewrite-Revises, rewrite-IsValid}
use litetvm_ffi.TypeTable.Growth.{Grows-refl}
use litetvm_ffi.TypeTable.Invariant.{Kept}
use litetvm_ffi.TypeTable.Rules.{bind-cases}
use litetvm_ffi.TypeTable.Members.{
  FieldInfo, MethodInfo, TypeMetadata, Pointer, Types, Registry, has_default, stored_field,
  stored_method, copy_string, copy_default, copy_any, on_types, revise, register_type_field,
  register_type_method, register_type_metadata,
}

module _ {K F M D : Type 0} where
  -- `GetTypeEntry` finds the entry of the place, and changes nothing.
  get_type_entry-found :
      (i : ℕ) (t : TypeTable K F M D)
      → ((get_type_entry i t).1 ≡ t)
        × ((e : Entry K F M D) → (get_type_entry i t).0 ≡ ok e → t.entry i ≡ some e)
  unfolding get_type_entry
  get_type_entry-found i t =
      if_cases
        (λ (q : Result (Entry K F M D) × TypeTable K F M D).
          (q.1 ≡ t) × ((e : Entry K F M D) → q.0 ≡ ok e → t.entry i ≡ some e))
        (ltb i t.size)
        (λ _.
          option_cases
            (λ (q : Result (Entry K F M D) × TypeTable K F M D).
              (q.1 ≡ t) × ((e : Entry K F M D) → q.0 ≡ ok e → t.entry i ≡ some e))
            (t.entry i) (λ _. (refl, λ e bad. absurd (cc bad)))
            (λ a there. (refl, λ e same. there ∙ (let one : a ≡ e = cc in ap some one))))
        (λ _. (refl, λ e bad. absurd (cc bad)))

  revised-Kept :
      (t : TypeTable K F M D) (i : ℕ) (a b : Entry K F M D)
      → IsValid t
      → t.entry i ≡ some a
      → IsRevised a b
      → Kept t (record t { entry = store i (some b) t.entry })
  revised-Kept t i a b v there r = record {
    valid = rewrite-IsValid t i a b there r v;
    grows = (rewrite-Revises t i a b there r v).forth;
  }

abbrev Stored : Type 0 → Type 0
Stored K = Entry K (FieldInfo Pointer Pointer) (MethodInfo Pointer Pointer) (TypeMetadata Pointer)

module _ {K : Type 0} (t : Types K) (v : IsValid t) where
  same-Kept : (u : Types K) → u ≡ t → Kept t u
  same-Kept u e = rw e (record { valid = v; grows = Grows-refl t v })

  -- Other reflection data
  data-IsRevised :
      (i : ℕ) (a : Stored K) (fields : List (FieldInfo Pointer Pointer))
      (methods : List (MethodInfo Pointer Pointer)) (metadata : Option (TypeMetadata Pointer))
      → t.entry i ≡ some a
      → IsRevised a
          (record a { type_fields_data = fields; type_methods_data = methods; metadata = metadata })
  data-IsRevised i a fields methods metadata there =
      let p = v.placed i a there in
      record {
        index = refl;
        key = refl;
        depth = refl;
        chain = refl;
        slots = refl;
        overflow = refl;
        more = omega arith;
        few = p.few_allocated;
      }

module _ {K V : Type 0} where
  abbrev Registered : Types K → {A : Type 0} → Result A × Registry K V → Type 0
  Registered t q = Kept t q.1.types

  -- The operation leaves the types alone.
  abbrev KeepsTypes : {A : Type 0} → Action (Registry K V) A → Type 0
  KeepsTypes m = (r : Registry K V) → (m r).1.types ≡ r.types

  copy_string-types : (s : Bytes) → KeepsTypes (copy_string s)
  unfolding copy_string
  copy_string-types s r =
      if_cases (λ (q : Result Pointer × Registry K V). q.1.types ≡ r.types) (length s == 0)
        (λ _. refl) (λ _. refl)

  copy_default-types : (info : FieldInfo Bytes V) → KeepsTypes (copy_default info)
  unfolding copy_default
  copy_default-types info r =
      if_cases (λ (m : Action (Registry K V) Pointer). (m r).1.types ≡ r.types)
        (has_default info.flags) (λ _. refl) (λ _. refl)

  copy_any-types : (w : V) → KeepsTypes (copy_any w)
  unfolding copy_any
  copy_any-types w r = refl

  module _ (t : Types K) (v : IsValid t) where
    -- Something is copied on the way.
    copy-Kept :
        {B : Type 0} (m : Action (Registry K V) Pointer) (f : Pointer → Action (Registry K V) B)
        (r : Registry K V)
        → KeepsTypes m
        → r.types ≡ t
        → ((p : Pointer) (u : Registry K V) → u.types ≡ t → Kept t (f p u).1.types)
        → Kept t ((m >>= f) r).1.types
    copy-Kept m f r keeps e k =
        bind-cases (Registered t) m f r (λ p _. k p (m r).1 (keeps r ∙ e))
          (λ x _. same-Kept t v (m r).1.types (keeps r ∙ e))

    revise-Kept :
        (i : ℕ) (a b : Stored K) (r : Registry K V)
        → r.types ≡ t
        → t.entry i ≡ some a
        → IsRevised a b
        → Kept t (revise i b r).1.types
    revise-Kept i a b r e there rev = rw e (revised-Kept t i a b v there rev)

    entry-Kept :
        {B : Type 0} (i : ℕ) (f : Stored K → Action (Registry K V) B) (r : Registry K V)
        → r.types ≡ t
        → ((e : Stored K) (u : Registry K V)
            → u.types ≡ t
            → t.entry i ≡ some e
            → Kept t (f e u).1.types)
        → Kept t ((on_types (get_type_entry i) >>= f) r).1.types
    entry-Kept i f r same k =
        let found = get_type_entry-found i r.types in
        bind-cases (Registered t) (on_types (get_type_entry i)) f r
          (λ e got.
            k e (on_types (get_type_entry i) r).1 (found.0 ∙ same)
              (ap (λ (u : Types K). u.entry i) (sym same) ∙ found.1 e got))
          (λ x _. same-Kept t v (on_types (get_type_entry i) r).1.types (found.0 ∙ same))

    -- RegisterTypeMetadata keeps the table valid and the types in their places, whether it returns or
    -- throws.
    pub register_type_metadata-Kept :
        (i : ℕ) (m : TypeMetadata Bytes) (r : Registry K V)
        → r.types ≡ t
        → Kept t (register_type_metadata i m r).1.types
    unfolding register_type_metadata
    register_type_metadata-Kept i m r e =
        let write : Stored K → Pointer → Action (Registry K V) (Unit {0}) = λ a doc.
          revise i (record a {
            metadata = some (record {
              doc = doc;
              creator = m.creator;
              total_size = m.total_size;
              structural_eq_hash_kind = m.structural_eq_hash_kind;
            });
          }) in
        let go : Stored K → Action (Registry K V) (Unit {0}) = λ a. elim a.metadata [
          | some old ↦ fail runtime_error
          | none ↦ copy_string m.doc >>= write a
        ] in
        entry-Kept i go r e (λ a u same there.
          option_cases (λ (k : Action (Registry K V) (Unit {0})). Kept t (k u).1.types) a.metadata
            (λ _.
              copy-Kept (copy_string m.doc) (write a) u (copy_string-types m.doc) same
                (λ p w found. revise-Kept i a _ w found there (data-IsRevised t v i a _ _ _ there)))
            (λ old _. same-Kept t v u.types same))

    -- The same of RegisterTypeField
    pub register_type_field-Kept :
        (i : ℕ) (info : FieldInfo Bytes V) (r : Registry K V)
        → r.types ≡ t
        → Kept t (register_type_field i info r).1.types
    unfolding register_type_field
    register_type_field-Kept i info r e =
        let write : Stored K
            → Pointer
            → Pointer
            → Pointer
            → Pointer
            → Action (Registry K V) (Unit {0}) =
          λ a name doc metadata value. revise i (record a {
            type_fields_data = a.type_fields_data ++ stored_field info name doc metadata value ∷ [];
          }) in
        let last : Stored K → Pointer → Pointer → Pointer → Action (Registry K V) (Unit {0}) =
          λ a name doc metadata. copy_default info >>= write a name doc metadata in
        let third : Stored K → Pointer → Pointer → Action (Registry K V) (Unit {0}) =
          λ a name doc. copy_string info.metadata >>= last a name doc in
        let second : Stored K → Pointer → Action (Registry K V) (Unit {0}) =
          λ a name. copy_string info.doc >>= third a name in
        entry-Kept i (λ a. copy_string info.name >>= second a) r e
          (λ a u0 e0 there.
            copy-Kept (copy_string info.name) (second a) u0 (copy_string-types info.name) e0
              (λ name u1 e1.
                copy-Kept (copy_string info.doc) (third a name) u1 (copy_string-types info.doc) e1
                  (λ doc u2 e2.
                    copy-Kept (copy_string info.metadata) (last a name doc) u2
                      (copy_string-types info.metadata) e2
                      (λ metadata u3 e3.
                        copy-Kept (copy_default info) (write a name doc metadata) u3
                          (copy_default-types info) e3
                          (λ value u4 e4.
                            revise-Kept i a _ u4 e4 there (data-IsRevised t v i a _ _ _ there))))))

    -- The same of RegisterTypeMethod
    pub register_type_method-Kept :
        (i : ℕ) (info : MethodInfo Bytes V) (r : Registry K V)
        → r.types ≡ t
        → Kept t (register_type_method i info r).1.types
    unfolding register_type_method
    register_type_method-Kept i info r e =
        let write : Stored K
            → Pointer
            → Pointer
            → Pointer
            → Pointer
            → Action (Registry K V) (Unit {0}) =
          λ a name doc metadata method. revise i (record a {
            type_methods_data =
                a.type_methods_data ++ stored_method info name doc metadata method ∷ [];
          }) in
        let last : Stored K → Pointer → Pointer → Pointer → Action (Registry K V) (Unit {0}) =
          λ a name doc metadata. copy_any info.method >>= write a name doc metadata in
        let third : Stored K → Pointer → Pointer → Action (Registry K V) (Unit {0}) =
          λ a name doc. copy_string info.metadata >>= last a name doc in
        let second : Stored K → Pointer → Action (Registry K V) (Unit {0}) =
          λ a name. copy_string info.doc >>= third a name in
        entry-Kept i (λ a. copy_string info.name >>= second a) r e
          (λ a u0 e0 there.
            copy-Kept (copy_string info.name) (second a) u0 (copy_string-types info.name) e0
              (λ name u1 e1.
                copy-Kept (copy_string info.doc) (third a name) u1 (copy_string-types info.doc) e1
                  (λ doc u2 e2.
                    copy-Kept (copy_string info.metadata) (last a name doc) u2
                      (copy_string-types info.metadata) e2
                      (λ metadata u3 e3.
                        copy-Kept (copy_any info.method) (write a name doc metadata) u3
                          (copy_any-types info.method) e3
                          (λ method u4 e4.
                            revise-Kept i a _ u4 e4 there (data-IsRevised t v i a _ _ _ there))))))
