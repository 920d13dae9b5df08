-- ===== src/TypeTable/MemberTests.antt =====
-- Runs of the registration of attributes and of the constructor of the type table, and the theorems at
-- concrete inputs.
use litetvm_ffi.Prelude.{
  ℕ, zero, suc, subst, get_elem?, ltb, Bool, true, false, ◌&&◌, none, some, [], ◌∷◌, ◌≡◌, ◌↔◌, refl,
  arith, ◌==◌, if◌then◌else◌, Bytes, codes,
}
use litetvm_ffi.Map.Assoc.{KeyApi, lookup, upsert}
use litetvm_ffi.TypeTable.Result.{ok, err, runtime_error, exited, check_failed}
use litetvm_ffi.TypeTable.{get_type_entry, get_or_alloc_type_index, type_key_to_index}
use litetvm_ffi.TypeTable.Valid.{IsValid}
use litetvm_ffi.TypeTable.Members.{Column, Registry, register_type_attr, register_type_metadata}
use litetvm_ffi.TypeTable.Attributes.{attr, IsColumned, IsSized, column_some}
use litetvm_ffi.TypeTable.RegisterAttr.{register_type_attr-attr, register_type_attr-refuses}
use litetvm_ffi.TypeTable.Start.{no_types, new_type_table}
use litetvm_ffi.TypeTable.Start.Rooted.{new_type_table-IsValid}
use litetvm_ffi.TypeTable.Tests.{numbers}

-- A registry with no attribute, and one where the type 5 has the attribute 7
abbrev no_attributes : Registry ℕ ℕ
no_attributes = record {
  types = record { type_counter = 128; size = 128; entry = λ _. none; type_key2index = [] };
  any_pool = [];
  type_attr_columns = [];
  type_attr_name_to_column_index = [];
}

abbrev one_attribute : Registry ℕ ℕ
one_attribute = (register_type_attr numbers 5 7 (some 40) no_attributes).1

no_attributes-IsColumned : IsColumned numbers no_attributes
unfolding lookup
no_attributes-IsColumned = record {
  within = λ q c e. absurd (cc e);
  own = λ p q c e. absurd (cc e);
  sized = λ c x e. absurd (cc e);
}

no_attribute : attr numbers 7 5 no_attributes ≡ none
unfolding attr lookup
no_attribute = refl

register_type_attr-attr_example :
    (u : Registry ℕ ℕ) × (register_type_attr numbers 5 7 (some 40) no_attributes ≡ (ok tt, u))
    × IsColumned numbers u
    × ((q j : ℕ)
        → attr numbers q j u
          ≡ (if 7 == q && 5 == j then some 40 else attr numbers q j no_attributes))
register_type_attr-attr_example =
    register_type_attr-attr numbers 5 7 no_attributes no_attributes-IsColumned (omega arith)
      (some 40) no_attribute

one_attribute-IsSized :
    (c : ℕ) (x : Column ℕ) → get_elem? one_attribute.type_attr_columns c ≡ some x → IsSized x
unfolding register_type_attr lookup upsert
one_attribute-IsSized zero x e = subst (λ (y : Column ℕ). IsSized y) (column_some _ x e) refl
one_attribute-IsSized (suc c) x e = absurd (cc e)

one_attribute-IsColumned : IsColumned numbers one_attribute
unfolding register_type_attr lookup upsert
one_attribute-IsColumned = record {
  within = λ q c e. ground (arith, e);
  own = λ p q c e f. ground (arith, e, f);
  sized = one_attribute-IsSized;
}

set_attribute : attr numbers 7 5 one_attribute ≡ some 40
unfolding attr register_type_attr lookup upsert
set_attribute = refl

register_type_attr-refuses_example :
    (u : Registry ℕ ℕ) × (register_type_attr numbers 5 7 (some 41) one_attribute ≡ (
      err (
          if ltb 5 one_attribute.types.size
          then (elim (one_attribute.types.entry 5) [ none ↦ exited | some e ↦ runtime_error ])
          else exited),
      u,
    ))
    × ((q j : ℕ) → attr numbers q j u ≡ attr numbers q j one_attribute)
register_type_attr-refuses_example =
    register_type_attr-refuses numbers 5 7 one_attribute one_attribute-IsColumned (omega arith)
      (some 41) 40 set_attribute

-- Texts as keys
bytes_equal : Bytes → Bytes → Bool
bytes_equal [] [] = true
bytes_equal [] (b ∷ bs) = false
bytes_equal (a ∷ as') [] = false
bytes_equal (a ∷ as') (b ∷ bs) = a == b && bytes_equal as' bs

bytes_equal_iff : (a b : Bytes) → (bytes_equal a b ≡ true) ↔ (a ≡ b)
unfolding bytes_equal
bytes_equal_iff [] [] = ((λ _. refl), λ _. refl)
bytes_equal_iff [] (b ∷ bs) = ((λ e. absurd (cc e)), λ e. absurd (cc e))
bytes_equal_iff (a ∷ as') [] = ((λ e. absurd (cc e)), λ e. absurd (cc e))
bytes_equal_iff (a ∷ as') (b ∷ bs) = (
  (λ e. ground (arith, (bytes_equal_iff as' bs).0, e)),
  λ e. ground (arith, (bytes_equal_iff as' bs).1, e),
)

abbrev texts : KeyApi Bytes
texts = record { any_equal = bytes_equal; any_equal_iff = bytes_equal_iff; any_hash = λ a. 0 }

new_type_table-IsValid_example : IsValid (new_type_table texts 24 9 (no_types {V = ℕ})).1.types
new_type_table-IsValid_example = new_type_table-IsValid ℕ texts 24 9

-- The constructor returns; the built-in types are there, but for DLTensor*.
abbrev started : Registry Bytes ℕ
started = (new_type_table texts 24 9 no_types).1

starts :
    ((new_type_table texts 24 9 (no_types {V = ℕ})).0 ≡ ok tt)
    × ((type_key_to_index texts (codes "ffi.SmallStr") started.types).0 ≡ ok 11)
    × ((get_type_entry 7 started.types).0 ≡ err check_failed)
unfolding new_type_table register_type_metadata get_or_alloc_type_index type_key_to_index
    bytes_equal lookup upsert
starts = (refl, refl, refl)
