-- ===== src/Json/Object.antt =====
-- `json::Object`, which is `Map<Any, Any>`, as the parser makes it: its constructor from a range
-- (include/ffi/container/map.h). The keys that the parser reads are Strings, so that the keys of the map
-- are their texts; AnyEqual and AnyHash on them are the parameter `keys`.
pub mod Small
use litetvm_ffi.Prelude.{ℕ, List, [], ◌∷◌, Option, none, some, Bytes}
use litetvm_ffi.Map.Assoc.{KeyApi}
use litetvm_ffi.Map.Outcome.{Outcome, ok, check_failed, bad_read, out_of_fuel, ◌>>=◌}
use litetvm_ffi.Map.Dense.Node.{Dense, data_at}
use litetvm_ffi.Map.Dense.Links.{iterate}
use litetvm_ffi.Map.Object.{MapObj, small, dense, create_from_range}
use litetvm_ffi.Json.Value.{Value, null, string, Fields, fields_of}

-- The table cannot be doubled more often than its number of slots has bits.
abbrev pub doublings : ℕ
doublings = 64

module _ {D : Type 0} where
  abbrev pub as_values : List (Bytes × Value D) → List (Value D × Value D)
  as_values [] = []
  as_values ((k, v) ∷ kvs) = (string k, v) ∷ as_values kvs

  -- The texts of the keys; the parser has no other keys.
  unfoldable pub text_entries : List (Value D × Value D) → Option (List (Bytes × Value D))
  text_entries [] = some []
  text_entries ((string k, v) ∷ kvs) = elim (text_entries kvs) [
    | none ↦ none
    | some es ↦ some ((k, v) ∷ es)
  ]
  text_entries ((k, v) ∷ kvs) = none

  unfoldable pub slots_entries : List ℕ → Dense Bytes (Value D) → Outcome (List (Bytes × Value D))
  slots_entries [] m = ok []
  slots_entries (node ∷ nodes) m =
      data_at node m >>= λ kv. slots_entries nodes m >>= λ kvs. ok (kv ∷ kvs)

  -- The entries in the order of the map's iterator
  unfoldable pub map_entries : MapObj Bytes (Value D) → Outcome (List (Bytes × Value D))
  unfolding slots_entries
  map_entries (small m) = ok m.entries
  map_entries (dense m) = elim (iterate m.slots m.links.head m.links) [
    | none ↦ out_of_fuel
    | some nodes ↦ slots_entries nodes m
  ]

  -- The object, or nothing where the constructor does not return
  abbrev pub made_object : Outcome (List (Bytes × Value D)) → Option (Fields D)
  made_object (ok kvs) = some (fields_of (as_values kvs))
  made_object check_failed = none
  made_object bad_read = none
  made_object out_of_fuel = none

  -- `json::Object(first, last)`
  unfoldable pub create_object : KeyApi Bytes → List (Value D × Value D) → Option (Fields D)
  unfolding text_entries map_entries
  create_object keys range = elim (text_entries range) [
    | none ↦ none
    | some kvs ↦ made_object (create_from_range keys null doublings kvs >>= map_entries)
  ]
