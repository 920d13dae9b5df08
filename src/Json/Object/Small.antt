-- ===== src/Json/Object/Small.antt =====
-- An object of at most three entries with different keys has the entries of the range, in its order.
use litetvm_ffi.Prelude.{
  ℕ, suc, ◌+◌, ◌<◌, List, [], ◌∷◌, ◌++◌, true, false, some, ◌≡◌, ◌≢◌, refl, sym, ap, ◌∙◌, arith,
  Bytes, length, length-append, append_assoc, append-nil, ltb,
}
use litetvm_ffi.Map.Assoc.{KeyApi, Missing, Distinct, upsert_absent}
use litetvm_ffi.Map.Outcome.{Outcome, ok, ◌>>=◌}
use litetvm_ffi.Map.Small.{SmallMap}
use litetvm_ffi.Map.Small
use litetvm_ffi.Map.Small.Laws.{IsValid}
use litetvm_ffi.Map.Small.Insert.{insert-upsert}
use litetvm_ffi.Map.Object.{MapObj, small, insert_small, create_from_range}
use litetvm_ffi.Json.Value.{Value, null, string, fields_of, Absent, DistinctKeys}
use litetvm_ffi.Json.Object.{
  as_values, text_entries, map_entries, made_object, doublings, create_object,
}

module _ {K V : Type 0} where
  Distinct-Missing :
      (pre post : List (K × V)) (k : K) (v : V) → Distinct (pre ++ (k, v) ∷ post) → Missing k pre
  Distinct-Missing [] post k v h = tt
  Distinct-Missing ((j, w) ∷ pre) post k v h =
      ((λ e. missing_at pre h.0 (sym e)), Distinct-Missing pre post k v h.1)
    where
      missing_at : (xs : List (K × V)) → Missing j (xs ++ (k, v) ∷ post) → k ≢ j
      missing_at [] m = m.0
      missing_at (x ∷ xs) m = missing_at xs m.1

module _ {K V : Type 0} (keys : KeyApi K) (null_value : V) where
  -- The loop of the small layout puts a range with new keys behind the entries.
  insert_small-append :
      (fuel : ℕ) (range : List (K × V)) (m : SmallMap K V)
      → IsValid m
      → Distinct (m.entries ++ range)
      → length m.entries + length range < 4
      → (n : SmallMap K V) × (insert_small keys null_value (suc (suc fuel)) range m ≡ ok n)
        × (n.entries ≡ m.entries ++ range)
  unfolding insert_small
  insert_small-append fuel [] m valid apart few = (m, refl, sym (append-nil m.entries))
  insert_small-append fuel ((k, v) ∷ range) m valid apart few =
      let (n, made, valid', entries) =
        insert-upsert keys fuel k v m valid (λ gone. omega (arith, few)) in
      let gone = Distinct-Missing m.entries range k v apart in
      let longer : n.entries ≡ m.entries ++ (k, v) ∷ [] =
        entries ∙ upsert_absent keys k v m.entries gone in
      let all : n.entries ++ range ≡ m.entries ++ (k, v) ∷ range =
        ap (λ l. l ++ range) longer ∙ append_assoc m.entries ((k, v) ∷ []) range in
      let (o, returns, held) =
        insert_small-append fuel range n valid' (rw all apart)
          (omega (arith, few, ap length longer, length-append m.entries ((k, v) ∷ []))) in
      (
        o,
        ap
              (λ (r : Outcome (SmallMap K V)).
                r >>= insert_small keys null_value (suc (suc fuel)) range)
              made
            ∙ returns,
        held ∙ all,
      )

  create_from_range-small :
      (range : List (K × V))
      → Distinct range
      → length range < 4
      → (n : SmallMap K V) × (create_from_range keys null_value doublings range ≡ ok (small n))
        × (n.entries ≡ range)
  unfolding create_from_range Small.create_from_range
  create_from_range-small [] apart few = (Small.create_from_range 0 [], refl, refl)
  create_from_range-small (kv ∷ []) apart few = (Small.create_from_range 1 (kv ∷ []), refl, refl)
  create_from_range-small (kv ∷ kv' ∷ range) apart few =
      let all = kv ∷ kv' ∷ range in
      let (n, made, held) =
        insert_small-append 62 all (Small.empty (length all))
          (record { at_most_four = omega (arith, few); in_slots = omega arith; distinct = tt })
          apart (omega (arith, few)) in
      let low : ltb (length all) 4 ≡ true = ground (arith, few) in
      let more : ltb (length all) 2 ≡ false = ground arith in
      (n, rw (low, more) (ap (λ (r : Outcome (SmallMap K V)). r >>= λ m. ok (small m)) made), held)

module _ {D : Type 0} where
  text_entries_values : (kvs : List (Bytes × Value D)) → text_entries (as_values kvs) ≡ some kvs
  unfolding text_entries
  text_entries_values [] = refl
  text_entries_values ((k, v) ∷ kvs) = rw (text_entries_values kvs) refl

  Absent-Missing :
      (k : Bytes) (kvs : List (Bytes × Value D)) → Absent (string k) (as_values kvs) → Missing k kvs
  Absent-Missing k [] h = tt
  Absent-Missing k ((j, v) ∷ kvs) h = ((λ e. h.0 (ap string e)), Absent-Missing k kvs h.1)

  DistinctKeys-Distinct :
      (kvs : List (Bytes × Value D)) → DistinctKeys (as_values kvs) → Distinct kvs
  DistinctKeys-Distinct [] h = tt
  DistinctKeys-Distinct ((k, v) ∷ kvs) h = (Absent-Missing k kvs h.0, DistinctKeys-Distinct kvs h.1)

  pub length-as_values : (kvs : List (Bytes × Value D)) → length (as_values kvs) ≡ length kvs
  length-as_values [] = refl
  length-as_values ((k, v) ∷ kvs) = ap suc (length-as_values kvs)

  pub create_object-small :
      (keys : KeyApi Bytes) (kvs : List (Bytes × Value D))
      → DistinctKeys (as_values kvs)
      → length kvs < 4
      → create_object keys (as_values kvs) ≡ some (fields_of (as_values kvs))
  unfolding create_object map_entries
  create_object-small keys kvs apart few =
      let (n, made, held) =
        create_from_range-small keys null kvs (DistinctKeys-Distinct kvs apart) few in
      rw (text_entries_values kvs, create_object)
        (ap (λ (r : Outcome (MapObj Bytes (Value D))). made_object (r >>= map_entries)) made
          ∙ ap (λ l. some (fields_of (as_values l))) held)
