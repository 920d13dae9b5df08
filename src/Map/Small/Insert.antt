-- ===== src/Map/Small/Insert.antt =====
-- `SmallMapObj::InsertMaybeReHash`.
use litetvm_ffi.Prelude.{
  ℕ, suc, ◌≤◌, ◌<◌, List, [], ◌∷◌, ◌++◌, true, false, ◌≡◌, refl, sym, ◌∙◌, subst, arith, length,
  length-append, ltb, inl, inr, Bool-cases,
}
use litetvm_ffi.Map.Assoc.{KeyApi, Missing, upsert, upsert_absent, upsert-Distinct}
use litetvm_ffi.Map.Outcome.{Outcome, ok, check_failed, bad_read, out_of_fuel}
use litetvm_ffi.Map.Small.{
  SmallMap, size, create_from_range, find_from, find, next_slots, insert_maybe_re_hash,
}
use litetvm_ffi.Map.Small.Finding.{
  set_second-append, upsert-append, missing, located, find_from-Stop, by_find, key_in_located,
  find_absent,
}
use litetvm_ffi.Map.Small.Laws.{IsValid}

next_slots_grows : (n : ℕ) → n < 4 → (n < next_slots n) × (next_slots n ≤ 4)
unfolding next_slots
next_slots_grows n h = ground (arith, h)

module _ {K V : Type 0} (keys : KeyApi K) where
  open keys use {any_equal, any_equal_iff}

  -- The insertion ended with a valid map of the entries.
  abbrev Holds : List (K × V) → Outcome (SmallMap K V) → Type 0
  Holds kvs (ok m) = (m.entries ≡ kvs) × (m.num_slots ≤ 4) × (length m.entries ≤ m.num_slots)
  Holds kvs check_failed = ⊥
  Holds kvs bad_read = ⊥
  Holds kvs out_of_fuel = ⊥

  -- With the key there, or with a free slot, one round is enough.
  insert_in_place :
      (fuel n : ℕ) (k : K) (v : V) (kvs : List (K × V))
      → n ≤ 4
      → length kvs ≤ n
      → (Missing k kvs → length kvs < n)
      → Holds
          (upsert keys k v kvs)
          (insert_maybe_re_hash keys (suc fuel) k v (record { num_slots = n; entries = kvs }))
  unfolding insert_maybe_re_hash find
  insert_in_place fuel n k v kvs four inside room =
      by_find keys
        (λ t.
          length t ≤ n
          → (Missing k t → length t < n)
          → Holds (upsert keys k v t)
              (insert_maybe_re_hash keys (suc fuel) k v (record { num_slots = n; entries = t })))
        k kvs
        (λ h s inside room.
          let absent : ltb (length kvs) (length kvs) ≡ false = ground arith in
          let free : ltb (length kvs) n ≡ true = ground (arith, room h) in
          rw (s, absent, free)
            (
              sym (upsert_absent keys k v kvs h),
              four,
              omega (arith, room h, length-append kvs ((k, v) ∷ [])),
            ))
        (λ pre post w h s inside room.
          let there : ltb (length pre) (length (pre ++ (k, w) ∷ post)) ≡ true =
            ground (arith, length-append pre ((k, w) ∷ post)) in
          let put = set_second-append pre post k v w in
          rw (s, there)
            (
              put ∙ sym (upsert-append keys pre post k v w h),
              four,
              rw put (
                  omega (
                    arith,
                    inside,
                    length-append pre ((k, w) ∷ post),
                    length-append pre ((k, v) ∷ post),
                  )),
            ))
        inside room

  -- Without the key and without a slot, the map grows, and one round more is enough.
  insert_after_growth :
      (fuel n : ℕ) (k : K) (v : V) (kvs : List (K × V))
      → length kvs ≡ n
      → n < 4
      → Missing k kvs
      → Holds
          (upsert keys k v kvs)
          (insert_maybe_re_hash keys (suc (suc fuel)) k v (record { num_slots = n; entries = kvs }))
  unfolding insert_maybe_re_hash create_from_range find
  insert_after_growth fuel n k v kvs full few h =
      let bigger = next_slots_grows n few in
      let absent : ltb (length kvs) (length kvs) ≡ false = ground arith in
      let no_slot : ltb (length kvs) n ≡ false = ground (arith, full) in
      let grows : ltb n (next_slots n) ≡ true = ground (arith, bigger.0) in
      let slot : ltb (length kvs) (next_slots n) ≡ true = ground (arith, full, bigger.0) in
      rw (find_absent keys k kvs h, absent, no_slot, grows, slot)
        (
          sym (upsert_absent keys k v kvs h),
          bigger.1,
          omega (arith, full, bigger.0, length-append kvs ((k, v) ∷ [])),
        )

  insert_rounds :
      (fuel : ℕ) (k : K) (v : V) (m : SmallMap K V)
      → IsValid m
      → (Missing k m.entries → size m < 4)
      → Holds (upsert keys k v m.entries) (insert_maybe_re_hash keys (suc (suc fuel)) k v m)
  insert_rounds fuel k v m valid room = elim (Bool-cases (ltb (size m) m.num_slots)) [
    | inl e ↦
        insert_in_place (suc fuel) m.num_slots k v m.entries valid.at_most_four valid.in_slots
          (λ h. ground (arith, e))
    | inr e ↦ elim (find_from-Stop keys k 0 m.entries) [
      | missing h s ↦
          let full : size m ≡ m.num_slots = ground (arith, e, valid.in_slots) in
          insert_after_growth fuel m.num_slots k v m.entries full (omega (arith, full, room h)) h
      | located pre post w p h s ↦
          insert_in_place (suc fuel) m.num_slots k v m.entries valid.at_most_four valid.in_slots
            (λ gone. absurd (key_in_located keys k pre post w (subst (Missing k) p gone)))
    ]
  ]

  Result : SmallMap K V → K → V → Outcome (SmallMap K V) → Type 0
  Result m k v r =
      (n : SmallMap K V) × (r ≡ ok n) × IsValid n × (n.entries ≡ upsert keys k v m.entries)

  Holds-Result :
      (k : K) (v : V) (m : SmallMap K V) (r : Outcome (SmallMap K V))
      → IsValid m
      → Holds (upsert keys k v m.entries) r
      → Result m k v r
  unfolding Result
  Holds-Result k v m (ok n) valid h = (
    n,
    refl,
    record {
      at_most_four = h.1;
      in_slots = h.2;
      distinct = rw h.0 (upsert-Distinct keys k v m.entries valid.distinct);
    },
    h.0,
  )
  Holds-Result k v m check_failed valid h = absurd h
  Holds-Result k v m bad_read valid h = absurd h
  Holds-Result k v m out_of_fuel valid h = absurd h

  -- `InsertMaybeReHash` of the small map, on a valid map that has the key or has fewer than four
  -- entries, ends within two rounds with a valid map. Its entries are the old ones with the new value
  -- in the place of the key's old one, or with the new entry behind them.
  pub insert-upsert :
      (fuel : ℕ) (k : K) (v : V) (m : SmallMap K V)
      → IsValid m
      → (Missing k m.entries → size m < 4)
      → (n : SmallMap K V) × (insert_maybe_re_hash keys (suc (suc fuel)) k v m ≡ ok n)
        × IsValid n
        × (n.entries ≡ upsert keys k v m.entries)
  unfolding Result
  insert-upsert fuel k v m valid room =
      Holds-Result k v m (insert_maybe_re_hash keys (suc (suc fuel)) k v m) valid
        (insert_rounds fuel k v m valid room)

  -- With four entries and a new key the check of `InsertMaybeReHash` fails.
  pub insert-full :
      (fuel : ℕ) (k : K) (v : V) (m : SmallMap K V)
      → m.num_slots ≡ 4
      → size m ≡ 4
      → Missing k m.entries
      → insert_maybe_re_hash keys (suc fuel) k v m ≡ check_failed
  unfolding insert_maybe_re_hash next_slots find
  insert-full fuel k v m slots full h =
      let at_end : find_from keys 0 k m.entries ≡ size m = find_absent keys k m.entries h in
      rw (find, at_end, full, slots) refl
