-- ===== src/Map/Small/Laws.antt =====
-- The small map does what a list of entries does.
use litetvm_ffi.Prelude.{
  subst, if◌then◌else◌, ◌≤◌, List, [], ◌∷◌, ◌++◌, true, false, none, some, ◌≡◌, refl, sym, ◌∙◌,
  arith, length, length-append, ltb, leb, inl, inr, Bool-cases, if_cases,
}
use litetvm_ffi.Map.Assoc.{
  any_equal-false, KeyApi, Missing, Distinct, lookup, remove, lookup_absent, remove_absent,
  remove-Distinct, remove-Missing, lookup-remove,
}
use litetvm_ffi.Map.Small.{SmallMap, found, key_error, size, erase_at, find, count, at, erase}
use litetvm_ffi.Map.Small.Finding.{
  get_elem?-append, get_elem?-length, drop_at-append, remove-append, lookup-append, by_find,
}

-- At most four slots, no entry outside of them, and no key twice.
pub record IsValid {K V : Type 0} (m : SmallMap K V) : Type 0 where
  pub at_most_four : m.num_slots ≤ 4
  pub in_slots : length m.entries ≤ m.num_slots
  pub distinct : Distinct m.entries

module _ {K V : Type 0} (keys : KeyApi K) where
  open keys use {any_equal, any_equal_iff}

  -- `at` gives the value of the key, and a KeyError where there is none.
  pub at-lookup :
      (k : K) (m : SmallMap K V)
      → at keys k m ≡ (elim (lookup keys k m.entries) [ none ↦ key_error | some v ↦ found v ])
  unfolding at find
  at-lookup k m =
      by_find keys
        (λ kvs.
          at keys k (record { num_slots = m.num_slots; entries = kvs })
          ≡ (elim (lookup keys k kvs) [ none ↦ key_error | some v ↦ found v ]))
        k m.entries
        (λ h s. rw (at, s, get_elem?-length m.entries, lookup_absent keys k m.entries h) refl)
        (λ pre post w h s.
          rw (at, s, get_elem?-append pre ((k, w) ∷ post), lookup-append keys pre post k w h) refl)

  -- `erase` drops the key's entry and keeps the others in their order.
  pub erase-remove : (k : K) (m : SmallMap K V) → (erase keys k m).entries ≡ remove keys k m.entries
  unfolding erase erase_at find
  erase-remove k m =
      by_find keys
        (λ kvs.
          (erase keys k (record { num_slots = m.num_slots; entries = kvs })).entries
          ≡ remove keys k kvs)
        k m.entries
        (λ h s.
          let past : leb (length m.entries) (length m.entries) ≡ true = ground arith in
          rw (s, past) (sym (remove_absent keys k m.entries h)))
        (λ pre post w h s.
          let inside : leb (length (pre ++ (k, w) ∷ post)) (length pre) ≡ false =
            ground (arith, length-append pre ((k, w) ∷ post)) in
          rw (s, inside) (drop_at-append pre post (k, w) ∙ sym (remove-append keys pre post k w h)))

  -- `count` tells whether the key has a value.
  pub count-lookup :
      (k : K) (m : SmallMap K V)
      → count keys k m ≡ (elim (lookup keys k m.entries) [ none ↦ 0 | some v ↦ 1 ])
  unfolding count find
  count-lookup k m =
      by_find keys
        (λ kvs.
          count keys k (record { num_slots = m.num_slots; entries = kvs })
          ≡ (elim (lookup keys k kvs) [ none ↦ 0 | some v ↦ 1 ]))
        k m.entries
        (λ h s.
          let absent : ltb (length m.entries) (length m.entries) ≡ false = ground arith in
          rw (count, s, absent, lookup_absent keys k m.entries h) refl)
        (λ pre post w h s.
          let there : ltb (length pre) (length (pre ++ (k, w) ∷ post)) ≡ true =
            ground (arith, length-append pre ((k, w) ∷ post)) in
          rw (count, s, there, lookup-append keys pre post k w h) refl)

  length-remove : (k : K) (kvs : List (K × V)) → length (remove keys k kvs) ≤ length kvs
  unfolding remove
  length-remove k [] = omega arith
  length-remove k ((j, w) ∷ kvs) = elim (Bool-cases (any_equal j k)) [
    | inl e ↦ rw e (omega arith)
    | inr e ↦ rw e (omega (arith, length-remove k kvs))
  ]

  num_slots-erase : (k : K) (m : SmallMap K V) → (erase keys k m).num_slots ≡ m.num_slots
  unfolding erase erase_at
  num_slots-erase k m =
      if_cases {A = SmallMap K V} (λ t. t.num_slots ≡ m.num_slots) (leb (size m) (find keys k m))
        (λ e. refl) (λ e. refl)

  at-erase :
      (k q : K) (m : SmallMap K V)
      → Distinct m.entries
      → at keys q (erase keys k m) ≡ (if any_equal k q then key_error else at keys q m)
  at-erase k q m d = elim (Bool-cases (any_equal k q)) [
    | inl e ↦
        let gone : Missing q (erase keys k m).entries = rw (erase-remove k m) (
          subst (λ t. Missing t (remove keys k m.entries)) ((any_equal_iff k q).0 e)
            (remove-Missing keys k m.entries d)) in
        rw (at-lookup q (erase keys k m), lookup_absent keys q (erase keys k m).entries gone, e)
          refl
    | inr e ↦
        let kept = lookup-remove keys k q m.entries (any_equal-false keys k q e) in
        rw (at-lookup q (erase keys k m), at-lookup q m, erase-remove k m, kept, e) refl
  ]

  -- `erase` on a valid map leaves a valid map, in which `at` gives a KeyError for the key, and for every
  -- other key what it gave before.
  pub erase-IsValid :
      (k q : K) (m : SmallMap K V)
      → IsValid m
      → IsValid (erase keys k m)
        × (at keys q (erase keys k m) ≡ (if any_equal k q then key_error else at keys q m))
  erase-IsValid k q m valid =
      let left = erase-remove k m in
      (
        record {
          at_most_four = rw (num_slots-erase k m) valid.at_most_four;
          in_slots =
              rw (left, num_slots-erase k m)
                (omega (arith, length-remove k m.entries, valid.in_slots));
          distinct = rw left (remove-Distinct keys k m.entries valid.distinct);
        },
        at-erase k q m valid.distinct,
      )
