-- ===== src/Map/Tests.antt =====
-- Runs of the maps, and the theorems at concrete inputs.
use litetvm_ffi.Prelude.{ℕ, [], ◌∷◌, ◌==◌, ==_iff, ◌≡◌, refl, none, some, arith, if◌then◌else◌}
use litetvm_ffi.Map.Assoc.{KeyApi, lookup, upsert}
use litetvm_ffi.Map.Outcome.{ok}
use litetvm_ffi.Map.Small.{SmallMap, At, found, key_error}
use litetvm_ffi.Map.Small
use litetvm_ffi.Map.Dense.Node.{Dense, k_empty_slot}
use litetvm_ffi.Map.Dense.Table
use litetvm_ffi.Map.Dense.Rehash
use litetvm_ffi.Map.Dense.Probe.{calc_table_size}
use litetvm_ffi.Map.Dense.Size.{calc_table_size-power, fib_hash-below}
use litetvm_ffi.Map.Dense.Table.Entries.{IsMap, at-IsMap}
use litetvm_ffi.Map.Dense.Table.Insert.{insert-IsMap, at-insert}
use litetvm_ffi.Prelude.{inl, ◌-◌, ◌*◌, ◌^◌, List, ◌≤◌, ◌++◌}
use litetvm_ffi.Map.Outcome.{◌>>=◌}
use litetvm_ffi.Map.Assoc.{remove}
use mathlib.Core.Option.{some-injective}
use litetvm_ffi.Map.Object.{MapObj, small}
use litetvm_ffi.Map.Object
use litetvm_ffi.Map.Handle.{Heap, object_at, set}
use litetvm_ffi.Map.Handle.Isolation.{writable, set-isolated}
use litetvm_ffi.Map.Small.Laws.{IsValid, at-lookup, erase-IsValid}
use litetvm_ffi.Map.Small.Insert.{insert-upsert}
use litetvm_ffi.Map.Dense.Links.{
  Links, k_invalid_index, iter_list_unlink, iter_list_push_back, iter_list_replace_node_by, iterate,
}
use litetvm_ffi.Map.Dense.Links.Parts.{IsList}
use litetvm_ffi.Map.Dense.Links.Order.{unlink-append, push_back-append, replace_node-append}
use litetvm_ffi.Map.Dense.Links.Iterate.{iterate-IsList}

-- Numbers as keys
abbrev numbers : KeyApi ℕ
numbers = record { any_equal = λ a b. a == b; any_equal_iff = ==_iff; any_hash = λ a. a }

-- A small map with two entries in three slots
abbrev two : SmallMap ℕ ℕ
two = record { num_slots = 3; entries = (7, 1) ∷ (9, 2) ∷ [] }

two-IsValid : IsValid two
two-IsValid = record {
  at_most_four = omega arith;
  in_slots = omega arith;
  distinct = ((λ p. omega (arith, p), tt), (tt, tt));
}

insert-upsert_example :
    (n : SmallMap ℕ ℕ) × (Small.insert_maybe_re_hash numbers 2 9 5 two ≡ ok n)
    × IsValid n
    × (n.entries ≡ upsert numbers 9 5 two.entries)
insert-upsert_example = insert-upsert numbers 0 9 5 two two-IsValid (λ h. omega arith)

at-lookup_example :
    Small.at numbers 9 two
    ≡ (elim (lookup numbers 9 two.entries) [ none ↦ key_error | some v ↦ found v ])
at-lookup_example = at-lookup numbers 9 two

erase-IsValid_example :
    IsValid (Small.erase numbers 7 two)
    × (Small.at numbers 9 (Small.erase numbers 7 two)
        ≡ (if numbers.any_equal 7 9 then key_error else Small.at numbers 9 two))
erase-IsValid_example = erase-IsValid numbers 7 9 two two-IsValid

-- An iterator list of the slots 5, 2 and 8
abbrev linked : Links
linked = record {
  head = 5;
  tail = 8;
  prev = λ i. if i == 5 then k_invalid_index else if i == 2 then 5 else 2;
  next = λ i. if i == 5 then 2 else if i == 2 then 8 else k_invalid_index;
}

linked-IsList : IsList linked (5 ∷ 2 ∷ 8 ∷ [])
linked-IsList = record {
  head_first = refl;
  tail_last = refl;
  segment = (refl, refl, (refl, refl, (refl, refl, tt)));
  unique = (
    (λ p. omega (arith, p), (λ p. omega (arith, p), tt)),
    ((λ p. omega (arith, p), tt), (tt, tt)),
  );
  valid = (λ p. omega (arith, p), (λ p. omega (arith, p), (λ p. omega (arith, p), tt)));
}

unlink-append_example : IsList (iter_list_unlink 2 linked) (5 ∷ 8 ∷ [])
unlink-append_example = unlink-append linked (5 ∷ []) 2 (8 ∷ []) linked-IsList

replace_node-append_example : IsList (iter_list_replace_node_by 2 6 linked) (5 ∷ 6 ∷ 8 ∷ [])
replace_node-append_example =
    replace_node-append linked (5 ∷ []) 2 (8 ∷ []) 6 linked-IsList
      (λ p. omega (arith, p), (λ p. omega (arith, p), (λ p. omega (arith, p), tt)))
      (λ p. omega (arith, p))

push_back-append_example : IsList (iter_list_push_back 1 linked) (5 ∷ 2 ∷ 8 ∷ 1 ∷ [])
push_back-append_example =
    push_back-append linked (5 ∷ 2 ∷ 8 ∷ []) 1 linked-IsList
      (λ p. omega (arith, p), (λ p. omega (arith, p), (λ p. omega (arith, p), tt)))
      (λ p. omega (arith, p))

iterate-IsList_example : iterate 3 5 linked ≡ some (5 ∷ 2 ∷ 8 ∷ [])
iterate-IsList_example = iterate-IsList linked (5 ∷ 2 ∷ 8 ∷ []) linked-IsList

-- A table of eight slots without entries, and the one with the entry of 7
abbrev eight : Dense ℕ ℕ
eight = record {
  size = 0;
  slots = 8;
  fib_shift = 61;
  links = record {
    head = k_invalid_index;
    tail = k_invalid_index;
    prev = λ i. k_invalid_index;
    next = λ i. k_invalid_index;
  };
  meta = λ i. k_empty_slot;
  items = λ i. none;
}

eight-IsMap : IsMap numbers eight (λ h. []) [] []
eight-IsMap = record {
  table = record {
    lists = λ h head. absurd (cc head);
    listed = λ i kv here. absurd (cc here);
    vacant = λ i p. refl;
    taken = λ i p. absurd (cc p);
    few = omega arith;
    homes = λ k. fib_hash-below 3 k (omega arith);
  };
  list = record { head_first = refl; tail_last = refl; segment = tt; unique = tt; valid = tt };
  entries = tt;
  complete = λ i kv here. absurd (cc here);
  counted = refl;
  distinct = tt;
}

insert-IsMap_example :
    (n : Dense ℕ ℕ) × (new_tails : ℕ → List ℕ) × (new_order : List ℕ) × (Rehash.insert_maybe_re_hash
        numbers 0 1
        (7, 70)
        eight
      ≡ ok n)
    × IsMap numbers n new_tails new_order (remove numbers 7 [] ++ (7, 70) ∷ [])
insert-IsMap_example =
    insert-IsMap numbers 0 0 7 70 eight (λ h. []) [] [] eight-IsMap (λ h. inl refl)

at-insert_example :
    (Rehash.insert_maybe_re_hash numbers 0 1 (7, 70) eight >>= Table.at numbers 9)
    ≡ (if numbers.any_equal 7 9 then ok (found 70) else Table.at numbers 9 eight)
at-insert_example = at-insert numbers 0 0 7 9 70 eight (λ h. []) [] [] eight-IsMap (λ h. inl refl)

calc_table_size-power_example :
    (e : ℕ) × (e ≤ 63)
    × (calc_table_size 5 ≡ ok (64 - e, 2 ^ e))
    × (2 * 5 ≤ 2 ^ e)
    × (2 ^ e ≤ 4 * 5)
calc_table_size-power_example = calc_table_size-power 5 (omega arith) (omega arith)

-- The map with that entry
made :
    (n : Dense ℕ ℕ) × (new_tails : ℕ → List ℕ) × (new_order : List ℕ) × (Rehash.insert_maybe_re_hash
        numbers 0 1
        (7, 70)
        eight
      ≡ ok n)
    × IsMap numbers n new_tails new_order ((7, 70) ∷ [])
unfolding remove
made = insert-IsMap numbers 0 0 7 70 eight (λ h. []) [] [] eight-IsMap (λ h. inl refl)

at-IsMap_example :
    Table.at numbers 7 made.0
    ≡ ok (elim (lookup {V = ℕ} numbers 7 ((7, 70) ∷ [])) [ none ↦ key_error | some v ↦ found v ])
at-IsMap_example = at-IsMap numbers 7 made.0 made.1 made.2 ((7, 70) ∷ []) made.4

-- A small map that two handles share
abbrev shared : Heap ℕ ℕ
shared = record {
  next = 1;
  counts = λ i. 2;
  objects = λ i. if i == 0 then some (small two) else none;
}

abbrev written : MapObj ℕ ℕ
written = small (record { num_slots = 2; entries = (7, 1) ∷ (9, 5) ∷ [] })

write_copy : (writable (some 0) shared >>= Object.insert_maybe_re_hash numbers 0 2 9 5) ≡ ok written
unfolding writable Object.copy_from Small.copy_from Small.create_from_range
    Object.insert_maybe_re_hash Small.insert_maybe_re_hash Small.find Small.find_from
    Small.set_second object_at
write_copy = refl

set-isolated_example :
    (address : ℕ) × (heap : Heap ℕ ℕ) × (set numbers 0 2 9 5 (some 0) shared ≡ ok (address, heap))
    × (heap.objects address ≡ some written)
    × (heap.counts address ≡ 1)
    × (heap.objects 0 ≡ shared.objects 0)
set-isolated_example =
    set-isolated numbers 0 2 9 5 (some 0) shared written 0
      (λ a p. omega (arith, some-injective 0 a p)) write_copy (omega arith)
      (λ p q. omega (arith, q))
