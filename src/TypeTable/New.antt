-- ===== src/TypeTable/New.antt =====
-- A type with a new key, whose parent is in the table and can have one more child, gets an index.
use litetvm_ffi.Prelude.{
  ℕ, zero, suc, ◌+◌, ◌^◌, ◌≤◌, ◌<◌, Bool, true, some, List, ◌==◌, ◌≡◌, refl, ◌∙◌, arith, leb, ltb,
  lt→ltb, ==_iff,
}
use litetvm_ffi.Map.Dense.Links.{store}
use litetvm_ffi.TypeTable.Result.{Result, ok, Action, ◌>>=◌, ◌>>◌, pure, get, put}
use litetvm_ffi.TypeTable.{
  Entry, TypeTable, Request, check, add_32, set_entry, new_entry, pool_index, overflow_index,
  ancestors_of, install,
}
use litetvm_ffi.TypeTable.Valid.{IsValid}
use litetvm_ffi.TypeTable.Rules.{bind-ok}
use litetvm_ffi.TypeTable.Pool.{given}
use litetvm_ffi.TypeTable.Install.{lineage}

pub le→leb : (a b : ℕ) → a ≤ b → leb a b ≡ true
le→leb a b h = ground arith

module _ {S : Type 0} where
  pub add_32-ok : (a b : ℕ) (s : S) → a + b < 2 ^ 31 → add_32 a b s ≡ (ok (a + b), s)
  add_32-ok a b s h = rw (lt→ltb (a + b) (2 ^ 31) h) refl

  check-ok : (b : Bool) (s : S) → b ≡ true → check b s ≡ (ok tt, s)
  check-ok b s e = rw e refl

module _ {K F M D : Type 0} where
  set_entry-ok :
      (i : ℕ) (e : Entry K F M D) (t : TypeTable K F M D)
      → i < t.size
      → set_entry i e t ≡ (ok tt, record t { entry = store i (some e) t.entry })
  set_entry-ok i e t h = rw (lt→ltb i t.size h) refl

  -- What an allocation leaves: a place in a table, with the same map of keys
  pub record Gives (q : Result ℕ × TypeTable K F M D) (least : ℕ) (m : List (K × ℕ)) : Type 0 where
    pub index : ℕ
    pub table : TypeTable K F M D
    pub returns : q ≡ (ok index, table)
    pub later : least < index
    pub within : index < table.size

  module _ (t : TypeTable K F M D) (p : Entry K F M D) (v : IsValid t)
      (known : t.entry p.type_index ≡ some p) where
    pub pool_index-Gives :
        (slots : ℕ)
        → 1 ≤ slots
        → p.allocated_slots + slots ≤ p.num_slots
        → t.size < 2 ^ 31
        → Gives (pool_index slots p t) p.type_index t.type_key2index
    unfolding pool_index
    pool_index-Gives slots some_slots room small =
        let pl = v.placed p.type_index p known in
        let i : ℕ = p.type_index + p.allocated_slots in
        let u : TypeTable K F M D = record t {
          entry = store p.type_index (some (given p slots)) t.entry;
        } in
        let rest : ℕ → Action (TypeTable K F M D) ℕ =
          λ i. set_entry p.type_index (given p slots) >> pure i in
        record {
          index = i;
          table = u;
          returns =
              bind-ok (add_32 p.type_index p.allocated_slots) rest t i t (
                add_32-ok p.type_index p.allocated_slots t
                  (omega (arith, pl.within, pl.few_allocated, small)))
              ∙ bind-ok (set_entry p.type_index (given p slots)) (λ _. pure i) t tt u
                  (set_entry-ok p.type_index (given p slots) t
                    (omega (arith, pl.within, pl.few_allocated, pl.some_allocated)));
          later = omega (arith, pl.some_allocated);
          within = omega (arith, pl.within, room, some_slots);
        }

    pub overflow_index-Gives :
        (slots : ℕ)
        → 1 ≤ slots
        → p.child_slots_can_overflow ≡ true
        → t.size + slots < 2 ^ 31
        → Gives (overflow_index slots p t) p.type_index t.type_key2index
    unfolding overflow_index
    overflow_index-Gives slots some_slots can small =
        let pl = v.placed p.type_index p known in
        let c : ℕ = t.type_counter + slots in
        let u : TypeTable K F M D = record t { type_counter = c; size = c } in
        let finish : Action (TypeTable K F M D) ℕ =
          λ s. (ok t.type_counter, record t { type_counter = c; size = c }) in
        let rest : TypeTable K F M D → ℕ → Action (TypeTable K F M D) ℕ = λ s n. do
          put (record s { type_counter = n })
          check (leb s.size n)
          put (record s { type_counter = n; size = n })
          pure s.type_counter
        in record {
          index = t.type_counter;
          table = u;
          returns =
              bind-ok (check p.child_slots_can_overflow)
                (λ _. get >>= λ s. add_32 s.type_counter slots >>= rest s) t tt t
                (check-ok p.child_slots_can_overflow t can)
              ∙ bind-ok (add_32 t.type_counter slots) (rest t) t c t
                  (add_32-ok t.type_counter slots t (omega (arith, v.full, small)))
              ∙ bind-ok (check (leb t.size c)) (λ _. finish) (record t { type_counter = c }) tt
                  (record t { type_counter = c })
                  (check-ok (leb t.size c) (record t { type_counter = c })
                    (le→leb _ _ (omega (arith, v.full))));
          later = omega (arith, v.full, pl.within, pl.some_allocated, pl.few_allocated);
          within = omega (arith, some_slots);
        }

    pub install-ok :
        (r : Request K) (i : ℕ) (u : TypeTable K F M D)
        → p.type_index < i
        → i < u.size
        → r.type_depth ≡ p.type_depth + 1
        → r.num_child_slots + 1 < 2 ^ 31
        → install r (some p) i u ≡ (
          ok tt,
          record u {
            entry =
                store i (some (new_entry r (some p) i (r.num_child_slots + 1) (lineage p))) u.entry;
          },
        )
    unfolding install
    install-ok r i u later within deep small =
        let n : ℕ = r.num_child_slots + 1 in
        let build : ℕ → Action (TypeTable K F M D) (Unit {0}) = λ n.
          ancestors_of r.type_depth (some p) >>= λ l. set_entry i (new_entry r (some p) i n l) in
        bind-ok (check (ltb p.type_index i)) (λ _. add_32 r.num_child_slots 1 >>= build) u tt u
          (check-ok (ltb p.type_index i) u (lt→ltb _ _ later))
        ∙ bind-ok (add_32 r.num_child_slots 1) build u n u (add_32-ok r.num_child_slots 1 u small)
        ∙ bind-ok (ancestors_of r.type_depth (some p))
            (λ l. set_entry i (new_entry r (some p) i n l)) u (lineage p) u
            (chain r.type_depth deep)
        ∙ set_entry-ok i (new_entry r (some p) i n (lineage p)) u within
      where
        chain : (d : ℕ) → d ≡ p.type_depth + 1 → ancestors_of d (some p) u ≡ (ok (lineage p), u)
        chain zero e = absurd (omega (arith, e))
        chain (suc d) e =
            bind-ok (check (suc d == p.type_depth + 1)) (λ _. pure (lineage p)) u tt u
              (check-ok (suc d == p.type_depth + 1) u ((==_iff _ _).1 e))
