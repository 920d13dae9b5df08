-- ===== src/TypeTable/Growth.antt =====
-- A type that the table has keeps its index, its key and its ancestors, whatever is allocated later.
use litetvm_ffi.Prelude.{
  inl, inr, ℕ, zero, suc, ◌+◌, ◌≤◌, true, Option, none, some, [], ◌==◌, ◌≡◌, refl, sym, ap, ◌∙◌,
  arith, leb, ltb, if_cases, option_cases, if◌then◌else◌, Bool-cases,
}
use litetvm_ffi.Map.Dense.Links.Segments.{store-other}
use litetvm_ffi.TypeTable.Result.{
  Result, ok, Action, ◌>>=◌, ◌>>◌, pure, get, put, fail, check_failed,
}
use litetvm_ffi.TypeTable.{
  Entry, TypeTable, Request, check, add_32, set_entry, new_entry, static_index, pool_index,
  overflow_index, allocate_index, ancestors_of, install,
}
use litetvm_ffi.TypeTable.Valid.{IsValid, IsRevised}
use litetvm_ffi.TypeTable.Changes.{IsRevised-refl, rewrite-Revises}
use litetvm_ffi.TypeTable.Rules.{add_32-cases, check-cases, set_entry-cases}
use litetvm_ffi.TypeTable.Allocate.{leb→le}
use litetvm_ffi.TypeTable.Pool.{given}

module _ {K F M D : Type 0} where
  -- Each entry of `t` is still there.
  abbrev pub Grows : TypeTable K F M D → TypeTable K F M D → Type 0
  Grows t u =
      (i : ℕ) (a : Entry K F M D)
      → t.entry i ≡ some a
      → (b : Entry K F M D) × (u.entry i ≡ some b) × IsRevised a b

  pub IsRevised-trans : (a b c : Entry K F M D) → IsRevised a b → IsRevised b c → IsRevised a c
  IsRevised-trans a b c r s = record {
    index = s.index ∙ r.index;
    key = s.key ∙ r.key;
    depth = s.depth ∙ r.depth;
    chain = s.chain ∙ r.chain;
    slots = s.slots ∙ r.slots;
    overflow = s.overflow ∙ r.overflow;
    more = omega (arith, r.more, s.more);
    few = s.few;
  }

  pub Grows-refl : (t : TypeTable K F M D) → IsValid t → Grows t t
  Grows-refl t v i a there = (a, there, IsRevised-refl t.size i a (v.placed i a there))

  pub Grows-trans : (t u w : TypeTable K F M D) → Grows t u → Grows u w → Grows t w
  Grows-trans t u w g h i a there =
      let (b, at_b, r) = g i a there in
      let (c, at_c, s) = h i b at_b in (c, at_c, IsRevised-trans a b c r s)

  abbrev From : TypeTable K F M D → {A : Type 0} → Result A × TypeTable K F M D → Type 0
  From t q = Grows t q.1

  overflow_index-Grows :
      (t : TypeTable K F M D) (p : Entry K F M D) (slots : ℕ)
      → IsValid t
      → Grows t (overflow_index slots p t).1
  unfolding overflow_index
  overflow_index-Grows t p slots v =
      let same = Grows-refl t v in
      let rest : TypeTable K F M D → ℕ → Action (TypeTable K F M D) ℕ = λ s n. do
        put (record s { type_counter = n })
        check (leb s.size n)
        put (record s { type_counter = n; size = n })
        pure s.type_counter
      in check-cases (From t) p.child_slots_can_overflow
        (get >>= λ s. add_32 s.type_counter slots >>= rest s) t
        (λ can.
          add_32-cases (From t) t.type_counter slots (rest t) t
            (λ fits.
              check-cases (From t) (leb t.size (t.type_counter + slots))
                (λ u. (
                  ok t.type_counter,
                  record t { type_counter = t.type_counter + slots; size = t.type_counter + slots },
                ))
                (record t { type_counter = t.type_counter + slots }) (λ more. same) (λ less. same))
            same)
        (λ cannot. same)

  pool_index-Grows :
      (t : TypeTable K F M D) (p : Entry K F M D) (slots : ℕ)
      → t.entry p.type_index ≡ some p
      → p.allocated_slots + slots ≤ p.num_slots
      → IsValid t
      → Grows t (pool_index slots p t).1
  unfolding pool_index
  pool_index-Grows t p slots known room v =
      let same = Grows-refl t v in
      add_32-cases (From t) p.type_index p.allocated_slots
        (λ i. do set_entry p.type_index (given p slots); pure i) t
        (λ fits.
          set_entry-cases (From t) p.type_index (given p slots)
            (pure (p.type_index + p.allocated_slots)) t
            (λ within.
              (rewrite-Revises t p.type_index p (given p slots) known
                (record {
                  index = refl;
                  key = refl;
                  depth = refl;
                  chain = refl;
                  slots = refl;
                  overflow = refl;
                  more = omega arith;
                  few = room;
                })
                v).forth)
            same)
        same

  pub allocate_index-Grows :
      (t : TypeTable K F M D) (r : Request K) (parent : Option (Entry K F M D))
      → ((p : Entry K F M D) → parent ≡ some p → t.entry p.type_index ≡ some p)
      → IsValid t
      → Grows t (allocate_index r parent t).1
  unfolding allocate_index static_index
  allocate_index-Grows t r parent known v =
      option_cases (λ (k : Action (TypeTable K F M D) ℕ). Grows t (k t).1) r.static_type_index
        (λ _. dynamic parent known)
        (λ i _.
          if_cases (λ (q : Result ℕ × TypeTable K F M D). From t q) (ltb i t.size)
            (λ _.
              option_cases (λ (q : Result ℕ × TypeTable K F M D). From t q) (t.entry i) (λ _. same)
                (λ e _. same))
            (λ _. same))
    where
      same : Grows t t
      same = Grows-refl t v

      choose : Entry K F M D → ℕ → ℕ → Action (TypeTable K F M D) ℕ
      choose p slots allocated =
          if leb allocated p.num_slots then pool_index slots p else overflow_index slots p

      dynamic :
          (parent : Option (Entry K F M D))
          → ((p : Entry K F M D) → parent ≡ some p → t.entry p.type_index ≡ some p)
          → Grows t
              ((elim parent as (λ _. Action (TypeTable K F M D) ℕ) [
                | none ↦ fail check_failed
                | some p ↦ add_32 r.num_child_slots 1 >>= λ slots.
                    add_32 p.allocated_slots slots >>= choose p slots
              ])
                t).1
      dynamic none known = same
      dynamic (some p) known =
          add_32-cases (From t) r.num_child_slots 1
            (λ slots. add_32 p.allocated_slots slots >>= choose p slots) t
            (λ fits.
              let n : ℕ = r.num_child_slots + 1 in
              add_32-cases (From t) p.allocated_slots n (choose p n) t
                (λ fits'.
                  if_cases (λ (k : Action (TypeTable K F M D) ℕ). Grows t (k t).1)
                    (leb (p.allocated_slots + n) p.num_slots)
                    (λ room. pool_index-Grows t p n (known p refl) (leb→le _ _ room) v)
                    (λ full. overflow_index-Grows t p n v))
                same)
            same

  -- A write to a free place
  write-Grows :
      (u : TypeTable K F M D) (i : ℕ) (e : Entry K F M D)
      → u.entry i ≡ none
      → IsValid u
      → Grows u (set_entry i e u).1
  write-Grows u i e free v =
      if_cases (λ (q : Result (Unit {0}) × TypeTable K F M D). Grows u q.1) (ltb i u.size)
        (λ within j a there. (
          a,
          store-other i j (some e) u.entry
                (λ same. let clash : none ≡ some a = sym free ∙ ap u.entry same ∙ there in cc clash)
              ∙ there,
          IsRevised-refl u.size j a (v.placed j a there),
        ))
        (λ behind. Grows-refl u v)

  pub install-Grows :
      (r : Request K) (u : TypeTable K F M D) (parent : Option (Entry K F M D)) (i : ℕ)
      → u.entry i ≡ none
      → IsValid u
      → Grows u (install r parent i u).1
  unfolding install ancestors_of
  install-Grows r u parent i free v =
      let same = Grows-refl u v in
      let build : ℕ → Action (TypeTable K F M D) (Unit {0}) =
        λ n. ancestors_of r.type_depth parent >>= λ l. set_entry i (new_entry r parent i n l) in
      check-cases (From u) (elim parent [ none ↦ true | some p ↦ ltb p.type_index i ])
        (add_32 r.num_child_slots 1 >>= build) u
        (λ later.
          add_32-cases (From u) r.num_child_slots 1 build u (λ fits. construct r.type_depth parent)
            same)
        (λ early. same)
    where
      construct :
          (d : ℕ) (o : Option (Entry K F M D))
          → Grows u
              ((ancestors_of d o >>= λ l.
                  set_entry i (new_entry r parent i (r.num_child_slots + 1) l))
                u).1
      construct zero o = write-Grows u i (new_entry r parent i (r.num_child_slots + 1) []) free v
      construct (suc d) none = Grows-refl u v
      construct (suc d) (some p) = elim (Bool-cases (suc d == p.type_depth + 1)) [
        | inl e ↦ rw e (write-Grows u i _ free v)
        | inr e ↦ rw e (Grows-refl u v)
      ]
