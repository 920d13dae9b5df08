-- ===== src/TypeTable/Pool.antt =====
-- `allocated_tindex`: the slots that the parent's pool gives away are free for a type below the parent.
use litetvm_ffi.Prelude.{
  ℕ, ◌+◌, ◌≤◌, ◌<◌, Option, some, ◌≡◌, refl, sym, ap, subst, inl, inr, arith, dec_lt, Option-cases,
}
use litetvm_ffi.Map.Dense.Links.{store}
use litetvm_ffi.Map.Dense.Links.Segments.{store-same, store_read}
use litetvm_ffi.TypeTable.Result.{◌>>◌, pure}
use litetvm_ffi.TypeTable.{Entry, TypeTable, set_entry, pool_index}
use litetvm_ffi.TypeTable.Valid.{IsPlaced, IsValid, IsRevised}
use litetvm_ffi.TypeTable.Changes.{some-injective, rewrite-IsValid}
use litetvm_ffi.TypeTable.Rules.{add_32-cases, set_entry-cases}
use litetvm_ffi.TypeTable.Allocate.{IsFree, Allocates}

module _ {K F M D : Type 0} where
  -- The parent's entry after its pool has given slots away
  abbrev pub given : Entry K F M D → ℕ → Entry K F M D
  given p slots = record p { allocated_slots = p.allocated_slots + slots }

  pool-IsFree :
      (t : TypeTable K F M D) (p : Entry K F M D) (slots : ℕ)
      → t.entry p.type_index ≡ some p
      → 1 ≤ slots
      → p.allocated_slots + slots ≤ p.num_slots
      → IsValid t
      → IsFree
          (record t { entry = store p.type_index (some (given p slots)) t.entry })
          (some p)
          (p.type_index + p.allocated_slots)
          slots
  pool-IsFree t p slots known some_slots room v = record {
    valid = rewrite-IsValid t o p (given p slots) known taken v;
    free = elim (Option-cases (u i)) [
      | inl e ↦ e
      | inr (b, e) ↦ elim (store_read o i (some (given p slots)) (some b) t.entry e) [
        | inl (same, new) ↦ absurd (omega (arith, same, mine.some_allocated))
        | inr (other, old) ↦ elim (v.apart o i p b known old (omega (arith, mine.some_allocated))) [
          | inl behind ↦ absurd (omega (arith, behind, room, some_slots))
          | inr (nested, anc) ↦
              let pl = v.placed i b old in
              absurd (omega (arith, nested, pl.some_allocated, pl.few_allocated))
        ]
      ]
    ];
    within = omega (arith, mine.within, room);
    single = λ low.
        absurd
          (omega (arith, mine.single (omega (arith, low)), mine.some_allocated, room, some_slots));
    above = λ j a there lt. elim (store_read o j (some (given p slots)) (some a) t.entry there) [
      | inl (same, new) ↦
          let parts =
            ap (λ (r : Entry K F M D). r.allocated_slots) (some-injective (given p slots) a new) in
          inr (omega (arith, same, parts), (p, refl, inl (sym same)))
      | inr (other, old) ↦ elim (dec_lt j o) [
        | yes before ↦ elim (v.apart j o a p old known before) [
          | inl ends ↦ inl (omega (arith, ends))
          | inr (nested, anc) ↦ inr (omega (arith, nested, room), (p, refl, inr anc))
        ]
        | no later ↦
            let behind : o < j = omega (arith, later, other) in
            elim (v.apart o j p a known old behind) [
              | inl ends ↦ absurd (omega (arith, ends, lt, room, some_slots))
              | inr (nested, anc) ↦ inl nested
            ]
      ]
    ];
    below = λ j a there lt. elim (store_read o j (some (given p slots)) (some a) t.entry there) [
      | inl (same, new) ↦ absurd (omega (arith, same, lt))
      | inr (other, old) ↦ elim (v.apart o j p a known old (omega (arith, lt))) [
        | inl ends ↦ omega (arith, ends, room)
        | inr (nested, anc) ↦
            let pl = v.placed j a old in
            absurd (omega (arith, nested, lt, pl.some_allocated, pl.few_allocated))
      ]
    ];
    family = λ q e.
        let same = some-injective p q e in
        subst
          (λ (r : Entry K F M D). (b : Entry K F M D) × (u r.type_index ≡ some b) × IsRevised r b)
          same (given p slots, store-same o (some (given p slots)) t.entry, taken);
    inside = λ q e shut.
        subst (λ (r : Entry K F M D). i + slots ≤ r.type_index + r.num_slots) (some-injective p q e)
          (omega (arith, room));
  }
    where
      o : ℕ
      o = p.type_index

      i : ℕ
      i = p.type_index + p.allocated_slots

      u : ℕ → Option (Entry K F M D)
      u = store p.type_index (some (given p slots)) t.entry

      mine : IsPlaced t.size p.type_index p
      mine = v.placed p.type_index p known

      taken : IsRevised p (given p slots)
      taken = record {
        index = refl;
        key = refl;
        depth = refl;
        chain = refl;
        slots = refl;
        overflow = refl;
        more = omega arith;
        few = room;
      }

  pub pool_index-Allocates :
      (t : TypeTable K F M D) (p : Entry K F M D) (slots : ℕ)
      → t.entry p.type_index ≡ some p
      → 1 ≤ slots
      → p.allocated_slots + slots ≤ p.num_slots
      → IsValid t
      → Allocates (some p) slots (pool_index slots p t)
  unfolding pool_index
  pool_index-Allocates t p slots known some_slots room v =
      let ends = Allocates (some p) slots in
      add_32-cases ends p.type_index p.allocated_slots
        (λ i. do set_entry p.type_index (given p slots); pure i) t
        (λ fits.
          set_entry-cases ends p.type_index (given p slots)
            (pure (p.type_index + p.allocated_slots)) t
            (λ within. pool-IsFree t p slots known some_slots room v) v)
        v
