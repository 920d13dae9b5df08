-- ===== src/TypeTable/Allocate.antt =====
-- `allocated_tindex`: whichever of the three steps gives the index, the new range is apart from the other
-- types' ranges, or stands in the pool of the parent.
use litetvm_ffi.Prelude.{
  ℕ, ◌+◌, ◌^◌, ◌≤◌, ◌<◌, true, false, Option, none, some, ◌≡◌, refl, sym, ap, ◌∙◌, ◌⊎◌, inl, inr,
  arith, leb, ltb, if_cases, Option-cases, option_cases,
}
use litetvm_ffi.TypeTable.Result.{Result, ok, err, Action, ◌>>=◌, ◌>>◌, pure, get, put}
use litetvm_ffi.TypeTable.{
  Entry, TypeTable, check, add_32, dyn_object_begin, static_index, overflow_index,
}
use litetvm_ffi.TypeTable.Valid.{IsAncestor, IsValid, IsRevised}
use litetvm_ffi.TypeTable.Changes.{some-injective, IsRevised-refl, grow-IsValid}
use litetvm_ffi.TypeTable.Rules.{ltb→lt, add_32-cases, check-cases}

pub leb→le : (a b : ℕ) → leb a b ≡ true → a ≤ b
leb→le a b h = ground arith

le→leb : (a b : ℕ) → leb a b ≡ false → ¬ (a ≤ b)
le→leb a b h = ground arith

module _ {K F M D : Type 0} where
  -- `j` is the parent or one of its ancestors.
  abbrev pub IsUnder : Option (Entry K F M D) → ℕ → Type 0
  IsUnder parent j = (p : Entry K F M D) × (parent ≡ some p) × ((j ≡ p.type_index) ⊎ IsAncestor j p)

  -- The range of `slots` places at `i` is free for a type below the parent.
  pub record IsFree (u : TypeTable K F M D) (parent : Option (Entry K F M D)) (i slots : ℕ)
      : Type 0 where
    pub valid : IsValid u
    pub free : u.entry i ≡ none
    pub within : i + slots ≤ u.size
    pub single : i < dyn_object_begin → slots ≡ 1
    pub above :
        (j : ℕ) (a : Entry K F M D)
        → u.entry j ≡ some a
        → j < i
        → (j + a.num_slots ≤ i) ⊎ ((i + slots ≤ j + a.allocated_slots) × IsUnder parent j)
    pub below : (j : ℕ) (a : Entry K F M D) → u.entry j ≡ some a → i < j → i + slots ≤ j
    pub family :
        (p : Entry K F M D)
        → parent ≡ some p
        → (q : Entry K F M D) × (u.entry p.type_index ≡ some q) × IsRevised p q
    pub inside :
        (p : Entry K F M D)
        → parent ≡ some p
        → p.child_slots_can_overflow ≡ false
        → i + slots ≤ p.type_index + p.num_slots

  -- How the allocation may end
  abbrev pub Allocates : Option (Entry K F M D) → ℕ → Result ℕ × TypeTable K F M D → Type 0
  Allocates parent slots (ok i, u) = IsFree u parent i slots
  Allocates parent slots (err e, u) = IsValid u

  -- The parent's entry is that of the table.
  abbrev pub IsParent : TypeTable K F M D → Option (Entry K F M D) → Type 0
  IsParent t parent = (p : Entry K F M D) → parent ≡ some p → t.entry p.type_index ≡ some p

  pub static_index-Allocates :
      (t : TypeTable K F M D) (parent : Option (Entry K F M D)) (i : ℕ)
      → i < dyn_object_begin
      → ((p : Entry K F M D) → parent ≡ some p → p.child_slots_can_overflow ≡ true)
      → IsParent t parent
      → IsValid t
      → Allocates parent 1 (static_index i t)
  unfolding static_index
  static_index-Allocates t parent i low open_parent known v =
      if_cases (Allocates parent 1) (ltb i t.size)
        (λ within.
          option_cases (Allocates parent 1) (t.entry i)
            (λ free. record {
              valid = v;
              free = free;
              within = omega (arith, ltb→lt _ _ within);
              single = λ h. refl;
              above = λ j a there lt.
                  let one = (v.placed j a there).single (omega (arith, low, lt)) in
                  inl (omega (arith, one, lt));
              below = λ j a there lt. omega (arith, lt);
              family = λ p e.
                  (p, known p e, IsRevised-refl t.size p.type_index p (v.placed _ p (known p e)));
              inside = λ p e shut.
                  let clash : true ≡ false = sym (open_parent p e) ∙ shut in absurd (cc clash);
            })
            (λ e there. v))
        (λ behind. v)

  grown-IsFree :
      (t : TypeTable K F M D) (p : Entry K F M D) (slots : ℕ)
      → t.entry p.type_index ≡ some p
      → p.child_slots_can_overflow ≡ true
      → t.type_counter + slots < 2 ^ 31
      → IsValid t
      → IsFree
          (record t { type_counter = t.type_counter + slots; size = t.type_counter + slots })
          (some p)
          t.type_counter
          slots
  grown-IsFree t p slots known can low v = record {
    valid = grow-IsValid t (t.type_counter + slots) (omega (arith, v.full)) low v;
    free = elim (Option-cases (t.entry t.type_counter)) [
      | inl e ↦ e
      | inr (b, e) ↦
          let pl = v.placed _ b e in
          absurd (omega (arith, v.full, pl.within, pl.some_allocated, pl.few_allocated))
    ];
    within = omega arith;
    single = λ low. absurd (omega (arith, low, v.full, v.begun));
    above = λ j a there lt. inl (omega (arith, (v.placed j a there).within, v.full));
    below = λ j a there lt.
        let pl = v.placed j a there in
        absurd (omega (arith, lt, v.full, pl.within, pl.some_allocated, pl.few_allocated));
    family = λ q e.
        let same = some-injective p q e in
        let there = ap (λ (r : Entry K F M D). t.entry r.type_index) (sym same) ∙ known ∙ e in
        (q, there, IsRevised-refl t.size q.type_index q (v.placed _ q there));
    inside = λ q e shut.
        let same = some-injective p q e in
        let clash : true ≡ false =
          sym can ∙ ap (λ (r : Entry K F M D). r.child_slots_can_overflow) same ∙ shut in
        absurd (cc clash);
  }

  pub overflow_index-Allocates :
      (t : TypeTable K F M D) (p : Entry K F M D) (slots : ℕ)
      → t.entry p.type_index ≡ some p
      → IsValid t
      → Allocates (some p) slots (overflow_index slots p t)
  unfolding overflow_index
  overflow_index-Allocates t p slots known v =
      let ends = Allocates (some p) slots in
      let c : ℕ = t.type_counter + slots in
      let finish : Action (TypeTable K F M D) ℕ =
        λ u. (ok t.type_counter, record t { type_counter = c; size = c }) in
      let rest : TypeTable K F M D → ℕ → Action (TypeTable K F M D) ℕ = λ s n. do
        put (record s { type_counter = n })
        check (leb s.size n)
        put (record s { type_counter = n; size = n })
        pure s.type_counter
      in check-cases ends p.child_slots_can_overflow
        (get >>= λ s. add_32 s.type_counter slots >>= rest s) t
        (λ can.
          add_32-cases ends t.type_counter slots (rest t) t
            (λ fits.
              check-cases ends (leb t.size c) finish (record t { type_counter = c })
                (λ more. grown-IsFree t p slots known can fits v)
                (λ less. absurd (le→leb _ _ less (omega (arith, v.full)))))
            v)
        (λ cannot. v)
