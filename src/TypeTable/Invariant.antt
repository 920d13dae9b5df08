-- ===== src/TypeTable/Invariant.antt =====
-- `GetOrAllocTypeIndex` keeps the table valid, on each of its returns and throws.
use litetvm_ffi.Prelude.{
  inl, inr, ℕ, ◌+◌, ◌<◌, true, Option, none, some, List, ◌≡◌, refl, sym, ap, subst, ◌∙◌, arith, leb,
  ltb, if_cases, Option-cases, option_cases, if◌then◌else◌,
}
use litetvm_ffi.Map.Assoc.{KeyApi, lookup}
use litetvm_ffi.TypeTable.Result.{
  Result, ok, err, Action, bad_access, check_failed, ◌>>=◌, ◌>>◌, pure, fail,
}
use litetvm_ffi.TypeTable.{
  Entry, TypeTable, Request, dyn_object_begin, add_32, entry_at, known_index, find_parent,
  pool_index, overflow_index, allocate_index, install, new_type, set_key, get_or_alloc_type_index,
}
use litetvm_ffi.TypeTable.Valid.{IsValid}
use litetvm_ffi.TypeTable.Rules.{add_32-cases, bind-cases}
use litetvm_ffi.TypeTable.Allocate.{
  IsFree, IsParent, Allocates, static_index-Allocates, overflow_index-Allocates, leb→le,
}
use litetvm_ffi.TypeTable.Pool.{pool_index-Allocates}
use litetvm_ffi.TypeTable.Install.{install-IsValid}
use litetvm_ffi.TypeTable.Growth.{
  Grows, Grows-refl, Grows-trans, allocate_index-Grows, install-Grows,
}

ok-injective : (i j : ℕ) → ok i ≡ ok j → i ≡ j
ok-injective i j e = cc

module _ {K F M D : Type 0} where
  -- What the library's declarations of types keep to: a type with a parent has ancestors, and a type with
  -- a static index is one of the built-in ones, has no slots for others, and no parent that keeps its
  -- children in its slots.
  pub record IsDeclared (t : TypeTable K F M D) (r : Request K) : Type 0 where
    pub flat : r.type_depth ≡ 0 → r.parent_type_index ≡ none
    pub built_in : (i : ℕ) → r.static_type_index ≡ some i → i < dyn_object_begin
    pub leaf : (i : ℕ) → r.static_type_index ≡ some i → r.num_child_slots ≡ 0
    pub open_parent :
        (i o : ℕ) (p : Entry K F M D)
        → r.static_type_index ≡ some i
        → r.parent_type_index ≡ some o
        → t.entry o ≡ some p
        → p.child_slots_can_overflow ≡ true

  dynamic-Allocates :
      (t : TypeTable K F M D) (n : ℕ) (p : Entry K F M D)
      → t.entry p.type_index ≡ some p
      → IsValid t
      → Allocates (some p) (n + 1) (
          (do
            slots ← add_32 n 1
            allocated ← add_32 p.allocated_slots slots
            if leb allocated p.num_slots then pool_index slots p else overflow_index slots p)
            t)
  dynamic-Allocates t n p known v =
      let ends = Allocates (some p) (n + 1) in
      let choose : ℕ → ℕ → Action (TypeTable K F M D) ℕ = λ slots allocated.
        if leb allocated p.num_slots then pool_index slots p else overflow_index slots p in
      add_32-cases ends n 1 (λ slots. add_32 p.allocated_slots slots >>= choose slots) t
        (λ fits.
          add_32-cases ends p.allocated_slots (n + 1) (choose (n + 1)) t
            (λ fits'.
              if_cases (λ (k : Action (TypeTable K F M D) ℕ). ends (k t))
                (leb (p.allocated_slots + (n + 1)) p.num_slots)
                (λ room. pool_index-Allocates t p (n + 1) known (omega arith) (leb→le _ _ room) v)
                (λ full. overflow_index-Allocates t p (n + 1) known v))
            v)
        v

  pub allocate_index-Allocates :
      (t : TypeTable K F M D) (r : Request K) (parent : Option (Entry K F M D))
      → ((i : ℕ) → r.static_type_index ≡ some i → i < dyn_object_begin)
      → ((i : ℕ) → r.static_type_index ≡ some i → r.num_child_slots ≡ 0)
      → ((i : ℕ) (p : Entry K F M D)
          → r.static_type_index ≡ some i
          → parent ≡ some p
          → p.child_slots_can_overflow ≡ true)
      → IsParent t parent
      → IsValid t
      → Allocates parent (r.num_child_slots + 1) (allocate_index r parent t)
  unfolding allocate_index
  allocate_index-Allocates t r parent low leaf open_parent known v =
      elim (Option-cases r.static_type_index) [
        | inr (i, e) ↦
            rw (e, leaf i e)
              (static_index-Allocates t parent i (low i e) (λ p. open_parent i p e) known v)
        | inl e ↦ rw e (dynamic parent known)
      ]
    where
      dynamic :
          (parent : Option (Entry K F M D))
          → IsParent t parent
          → Allocates parent
              (r.num_child_slots + 1)
              (allocate_index (record r { static_type_index = none }) parent t)
      dynamic none known = v
      dynamic (some p) known = dynamic-Allocates t r.num_child_slots p (known p refl) v

  Allocates-ok :
      (parent : Option (Entry K F M D)) (slots : ℕ) (q : Result ℕ × TypeTable K F M D) (i : ℕ)
      → q.0 ≡ ok i
      → Allocates parent slots q
      → IsFree q.1 parent i slots
  Allocates-ok parent slots (ok j, u) i e f =
      subst (λ k. IsFree u parent k slots) (ok-injective j i e) f
  Allocates-ok parent slots (err x, u) i e f = absurd (cc e)

  Allocates-IsValid :
      (parent : Option (Entry K F M D)) (slots : ℕ) (q : Result ℕ × TypeTable K F M D)
      → Allocates parent slots q
      → IsValid q.1
  Allocates-IsValid parent slots (ok i, u) f = f.valid
  Allocates-IsValid parent slots (err e, u) v = v

  -- The later table is valid, and has every entry of the first one.
  pub record Kept (t u : TypeTable K F M D) : Type 0 where
    pub valid : IsValid u
    pub grows : Grows t u

  abbrev Keeps : TypeTable K F M D → {A : Type 0} → Result A × TypeTable K F M D → Type 0
  Keeps t q = Kept t q.1

  Kept-refl : (t : TypeTable K F M D) → IsValid t → Kept t t
  Kept-refl t v = record { valid = v; grows = Grows-refl t v }

  continue-Kept :
      (t : TypeTable K F M D) (r : Request K) (parent : Option (Entry K F M D))
      → IsDeclared t r
      → (r.parent_type_index ≡ none → parent ≡ none)
      → ((p : Entry K F M D)
          → parent ≡ some p
          → (o : ℕ) × (r.parent_type_index ≡ some o) × (t.entry o ≡ some p))
      → IsValid t
      → Kept t ((do i ← allocate_index r parent; install r parent i; pure i) t).1
  continue-Kept t r parent d orphan child v =
      let known : IsParent t parent =
        λ p e. let (o, at_o, there) = child p e in ap t.entry (v.placed o p there).own ∙ there in
      let ends =
        allocate_index-Allocates t r parent d.built_in d.leaf
          (λ i p static e.
            let (o, at_o, there) = child p e in d.open_parent i o p static at_o there)
          known v in
      let grown = allocate_index-Grows t r parent known v in
      bind-cases (Keeps t) (allocate_index r parent) (λ i. do install r parent i; pure i) t
        (λ i e.
          let free =
            Allocates-ok parent (r.num_child_slots + 1) (allocate_index r parent t) i e ends in
          let made : Kept t (install r parent i (allocate_index r parent t).1).1 = record {
            valid =
                install-IsValid r (allocate_index r parent t).1 parent i
                  (λ flat. orphan (d.flat flat)) free;
            grows =
                Grows-trans t (allocate_index r parent t).1
                  (install r parent i (allocate_index r parent t).1).1 grown
                  (install-Grows r (allocate_index r parent t).1 parent i free.free free.valid);
          } in
          bind-cases (Keeps t) (install r parent i) (λ _. pure i) (allocate_index r parent t).1
            (λ x done. made) (λ x thrown. made))
        (λ x thrown. record { valid = Allocates-IsValid parent _ _ ends; grows = grown })

  new_type-Kept :
      (t : TypeTable K F M D) (r : Request K) → IsDeclared t r → IsValid t → Kept t (new_type r t).1
  unfolding new_type find_parent
  new_type-Kept t r d v = with_parent r.parent_type_index refl
    where
      go : Option (Entry K F M D) → Action (TypeTable K F M D) ℕ
      go parent = do i ← allocate_index r parent; install r parent i; pure i

      with_parent : (o : Option ℕ) → r.parent_type_index ≡ o → Kept t ((find_parent o >>= go) t).1
      with_parent none e =
          continue-Kept t r none d (λ _. refl) (λ p none_some. absurd (cc none_some)) v
      with_parent (some o) e =
          if_cases
            (λ (q : Result (Option (Entry K F M D)) × TypeTable K F M D).
              Kept t (((λ _. q) >>= go) t).1)
            (ltb o t.size) {x = (ok (t.entry o), t)} {y = (err check_failed, t)}
            (λ within.
              continue-Kept t r (t.entry o) d
                (λ orphan. let clash : some o ≡ none = sym e ∙ orphan in absurd (cc clash))
                (λ p there. (o, e, there)) v)
            (λ behind. Kept-refl t v)

  known-Kept : (t : TypeTable K F M D) (i : ℕ) → IsValid t → Kept t (known_index i t).1
  unfolding known_index
  known-Kept t i v =
      bind-cases (Keeps t) (entry_at i)
        (λ (o : Option (Entry K F M D)). elim o [
          | none ↦ fail bad_access
          | some e ↦ pure e.type_index
        ])
        t
        (λ o there.
          option_cases (λ (k : Action (TypeTable K F M D) ℕ). Kept t (k (entry_at i t).1).1) o
            (λ _. read) (λ e _. read))
        (λ x thrown. read)
    where
      read : Kept t (entry_at i t).1
      read =
          if_cases (λ (q : Result (Option (Entry K F M D)) × TypeTable K F M D). Kept t q.1)
            (ltb i t.size) (λ _. Kept-refl t v) (λ _. Kept-refl t v)

  keyed-IsValid :
      (t : TypeTable K F M D) (m : List (K × ℕ))
      → IsValid t
      → IsValid (record t { type_key2index = m })
  keyed-IsValid t m v = record {
    full = v.full;
    begun = v.begun;
    small = v.small;
    placed = v.placed;
    apart = v.apart;
    ancestors = v.ancestors;
  }

module _ {K F M D : Type 0} (keys : KeyApi K) (t : TypeTable K F M D) (r : Request K)
    (d : IsDeclared t r) (v : IsValid t) where
  pub get_or_alloc_type_index-Kept : Kept t (get_or_alloc_type_index keys r t).1
  unfolding get_or_alloc_type_index
  get_or_alloc_type_index-Kept = elim (Option-cases (lookup keys r.type_key t.type_key2index)) [
    | inl new ↦
        let made = new_type-Kept t r d v in
        rw (new, get_or_alloc_type_index)
          (bind-cases (Keeps t) (new_type r) (λ i. do set_key keys r.type_key i; pure i) t
            (λ i e. record { valid = keyed-IsValid _ _ made.valid; grows = made.grows })
            (λ x thrown. made))
    | inr (i, known) ↦ rw (known, get_or_alloc_type_index) (known-Kept t i v)
  ]

  -- From a valid table, for a request as the library's declarations of types make it (no parent at depth
  -- zero; a static index only below 128, without slots for others, and not below a class that cannot
  -- overflow), GetOrAllocTypeIndex leaves a valid table, whether it returns the index of a known key, gives
  -- a new one, or throws: reserved ranges are nested along the ancestors or apart, and the ancestors of
  -- each entry are a chain of entries.
  pub get_or_alloc_type_index-IsValid : IsValid (get_or_alloc_type_index keys r t).1
  get_or_alloc_type_index-IsValid = get_or_alloc_type_index-Kept.valid

  -- Under the same conditions every type that the table had stays at its index with its key, its
  -- ancestors, its slots and its flag, and loses no slot that it had allocated.
  pub get_or_alloc_type_index-Grows : Grows t (get_or_alloc_type_index keys r t).1
  get_or_alloc_type_index-Grows = get_or_alloc_type_index-Kept.grows
