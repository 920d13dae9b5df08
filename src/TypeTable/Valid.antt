-- ===== src/TypeTable/Valid.antt =====
-- What holds of the type table between two calls: the reserved ranges are apart or nested in the order of
-- the ancestors, and the ancestors of an entry are a chain of entries.
use litetvm_ffi.Prelude.{
  ℕ, ◌+◌, ◌^◌, ◌≤◌, ◌<◌, false, some, ◌≡◌, sym, ap, ◌∙◌, ◌⊎◌, inl, inr, get_elem?, take, length,
  arith,
}
use litetvm_ffi.TypeTable.{Entry, TypeTable, dyn_object_begin}

module _ {K F M D : Type 0} where
  -- The entry has place `i` among its ancestors.
  abbrev pub IsAncestor : ℕ → Entry K F M D → Type 0
  IsAncestor i e = (k : ℕ) × (get_elem? e.type_ancestors k ≡ some i)

  -- The ranges of two entries, of which the first has the smaller index
  abbrev pub Apart : ℕ → Entry K F M D → ℕ → Entry K F M D → Type 0
  Apart i a j b =
      (i + a.num_slots ≤ j) ⊎ ((j + b.num_slots ≤ i + a.allocated_slots) × IsAncestor i b)

  pub record IsPlaced (size i : ℕ) (e : Entry K F M D) : Type 0 where
    pub own : e.type_index ≡ i
    pub some_allocated : 1 ≤ e.allocated_slots
    pub few_allocated : e.allocated_slots ≤ e.num_slots
    pub within : i + e.num_slots ≤ size
    pub single : i < dyn_object_begin → e.num_slots ≡ 1
    pub depth : length e.type_ancestors ≡ e.type_depth

  -- The ancestor `a` of the entry `e` at `i`, the `k`-th one
  pub record IsAbove (k a : ℕ) (p : Entry K F M D) (i : ℕ) (e : Entry K F M D) : Type 0 where
    pub before : a < i
    pub chain : p.type_ancestors ≡ take k e.type_ancestors
    pub closed : p.child_slots_can_overflow ≡ false → e.child_slots_can_overflow ≡ false
    pub inside : p.child_slots_can_overflow ≡ false → i + e.num_slots ≤ a + p.num_slots

  abbrev pub HasAncestors : TypeTable K F M D → ℕ → Entry K F M D → Type 0
  HasAncestors t i e =
      (k a : ℕ)
      → get_elem? e.type_ancestors k ≡ some a
      → (p : Entry K F M D) × (t.entry a ≡ some p) × IsAbove k a p i e

  pub record IsValid (t : TypeTable K F M D) : Type 0 where
    pub full : t.size ≡ t.type_counter
    pub begun : dyn_object_begin ≤ t.size
    pub small : t.size < 2 ^ 31
    pub placed : (i : ℕ) (e : Entry K F M D) → t.entry i ≡ some e → IsPlaced t.size i e
    pub apart :
        (i j : ℕ) (a b : Entry K F M D)
        → t.entry i ≡ some a
        → t.entry j ≡ some b
        → i < j
        → Apart i a j b
    pub ancestors : (i : ℕ) (e : Entry K F M D) → t.entry i ≡ some e → HasAncestors t i e

  -- `u` has the entries of `t`, some of them with more allocated slots or with other reflection data.
  pub record IsRevised (a b : Entry K F M D) : Type 0 where
    pub index : b.type_index ≡ a.type_index
    pub key : b.type_key ≡ a.type_key
    pub depth : b.type_depth ≡ a.type_depth
    pub chain : b.type_ancestors ≡ a.type_ancestors
    pub slots : b.num_slots ≡ a.num_slots
    pub overflow : b.child_slots_can_overflow ≡ a.child_slots_can_overflow
    pub more : a.allocated_slots ≤ b.allocated_slots
    pub few : b.allocated_slots ≤ b.num_slots

  pub record Revises (t u : TypeTable K F M D) : Type 0 where
    pub same_counter : u.type_counter ≡ t.type_counter
    pub same_size : u.size ≡ t.size
    pub back :
        (i : ℕ) (b : Entry K F M D)
        → u.entry i ≡ some b
        → (a : Entry K F M D) × (t.entry i ≡ some a) × IsRevised a b
    pub forth :
        (i : ℕ) (a : Entry K F M D)
        → t.entry i ≡ some a
        → (b : Entry K F M D) × (u.entry i ≡ some b) × IsRevised a b

  Apart-revised :
      (i j : ℕ) (a b c d : Entry K F M D)
      → IsRevised a c
      → IsRevised b d
      → Apart i a j b
      → Apart i c j d
  Apart-revised i j a b c d r s (inl h) = inl (omega (arith, r.slots))
  Apart-revised i j a b c d r s (inr (h, (k, e))) =
      inr (omega (arith, s.slots, r.more), (k, rw s.chain e))

  IsAbove-revised :
      (k m i : ℕ) (a b c d : Entry K F M D)
      → IsRevised a c
      → IsRevised b d
      → IsAbove k m a i b
      → IsAbove k m c i d
  IsAbove-revised k m i a b c d r s h = record {
    before = h.before;
    chain = r.chain ∙ h.chain ∙ ap (take k) (sym s.chain);
    closed = λ e. s.overflow ∙ h.closed (sym r.overflow ∙ e);
    inside = λ e. let h' = h.inside (sym r.overflow ∙ e) in omega (arith, r.slots, s.slots);
  }

  pub Revises-IsValid : (t u : TypeTable K F M D) → Revises t u → IsValid t → IsValid u
  Revises-IsValid t u r v = record {
    full = r.same_size ∙ v.full ∙ sym r.same_counter;
    begun = rw r.same_size v.begun;
    small = rw r.same_size v.small;
    placed = λ i b e.
        let (a, there, s) = r.back i b e in
        let p = v.placed i a there in
        record {
          own = s.index ∙ p.own;
          some_allocated = omega (arith, p.some_allocated, s.more);
          few_allocated = s.few;
          within = omega (arith, p.within, s.slots, r.same_size);
          single = λ h. s.slots ∙ p.single h;
          depth = ap length s.chain ∙ p.depth ∙ sym s.depth;
        };
    apart = λ i j c d ec ed h.
        let (a, ea, ra) = r.back i c ec in
        let (b, eb, rb) = r.back j d ed in
        Apart-revised i j a b c d ra rb (v.apart i j a b ea eb h);
    ancestors = λ i d ed k m at_k.
        let (b, eb, rb) = r.back i d ed in
        let (a, ea, above) =
          v.ancestors i b eb k m (ap (λ l. get_elem? l k) (sym rb.chain) ∙ at_k) in
        let (c, ec, rc) = r.forth m a ea in (c, ec, IsAbove-revised k m i a b c d rc rb above);
  }
