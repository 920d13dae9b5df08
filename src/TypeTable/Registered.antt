-- ===== src/TypeTable/Registered.antt =====
-- A request for a new type succeeds, and the table then has the type as it was declared.
use litetvm_ffi.Prelude.{
  ℕ, ◌+◌, ◌^◌, ◌≤◌, ◌<◌, true, false, Option, none, some, List, ◌≡◌, refl, sym, ap, ◌∙◌, ◌⊎◌, inl,
  inr, arith, leb, lt→ltb, if◌then◌else◌, Bool-cases,
}
use litetvm_ffi.Map.Assoc.{KeyApi, lookup, upsert, lookup-upsert, any_equal_refl}
use litetvm_ffi.Map.Dense.Links.{store}
use litetvm_ffi.Map.Dense.Links.Segments.{store-same}
use litetvm_ffi.TypeTable.Result.{Result, ok, Action, ◌>>=◌, ◌>>◌, pure}
use litetvm_ffi.TypeTable.{
  Entry, TypeTable, Request, add_32, new_entry, find_parent, pool_index, overflow_index,
  allocate_index, install, new_type, set_key, get_or_alloc_type_index, type_key_to_index,
}
use litetvm_ffi.TypeTable.Valid.{IsValid}
use litetvm_ffi.TypeTable.Rules.{bind-ok}
use litetvm_ffi.TypeTable.Allocate.{leb→le}
use litetvm_ffi.TypeTable.Install.{lineage}
use litetvm_ffi.TypeTable.New.{
  Gives, le→leb, add_32-ok, pool_index-Gives, overflow_index-Gives, install-ok,
}

module _ {K F M D : Type 0} where
  -- The request is for a type below the one at `o`, whose entry `p` has room for it or lets it overflow;
  -- the numbers fit into an int32_t.
  pub record IsReady (t : TypeTable K F M D) (r : Request K) (o : ℕ) (p : Entry K F M D)
      : Type 0 where
    pub dynamic : r.static_type_index ≡ none
    pub parent : r.parent_type_index ≡ some o
    pub there : t.entry o ≡ some p
    pub deep : r.type_depth ≡ p.type_depth + 1
    pub room :
        (p.allocated_slots + (r.num_child_slots + 1) ≤ p.num_slots)
        ⊎ (p.child_slots_can_overflow ≡ true)
    pub small : t.size + (r.num_child_slots + 1) < 2 ^ 31

  find_parent-some :
      (t : TypeTable K F M D) (i : ℕ) (e : Entry K F M D)
      → i < t.size
      → t.entry i ≡ some e
      → find_parent (some i) t ≡ (ok (some e), t)
  unfolding find_parent
  find_parent-some t i e h there = rw (lt→ltb i t.size h, find_parent) (rw there refl)

  module _ (t : TypeTable K F M D) (r : Request K) (o : ℕ) (p : Entry K F M D) (v : IsValid t)
      (h : IsReady t r o p) where
    own : p.type_index ≡ o
    own = (v.placed o p h.there).own

    known : t.entry p.type_index ≡ some p
    known = ap t.entry own ∙ h.there

    n : ℕ
    n = r.num_child_slots + 1

    abbrev choose : ℕ → ℕ → Action (TypeTable K F M D) ℕ
    choose slots allocated =
        if leb allocated p.num_slots then pool_index slots p else overflow_index slots p

    Gives-from :
        (q q' : Result ℕ × TypeTable K F M D) (m : List (K × ℕ))
        → q ≡ q'
        → Gives q' p.type_index m
        → Gives q p.type_index m
    Gives-from q q' m e g = record {
      index = g.index;
      table = g.table;
      returns = e ∙ g.returns;
      later = g.later;
      within = g.within;
    }

    allocate_index-Gives : Gives (allocate_index r (some p) t) p.type_index t.type_key2index
    unfolding allocate_index n
    allocate_index-Gives =
        let pl = v.placed p.type_index p known in
        Gives-from (allocate_index r (some p) t) (choose n (p.allocated_slots + n) t)
          t.type_key2index
          (ap (λ (s : Option ℕ). allocate_index (record r { static_type_index = s }) (some p) t)
              h.dynamic
            ∙ bind-ok (add_32 r.num_child_slots 1)
                (λ slots. add_32 p.allocated_slots slots >>= choose slots) t n t
                (add_32-ok r.num_child_slots 1 t (omega (arith, h.small)))
            ∙ bind-ok (add_32 p.allocated_slots n) (choose n) t (p.allocated_slots + n) t (
                add_32-ok p.allocated_slots n t
                  (omega (arith, h.small, pl.within, pl.few_allocated))))
          (elim (Bool-cases (leb (p.allocated_slots + n) p.num_slots)) [
            | inl room ↦ rw room (
                pool_index-Gives t p v known n (omega arith) (leb→le _ _ room)
                  (omega (arith, h.small)))
            | inr full ↦ rw full (
                overflow_index-Gives t p v known n (omega arith) (can full)
                  (omega (arith, h.small)))
          ])
      where
        can : leb (p.allocated_slots + n) p.num_slots ≡ false → p.child_slots_can_overflow ≡ true
        can full = elim h.room [
          | inl fits ↦
              let clash : true ≡ false =
                sym (le→leb (p.allocated_slots + n) p.num_slots fits) ∙ full in
              absurd (cc clash)
          | inr overflows ↦ overflows
        ]

    module _ (keys : KeyApi K) where
      -- On a valid table, a request with a new key succeeds where it has no static index, its parent is a
      -- type of the table that has room for it in its slots or lets it overflow, its depth is the parent's
      -- and one, and the size of the table with the new slots is below 2 ^ 31. The entry at the new index
      -- has the declared depth, slots and flag (the flag only if the parent has it too), its ancestors are
      -- the parent's and the parent, and the key is found at that index.
      pub get_or_alloc_type_index-new :
          lookup keys r.type_key t.type_key2index ≡ none
          → (i : ℕ) × (u : TypeTable K F M D) × (get_or_alloc_type_index keys r t ≡ (ok i, u))
            × (u.entry i ≡ some (new_entry r (some p) i (r.num_child_slots + 1) (lineage p)))
            × (type_key_to_index keys r.type_key u ≡ (ok i, u))
      unfolding get_or_alloc_type_index new_type find_parent type_key_to_index n
      get_or_alloc_type_index-new fresh =
          let g = allocate_index-Gives in
          let i : ℕ = g.index in
          let e = new_entry r (some p) i n (lineage p) in
          let w : TypeTable K F M D = record g.table { entry = store i (some e) g.table.entry } in
          let m : List (K × ℕ) = upsert keys r.type_key i w.type_key2index in
          let go : Option (Entry K F M D) → Action (TypeTable K F M D) ℕ =
            λ parent. allocate_index r parent >>= λ i. install r parent i >> pure i in
          let made : new_type r t ≡ (ok i, w) =
            bind-ok (find_parent r.parent_type_index) go t (some p) t (
              ap (λ q. find_parent q t) h.parent
              ∙ find_parent-some t o p
                  (let pl = v.placed o p h.there in
                    omega (arith, pl.within, pl.some_allocated, pl.few_allocated))
                  h.there)
            ∙ bind-ok (allocate_index r (some p)) (λ i. install r (some p) i >> pure i) t i g.table
                g.returns
            ∙ bind-ok (install r (some p) i) (λ _. pure i) g.table tt w
                (install-ok t p v known r i g.table g.later g.within h.deep
                  (omega (arith, h.small))) in
          let hit : lookup keys r.type_key m ≡ some i =
            lookup-upsert keys r.type_key r.type_key i w.type_key2index
            ∙ ap (λ b. if b then some i else lookup keys r.type_key w.type_key2index)
                (any_equal_refl keys r.type_key) in
          (
            i,
            record w { type_key2index = m },
            rw (fresh, get_or_alloc_type_index)
                (bind-ok (new_type r) (λ i. set_key keys r.type_key i >> pure i) t i w made),
            store-same i (some e) g.table.entry,
            rw (hit, type_key_to_index) refl,
          )
