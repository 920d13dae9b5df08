-- ===== src/TypeTable/Install.antt =====
-- A new type: whatever `GetOrAllocTypeIndex` returns or throws, the table it leaves is valid.
use litetvm_ffi.Prelude.{
  ℕ, zero, suc, ◌+◌, ◌≤◌, ◌<◌, Bool, true, false, ◌&&◌, Option, none, some, List, [], ◌∷◌, ◌++◌,
  ◌≡◌, refl, sym, ap, ◌∙◌, subst, inl, inr, arith, ltb, ◌==◌, ==_iff, if_cases, get_elem?, take,
  length, length-append, get_elem?-append, get_elem?-snoc, get_elem?-snoc_cases, take-append,
  take-append_le, Bool-cases,
}
use litetvm_ffi.TypeTable.Result.{Result, Action, ◌>>=◌}
use litetvm_ffi.TypeTable.{
  Entry, TypeTable, Request, add_32, set_entry, new_entry, ancestors_of, install,
}
use litetvm_ffi.TypeTable.Valid.{IsAncestor, IsValid, HasAncestors}
use litetvm_ffi.TypeTable.Changes.{some-injective, Fits, Fits-IsValid}
use litetvm_ffi.TypeTable.Rules.{ltb→lt, add_32-cases, check-cases}
use litetvm_ffi.TypeTable.Allocate.{IsFree, IsUnder}

and-false : (a b : Bool) → a ≡ false → (a && b) ≡ false
and-false a b e = rw e refl

module _ {K F M D : Type 0} where
  root-Fits :
      (r : Request K) (u : TypeTable K F M D) (i slots : ℕ)
      → IsFree u none i slots
      → 1 ≤ slots
      → r.type_depth ≡ 0
      → Fits u i (new_entry r none i slots [])
  root-Fits r u i slots f some_slots flat = record {
    free = f.free;
    place = record {
      own = refl;
      some_allocated = omega arith;
      few_allocated = some_slots;
      within = f.within;
      single = f.single;
      depth = sym flat;
    };
    above = λ j a there lt. elim (f.above j a there lt) [
      | inl ends ↦ inl ends
      | inr (nested, (p, e, under)) ↦ absurd (cc e)
    ];
    below = λ j a there lt. inl (f.below j a there lt);
    known = λ k m e. absurd (cc e);
  }

  -- The ancestors of a child: the parent's, and the parent
  abbrev pub lineage : Entry K F M D → List ℕ
  lineage p = p.type_ancestors ++ p.type_index ∷ []

  under-IsAncestor :
      (r : Request K) (p : Entry K F M D) (i j slots : ℕ)
      → IsUnder (some p) j
      → IsAncestor j (new_entry r (some p) i slots (lineage p))
  under-IsAncestor r p i j slots (q, e, inl own) = (
    length p.type_ancestors,
    get_elem?-snoc p.type_ancestors p.type_index
        ∙ ap some (ap (λ (x : Entry K F M D). x.type_index) (some-injective p q e) ∙ sym own),
  )
  under-IsAncestor r p i j slots (q, e, inr (k, at_k)) = (
    k,
    get_elem?-append p.type_ancestors (p.type_index ∷ []) k j (
        subst (λ (x : Entry K F M D). get_elem? x.type_ancestors k ≡ some j)
          (sym (some-injective p q e)) at_k),
  )

  child-HasAncestors :
      (r : Request K) (u : TypeTable K F M D) (p : Entry K F M D) (i slots : ℕ)
      → IsFree u (some p) i slots
      → p.type_index < i
      → HasAncestors u i (new_entry r (some p) i slots (lineage p))
  child-HasAncestors r u p i slots f later k m at_k =
      let (q, there, s) = f.family p refl in
      elim (get_elem?-snoc_cases p.type_ancestors p.type_index m k at_k) [
        | inl (lt, old) ↦
            let (a, ea, above) =
              f.valid.ancestors p.type_index q there k m (ap (λ l. get_elem? l k) s.chain ∙ old) in
            (
              a,
              ea,
              record {
                before = omega (arith, above.before, later);
                chain =
                    above.chain
                    ∙ ap (take k) s.chain
                    ∙ sym
                        (take-append_le k p.type_ancestors (p.type_index ∷ []) (omega (arith, lt)));
                closed = λ e. and-false _ _ (sym s.overflow ∙ above.closed e);
                inside = λ e. omega (
                  arith,
                  above.inside e,
                  s.slots,
                  f.inside p refl (sym s.overflow ∙ above.closed e),
                );
              },
            )
        | inr (last, new) ↦
            let same : p.type_index ≡ m = ℕ_some _ _ new in
            (
              q,
              ap u.entry (sym same) ∙ there,
              record {
                before = omega (arith, same, later);
                chain =
                    s.chain
                    ∙ sym (take-append p.type_ancestors (p.type_index ∷ []))
                    ∙ ap (λ n. take n (lineage p)) (sym last);
                closed = λ e. and-false _ _ (sym s.overflow ∙ e);
                inside = λ e. omega (arith, same, s.slots, f.inside p refl (sym s.overflow ∙ e));
              },
            )
      ]
    where
      ℕ_some : (a b : ℕ) → some a ≡ some b → a ≡ b
      ℕ_some a b e = cc

  child-Fits :
      (r : Request K) (u : TypeTable K F M D) (p : Entry K F M D) (i slots : ℕ)
      → IsFree u (some p) i slots
      → 1 ≤ slots
      → p.type_index < i
      → r.type_depth ≡ p.type_depth + 1
      → Fits u i (new_entry r (some p) i slots (lineage p))
  child-Fits r u p i slots f some_slots later deep =
      let (q, there, s) = f.family p refl in
      let parent = f.valid.placed p.type_index q there in
      record {
        free = f.free;
        place = record {
          own = refl;
          some_allocated = omega arith;
          few_allocated = some_slots;
          within = f.within;
          single = f.single;
          depth = omega (
            arith,
            length-append {0} p.type_ancestors (p.type_index ∷ []),
            parent.depth,
            ap length s.chain,
            s.depth,
            deep,
          );
        };
        above = λ j a e lt. elim (f.above j a e lt) [
          | inl ends ↦ inl ends
          | inr (nested, under) ↦ inr (nested, under-IsAncestor r p i j slots under)
        ];
        below = λ j a e lt. inl (f.below j a e lt);
        known = child-HasAncestors r u p i slots f later;
      }

  write-IsValid :
      (u : TypeTable K F M D) (i : ℕ) (e : Entry K F M D)
      → Fits u i e
      → IsValid u
      → IsValid (set_entry i e u).1
  write-IsValid u i e fits v =
      if_cases (λ (q : Result (Unit {0}) × TypeTable K F M D). IsValid q.1) (ltb i u.size)
        (λ within. Fits-IsValid u i e fits v) (λ behind. v)

  -- The constructor of the entry, and the write
  construct-IsValid :
      (r : Request K) (u : TypeTable K F M D) (i d : ℕ) (parent : Option (Entry K F M D))
      → r.type_depth ≡ d
      → (r.type_depth ≡ 0 → parent ≡ none)
      → ((p : Entry K F M D) → parent ≡ some p → p.type_index < i)
      → IsFree u parent i (r.num_child_slots + 1)
      → IsValid
          ((ancestors_of d parent >>= λ l.
              set_entry i (new_entry r parent i (r.num_child_slots + 1) l))
            u).1
  unfolding ancestors_of
  construct-IsValid r u i zero none deep flat later f =
      write-IsValid u i (new_entry r none i (r.num_child_slots + 1) [])
        (root-Fits r u i (r.num_child_slots + 1) f (omega arith) deep) f.valid
  construct-IsValid r u i zero (some p) deep flat later f =
      let clash : some p ≡ none = flat deep in absurd (cc clash)
  construct-IsValid r u i (suc d) none deep flat later f = f.valid
  construct-IsValid r u i (suc d) (some p) deep flat later f =
      let slots : ℕ = r.num_child_slots + 1 in
      elim (Bool-cases (suc d == p.type_depth + 1)) [
        | inl below ↦ rw below (
            write-IsValid u i (new_entry r (some p) i slots (lineage p))
              (child-Fits r u p i slots f (omega arith) (later p refl)
                (deep ∙ (==_iff _ _).0 below))
              f.valid)
        | inr wrong ↦ rw wrong f.valid
      ]

  -- Whatever `install` throws, the table is valid.
  pub install-IsValid :
      (r : Request K) (u : TypeTable K F M D) (parent : Option (Entry K F M D)) (i : ℕ)
      → (r.type_depth ≡ 0 → parent ≡ none)
      → IsFree u parent i (r.num_child_slots + 1)
      → IsValid (install r parent i u).1
  unfolding install
  install-IsValid r u parent i flat f =
      let P : Result (Unit {0}) × TypeTable K F M D → Type 0 = λ q. IsValid q.1 in
      let build : ℕ → Action (TypeTable K F M D) (Unit {0}) =
        λ n. ancestors_of r.type_depth parent >>= λ l. set_entry i (new_entry r parent i n l) in
      check-cases P (elim parent [ none ↦ true | some p ↦ ltb p.type_index i ])
        (add_32 r.num_child_slots 1 >>= build) u
        (λ later.
          add_32-cases P r.num_child_slots 1 build u
            (λ fits.
              construct-IsValid r u i r.type_depth parent refl flat
                (λ p e.
                  ltb→lt _ _ (
                    ap (λ o. elim o [ none ↦ true | some p ↦ ltb p.type_index i ]) (sym e) ∙ later))
                f)
            f.valid)
        (λ early. f.valid)
