-- ===== src/TypeTable/Derives.antt =====
-- In a valid table `IsObjectInstance` tells whether a type derives from a class.
use litetvm_ffi.Prelude.{
  ℕ, ◌+◌, ◌%◌, ◌^◌, ◌≤◌, ◌<◌, Bool, true, false, Option, none, some, ◌≡◌, ◌≢◌, ◌↔◌, refl, sym, ap,
  ◌∙◌, subst, inl, inr, arith, ltb, ◌==◌, ==_iff, if◌then◌else◌, get_elem?, if_cases, dec_lt,
}
use litetvm_ffi.TypeTable.Result.{Result, ok, Action, bad_access, fail, pure, ◌>>=◌}
use litetvm_ffi.TypeTable.{Entry, TypeTable, entry_at, get_type_entry}
use litetvm_ffi.TypeTable.Valid.{IsAncestor, IsValid}
use litetvm_ffi.TypeTable.Rules.{ltb→lt, bind-ok, entry_at-within, get_type_entry-some}
use litetvm_ffi.TypeTable.Instance.{
  Target, Derives, self, IsRegistered, ancestor_at, ancestor_is, in_slots, is_object_instance,
}
use litetvm_ffi.TypeTable.Ancestry.{
  ℕ_some, get_elem?-lt, lt-get_elem?, Derives-IsA, depth_of, IsA, IsA-Derives, range-IsA, IsA-range,
  IsA-le,
}

ltb→le : (a b : ℕ) → ltb a b ≡ false → b ≤ a
ltb→le a b h = ground arith

module _ {K F M D : Type 0} (t : TypeTable K F M D) (v : IsValid t) where
  -- How the test ends: it answers, and the answer is right.
  abbrev Answers : ℕ → ℕ → Result Bool × TypeTable K F M D → Type 0
  Answers o i q = (r : Bool) × (q ≡ (ok r, t)) × ((r ≡ true) ↔ Derives t o i)

  module _ (c : Target) (e : Entry K F M D) (g : IsRegistered t c e) (i : ℕ) (b : Entry K F M D)
      (there : t.entry i ≡ some b) where
    open c use {runtime_type_index as o}

    to_IsA : Derives t o i → IsA o i b
    to_IsA = Derives-IsA t v o i b there

    ancestor_is-none : (b.type_depth ≤ c.type_depth) → o ≢ i → Derives t o i → ⊥
    ancestor_is-none flat other up = elim (to_IsA up) [
      | inl own ↦ other own
      | inr (k, at_k) ↦ omega (
        arith,
        get_elem?-lt b.type_ancestors k o at_k,
        (v.placed i b there).depth,
        depth_of t v i k o b e there at_k g.there,
        g.depth,
        flat,
      )
    ]

    in_table : i < t.size
    in_table =
        let p = v.placed i b there in omega (arith, p.within, p.some_allocated, p.few_allocated)

    -- What stands behind the two reads of `ancestor_at`
    abbrev check_own : Option (Entry K F M D) → Action (TypeTable K F M D) Bool
    check_own ancestor = elim ancestor [
      | none ↦ fail bad_access
      | some p ↦ pure (p.type_index == o)
    ]

    answer_no : ¬ Derives t o i → Answers o i (ok false, t)
    answer_no not_below =
        (false, refl, ((λ no_yes. absurd (cc no_yes)), λ up. absurd (not_below up)))

    ancestor_at-Answers : c.type_depth < b.type_depth → o ≢ i → Answers o i (ancestor_at c b t)
    unfolding ancestor_at
    ancestor_at-Answers deep other =
        let (a, at_a) =
          lt-get_elem? b.type_ancestors c.type_depth
            (omega (arith, deep, (v.placed i b there).depth)) in
        let (p, known, above) = v.ancestors i b there c.type_depth a at_a in
        let low : a < t.size = omega (arith, above.before, in_table) in
        let own = (v.placed a p known).own in
        (
          p.type_index == o,
          ap
                (λ (q : Option ℕ).
                  (elim q as (λ _. Action (TypeTable K F M D) Bool) [
                    | none ↦ fail bad_access
                    | some a ↦ entry_at a >>= check_own
                  ])
                    t)
                at_a
              ∙ bind-ok (entry_at a) check_own t (t.entry a) t (entry_at-within t a low)
              ∙ ap (λ q. check_own q t) known,
          (
            λ yes_own.
                IsA-Derives t v o i b there
                  (inr (c.type_depth, at_a ∙ ap some (sym own ∙ (==_iff _ _).0 yes_own))),
            λ up. elim (to_IsA up) [
              | inl same ↦ absurd (other same)
              | inr (k, at_k) ↦
                  let level : k ≡ c.type_depth =
                    sym (depth_of t v i k o b e there at_k g.there) ∙ g.depth in
                  (==_iff _ _).1 (
                    own
                    ∙ ℕ_some a o (sym at_a ∙ ap (get_elem? b.type_ancestors) (sym level) ∙ at_k))
            ],
          ),
        )

    ancestor_is-Answers : o ≢ i → Answers o i (ancestor_is c i t)
    unfolding ancestor_is get_type_entry
    ancestor_is-Answers other =
        let look : Entry K F M D → Action (TypeTable K F M D) Bool =
          λ info. if ltb c.type_depth info.type_depth then ancestor_at c info else pure false in
        let found : ancestor_is c i t ≡ look b t =
          bind-ok (get_type_entry i) look t b t (get_type_entry-some t i b in_table there) in
        subst (Answers o i) (sym found) (
          if_cases (λ (k : Action (TypeTable K F M D) Bool). Answers o i (k t))
            (ltb c.type_depth b.type_depth) (λ deep. ancestor_at-Answers (ltb→lt _ _ deep) other)
            (λ flat. answer_no (ancestor_is-none (ltb→le _ _ flat) other)))

    -- The test for the class's own range of slots
    abbrev in_range : Bool
    in_range = if c.type_child_slots == 0 then i == o else in_slots c i

    total_fits : (o + c.type_child_slots + 1) % 2 ^ 32 ≡ o + c.type_child_slots + 1
    total_fits = omega (arith, g.slots, (v.placed o e g.there).within, v.small)

    in_range_iff : (in_range ≡ true) ↔ ((o ≤ i) × (i < o + e.num_slots))
    in_range_iff = rw total_fits (
      (λ h. ground (arith, h, g.slots, (v.placed o e g.there).within, v.small)),
      λ h. ground (arith, h, g.slots, (v.placed o e g.there).within, v.small),
    )

    out_of_range : in_range ≡ false → (o ≤ i) → o + e.num_slots ≤ i
    out_of_range h le = elim (dec_lt i (o + e.num_slots)) [
      | yes lt ↦ absurd (let h' = in_range_iff.1 (le, lt) in cc)
      | no ge ↦ omega (arith, ge)
    ]

    -- For a class other than Object, and with no type below it if it is final, IsObjectInstance returns,
    -- leaves the table as it is, and says true of a type of the table exactly when the type is the class
    -- or is derived from it: the class's range of slots, and the ancestors behind it, give one answer.
    pub is_object_instance-Derives :
        c.is_object ≡ false
        → (c.type_final ≡ true
            → (j : ℕ) (a : Entry K F M D) → t.entry j ≡ some a
            → ¬ IsAncestor o a)
        → Answers o i (is_object_instance c i t)
    unfolding is_object_instance
    is_object_instance-Derives below final =
        let ends : Action (TypeTable K F M D) Bool → Type 0 = λ k. Answers o i (k t) in
        if_cases ends c.is_object
          (λ top. let clash : true ≡ false = sym top ∙ below in absurd (cc clash))
          (λ _.
            if_cases ends c.type_final
              (λ last. (
                i == o,
                refl,
                (
                  (λ same. subst (λ x. Derives t o x) (sym ((==_iff i o).0 same)) self),
                  λ up. elim (to_IsA up) [
                    | inl own ↦ (==_iff i o).1 (sym own)
                    | inr anc ↦ absurd (final last i b there anc)
                  ],
                ),
              ))
              (λ _.
                if_cases ends in_range
                  (λ inside. (
                    true,
                    refl,
                    (
                      (λ _.
                          let (le, lt) = in_range_iff.0 inside in
                          IsA-Derives t v o i b there (range-IsA t v o i e b g.there there le lt)),
                      λ _. refl,
                    ),
                  ))
                  (λ outside.
                    if_cases ends c.type_child_slots_can_overflow
                      (λ _.
                        if_cases ends (ltb i o)
                          (λ before. answer_no (λ up.
                            let le = IsA-le t v o i b there (to_IsA up) in
                            omega (arith, le, ltb→lt _ _ before)))
                          (λ _. ancestor_is-Answers (λ same.
                            let p = v.placed o e g.there in
                            omega (
                              arith,
                              out_of_range outside (omega (arith, same)),
                              same,
                              p.some_allocated,
                              p.few_allocated,
                            ))))
                      (λ shut. answer_no (λ up.
                        let (le, lt) =
                          IsA-range t v o i e b g.there there (g.overflow shut) (to_IsA up) in
                        omega (arith, out_of_range outside le, lt))))))
