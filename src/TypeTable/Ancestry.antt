-- ===== src/TypeTable/Ancestry.antt =====
-- In a valid table the types that derive from an entry are those that have it among their ancestors, and
-- a range of slots holds no others.
use litetvm_ffi.Prelude.{
  ℕ, zero, suc, ◌+◌, ◌-◌, ◌≤◌, ◌<◌, false, some, List, [], ◌∷◌, ◌≡◌, refl, sym, ap, ◌∙◌, subst, ◌⊎◌,
  inl, inr, arith, get_elem?, take, length, dec_lt, ℕ_discrete,
}
use litetvm_ffi.TypeTable.{Entry, TypeTable}
use litetvm_ffi.TypeTable.Valid.{IsAncestor, IsValid}
use litetvm_ffi.TypeTable.Changes.{some-injective}
use litetvm_ffi.TypeTable.Instance.{Derives, self, child}

pub ℕ_some : (a b : ℕ) → some a ≡ some b → a ≡ b
ℕ_some a b e = cc

pub get_elem?-lt : (xs : List ℕ) (k a : ℕ) → get_elem? xs k ≡ some a → k < length xs
get_elem?-lt [] k a e = absurd (cc e)
get_elem?-lt (x ∷ xs) zero a e = omega arith
get_elem?-lt (x ∷ xs) (suc k) a e = omega (arith, get_elem?-lt xs k a e)

pub lt-get_elem? : (xs : List ℕ) (k : ℕ) → k < length xs → (a : ℕ) × (get_elem? xs k ≡ some a)
lt-get_elem? [] k h = absurd (omega arith)
lt-get_elem? (x ∷ xs) zero h = (x, refl)
lt-get_elem? (x ∷ xs) (suc k) h = lt-get_elem? xs k (omega (arith, h))

length-take : (k : ℕ) (xs : List ℕ) → k ≤ length xs → length (take k xs) ≡ k
length-take zero xs h = refl
length-take (suc k) [] h = absurd (omega (arith, h))
length-take (suc k) (x ∷ xs) h = omega (arith, length-take k xs (omega (arith, h)))

get_elem?-take :
    (xs : List ℕ) (k n a : ℕ) → get_elem? (take n xs) k ≡ some a → get_elem? xs k ≡ some a
get_elem?-take xs k zero a e = absurd (cc e)
get_elem?-take [] k (suc n) a e = absurd (cc e)
get_elem?-take (x ∷ xs) zero (suc n) a e = e
get_elem?-take (x ∷ xs) (suc k) (suc n) a e = get_elem?-take xs k n a e

take-get_elem? : (xs : List ℕ) (k n : ℕ) → k < n → get_elem? (take n xs) k ≡ get_elem? xs k
take-get_elem? xs k zero h = absurd (omega (arith, h))
take-get_elem? [] k (suc n) h = refl
take-get_elem? (x ∷ xs) zero (suc n) h = refl
take-get_elem? (x ∷ xs) (suc k) (suc n) h = take-get_elem? xs k n (omega (arith, h))

module _ {K F M D : Type 0} where
  -- The class at `o` is the entry's own or one of its ancestors.
  abbrev pub IsA : ℕ → ℕ → Entry K F M D → Type 0
  IsA o i b = (o ≡ i) ⊎ IsAncestor o b

module _ {K F M D : Type 0} (t : TypeTable K F M D) (v : IsValid t) where
  pub Derives-IsA : (o i : ℕ) (b : Entry K F M D) → t.entry i ≡ some b → Derives t o i → IsA o i b
  Derives-IsA o i b there self = inl refl
  Derives-IsA o i b there (child {p} _ d e known deep parent up) =
      let same : e ≡ b = some-injective e b (sym known ∙ there) in
      let (a, at_p, above) = v.ancestors i e known d p parent in
      subst (IsA o i) same (elim (Derives-IsA o p a at_p up) [
        | inl own ↦ inr (d, parent ∙ ap some (sym own))
        | inr (k, at_k) ↦ inr (
          k,
          get_elem?-take e.type_ancestors k d o (ap (λ l. get_elem? l k) (sym above.chain) ∙ at_k),
        )
      ])

  pub depth_of :
      (i k a : ℕ) (b p : Entry K F M D)
      → t.entry i ≡ some b
      → get_elem? b.type_ancestors k ≡ some a
      → t.entry a ≡ some p
      → p.type_depth ≡ k
  depth_of i k a b p there at_k known =
      let (q, at_a, above) = v.ancestors i b there k a at_k in
      let same : q ≡ p = some-injective q p (sym at_a ∙ known) in
      omega (
        arith,
        (v.placed a p known).depth,
        ap (λ (x : Entry K F M D). length x.type_ancestors) same,
        ap length above.chain,
        length-take k b.type_ancestors (omega (arith, get_elem?-lt b.type_ancestors k a at_k)),
      )

  -- Up from the entry, an ancestor a step
  ancestor-Derives :
      (n o i k : ℕ) (b : Entry K F M D)
      → t.entry i ≡ some b
      → b.type_depth ≤ n
      → get_elem? b.type_ancestors k ≡ some o
      → Derives t o i
  ancestor-Derives zero o i k b there deep at_k =
      absurd
        (omega (arith, deep, get_elem?-lt b.type_ancestors k o at_k, (v.placed i b there).depth))
  ancestor-Derives (suc n) o i k b there deep at_k =
      let long = get_elem?-lt b.type_ancestors k o at_k in
      let full = (v.placed i b there).depth in
      let d : ℕ = b.type_depth - 1 in
      let (p, parent) = lt-get_elem? b.type_ancestors d (omega (arith, long, full)) in
      let (q, at_p, above) = v.ancestors i b there d p parent in
      child i d b there (omega (arith, long, full)) parent (elim (dec_lt k d) [
        | yes below ↦
            ancestor-Derives n o p k q at_p
              (omega (arith, depth_of i d p b q there parent at_p, deep, long, full))
              (ap (λ l. get_elem? l k) above.chain
                ∙ take-get_elem? b.type_ancestors k d below
                ∙ at_k)
        | no top ↦
            let last : k ≡ d = omega (arith, top, long, full) in
            let same : o ≡ p =
              ℕ_some o p (sym at_k ∙ ap (get_elem? b.type_ancestors) last ∙ parent) in
            subst (λ x. Derives t o x) same self
      ])

  pub IsA-Derives : (o i : ℕ) (b : Entry K F M D) → t.entry i ≡ some b → IsA o i b → Derives t o i
  IsA-Derives o i b there (inl own) = subst (λ x. Derives t o x) own self
  IsA-Derives o i b there (inr (k, at_k)) =
      ancestor-Derives b.type_depth o i k b there (omega arith) at_k

  -- The ranges hold nothing but the types below.
  pub range-IsA :
      (o i : ℕ) (e b : Entry K F M D)
      → t.entry o ≡ some e
      → t.entry i ≡ some b
      → o ≤ i
      → i < o + e.num_slots
      → IsA o i b
  range-IsA o i e b at_o at_i le lt = elim (ℕ_discrete o i) [
    | yes same ↦ inl same
    | no other ↦ elim (v.apart o i e b at_o at_i (omega (arith, other, le))) [
      | inl ends ↦ absurd (omega (arith, ends, lt))
      | inr (nested, anc) ↦ inr anc
    ]
  ]

  -- A class whose children cannot overflow has them all in its range.
  pub IsA-range :
      (o i : ℕ) (e b : Entry K F M D)
      → t.entry o ≡ some e
      → t.entry i ≡ some b
      → e.child_slots_can_overflow ≡ false
      → IsA o i b
      → (o ≤ i) × (i < o + e.num_slots)
  IsA-range o i e b at_o at_i shut (inl own) =
      let p = v.placed o e at_o in
      (omega (arith, own), omega (arith, own, p.some_allocated, p.few_allocated))
  IsA-range o i e b at_o at_i shut (inr (k, at_k)) =
      let (q, there, above) = v.ancestors i b at_i k o at_k in
      let same : q ≡ e = some-injective q e (sym there ∙ at_o) in
      let within =
        above.inside (ap (λ (x : Entry K F M D). x.child_slots_can_overflow) same ∙ shut) in
      let p = v.placed i b at_i in
      (
        omega (arith, above.before),
        omega (
          arith,
          within,
          ap (λ (x : Entry K F M D). x.num_slots) same,
          p.some_allocated,
          p.few_allocated,
        ),
      )

  pub IsA-le : (o i : ℕ) (b : Entry K F M D) → t.entry i ≡ some b → IsA o i b → o ≤ i
  IsA-le o i b there (inl own) = omega (arith, own)
  IsA-le o i b there (inr (k, at_k)) =
      let (q, at_o, above) = v.ancestors i b there k o at_k in omega (arith, above.before)
