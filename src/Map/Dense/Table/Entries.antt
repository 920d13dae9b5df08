-- ===== src/Map/Dense/Table/Entries.antt =====
-- The dense map as a list of entries, in the order of its iterator.
use mathlib.Core.Option.{some-injective}
use litetvm_ffi.Prelude.{
  ℕ, List, [], ◌∷◌, true, Option, none, some, ◌≡◌, ◌≢◌, ◌⊎◌, inl, inr, refl, sym, ap, ◌∙◌, subst,
  arith, length, Option-cases,
}
use litetvm_ffi.Map.Assoc.{KeyApi, Missing, Distinct, lookup, any_equal-ne, lookup_absent}
use litetvm_ffi.Map.Outcome.{ok}
use litetvm_ffi.Map.Small.{found, key_error}
use litetvm_ffi.Map.Dense.Links.Parts
use litetvm_ffi.Map.Dense.Node.{Dense, data_at}
use litetvm_ffi.Map.Dense.Table.{search, at, count}
use litetvm_ffi.Map.Dense.Table.Chains.{In, IsTable}
use litetvm_ffi.Map.Dense.Table.Search.{Other, search-Searched}

module _ {K V : Type 0} where
  -- The slots hold the entries, in this order.
  abbrev pub Entries : (ℕ → Option (K × V)) → List ℕ → List (K × V) → Type 0
  Entries items [] [] = Unit
  Entries items [] (kv ∷ kvs) = ⊥
  Entries items (i ∷ is) [] = ⊥
  Entries items (i ∷ is) (kv ∷ kvs) = (items i ≡ some kv) × Entries items is kvs

module _ {K V : Type 0} (keys : KeyApi K) where
  open keys use {any_equal, any_equal_iff}

  -- The map with the entries `kvs`: its table has the lists `tails`, its iterator goes through `order`.
  pub record IsMap (m : Dense K V) (tails : ℕ → List ℕ) (order : List ℕ) (kvs : List (K × V))
      : Type 0 where
    pub table : IsTable keys m tails
    pub list : Parts.IsList m.links order
    pub entries : Entries m.items order kvs
    pub complete : (i : ℕ) (kv : K × V) → m.items i ≡ some kv → In i order
    pub counted : m.size ≡ length kvs
    pub distinct : Distinct kvs

  pub lookup-Entries :
      (items : ℕ → Option (K × V)) (i : ℕ) (k : K) (v : V) (order : List ℕ) (kvs : List (K × V))
      → Entries items order kvs
      → Distinct kvs
      → In i order
      → items i ≡ some (k, v)
      → lookup keys k kvs ≡ some v
  unfolding lookup
  lookup-Entries items i k v [] [] h d on here = absurd on
  lookup-Entries items i k v [] (kv ∷ kvs) h d on here = absurd h
  lookup-Entries items i k v (j ∷ js) [] h d on here = absurd h
  lookup-Entries items i k v (j ∷ js) ((q, w) ∷ kvs) h d (inl e) here =
      let same = some-injective (k, v) (q, w) (sym here ∙ ap items e ∙ h.0) in
      let eq : any_equal q k ≡ true = (any_equal_iff q k).1 (sym (ap (λ t. t.0) same)) in
      rw eq (ap (λ t. some t.1) (sym same))
  lookup-Entries items i k v (j ∷ js) ((q, w) ∷ kvs) h d (inr on) here =
      let rest = lookup-Entries items i k v js kvs h.1 d.1 on here in
      let apart : q ≢ k =
        λ e. cc (rest, lookup_absent keys k kvs (subst (λ t. Missing t kvs) e d.0)) in
      rw (any_equal-ne keys q k apart) rest

  pub Missing-Entries :
      (m : Dense K V) (k : K) (order : List ℕ) (kvs : List (K × V))
      → Entries m.items order kvs
      → ((i : ℕ) → Other keys m k i)
      → Missing k kvs
  Missing-Entries m k [] [] h o = tt
  Missing-Entries m k [] (kv ∷ kvs) h o = absurd h
  Missing-Entries m k (j ∷ js) [] h o = absurd h
  Missing-Entries m k (j ∷ js) (kv ∷ kvs) h o = (o j kv h.0, Missing-Entries m k js kvs h.1 o)

  no_size :
      (m : Dense K V) (order : List ℕ) (kvs : List (K × V))
      → Entries m.items order kvs
      → ((i : ℕ) (kv : K × V) → m.items i ≡ some kv → In i order)
      → length kvs ≡ 0
      → (i : ℕ) → m.items i ≡ none
  no_size m [] [] h c e i = elim (Option-cases (m.items i)) [
    | inl none_there ↦ none_there
    | inr (kv, there) ↦ absurd (c i kv there)
  ]
  no_size m [] (kv ∷ kvs) h c e i = absurd h
  no_size m (j ∷ js) [] h c e i = absurd h
  no_size m (j ∷ js) (kv ∷ kvs) h c e i = absurd (omega (arith, e))

  -- `Search` gives the slot of the key's entry, or none where the map has no entry with the key.
  pub search-lookup :
      (k : K) (m : Dense K V) (tails : ℕ → List ℕ) (order : List ℕ) (kvs : List (K × V))
      → IsMap m tails order kvs
      → ((i : ℕ) × (v : V) × (search keys k m ≡ ok (some i))
          × (m.items i ≡ some (k, v))
          × (lookup keys k kvs ≡ some v))
        ⊎ ((search keys k m ≡ ok none) × Missing k kvs)
  search-lookup k m tails order kvs h =
      elim (search-Searched keys k m tails h.table
        (λ e. no_size m order kvs h.entries h.complete (sym h.counted ∙ e))) [
          | inl hit ↦ inl (
            hit.0,
            hit.1,
            hit.2,
            hit.3,
            lookup-Entries m.items hit.0 k hit.1 order kvs h.entries h.distinct
                (h.complete hit.0 (k, hit.1) hit.3) hit.3,
          )
          | inr gone ↦ inr (gone.0, Missing-Entries m k order kvs h.entries gone.1)
        ]

  -- `at` of the dense layout gives the value of the key, and a KeyError where there is none.
  pub at-IsMap :
      (k : K) (m : Dense K V) (tails : ℕ → List ℕ) (order : List ℕ) (kvs : List (K × V))
      → IsMap m tails order kvs
      → at keys k m ≡ ok (elim (lookup keys k kvs) [ none ↦ key_error | some v ↦ found v ])
  unfolding at data_at
  at-IsMap k m tails order kvs h = elim (search-lookup k m tails order kvs h) [
    | inl hit ↦ rw (at, hit.2, data_at, hit.3, hit.4) refl
    | inr gone ↦ rw (at, gone.0, lookup_absent keys k kvs gone.1) refl
  ]

  -- `count` of the dense layout tells whether the key has a value.
  pub count-IsMap :
      (k : K) (m : Dense K V) (tails : ℕ → List ℕ) (order : List ℕ) (kvs : List (K × V))
      → IsMap m tails order kvs
      → count keys k m ≡ ok (elim (lookup keys k kvs) [ none ↦ 0 | some v ↦ 1 ])
  unfolding count
  count-IsMap k m tails order kvs h = elim (search-lookup k m tails order kvs h) [
    | inl hit ↦ rw (count, hit.2, hit.4) refl
    | inr gone ↦ rw (count, gone.0, lookup_absent keys k kvs gone.1) refl
  ]
