-- ===== src/Map/Assoc.antt =====
-- What a map is to its users: a list of entries with different keys, in the order of its iterator.
use litetvm_ffi.Prelude.{
  subst, ℕ, List, [], ◌∷◌, ◌++◌, Bool, true, false, Option, none, some, ◌≡◌, ◌≢◌, ◌↔◌, refl, sym,
  ap, ◌∙◌, arith, if◌then◌else◌, inl, inr, Bool-cases,
}

-- `AnyEqual` and `AnyHash` on the keys: the first tells whether two keys are the same value.
pub record KeyApi (K : Type 0) : Type 0 where
  pub any_equal : K → K → Bool
  pub any_equal_iff : (a b : K) → (any_equal a b ≡ true) ↔ (a ≡ b)
  pub any_hash : K → ℕ

module _ {K V : Type 0} where
  -- The key is in none of the entries.
  abbrev pub Missing : K → List (K × V) → Type 0
  Missing k [] = Unit
  Missing k ((j, w) ∷ kvs) = (j ≢ k) × Missing k kvs

  abbrev pub Distinct : List (K × V) → Type 0
  Distinct [] = Unit
  Distinct ((k, v) ∷ kvs) = Missing k kvs × Distinct kvs

  pub Missing-append :
      (k : K) (xs ys : List (K × V)) → Missing k xs → Missing k ys → Missing k (xs ++ ys)
  Missing-append k [] ys h m = m
  Missing-append k ((j, w) ∷ xs) ys h m = (h.0, Missing-append k xs ys h.1 m)

module _ {K : Type 0} (keys : KeyApi K) where
  open keys use {any_equal, any_equal_iff}

  pub any_equal_refl : (k : K) → any_equal k k ≡ true
  any_equal_refl k = (any_equal_iff k k).1 refl

  pub any_equal-ne : (j k : K) → j ≢ k → any_equal j k ≡ false
  any_equal-ne j k h = elim (Bool-cases (any_equal j k)) [
    | inl e ↦ absurd (h ((any_equal_iff j k).0 e))
    | inr e ↦ e
  ]

  pub any_equal-false : (j k : K) → any_equal j k ≡ false → j ≢ k
  any_equal-false j k e h = absurd (cc ((any_equal_iff j k).1 h, e))

module _ {K V : Type 0} (keys : KeyApi K) where
  open keys use {any_equal, any_equal_iff}

  -- The value of a key.
  unfoldable pub lookup : K → List (K × V) → Option V
  lookup k [] = none
  lookup k ((j, w) ∷ kvs) = if any_equal j k then some w else lookup k kvs

  -- A new value for a key that is there; a new entry at the end for one that is not.
  unfoldable pub upsert : K → V → List (K × V) → List (K × V)
  upsert k v [] = (k, v) ∷ []
  upsert k v ((j, w) ∷ kvs) = if any_equal j k then (j, v) ∷ kvs else (j, w) ∷ upsert k v kvs

  -- The entries without the key's.
  unfoldable pub remove : K → List (K × V) → List (K × V)
  remove k [] = []
  remove k ((j, w) ∷ kvs) = if any_equal j k then kvs else (j, w) ∷ remove k kvs

  -- After an insertion the key has the value, and every other key the one that it had.
  pub lookup-upsert :
      (k q : K) (v : V) (kvs : List (K × V))
      → lookup q (upsert k v kvs) ≡ (if any_equal k q then some v else lookup q kvs)
  unfolding lookup upsert
  lookup-upsert k q v [] = refl
  lookup-upsert k q v ((j, w) ∷ kvs) = elim (Bool-cases (any_equal j k)) [
    | inl e ↦ rw e (let same : j ≡ k = (any_equal_iff j k).0 e in rw same (ground arith))
    | inr e ↦ rw e (elim (Bool-cases (any_equal j q)) [
      | inl here ↦
          let same : j ≡ q = (any_equal_iff j q).0 here in
          let other : any_equal k q ≡ false =
            any_equal-ne keys k q (λ p. any_equal-false keys j k e (same ∙ sym p)) in
          rw (here, other) refl
      | inr elsewhere ↦ rw elsewhere (lookup-upsert k q v kvs)
    ])
  ]

  pub lookup_absent : (k : K) (kvs : List (K × V)) → Missing k kvs → lookup k kvs ≡ none
  unfolding lookup
  lookup_absent k [] h = refl
  lookup_absent k ((j, w) ∷ kvs) h = rw (any_equal-ne keys j k h.0) (lookup_absent k kvs h.1)

  pub upsert_absent :
      (k : K) (v : V) (kvs : List (K × V)) → Missing k kvs → upsert k v kvs ≡ kvs ++ (k, v) ∷ []
  unfolding upsert
  upsert_absent k v [] h = refl
  upsert_absent k v ((j, w) ∷ kvs) h =
      rw (any_equal-ne keys j k h.0) (ap (λ t. (j, w) ∷ t) (upsert_absent k v kvs h.1))

  Missing-upsert :
      (j k : K) (v : V) (kvs : List (K × V)) → k ≢ j → Missing j kvs → Missing j (upsert k v kvs)
  unfolding upsert
  Missing-upsert j k v [] ne h = (ne, tt)
  Missing-upsert j k v ((i, w) ∷ kvs) ne h = elim (Bool-cases (any_equal i k)) [
    | inl e ↦ rw e h
    | inr e ↦ rw e (h.0, Missing-upsert j k v kvs ne h.1)
  ]

  pub upsert-Distinct :
      (k : K) (v : V) (kvs : List (K × V)) → Distinct kvs → Distinct (upsert k v kvs)
  unfolding upsert
  upsert-Distinct k v [] h = (tt, tt)
  upsert-Distinct k v ((j, w) ∷ kvs) h = elim (Bool-cases (any_equal j k)) [
    | inl e ↦ rw e h
    | inr e ↦ rw e (
      Missing-upsert j k v kvs (λ s. any_equal-false keys j k e (sym s)) h.0,
      upsert-Distinct k v kvs h.1,
    )
  ]

  Missing-remove : (j k : K) (kvs : List (K × V)) → Missing j kvs → Missing j (remove k kvs)
  unfolding remove
  Missing-remove j k [] h = tt
  Missing-remove j k ((i, w) ∷ kvs) h = elim (Bool-cases (any_equal i k)) [
    | inl e ↦ rw e h.1
    | inr e ↦ rw e (h.0, Missing-remove j k kvs h.1)
  ]

  pub remove-Distinct : (k : K) (kvs : List (K × V)) → Distinct kvs → Distinct (remove k kvs)
  unfolding remove
  remove-Distinct k [] h = tt
  remove-Distinct k ((j, w) ∷ kvs) h = elim (Bool-cases (any_equal j k)) [
    | inl e ↦ rw e h.1
    | inr e ↦ rw e (Missing-remove j k kvs h.0, remove-Distinct k kvs h.1)
  ]

  pub remove-Missing : (k : K) (kvs : List (K × V)) → Distinct kvs → Missing k (remove k kvs)
  unfolding remove
  remove-Missing k [] h = tt
  remove-Missing k ((j, w) ∷ kvs) h = elim (Bool-cases (any_equal j k)) [
    | inl e ↦ rw e (let same : j ≡ k = (any_equal_iff j k).0 e in rw same at h.0)
    | inr e ↦ rw e (any_equal-false keys j k e, remove-Missing k kvs h.1)
  ]

  pub remove_absent : (k : K) (kvs : List (K × V)) → Missing k kvs → remove k kvs ≡ kvs
  unfolding remove
  remove_absent k [] h = refl
  remove_absent k ((j, w) ∷ kvs) h =
      rw (any_equal-ne keys j k h.0) (ap (λ t. (j, w) ∷ t) (remove_absent k kvs h.1))

  -- Without an entry, the other keys keep their values.
  pub lookup-remove :
      (k q : K) (kvs : List (K × V)) → k ≢ q → lookup q (remove k kvs) ≡ lookup q kvs
  unfolding lookup remove
  lookup-remove k q [] ne = refl
  lookup-remove k q ((j, w) ∷ kvs) ne = elim (Bool-cases (any_equal j k)) [
    | inl e ↦
        let same : j ≡ k = (any_equal_iff j k).0 e in
        let other : any_equal j q ≡ false = any_equal-ne keys j q (λ p. ne (sym same ∙ p)) in
        rw (e, other) refl
    | inr e ↦ rw e (rw (lookup-remove k q kvs ne))
  ]

  lookup_behind :
      (k q : K) (v : V) (kvs : List (K × V)) → k ≢ q → lookup q (kvs ++ (k, v) ∷ []) ≡ lookup q kvs
  unfolding lookup
  lookup_behind k q v [] ne = rw (any_equal-ne keys k q ne) refl
  lookup_behind k q v ((j, w) ∷ kvs) ne = elim (Bool-cases (any_equal j q)) [
    | inl e ↦ rw e refl
    | inr e ↦ rw e (lookup_behind k q v kvs ne)
  ]

  lookup_last :
      (k : K) (v : V) (kvs : List (K × V)) → Missing k kvs → lookup k (kvs ++ (k, v) ∷ []) ≡ some v
  unfolding lookup
  lookup_last k v [] h = rw (any_equal_refl keys k) refl
  lookup_last k v ((j, w) ∷ kvs) h = rw (any_equal-ne keys j k h.0) (lookup_last k v kvs h.1)

  -- An entry behind the others: its key has its value, and every other key the one that it had.
  pub lookup-replace :
      (k q : K) (v : V) (kvs : List (K × V))
      → Distinct kvs
      → lookup q (remove k kvs ++ (k, v) ∷ []) ≡ (if any_equal k q then some v else lookup q kvs)
  lookup-replace k q v kvs d = elim (Bool-cases (any_equal k q)) [
    | inl e ↦ rw e (
        subst (λ t. lookup t (remove k kvs ++ (k, v) ∷ []) ≡ some v) ((any_equal_iff k q).0 e)
          (lookup_last k v (remove k kvs) (remove-Missing k kvs d)))
    | inr e ↦
        let apart = any_equal-false keys k q e in
        rw e (lookup_behind k q v (remove k kvs) apart ∙ lookup-remove k q kvs apart)
  ]
