-- ===== src/Map/Small/Finding.antt =====
-- Where the small map's `find` stops.
use litetvm_ffi.Prelude.{
  ℕ, suc, ◌+◌, List, [], ◌∷◌, ◌++◌, none, some, ◌≡◌, refl, sym, ap, subst, arith, length, get_elem?,
  inl, inr, Bool-cases,
}
use litetvm_ffi.Map.Assoc.{
  KeyApi, Missing, lookup, upsert, remove, any_equal_refl, any_equal-ne, any_equal-false,
}
use litetvm_ffi.Map.Small.{drop_at, set_second, find_from}

module _ {K V : Type 0} where
  pub get_elem?-append : (xs ys : List (K × V)) → get_elem? (xs ++ ys) (length xs) ≡ get_elem? ys 0
  get_elem?-append [] ys = refl
  get_elem?-append (x ∷ xs) ys = get_elem?-append xs ys

  pub get_elem?-length : (xs : List (K × V)) → get_elem? xs (length xs) ≡ none
  get_elem?-length [] = refl
  get_elem?-length (x ∷ xs) = get_elem?-length xs

  pub set_second-append :
      (pre post : List (K × V)) (k : K) (v w : V)
      → set_second (length pre) v (pre ++ (k, w) ∷ post) ≡ pre ++ (k, v) ∷ post
  unfolding set_second
  set_second-append [] post k v w = refl
  set_second-append (kv ∷ pre) post k v w = ap (λ t. kv ∷ t) (set_second-append pre post k v w)

  pub drop_at-append :
      (pre post : List (K × V)) (kv : K × V) → drop_at (length pre) (pre ++ kv ∷ post) ≡ pre ++ post
  unfolding drop_at
  drop_at-append [] post kv = refl
  drop_at-append (x ∷ pre) post kv = ap (λ t. x ∷ t) (drop_at-append pre post kv)

module _ {K V : Type 0} (keys : KeyApi K) where
  open keys use {any_equal, any_equal_iff}

  pub upsert-append :
      (pre post : List (K × V)) (k : K) (v w : V)
      → Missing k pre
      → upsert keys k v (pre ++ (k, w) ∷ post) ≡ pre ++ (k, v) ∷ post
  unfolding upsert
  upsert-append [] post k v w h = rw (any_equal_refl keys k) refl
  upsert-append ((j, u) ∷ pre) post k v w h =
      rw (any_equal-ne keys j k h.0) (ap (λ t. (j, u) ∷ t) (upsert-append pre post k v w h.1))

  pub remove-append :
      (pre post : List (K × V)) (k : K) (w : V)
      → Missing k pre
      → remove keys k (pre ++ (k, w) ∷ post) ≡ pre ++ post
  unfolding remove
  remove-append [] post k w h = rw (any_equal_refl keys k) refl
  remove-append ((j, u) ∷ pre) post k w h =
      rw (any_equal-ne keys j k h.0) (ap (λ t. (j, u) ∷ t) (remove-append pre post k w h.1))

  pub lookup-append :
      (pre post : List (K × V)) (k : K) (w : V)
      → Missing k pre
      → lookup keys k (pre ++ (k, w) ∷ post) ≡ some w
  unfolding lookup
  lookup-append [] post k w h = rw (any_equal_refl keys k) refl
  lookup-append ((j, u) ∷ pre) post k w h =
      rw (any_equal-ne keys j k h.0) (lookup-append pre post k w h.1)

  -- Where `find` stops: behind the entries, or at the first one with the key.
  pub data Stop (k : K) (i : ℕ) (kvs : List (K × V)) : Type 0 where
    missing : Missing k kvs → find_from keys i k kvs ≡ i + length kvs → Stop k i kvs
    located :
        (pre post : List (K × V)) (w : V)
        → kvs ≡ pre ++ (k, w) ∷ post
        → Missing k pre
        → find_from keys i k kvs ≡ i + length pre
        → Stop k i kvs

  pub find_from-Stop : (k : K) (i : ℕ) (kvs : List (K × V)) → Stop k i kvs
  unfolding find_from
  find_from-Stop k i [] = missing tt (omega arith)
  find_from-Stop k i ((j, w) ∷ kvs) = elim (Bool-cases (any_equal j k)) [
    | inl e ↦ located [] kvs w (λ t. ((any_equal_iff j k).0 e t, w) ∷ kvs) tt (rw e (omega arith))
    | inr e ↦ elim (find_from-Stop k (suc i) kvs) [
      | missing m s ↦ missing (any_equal-false keys j k e, m) (rw e (omega (arith, s)))
      | located pre post u p m s ↦
          located ((j, w) ∷ pre) post u (ap (λ t. (j, w) ∷ t) p) (any_equal-false keys j k e, m)
            (rw e (omega (arith, s)))
    ]
  ]

  -- To show a property of the entries: with the key in none of them, and with the key in one.
  pub by_find :
      (P : List (K × V) → Type 0) (k : K) (kvs : List (K × V))
      → (Missing k kvs → find_from keys 0 k kvs ≡ length kvs → P kvs)
      → ((pre post : List (K × V)) (w : V)
          → Missing k pre
          → find_from keys 0 k (pre ++ (k, w) ∷ post) ≡ length pre
          → P (pre ++ (k, w) ∷ post))
      → P kvs
  by_find P k kvs gone there = elim (find_from-Stop k 0 kvs) [
    | missing m s ↦ gone m (omega (arith, s))
    | located pre post w p m s ↦
        subst P (sym p)
          (there pre post w m (subst (λ t. find_from keys 0 k t ≡ length pre) p (omega (arith, s))))
  ]

  pub key_in_located :
      (k : K) (pre post : List (K × V)) (w : V) → Missing k (pre ++ (k, w) ∷ post) → ⊥
  key_in_located k [] post w h = h.0 refl
  key_in_located k ((j, u) ∷ pre) post w h = key_in_located k pre post w h.1

  pub find_absent :
      (k : K) (kvs : List (K × V)) → Missing k kvs → find_from keys 0 k kvs ≡ length kvs
  find_absent k kvs h = elim (find_from-Stop k 0 kvs) [
    | missing g s ↦ omega (arith, s)
    | located pre post w p g s ↦ absurd (key_in_located k pre post w (subst (Missing k) p h))
  ]
