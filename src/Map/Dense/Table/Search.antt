-- ===== src/Map/Dense/Table/Search.antt =====
-- `Search` finds the slot of a key.
use litetvm_ffi.Prelude.{
  ℕ, zero, suc, ◌≤◌, ◌<◌, List, [], ◌∷◌, true, false, Option, none, some, ◌≡◌, ◌≢◌, ◌⊎◌, inl, inr,
  refl, sym, ap, ◌∙◌, subst, arith, length, ◌==◌, ==_iff, All, Bool-cases,
}
use mathlib.Core.Option.{some-injective}
use litetvm_ffi.Map.Assoc.{KeyApi, any_equal-false}
use litetvm_ffi.Map.Outcome.{Outcome, ok}
use litetvm_ffi.Map.Dense.Node.{Dense, is_head, data_at, get_list_head, home}
use litetvm_ffi.Map.Dense.Table.{search_loop, search}
use litetvm_ffi.Map.Dense.Table.Chains.{In, All-In, length-Unique, Chain, Belongs, IsTable}

module _ {K V : Type 0} (keys : KeyApi K) where
  open keys use {any_equal, any_equal_iff, any_hash}

  -- The slot has another key, or none.
  abbrev pub Other : Dense K V → K → ℕ → Type 0
  Other m k i = (kv : K × V) → m.items i ≡ some kv → kv.0 ≢ k

  -- What a search along a list of slots gives: the slot of the key, or none where no slot has it
  abbrev pub Searched : Dense K V → K → List ℕ → Outcome (Option ℕ) → Type 0
  Searched m k is r =
      ((i : ℕ) × (v : V) × (r ≡ ok (some i)) × In i is × (m.items i ≡ some (k, v)))
      ⊎ ((r ≡ ok none) × All (Other m k) is)

  pub keys_differ :
      (k j : K) (v : V) (i : ℕ) (m : Dense K V)
      → m.items i ≡ some (j, v)
      → any_equal k j ≡ false
      → Other m k i
  keys_differ k j v i m here e kv there same =
      any_equal-false keys k j e
        (sym same ∙ ap (λ t. t.0) (some-injective kv (j, v) (sym there ∙ here)))

  later :
      (k : K) (i n : ℕ) (ns : List ℕ) (m : Dense K V) (r r' : Outcome (Option ℕ))
      → r ≡ r'
      → Other m k i
      → Searched m k (n ∷ ns) r'
      → Searched m k (i ∷ n ∷ ns) r
  later k i n ns m r r' e o (inl (s, v, p, on, here)) = inl (s, v, e ∙ p, inr on, here)
  later k i n ns m r r' e o (inr (p, a)) = inr (e ∙ p, (o, a))

  search_loop-Chain :
      (fuel : ℕ) (k : K) (h i : ℕ) (is : List ℕ) (m : Dense K V)
      → length (i ∷ is) ≤ fuel
      → Chain m i is
      → All (Belongs keys m h) (i ∷ is)
      → Searched m k (i ∷ is) (search_loop keys fuel k (some i) m)
  unfolding search_loop data_at
  search_loop-Chain zero k h i is m enough c a = absurd (omega (arith, enough))
  search_loop-Chain (suc fuel) k h i [] m enough c a =
      let ((j, v), here, at_home, inside) = a.0 in
      elim (Bool-cases (any_equal k j)) [
        | inl e ↦ inl (
          i,
          v,
          rw (search_loop, data_at, here, e) refl,
          inl refl,
          here ∙ ap (λ t. some (t, v)) (sym ((any_equal_iff k j).0 e)),
        )
        | inr e ↦
            inr (rw (search_loop, data_at, here, e, c) refl, (keys_differ k j v i m here e, tt))
      ]
  search_loop-Chain (suc fuel) k h i (n ∷ ns) m enough c a =
      let ((j, v), here, at_home, inside) = a.0 in
      elim (Bool-cases (any_equal k j)) [
        | inl e ↦ inl (
          i,
          v,
          rw (search_loop, data_at, here, e) refl,
          inl refl,
          here ∙ ap (λ t. some (t, v)) (sym ((any_equal_iff k j).0 e)),
        )
        | inr e ↦
            let step : search_loop keys (suc fuel) k (some i) m
                ≡ search_loop keys fuel k (some n) m =
              rw (search_loop, data_at, here, e, c.0) refl in
            later k i n ns m (search_loop keys (suc fuel) k (some i) m)
              (search_loop keys fuel k (some n) m) step (keys_differ k j v i m here e)
              (search_loop-Chain fuel k h n ns m (omega (arith, enough)) c.1 a.1)
      ]

  nobody :
      (k : K) (m : Dense K V) (tails : ℕ → List ℕ)
      → IsTable keys m tails
      → is_head (m.meta (home keys k m)) ≡ false
      → (i : ℕ) → Other m k i
  nobody k m tails t body i kv here same =
      let there = (t.listed i kv here).0 in
      absurd (cc (subst (λ j. is_head (m.meta (home keys j m)) ≡ true) same there, body))

  pub everywhere :
      (k : K) (m : Dense K V) (tails : ℕ → List ℕ)
      → IsTable keys m tails
      → All (Other m k) (home keys k m ∷ tails (home keys k m))
      → (i : ℕ) → Other m k i
  everywhere k m tails t a i kv here same =
      let on = (t.listed i kv here).1 in
      All-In (Other m k) i (home keys k m ∷ tails (home keys k m)) a
        (subst (λ j. In i (home keys j m ∷ tails (home keys j m))) same on) kv here same

  pub bounded :
      (m : Dense K V) (h : ℕ) (is : List ℕ) → All (Belongs keys m h) is → All (λ i. i < m.slots) is
  bounded m h [] a = tt
  bounded m h (i ∷ is) a = (a.0.3, bounded m h is a.1)

  -- `Search` on a table gives the slot of the key, or none where no slot has the key.
  pub search-Searched :
      (k : K) (m : Dense K V) (tails : ℕ → List ℕ)
      → IsTable keys m tails
      → (m.size ≡ 0 → (i : ℕ) → m.items i ≡ none)
      → ((i : ℕ) × (v : V) × (search keys k m ≡ ok (some i)) × (m.items i ≡ some (k, v)))
        ⊎ ((search keys k m ≡ ok none) × ((i : ℕ) → Other m k i))
  unfolding search get_list_head
  search-Searched k m tails t no_size = elim (Bool-cases (m.size == 0)) [
    | inl e ↦ inr (rw e refl, λ i kv here. absurd (cc (no_size ((==_iff m.size 0).0 e) i, here)))
    | inr e ↦
        let h = home keys k m in
        elim (Bool-cases (is_head (m.meta h))) [
          | inl head ↦
              let l = t.lists h head in
              let enough =
                length-Unique m.slots (h ∷ tails h) l.unique (bounded m h (h ∷ tails h) l.nodes) in
              rw (e, head)
                (elim (search_loop-Chain m.slots k h h (tails h) m enough l.chain l.nodes) [
                  | inl hit ↦ inl (hit.0, hit.1, hit.2, hit.4)
                  | inr gone ↦ inr (gone.0, everywhere k m tails t gone.1)
                ])
          | inr body ↦ inr (rw (e, body) refl, nobody k m tails t body)
        ]
  ]
