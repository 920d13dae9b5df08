-- ===== src/Map/Dense/Table/Scanning.antt =====
-- The loop of `TryInsert` along the list of the key's home slot.
use litetvm_ffi.Prelude.{
  ℕ, zero, suc, ◌≤◌, List, [], ◌∷◌, true, some, ◌≡◌, ◌⊎◌, inl, inr, refl, sym, ap, ◌∙◌, arith,
  length, All, Bool-cases,
}
use litetvm_ffi.Map.Assoc.{KeyApi}
use litetvm_ffi.Map.Outcome.{Outcome, ok}
use litetvm_ffi.Map.Dense.Links.Segments.{last_or}
use litetvm_ffi.Map.Dense.Node.{Dense, data_at, is_head, home}
use litetvm_ffi.Map.Dense.Table.{Scan, same_key, at_tail, scan}
use litetvm_ffi.Map.Dense.Table.Chains.{IsTable, Chain, Belongs, length-Unique}
use litetvm_ffi.Map.Dense.Table.Search.{Other, keys_differ, bounded, everywhere}

module _ {K V : Type 0} (keys : KeyApi K) where
  open keys use {any_equal, any_equal_iff}

  -- The slot of the key, or the last slot of the list where no slot has it
  abbrev pub Scanned : Dense K V → K → ℕ → List ℕ → Outcome Scan → Type 0
  Scanned m k i is r =
      ((j : ℕ) × (w : V) × (r ≡ ok (same_key j)) × (m.items j ≡ some (k, w)))
      ⊎ ((r ≡ ok (at_tail (last_or i is))) × All (Other keys m k) (i ∷ is))

  later :
      (k : K) (i n : ℕ) (ns : List ℕ) (m : Dense K V) (r r' : Outcome Scan)
      → r ≡ r'
      → Other keys m k i
      → Scanned m k n ns r'
      → Scanned m k i (n ∷ ns) r
  later k i n ns m r r' e o (inl (j, w, p, here)) = inl (j, w, e ∙ p, here)
  later k i n ns m r r' e o (inr (p, a)) = inr (e ∙ p, (o, a))

  scan-Chain :
      (fuel : ℕ) (k : K) (h i : ℕ) (is : List ℕ) (m : Dense K V)
      → length (i ∷ is) ≤ fuel
      → Chain m i is
      → All (Belongs keys m h) (i ∷ is)
      → Scanned m k i is (scan keys fuel k i m)
  unfolding scan data_at
  scan-Chain zero k h i is m enough c a = absurd (omega (arith, enough))
  scan-Chain (suc fuel) k h i [] m enough c a =
      let ((j, v), here, at_home, inside) = a.0 in
      elim (Bool-cases (any_equal k j)) [
        | inl e ↦ inl (
          i,
          v,
          rw (scan, data_at, here, e) refl,
          here ∙ ap (λ t. some (t, v)) (sym ((any_equal_iff k j).0 e)),
        )
        | inr e ↦ inr (rw (scan, data_at, here, e, c) refl, (keys_differ keys k j v i m here e, tt))
      ]
  scan-Chain (suc fuel) k h i (n ∷ ns) m enough c a =
      let ((j, v), here, at_home, inside) = a.0 in
      elim (Bool-cases (any_equal k j)) [
        | inl e ↦ inl (
          i,
          v,
          rw (scan, data_at, here, e) refl,
          here ∙ ap (λ t. some (t, v)) (sym ((any_equal_iff k j).0 e)),
        )
        | inr e ↦
            let step : scan keys (suc fuel) k i m ≡ scan keys fuel k n m =
              rw (scan, data_at, here, e, c.0) refl in
            later k i n ns m (scan keys (suc fuel) k i m) (scan keys fuel k n m) step
              (keys_differ keys k j v i m here e)
              (scan-Chain fuel k h n ns m (omega (arith, enough)) c.1 a.1)
      ]

  -- The loop from the home slot of the key, where this is the head of a list
  pub scan-Scanned :
      (k : K) (m : Dense K V) (tails : ℕ → List ℕ)
      → IsTable keys m tails
      → is_head (m.meta (home keys k m)) ≡ true
      → ((j : ℕ) × (w : V) × (scan keys m.slots k (home keys k m) m ≡ ok (same_key j))
          × (m.items j ≡ some (k, w)))
        ⊎ ((scan keys m.slots k (home keys k m) m
              ≡ ok (at_tail (last_or (home keys k m) (tails (home keys k m)))))
            × ((i : ℕ) → Other keys m k i))
  scan-Scanned k m tails t head =
      let h = home keys k m in
      let l = t.lists h head in
      let enough =
        length-Unique m.slots (h ∷ tails h) l.unique (bounded keys m h (h ∷ tails h) l.nodes) in
      elim (scan-Chain m.slots k h h (tails h) m enough l.chain l.nodes) [
        | inl hit ↦ inl hit
        | inr gone ↦ inr (gone.0, everywhere keys k m tails t gone.1)
      ]
