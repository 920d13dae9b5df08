-- ===== src/Map/Dense/Table/Present.antt =====
-- `TryInsert` with a key that the map has: its slot leaves the iterator list.
use mathlib.Core.Option.{some-injective}
use litetvm_ffi.Prelude.{
  ℕ, suc, List, [], ◌∷◌, ◌++◌, Option, some, ◌≡◌, ◌≢◌, ◌⊎◌, inl, inr, refl, sym, ap, ◌∙◌, subst,
  arith, length, length-append, All-append,
}
use litetvm_ffi.Map.Assoc.{
  KeyApi, Missing, Distinct, remove, any_equal-ne, lookup_absent, remove-Missing, remove-Distinct,
}
use litetvm_ffi.Map.Dense.Links.{iter_list_unlink}
use litetvm_ffi.Map.Dense.Links.Segments.{Unique-split, Apart-sym}
use litetvm_ffi.Map.Dense.Links.Parts
use litetvm_ffi.Map.Dense.Links.Order.{unlink-append}
use litetvm_ffi.Map.Dense.Node.{Dense}
use litetvm_ffi.Map.Dense.Table.{unlink}
use litetvm_ffi.Map.Dense.Table.Chains.{In, IsTable-inside}
use litetvm_ffi.Map.Dense.Table.Entries.{Entries, IsMap, lookup-Entries}
use litetvm_ffi.Map.Dense.Table.Frame.{IsTable-links}
use litetvm_ffi.Map.Dense.Table.Finish.{Ready}

-- A list around one of its slots
record Split (i : ℕ) (is : List ℕ) : Type 0 where
  before : List ℕ
  behind : List ℕ
  whole : is ≡ before ++ i ∷ behind

In-Split : (i : ℕ) (is : List ℕ) → In i is → Split i is
In-Split i [] on = absurd on
In-Split i (j ∷ js) (inl e) = record { before = []; behind = js; whole = ap (λ t. t ∷ js) (sym e) }
In-Split i (j ∷ js) (inr on) =
    let s = In-Split i js on in
    record { before = j ∷ s.before; behind = s.behind; whole = ap (λ t. j ∷ t) s.whole }

In-without : (i j : ℕ) (xs ys : List ℕ) → In j (xs ++ i ∷ ys) → (j ≡ i) ⊎ In j (xs ++ ys)
In-without i j [] ys (inl e) = inl e
In-without i j [] ys (inr on) = inr on
In-without i j (n ∷ xs) ys (inl e) = inr (inl e)
In-without i j (n ∷ xs) ys (inr on) = elim (In-without i j xs ys on) [
  | inl e ↦ inl e
  | inr there ↦ inr (inr there)
]

In-middle : (i : ℕ) (xs ys : List ℕ) → In i (xs ++ i ∷ ys)
In-middle i [] ys = inl refl
In-middle i (n ∷ xs) ys = inr (In-middle i xs ys)

module _ {K V : Type 0} (keys : KeyApi K) where
  open keys use {any_equal, any_equal_iff}

  pub length-Entries :
      (items : ℕ → Option (K × V)) (order : List ℕ) (kvs : List (K × V))
      → Entries items order kvs
      → length order ≡ length kvs
  length-Entries items [] [] h = refl
  length-Entries items [] (kv ∷ kvs) h = absurd h
  length-Entries items (j ∷ js) [] h = absurd h
  length-Entries items (j ∷ js) (kv ∷ kvs) h = ap suc (length-Entries items js kvs h.1)

  Entries-remove :
      (items : ℕ → Option (K × V)) (i : ℕ) (k : K) (w : V) (xs ys : List ℕ) (kvs : List (K × V))
      → Entries items (xs ++ i ∷ ys) kvs
      → items i ≡ some (k, w)
      → Distinct kvs
      → Entries items (xs ++ ys) (remove keys k kvs)
  unfolding remove
  Entries-remove items i k w [] ys [] h here d = absurd h
  Entries-remove items i k w (n ∷ xs) ys [] h here d = absurd h
  Entries-remove items i k w [] ys ((q, u) ∷ kvs) h here d =
      let same = ap (λ p. p.0) (some-injective (k, w) (q, u) (sym here ∙ h.0)) in
      rw ((any_equal_iff q k).1 (sym same)) h.1
  Entries-remove items i k w (n ∷ xs) ys ((q, u) ∷ kvs) h here d =
      let found =
        lookup-Entries keys items i k w (xs ++ i ∷ ys) kvs h.1 d.1 (In-middle i xs ys) here in
      let apart : q ≢ k =
        λ e. cc (found, lookup_absent keys k kvs (subst (λ t. Missing t kvs) e d.0)) in
      rw (any_equal-ne keys q k apart) (h.0, Entries-remove items i k w xs ys kvs h.1 here d.1)

  -- The map once the slot of the key is off the iterator list
  pub unlink-Ready :
      (m : Dense K V) (tails : ℕ → List ℕ) (order : List ℕ) (kvs : List (K × V)) (i : ℕ) (k : K)
      (w : V)
      → IsMap keys m tails order kvs
      → m.items i ≡ some (k, w)
      → (rest : List ℕ) × Ready keys (unlink i m) tails rest (remove keys k kvs) i k
  unlink-Ready m tails order kvs i k w h here =
      let s = In-Split i order (h.complete i (k, w) here) in
      let list = subst (Parts.IsList m.links) s.whole h.list in
      let entries = subst (λ t. Entries m.items t kvs) s.whole h.entries in
      let left = Entries-remove m.items i k w s.before s.behind kvs entries here h.distinct in
      let u = Unique-split s.before (i ∷ s.behind) list.unique in
      (
        s.before ++ s.behind,
        record {
          table = IsTable-links keys m.size (iter_list_unlink i m.links) m tails h.table;
          list = unlink-append m.links s.before i s.behind list;
          entries = left;
          complete = λ j kv there.
              In-without i j s.before s.behind (subst (In j) s.whole (h.complete j kv there));
          counted = omega (
            arith,
            h.counted,
            length-Entries m.items (s.before ++ i ∷ s.behind) kvs entries,
            length-Entries m.items (s.before ++ s.behind) (remove keys k kvs) left,
            length-append s.before (i ∷ s.behind),
            length-append s.before s.behind,
          );
          distinct = remove-Distinct keys k kvs h.distinct;
          missing = remove-Missing keys k kvs h.distinct;
          absent =
              All-append (λ t. i ≢ t) s.before s.behind (Apart-sym s.before (i ∷ s.behind) u.2).0
                u.1.0;
          proper =
              λ e. omega (arith, e, IsTable-inside keys m tails i (k, w) h.table here, h.table.few);
          held = (w, here);
        },
      )
