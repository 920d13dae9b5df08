-- ===== src/Map/Dense/Table/Finish.antt =====
-- The last steps of an insertion: the value is written, and the slot goes to the end of the iterator
-- list.
use litetvm_ffi.Prelude.{
  ℕ, suc, List, [], ◌∷◌, ◌++◌, Option, some, ◌≡◌, ◌≢◌, ◌⊎◌, inl, inr, refl, sym, ◌∙◌, arith, length,
  length-append,
}
use litetvm_ffi.Map.Assoc.{KeyApi, Missing, Distinct, Missing-append}
use litetvm_ffi.Map.Outcome.{ok, ◌>>=◌}
use litetvm_ffi.Map.Dense.Links.{k_invalid_index, store, iter_list_push_back}
use litetvm_ffi.Map.Dense.Links.Segments.{Absent, store_read, store-same, store-other}
use litetvm_ffi.Map.Dense.Links.Parts
use litetvm_ffi.Map.Dense.Links.Order.{push_back-append}
use litetvm_ffi.Map.Dense.Node.{Dense, data_at}
use litetvm_ffi.Map.Dense.Table.{set_val, push_back}
use litetvm_ffi.Map.Dense.Table.Chains.{In, IsTable}
use litetvm_ffi.Map.Dense.Table.Entries.{Entries, IsMap}
use litetvm_ffi.Map.Dense.Table.Frame.{IsTable-set_val}

module _ {K V : Type 0} where
  -- The entries stay where the slots of the list are not written.
  pub Entries-store :
      (i : ℕ) (x : Option (K × V)) (items : ℕ → Option (K × V)) (order : List ℕ)
      (kvs : List (K × V))
      → Absent i order
      → Entries items order kvs
      → Entries (store i x items) order kvs
  Entries-store i x items [] [] a h = tt
  Entries-store i x items [] (kv ∷ kvs) a h = absurd h
  Entries-store i x items (j ∷ js) [] a h = absurd h
  Entries-store i x items (j ∷ js) (kv ∷ kvs) a h =
      (store-other i j x items a.0 ∙ h.0, Entries-store i x items js kvs a.1 h.1)

  pub Entries-append :
      (items : ℕ → Option (K × V)) (order : List ℕ) (kvs : List (K × V)) (i : ℕ) (kv : K × V)
      → Entries items order kvs
      → items i ≡ some kv
      → Entries items (order ++ i ∷ []) (kvs ++ kv ∷ [])
  Entries-append items [] [] i kv h e = (e, tt)
  Entries-append items [] (p ∷ kvs) i kv h e = absurd h
  Entries-append items (j ∷ js) [] i kv h e = absurd h
  Entries-append items (j ∷ js) (p ∷ kvs) i kv h e = (h.0, Entries-append items js kvs i kv h.1 e)

pub In-last : (j i : ℕ) (is : List ℕ) → j ≡ i → In j (is ++ i ∷ [])
In-last j i [] e = inl e
In-last j i (n ∷ is) e = inr (In-last j i is e)

pub In-append : (j : ℕ) (is js : List ℕ) → In j is → In j (is ++ js)
In-append j [] js on = absurd on
In-append j (n ∷ is) js (inl e) = inl e
In-append j (n ∷ is) js (inr on) = inr (In-append j is js on)

module _ {K V : Type 0} where
  Distinct-append :
      (k : K) (v : V) (kvs : List (K × V))
      → Distinct kvs
      → Missing k kvs
      → Distinct (kvs ++ (k, v) ∷ [])
  Distinct-append k v [] d h = (tt, tt)
  Distinct-append k v ((q, w) ∷ kvs) d h = (
    Missing-append q kvs ((k, v) ∷ []) d.0 ((λ e. h.0 (sym e), tt)),
    Distinct-append k v kvs d.1 h.1,
  )

module _ {K V : Type 0} (keys : KeyApi K) where
  -- A map with a slot of its own for a key, which is not on the iterator list yet
  pub record Ready (m : Dense K V) (tails : ℕ → List ℕ) (order : List ℕ) (kvs : List (K × V))
      (i : ℕ) (k : K) : Type 0 where
    pub table : IsTable keys m tails
    pub list : Parts.IsList m.links order
    pub entries : Entries m.items order kvs
    pub complete : (j : ℕ) (kv : K × V) → m.items j ≡ some kv → (j ≡ i) ⊎ In j order
    pub counted : m.size ≡ suc (length kvs)
    pub distinct : Distinct kvs
    pub missing : Missing k kvs
    pub absent : Absent i order
    pub proper : k_invalid_index ≢ i
    pub held : (w : V) × (m.items i ≡ some (k, w))

  pub Ready-IsMap :
      (m : Dense K V) (tails : ℕ → List ℕ) (order : List ℕ) (kvs : List (K × V)) (i : ℕ) (k : K)
      (v : V)
      → Ready m tails order kvs i k
      → (n : Dense K V) × ((set_val i v m >>= λ set. ok (push_back i set)) ≡ ok n)
        × IsMap keys n tails (order ++ i ∷ []) (kvs ++ (k, v) ∷ [])
  unfolding data_at
  Ready-IsMap m tails order kvs i k v r =
      let (w, here) = r.held in
      let items = store i (some (k, v)) m.items in
      let n = record m { items = items; links = iter_list_push_back i m.links } in
      (
        n,
        rw (data_at, here) refl,
        record {
          table =
              IsTable-set_val keys m.size (iter_list_push_back i m.links) i k w v m tails r.table
                here;
          list = push_back-append m.links order i r.list r.absent r.proper;
          entries =
              Entries-append items order kvs i (k, v)
                (Entries-store i (some (k, v)) m.items order kvs r.absent r.entries)
                (store-same i (some (k, v)) m.items);
          complete = λ j kv there. elim (store_read i j (some (k, v)) (some kv) m.items there) [
            | inl (same, e) ↦ In-last j i order (sym same)
            | inr (other, e) ↦ elim (r.complete j kv e) [
              | inl same ↦ In-last j i order same
              | inr on ↦ In-append j order (i ∷ []) on
            ]
          ];
          counted = omega (arith, r.counted, length-append kvs ((k, v) ∷ []));
          distinct = Distinct-append k v kvs r.distinct r.missing;
        },
      )
