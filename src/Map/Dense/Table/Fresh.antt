-- ===== src/Map/Dense/Table/Fresh.antt =====
-- A key that the map does not have, in a slot that was empty.
use mathlib.Core.Option.{some-injective}
use litetvm_ffi.Prelude.{
  ℕ, ◌+◌, ◌<◌, List, [], ◌∷◌, true, false, Option, none, some, ◌≡◌, ◌≢◌, ◌⊎◌, inl, inr, refl, sym,
  ap, ◌∙◌, subst, arith, ◌==◌, ==_iff, All, Bool-cases,
}
use litetvm_ffi.Map.Assoc.{KeyApi, Missing}
use litetvm_ffi.Map.Dense.Links.{Links, k_invalid_index, store}
use litetvm_ffi.Map.Dense.Links.Segments.{
  Absent, Segment-store_next, Segment-store_prev, store_cases, store_read, store-same, store-other,
}
use litetvm_ffi.Map.Dense.Links.Parts
use litetvm_ffi.Map.Dense.Node.{Dense, is_head, is_empty, move_to_next, home}
use litetvm_ffi.Map.Dense.Probe.{next_probe_location}
use litetvm_ffi.Map.Dense.Table.Chains.{In, IsTable, IsList, Belongs}
use litetvm_ffi.Map.Dense.Table.Entries.{Entries, IsMap}
use litetvm_ffi.Map.Dense.Table.Frame.{changed, KeepsKey, IsList-changed}
use litetvm_ffi.Map.Dense.Table.Finish.{Ready, Entries-store}

pub same_or_other : (i j : ℕ) → (i ≡ j) ⊎ (i ≢ j)
same_or_other i j = elim (Bool-cases (i == j)) [
  | inl e ↦ inl ((==_iff i j).0 e)
  | inr e ↦ inr (λ p. absurd (cc ((==_iff i j).1 p, e)))
]

pub not_head : (byte : ℕ) → is_head byte ≡ true → is_empty byte ≡ true → ⊥
not_head byte head free =
    let wrong : is_head 255 ≡ true =
      subst (λ b. is_head b ≡ true) ((==_iff byte 255).0 free) head in
    cc wrong

-- The links of a new item
abbrev pub fresh : ℕ → Links → Links
fresh e l = record l {
  prev = store e k_invalid_index l.prev;
  next = store e k_invalid_index l.next;
}

fresh-IsList :
    (e : ℕ) (l : Links) (order : List ℕ)
    → Parts.IsList l order
    → Absent e order
    → Parts.IsList (fresh e l) order
fresh-IsList e l order h a =
    let inv = k_invalid_index in
    record {
      head_first = h.head_first;
      tail_last = h.tail_last;
      segment =
          Segment-store_prev l.prev (store e inv l.next) e inv inv inv order a
            (Segment-store_next l.prev l.next e inv inv inv order a h.segment);
      unique = h.unique;
      valid = h.valid;
    }

module _ {K V : Type 0} where
  Absent-Entries :
      (items : ℕ → Option (K × V)) (e : ℕ) (order : List ℕ) (kvs : List (K × V))
      → Entries items order kvs
      → items e ≡ none
      → Absent e order
  Absent-Entries items e [] kvs h free = tt
  Absent-Entries items e (j ∷ js) [] h free = absurd h
  Absent-Entries items e (j ∷ js) (kv ∷ kvs) h free =
      (λ s. absurd (cc (ap items s, free, h.0)), Absent-Entries items e js kvs h.1 free)

module _ {K V : Type 0} (keys : KeyApi K) where
  -- The map once the key has its slot, whatever the list of slots that it is put on
  pub fresh-Ready :
      (m : Dense K V) (tails : ℕ → List ℕ) (order : List ℕ) (kvs : List (K × V)) (e : ℕ) (k : K)
      (w : V) (meta : ℕ → ℕ) (new_tails : ℕ → List ℕ)
      → IsMap keys m tails order kvs
      → m.items e ≡ none
      → e < m.slots
      → Missing k kvs
      → IsTable keys
          (changed (m.size + 1) (fresh e m.links) meta (store e (some (k, w)) m.items) m)
          new_tails
      → Ready keys
          (changed (m.size + 1) (fresh e m.links) meta (store e (some (k, w)) m.items) m)
          new_tails
          order
          kvs
          e
          k
  fresh-Ready m tails order kvs e k w meta new_tails h free inside new t =
      let a = Absent-Entries m.items e order kvs h.entries free in
      record {
        table = t;
        list = fresh-IsList e m.links order h.list a;
        entries = Entries-store e (some (k, w)) m.items order kvs a h.entries;
        complete = λ j kv there. elim (store_read e j (some (k, w)) (some kv) m.items there) [
          | inl (same, p) ↦ inl (sym same)
          | inr (other, p) ↦ inr (h.complete j kv p)
        ];
        counted = omega (arith, h.counted);
        distinct = h.distinct;
        missing = new;
        absent = a;
        proper = λ p. omega (arith, p, inside, h.table.few);
        held = (w, store-same e (some (k, w)) m.items);
      }

  -- Slots with keys are not the empty slot.
  pub kept :
      (e h : ℕ) (k : K) (w : V) (byte : ℕ) (m : Dense K V) (is : List ℕ)
      → m.items e ≡ none
      → All (Belongs keys m h) is
      → All (λ j. store e byte m.meta j ≡ m.meta j) is
        × All (KeepsKey m.items (store e (some (k, w)) m.items)) is
  kept e h k w byte m [] free b = (tt, tt)
  kept e h k w byte m (i ∷ is) free b =
      let (kv, here, at_home, inside) = b.0 in
      let apart : e ≢ i = λ s. absurd (cc (ap m.items s, free, here)) in
      let rest = kept e h k w byte m is free b.1 in
      (
        (store-other e i byte m.meta apart, rest.0),
        (λ p there. (p.1, store-other e i (some (k, w)) m.items apart ∙ there), rest.1),
      )

  -- A slot is empty when it has no item, if this was so before and the new item's slot is not empty.
  module _ (e : ℕ) (k : K) (w : V) (meta : ℕ → ℕ) (m : Dense K V) (tails : ℕ → List ℕ)
      (t : IsTable keys m tails) (full : is_empty (meta e) ≡ false)
      (others : (j : ℕ) → e ≢ j → is_empty (meta j) ≡ is_empty (m.meta j)) where
    pub fresh-vacant : (j : ℕ) → is_empty (meta j) ≡ true → store e (some (k, w)) m.items j ≡ none
    fresh-vacant j p =
        store_cases (λ x. x ≡ none) e j (some (k, w)) m.items
          (λ same. absurd (cc (subst (λ q. is_empty (meta q) ≡ true) (sym same) p, full)))
          (λ other. t.vacant j (sym (others j other) ∙ p))

    pub fresh-taken :
        e < m.slots
        → (j : ℕ) → is_empty (meta j) ≡ false
        → j < m.slots × ((kv : K × V) × (store e (some (k, w)) m.items j ≡ some kv))
    fresh-taken inside j p =
        store_cases (λ x. j < m.slots × ((kv : K × V) × (x ≡ some kv))) e j (some (k, w)) m.items
          (λ same. (subst (λ q. q < m.slots) same inside, ((k, w), refl)))
          (λ other. t.taken j (sym (others j other) ∙ p))

  -- The first key of a home slot that is empty
  pub head-IsTable :
      (size : ℕ) (links : Links) (k : K) (w : V) (m : Dense K V) (tails : ℕ → List ℕ)
      → IsTable keys m tails
      → is_empty (m.meta (home keys k m)) ≡ true
      → IsTable keys
          (changed size links
            (store (home keys k m) 0 m.meta)
            (store (home keys k m) (some (k, w)) m.items)
            m)
          (store (home keys k m) [] tails)
  unfolding move_to_next next_probe_location
  head-IsTable size links k w m tails t free =
      let e = home keys k m in
      let meta = store e 0 m.meta in
      let items = store e (some (k, w)) m.items in
      let new = changed size links meta items m in
      let none_there = t.vacant e free in
      let full : is_empty (meta e) ≡ false = ap is_empty (store-same e 0 m.meta) in
      let others : (j : ℕ) → e ≢ j → is_empty (meta j) ≡ is_empty (m.meta j) =
        λ j p. ap is_empty (store-other e j 0 m.meta p) in
      record {
        lists = λ h head. elim (same_or_other e h) [
          | inl same ↦
              subst (λ g. IsList keys new g (store e [] tails g)) same
                (subst (λ l. IsList keys new e l) (sym (store-same e [] tails))
                  (record {
                    chain = rw (store-same e 0 m.meta) refl;
                    nodes = (((k, w), store-same e (some (k, w)) m.items, refl, t.homes k), tt);
                    unique = (tt, tt);
                    bodies = tt;
                  }))
          | inr other ↦
              let l = t.lists h (ap is_head (sym (store-other e h 0 m.meta other)) ∙ head) in
              let (a, b) = kept e h k w 0 m (h ∷ tails h) none_there l.nodes in
              subst (λ l. IsList keys new h l) (sym (store-other e h [] tails other))
                (IsList-changed keys size links meta items m h (tails h) a b l)
        ];
        listed = λ j kv there. elim (store_read e j (some (k, w)) (some kv) m.items there) [
          | inl (same, p) ↦
              subst
                (λ q.
                  (is_head (meta (home keys q m)) ≡ true)
                  × In j (home keys q m ∷ store e [] tails (home keys q m)))
                (ap (λ p. p.0) (some-injective (k, w) kv p))
                (ap is_head (store-same e 0 m.meta), inl (sym same))
          | inr (other, p) ↦
              let (head, on) = t.listed j kv p in
              let g = home keys kv.0 m in
              let apart : e ≢ g = λ s.
                not_head (m.meta e) (subst (λ q. is_head (m.meta q) ≡ true) (sym s) head) free in
              (
                ap is_head (store-other e g 0 m.meta apart) ∙ head,
                subst (λ l. In j (g ∷ l)) (sym (store-other e g [] tails apart)) on,
              )
        ];
        vacant = fresh-vacant e k w meta m tails t full others;
        taken = fresh-taken e k w meta m tails t full others (t.homes k);
        few = t.few;
        homes = t.homes;
      }
