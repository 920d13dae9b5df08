-- ===== src/Map/Dense/Table/Tail.antt =====
-- A new key behind the other keys of its home slot.
use mathlib.Core.Option.{some-injective}
use litetvm_ffi.Prelude.{
  ℕ, ◌<◌, List, [], ◌∷◌, ◌++◌, true, false, none, some, ◌≡◌, ◌≢◌, inl, inr, refl, sym, ap, ◌∙◌,
  subst, arith, All, All-append, Bool-cases,
}
use litetvm_ffi.Map.Assoc.{KeyApi}
use litetvm_ffi.Map.Outcome.{ok}
use litetvm_ffi.Map.Dense.Links.{Links, store}
use litetvm_ffi.Map.Dense.Links.Segments.{
  Absent, Unique, Unique-append, Apart-sym, All-last, last_or, store_cases, store_read, store-same,
  store-other,
}
use litetvm_ffi.Map.Dense.Node.{Dense, is_head, is_empty, move_to_next, home, hop}
use litetvm_ffi.Map.Dense.Probe.{next_probe_location}
use litetvm_ffi.Map.Dense.Table.Chains.{In, IsTable, IsList, Chain, Belongs}
use litetvm_ffi.Map.Dense.Table.Frame.{changed, KeepsKey, IsList-changed, Belongs-changed}
use litetvm_ffi.Map.Dense.Table.Fresh.{same_or_other, not_head, kept, fresh-vacant, fresh-taken}
use litetvm_ffi.Map.Dense.Table.Finish.{In-append, In-last}
use litetvm_ffi.Map.Dense.Table.Jump.{jump_byte, is_head-jump_byte, is_empty-jump_byte, NextEmpty}

module _ {K V : Type 0} (keys : KeyApi K) (size : ℕ) (links : Links) (k : K) (w : V) (m : Dense K V)
    (tails : ℕ → List ℕ) (t : IsTable keys m tails) (e jump : ℕ) where
  -- The slot that the key comes behind, and the metadata that `TryInsert` leaves
  abbrev behind : ℕ
  behind = last_or (home keys k m) (tails (home keys k m))

  abbrev linked : ℕ → ℕ
  linked = store behind (jump_byte (store e 0x80 m.meta behind) jump) (store e 0x80 m.meta)

  -- The list of the home slot, longer by the new slot, and the new map
  abbrev longer : ℕ → List ℕ
  longer = store (home keys k m) (tails (home keys k m) ++ e ∷ []) tails

  abbrev extended : Dense K V
  extended = changed size links linked (store e (some (k, w)) m.items) m

  linked-behind : linked behind ≡ jump_byte (store e 0x80 m.meta behind) jump
  linked-behind =
      store-same behind (jump_byte (store e 0x80 m.meta behind) jump) (store e 0x80 m.meta)

  linked_new : e ≢ behind → linked e ≡ 0x80
  linked_new apart =
      store-other behind e (jump_byte (store e 0x80 m.meta behind) jump) (store e 0x80 m.meta)
        (λ s. apart (sym s))
      ∙ store-same e 0x80 m.meta

  linked_other : (i : ℕ) → behind ≢ i → e ≢ i → linked i ≡ m.meta i
  linked_other i b a =
      store-other behind i (jump_byte (store e 0x80 m.meta behind) jump) (store e 0x80 m.meta) b
      ∙ store-other e i 0x80 m.meta a

  Chain-extend :
      (i : ℕ) (is : List ℕ)
      → Unique (i ∷ is)
      → Absent e (i ∷ is)
      → last_or i is ≡ behind
      → NextEmpty behind m jump e
      → Chain m i is
      → Chain extended i (is ++ e ∷ [])
  unfolding move_to_next hop next_probe_location
  Chain-extend i [] u a same next c = (
    subst (λ q. move_to_next q (linked q) extended ≡ ok (some e)) (sym same)
        (ap (λ b. move_to_next behind b extended) linked-behind
          ∙ next.leads (store e 0x80 m.meta behind)),
    ap (λ b. move_to_next e b extended) (linked_new (λ s. a.0 (s ∙ sym same))),
  )
  Chain-extend i (j ∷ js) u a same next c =
      let apart : behind ≢ i = λ s. All-last (λ q. i ≢ q) j js u.0 (sym s ∙ sym same) in
      (
        ap (λ b. move_to_next i b extended) (linked_other i apart a.0) ∙ c.0,
        Chain-extend j js u.1 a.1 same next c.1,
      )

  module _ (head : is_head (m.meta (home keys k m)) ≡ true) (next : NextEmpty behind m jump e) where
    list : IsList keys m (home keys k m) (tails (home keys k m))
    list = t.lists (home keys k m) head

    free : m.items e ≡ none
    free = t.vacant e next.free

    last_Belongs : Belongs keys m (home keys k m) behind
    last_Belongs =
        All-last (Belongs keys m (home keys k m)) (home keys k m) (tails (home keys k m)) list.nodes

    not_free : (h i : ℕ) → Belongs keys m h i → e ≢ i
    not_free h i b s = absurd (cc (ap m.items s, free, b.1))

    apart : e ≢ behind
    apart = not_free (home keys k m) behind last_Belongs

    taken_behind : is_empty (m.meta behind) ≡ false
    taken_behind = elim (Bool-cases (is_empty (m.meta behind))) [
      | inl none_there ↦ absurd (cc (t.vacant behind none_there, last_Belongs.1))
      | inr taken ↦ taken
    ]

    -- A slot but the new one is a head, or is empty, when it was before.
    is_head_kept : (i : ℕ) → e ≢ i → is_head (linked i) ≡ is_head (m.meta i)
    is_head_kept i a = elim (same_or_other behind i) [
      | inl s ↦
          subst (λ q. is_head (linked q) ≡ is_head (m.meta q)) s
            (ap is_head linked-behind
              ∙ is_head-jump_byte (store e 0x80 m.meta behind) jump next.small
              ∙ ap is_head (store-other e behind 0x80 m.meta apart))
      | inr o ↦ ap is_head (linked_other i o a)
    ]

    is_empty_kept : (i : ℕ) → e ≢ i → is_empty (linked i) ≡ is_empty (m.meta i)
    is_empty_kept i a = elim (same_or_other behind i) [
      | inl s ↦
          subst (λ q. is_empty (linked q) ≡ is_empty (m.meta q)) s
            (ap is_empty linked-behind
              ∙ is_empty-jump_byte (store e 0x80 m.meta behind) jump next.small
              ∙ sym taken_behind)
      | inr o ↦ ap is_empty (linked_other i o a)
    ]

    absent : (h : ℕ) (is : List ℕ) → All (Belongs keys m h) is → Absent e is
    absent h [] b = tt
    absent h (i ∷ is) b = (not_free h i b.0, absent h is b.1)

    bodies_kept :
        (is : List ℕ)
        → Absent e is
        → All (λ i. is_head (m.meta i) ≡ false) is
        → All (λ i. is_head (linked i) ≡ false) is
    bodies_kept [] a b = tt
    bodies_kept (i ∷ is) a b = (is_head_kept i a.0 ∙ b.0, bodies_kept is a.1 b.1)

    keys_kept :
        (h : ℕ) (is : List ℕ)
        → All (Belongs keys m h) is
        → All (KeepsKey m.items (store e (some (k, w)) m.items)) is
    keys_kept h is b = (kept keys e h k w 0x80 m is free b).1

    inside : e < m.slots
    inside = next.inside (omega (arith, t.homes k))

    -- The list of the home slot with the new slot at its end
    longer-IsList : IsList keys extended (home keys k m) (tails (home keys k m) ++ e ∷ [])
    longer-IsList =
        let h = home keys k m in
        let a = absent h (h ∷ tails h) list.nodes in
        record {
          chain = Chain-extend h (tails h) list.unique a refl next list.chain;
          nodes =
              All-append (Belongs keys extended h) (h ∷ tails h) (e ∷ [])
                (Belongs-changed keys size links linked (store e (some (k, w)) m.items) m h
                  (h ∷ tails h) (keys_kept h (h ∷ tails h) list.nodes) list.nodes)
                (((k, w), store-same e (some (k, w)) m.items, refl, inside), tt);
          unique =
              Unique-append (h ∷ tails h) (e ∷ []) list.unique (tt, tt)
                (Apart-sym (e ∷ []) (h ∷ tails h) (a, tt));
          bodies =
              All-append (λ i. is_head (linked i) ≡ false) (tails h) (e ∷ [])
                (bodies_kept (tails h) a.1 list.bodies) (ap is_head (linked_new apart), tt);
        }

    -- The slots of the other lists keep their metadata.
    others_kept :
        (h : ℕ) (is : List ℕ)
        → home keys k m ≢ h
        → All (Belongs keys m h) is
        → All (λ i. linked i ≡ m.meta i) is
    others_kept h [] o b = tt
    others_kept h (i ∷ is) o b =
        let (kv, here, at_home, within) = b.0 in
        let (lkv, last_here, last_home, last_within) = last_Belongs in
        let elsewhere : behind ≢ i = λ s.
          let same = some-injective lkv kv (sym last_here ∙ ap m.items s ∙ here) in
          o (sym last_home ∙ ap (λ p. home keys p.0 m) same ∙ at_home) in
        (linked_other i elsewhere (not_free h i b.0), others_kept h is o b.1)

    not_a_head : (g : ℕ) → is_head (m.meta g) ≡ true → e ≢ g
    not_a_head g h s =
        not_head (m.meta e) (subst (λ q. is_head (m.meta q) ≡ true) (sym s) h) next.free

    -- `TryInsert` behind the keys of a home slot leaves a table.
    pub tail-IsTable : IsTable keys extended longer
    tail-IsTable = record {
      lists = λ h head'.
          let a : e ≢ h = λ s. absurd (
            cc (
              subst (λ q. is_head (linked q) ≡ true) (sym s) head',
              ap is_head (linked_new apart),
            )) in
          elim (same_or_other (home keys k m) h) [
            | inl s ↦
                subst (λ q. IsList keys extended q (longer q)) s
                  (subst (λ l. IsList keys extended (home keys k m) l)
                    (sym (store-same (home keys k m) (tails (home keys k m) ++ e ∷ []) tails))
                    longer-IsList)
            | inr o ↦
                let l = t.lists h (sym (is_head_kept h a) ∙ head') in
                subst (λ l. IsList keys extended h l)
                  (sym (store-other (home keys k m) h (tails (home keys k m) ++ e ∷ []) tails o))
                  (IsList-changed keys size links linked (store e (some (k, w)) m.items) m h
                    (tails h) (others_kept h (h ∷ tails h) o l.nodes)
                    (keys_kept h (h ∷ tails h) l.nodes) l)
          ];
      listed = λ j kv there. elim (store_read e j (some (k, w)) (some kv) m.items there) [
        | inl (same, p) ↦
            subst
              (λ q.
                (is_head (linked (home keys q m)) ≡ true)
                × In j (home keys q m ∷ longer (home keys q m)))
              (ap (λ p. p.0) (some-injective (k, w) kv p))
              (
                is_head_kept (home keys k m) (not_a_head (home keys k m) head) ∙ head,
                inr (
                    subst (In j)
                      (sym (store-same (home keys k m) (tails (home keys k m) ++ e ∷ []) tails))
                      (In-last j e (tails (home keys k m)) (sym same))),
              )
        | inr (other, p) ↦
            let (head', on) = t.listed j kv p in
            let g = home keys kv.0 m in
            (
              is_head_kept g (not_a_head g head') ∙ head',
              store_cases (λ l. In j (g ∷ l)) (home keys k m) g (tails (home keys k m) ++ e ∷ [])
                  tails
                  (λ s.
                    subst (λ q. In j (q ∷ (tails (home keys k m) ++ e ∷ []))) s
                      (In-append j (home keys k m ∷ tails (home keys k m)) (e ∷ [])
                        (subst (λ q. In j (q ∷ tails q)) (sym s) on)))
                  (λ o. on),
            )
      ];
      vacant =
          fresh-vacant keys e k w linked m tails t (ap is_empty (linked_new apart)) is_empty_kept;
      taken =
          fresh-taken keys e k w linked m tails t (ap is_empty (linked_new apart)) is_empty_kept
            inside;
      few = t.few;
      homes = t.homes;
    }
