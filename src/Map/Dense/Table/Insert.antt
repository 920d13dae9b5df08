-- ===== src/Map/Dense/Table/Insert.antt =====
-- `DenseMapObj::InsertMaybeReHash` where it puts the key at its place without moving other keys.
use litetvm_ffi.Prelude.{
  ℕ, suc, ◌+◌, List, [], ◌∷◌, ◌++◌, true, false, some, ◌≡◌, ◌⊎◌, inl, inr, refl, sym, subst, arith,
  ◌==◌, if◌then◌else◌, Bool-cases,
}
use litetvm_ffi.Map.Assoc.{
  KeyApi, Missing, lookup, remove, lookup_absent, remove_absent, lookup-replace,
}
use litetvm_ffi.Map.Outcome.{ok, ◌>>=◌}
use litetvm_ffi.Map.Dense.Links.Parts.{test_ne}
use litetvm_ffi.Map.Dense.Links.{store}
use litetvm_ffi.Map.Dense.Links.Segments.{last_or}
use litetvm_ffi.Map.Dense.Node.{Dense, is_head, is_empty, home, is_full, get_next_empty}
use litetvm_ffi.Map.Dense.Table.Jump.{jump_byte, get_next_empty-NextEmpty}
use litetvm_ffi.Map.Dense.Table.Tail.{tail-IsTable}
use litetvm_ffi.Map.Small.{found}
use litetvm_ffi.Map.Dense.Table.{at, try_insert, unlink}
use litetvm_ffi.Map.Dense.Rehash.{insert_maybe_re_hash}
use litetvm_ffi.Map.Dense.Table.Chains.{IsTable}
use litetvm_ffi.Map.Dense.Table.Entries.{IsMap, search-lookup, lookup-Entries, at-IsMap}
use litetvm_ffi.Map.Dense.Table.Frame.{changed}
use litetvm_ffi.Map.Dense.Table.Finish.{Ready, Ready-IsMap}
use litetvm_ffi.Map.Dense.Table.Present.{unlink-Ready}
use litetvm_ffi.Map.Dense.Table.Fresh.{fresh, fresh-Ready, head-IsTable, not_head}
use litetvm_ffi.Map.Dense.Table.Scanning.{scan-Scanned}

module _ {K V : Type 0} (keys : KeyApi K) (null : V) where
  -- What the insertion of a key leads to: the map with the new entry behind the others
  record Inserted (fuel : ℕ) (k : K) (v : V) (m : Dense K V) (kvs : List (K × V)) : Type 0 where
    map : Dense K V
    tails : ℕ → List ℕ
    order : List ℕ
    returns : insert_maybe_re_hash keys null (suc fuel) (k, v) m ≡ ok map
    holds : IsMap keys map tails order (remove keys k kvs ++ (k, v) ∷ [])

  -- `TryInsert` has a slot for the key.
  Ready-Inserted :
      (fuel : ℕ) (k : K) (v : V) (m n : Dense K V) (tails : ℕ → List ℕ) (order : List ℕ)
      (kvs rest : List (K × V)) (i : ℕ)
      → try_insert keys null k m ≡ ok (some i, n)
      → Ready keys n tails order rest i k
      → rest ≡ remove keys k kvs
      → Inserted fuel k v m kvs
  unfolding insert_maybe_re_hash
  Ready-Inserted fuel k v m n tails order kvs rest i run r same =
      let (last, finish, holds) = Ready-IsMap keys n tails order rest i k v r in
      record {
        map = last;
        tails = tails;
        order = order ++ i ∷ [];
        returns = rw (insert_maybe_re_hash, run) finish;
        holds = subst (λ t. IsMap keys last tails (order ++ i ∷ []) (t ++ (k, v) ∷ [])) same holds;
      }

  some_slots :
      (k : K) (m : Dense K V) (tails : ℕ → List ℕ) → IsTable keys m tails → (m.slots == 0) ≡ false
  some_slots k m tails t = test_ne m.slots 0 (λ e. omega (arith, e, t.homes k))

  -- The first key of its home slot
  insert_at_home :
      (fuel : ℕ) (k : K) (v : V) (m : Dense K V) (tails : ℕ → List ℕ) (order : List ℕ)
      (kvs : List (K × V))
      → IsMap keys m tails order kvs
      → is_empty (m.meta (home keys k m)) ≡ true
      → Missing k kvs
      → Inserted fuel k v m kvs
  unfolding try_insert
  insert_at_home fuel k v m tails order kvs h free new =
      let e = home keys k m in
      let n =
        changed (m.size + 1) (fresh e m.links) (store e 0 m.meta) (store e (some (k, null)) m.items)
          m in
      let none_there = h.table.vacant e free in
      let slots = some_slots k m tails h.table in
      let run : try_insert keys null k m ≡ ok (some e, n) = rw (try_insert, slots, free) refl in
      Ready-Inserted fuel k v m n (store e [] tails) order kvs kvs e run
        (fresh-Ready keys m tails order kvs e k null (store e 0 m.meta) (store e [] tails) h
          none_there (h.table.homes k) new
          (head-IsTable keys (m.size + 1) (fresh e m.links) k null m tails h.table free))
        (sym (remove_absent keys k kvs new))

  home_not_empty :
      (k : K) (m : Dense K V)
      → is_head (m.meta (home keys k m)) ≡ true
      → is_empty (m.meta (home keys k m)) ≡ false
  home_not_empty k m head = elim (Bool-cases (is_empty (m.meta (home keys k m)))) [
    | inl e ↦ absurd (not_head (m.meta (home keys k m)) head e)
    | inr e ↦ e
  ]

  -- A key that the map has
  insert_present :
      (fuel : ℕ) (k : K) (v w : V) (m : Dense K V) (tails : ℕ → List ℕ) (order : List ℕ)
      (kvs : List (K × V))
      → IsMap keys m tails order kvs
      → lookup keys k kvs ≡ some w
      → Inserted fuel k v m kvs
  unfolding try_insert
  insert_present fuel k v w m tails order kvs h there =
      elim (search-lookup keys k m tails order kvs h) [
        | inr gone ↦ absurd (cc (there, lookup_absent keys k kvs gone.1))
        | inl hit ↦
            let head = (h.table.listed hit.0 (k, hit.1) hit.3).0 in
            elim (scan-Scanned keys k m tails h.table head) [
              | inr gone ↦ absurd (gone.1 hit.0 (k, hit.1) hit.3 refl)
              | inl scanned ↦
                  let i = scanned.0 in
                  let ready = unlink-Ready keys m tails order kvs i k scanned.1 h scanned.3 in
                  let slots = some_slots k m tails h.table in
                  let taken = home_not_empty k m head in
                  let run : try_insert keys null k m ≡ ok (some i, unlink i m) =
                    rw (try_insert, slots, taken, head, scanned.2) refl in
                  Ready-Inserted fuel k v m (unlink i m) tails ready.0 kvs (remove keys k kvs) i run
                    ready.1 refl
            ]
      ]

  -- A new key behind the other keys of its home slot
  insert_at_tail :
      (fuel : ℕ) (k : K) (v : V) (m : Dense K V) (tails : ℕ → List ℕ) (order : List ℕ)
      (kvs : List (K × V)) (jump slot : ℕ)
      → IsMap keys m tails order kvs
      → is_head (m.meta (home keys k m)) ≡ true
      → is_full m ≡ false
      → get_next_empty (last_or (home keys k m) (tails (home keys k m))) m ≡ some (jump, slot)
      → Missing k kvs
      → Inserted fuel k v m kvs
  unfolding try_insert
  insert_at_tail fuel k v m tails order kvs jump slot h head room next new =
      let t = h.table in
      let last = last_or (home keys k m) (tails (home keys k m)) in
      let n = get_next_empty-NextEmpty last m jump slot next in
      let free = t.vacant slot n.free in
      let meta =
        store last (jump_byte (store slot 0x80 m.meta last) jump) (store slot 0x80 m.meta) in
      let longer = store (home keys k m) (tails (home keys k m) ++ slot ∷ []) tails in
      let grown =
        changed (m.size + 1) (fresh slot m.links) meta (store slot (some (k, null)) m.items) m in
      elim (scan-Scanned keys k m tails t head) [
        | inl scanned ↦ absurd (
            cc (
              lookup_absent keys k kvs new,
              lookup-Entries keys m.items scanned.0 k scanned.1 order kvs h.entries h.distinct
                  (h.complete scanned.0 (k, scanned.1) scanned.3) scanned.3,
            ))
        | inr gone ↦
            let slots = some_slots k m tails t in
            let taken = home_not_empty k m head in
            let run : try_insert keys null k m ≡ ok (some slot, grown) =
              rw (try_insert, slots, taken, head, gone.0, room, next) refl in
            Ready-Inserted fuel k v m grown longer order kvs kvs slot run
              (fresh-Ready keys m tails order kvs slot k null meta longer h free
                (n.inside (omega (arith, t.homes k))) new
                (tail-IsTable keys (m.size + 1) (fresh slot m.links) k null m tails t slot jump head
                  n))
              (sym (remove_absent keys k kvs new))
      ]

  -- The key can be put at its place: its home slot is empty, or is the head of a list behind which an
  -- empty slot is in reach.
  abbrev pub HasRoom : Dense K V → (ℕ → List ℕ) → K → Type 0
  HasRoom m tails k =
      (is_empty (m.meta (home keys k m)) ≡ true)
      ⊎ ((is_head (m.meta (home keys k m)) ≡ true)
          × (is_full m ≡ false)
          × ((next : ℕ × ℕ) × (get_next_empty (last_or (home keys k m) (tails (home keys k m))) m
                ≡ some next)))

  -- `InsertMaybeReHash` of the dense layout, with a key that the map has or that can be put at its
  -- place, returns a map in which the key's entry is the last one and the other entries stand as before.
  pub insert-IsMap :
      (fuel : ℕ) (k : K) (v : V) (m : Dense K V) (tails : ℕ → List ℕ) (order : List ℕ)
      (kvs : List (K × V))
      → IsMap keys m tails order kvs
      → (Missing k kvs → HasRoom m tails k)
      → (n : Dense K V) × (new_tails : ℕ → List ℕ) × (new_order : List ℕ) × (insert_maybe_re_hash
            keys null
            (suc fuel)
            (k, v)
            m
          ≡ ok n)
        × IsMap keys n new_tails new_order (remove keys k kvs ++ (k, v) ∷ [])
  insert-IsMap fuel k v m tails order kvs h room =
      let result : Inserted fuel k v m kvs = elim (search-lookup keys k m tails order kvs h) [
        | inl hit ↦ insert_present fuel k v hit.1 m tails order kvs h hit.4
        | inr gone ↦ elim (room gone.1) [
          | inl free ↦ insert_at_home fuel k v m tails order kvs h free gone.1
          | inr (head, space, ((jump, slot), next)) ↦
              insert_at_tail fuel k v m tails order kvs jump slot h head space next gone.1
        ]
      ] in
      (result.map, result.tails, result.order, result.returns, result.holds)

  -- After such an insertion `at` gives the new value for the key, and for every other key what it gave
  -- before.
  pub at-insert :
      (fuel : ℕ) (k q : K) (v : V) (m : Dense K V) (tails : ℕ → List ℕ) (order : List ℕ)
      (kvs : List (K × V))
      → IsMap keys m tails order kvs
      → (Missing k kvs → HasRoom m tails k)
      → (insert_maybe_re_hash keys null (suc fuel) (k, v) m >>= at keys q)
        ≡ (if keys.any_equal k q then ok (found v) else at keys q m)
  at-insert fuel k q v m tails order kvs h room =
      let (n, new_tails, new_order, returns, holds) =
        insert-IsMap fuel k v m tails order kvs h room in
      rw
        (
          returns,
          at-IsMap keys q n new_tails new_order (remove keys k kvs ++ (k, v) ∷ []) holds,
          at-IsMap keys q m tails order kvs h,
          lookup-replace keys k q v kvs h.distinct,
        )
        (elim (Bool-cases (keys.any_equal k q)) [ inl e ↦ rw e refl | inr e ↦ rw e refl ])
