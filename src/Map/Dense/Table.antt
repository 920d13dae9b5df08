-- ===== src/Map/Dense/Table.antt =====
-- The operations of `DenseMapObj` on a key. The fuel of every loop along a list of slots is the number
-- of the slots.
pub mod Chains
pub mod Search
pub mod Entries
pub mod Frame
pub mod Finish
pub mod Present
pub mod Fresh
pub mod Scanning
pub mod Jump
pub mod Tail
pub mod Insert
pub mod New
use litetvm_ffi.Prelude.{
  ℕ, zero, suc, ◌+◌, ◌-◌, Bool, true, false, not, Option, none, some, leb, ◌==◌, if◌then◌else◌,
}
use litetvm_ffi.Map.Assoc.{KeyApi}
use litetvm_ffi.Map.Outcome.{Outcome, ok, bad_read, out_of_fuel, ◌>>=◌}
use litetvm_ffi.Map.Small.{At, found, key_error}
use litetvm_ffi.Map.Dense.Links.{
  k_invalid_index, iter_list_unlink, iter_list_push_back, iter_list_replace_node_by,
}
use litetvm_ffi.Map.Dense.Node.{
  Dense, k_empty_slot, k_protected_slot, is_head, is_empty, set_meta, set_jump, new_head, new_tail,
  destruct_data, data_at, has_next, move_to_next, get_next_empty, get_list_head, home, is_full,
  find_prev,
}

-- How the walk along the list of a key ends: at the key, or at the list's last slot.
pub data Scan : Type 0 where
  same_key : ℕ → Scan
  at_tail : ℕ → Scan

module _ {K V : Type 0} where
  -- `IterListUnlink`, `IterListPushBack` and `IterListReplaceNodeBy` of the map
  abbrev pub unlink : ℕ → Dense K V → Dense K V
  unlink node m = record m { links = iter_list_unlink node m.links }

  abbrev pub push_back : ℕ → Dense K V → Dense K V
  push_back node m = record m { links = iter_list_push_back node m.links }

  abbrev pub replace_node_by : ℕ → ℕ → Dense K V → Dense K V
  replace_node_by src dst m = record m { links = iter_list_replace_node_by src dst m.links }

  -- `iter.Val() = v`
  abbrev pub set_val : ℕ → V → Dense K V → Outcome (Dense K V)
  set_val node v m = data_at node m >>= λ kv.
      ok (record m { items = λ i. if node == i then some (kv.0, v) else m.items i })

module _ {K V : Type 0} (keys : KeyApi K) where
  open keys use {any_equal, any_hash}

  -- The loop of `Search`
  unfoldable pub search_loop : ℕ → K → Option ℕ → Dense K V → Outcome (Option ℕ)
  search_loop fuel k none m = ok none
  search_loop zero k (some node) m = out_of_fuel
  search_loop (suc fuel) k (some node) m = data_at node m >>= λ kv.
      if any_equal k kv.0
      then ok (some node)
      else move_to_next node (m.meta node) m >>= λ next. search_loop fuel k next m

  -- `Search`
  unfoldable pub search : K → Dense K V → Outcome (Option ℕ)
  unfolding search_loop
  search k m =
      if m.size == 0 then ok none else search_loop m.slots k (get_list_head (any_hash k) m) m

  -- `count`
  unfoldable pub count : K → Dense K V → Outcome ℕ
  count k m = search k m >>= λ r. elim r [ none ↦ ok 0 | some node ↦ ok 1 ]

  -- `At`
  unfoldable pub at : K → Dense K V → Outcome (At V)
  at k m = search k m >>= λ r. elim r [
    | none ↦ ok key_error
    | some node ↦ data_at node m >>= λ kv. ok (found kv.1)
  ]

  -- The do-while loop of `TryInsert` along the list of the key
  unfoldable pub scan : ℕ → K → ℕ → Dense K V → Outcome Scan
  scan zero k next m = out_of_fuel
  scan (suc fuel) k next m = data_at next m >>= λ kv.
      if any_equal k kv.0
      then ok (same_key next)
      else move_to_next next (m.meta next) m >>= λ n. elim n [
        | none ↦ ok (at_tail next)
        | some n' ↦ scan fuel k n' m
      ]

  -- The do-while loop of `TrySpareListHead`: it moves the list from `r` on behind `w`, and gives up
  -- where there is no empty slot.
  unfoldable pub spare_loop : ℕ → Bool → ℕ → ℕ → Dense K V → Outcome (Bool × Dense K V)
  spare_loop zero is_first r w m = out_of_fuel
  spare_loop (suc fuel) is_first r w m = elim (get_next_empty w m) [
    | none ↦ ok (false, m)
    | some (jump, empty) ↦ data_at r m >>= λ kv.
        let moved = destruct_data r (replace_node_by r empty (new_tail empty kv m)) in
        let r_meta = moved.meta r in
        let cleared = set_meta r (if is_first then k_protected_slot else k_empty_slot) moved in
        let linked = set_jump w jump cleared in
        move_to_next r r_meta linked >>= λ next. elim next [
          | none ↦ ok (true, linked)
          | some r' ↦ spare_loop fuel false r' empty linked
        ]
  ]

  -- `TrySpareListHead`; the item's value is `Any(nullptr)`.
  unfoldable pub try_spare_list_head : V → ℕ → K → Dense K V → Outcome (Option ℕ × Dense K V)
  try_spare_list_head null target k m = do
    w ← find_prev keys target m
    (spared, m') ← spare_loop m.slots true target w m
    if spared
        then (let filled = new_head target (k, null) m' in
            ok (some target, record filled { size = m'.size + 1 }))
        else ok (none, m')

  -- `TryInsert`: the slot of the key, which is not on the iterator list, or none. A false result may
  -- leave a changed map.
  unfoldable pub try_insert : V → K → Dense K V → Outcome (Option ℕ × Dense K V)
  try_insert null k m =
      let iter = home keys k m in
      if m.slots == 0
      then ok (none, m)
      else if is_empty (m.meta iter)
      then ok (some iter, record (new_head iter (k, null) m) { size = m.size + 1 })
      else if not (is_head (m.meta iter))
      then (if is_full m then ok (none, m) else try_spare_list_head null iter k m)
      else scan m.slots k iter m >>= λ s. elim s [
        | same_key next ↦ ok (some next, unlink next m)
        | at_tail iter' ↦ if is_full m then ok (none, m) else elim (get_next_empty iter' m) [
          | none ↦ ok (none, m)
          | some (jump, result) ↦ ok (
            some result,
            record (set_jump iter' jump (new_tail result (k, null) m)) { size = m.size + 1 },
          )
        ]
      ]

  -- The loop of `Erase` to the end of the list: the last slot and the one before it
  unfoldable pub last_loop : ℕ → ℕ → ℕ → Dense K V → Outcome (ℕ × ℕ)
  last_loop zero prev last m = out_of_fuel
  last_loop (suc fuel) prev last m = has_next last m >>= λ more.
      if more
      then (move_to_next last (m.meta last) m >>= λ n. elim n [
        | none ↦ bad_read
        | some next ↦ last_loop fuel last next m
      ])
      else ok (prev, last)

  -- `Erase`
  unfoldable pub erase_node : ℕ → Dense K V → Outcome (Dense K V)
  erase_node iter m0 =
      let m = record m0 { size = m0.size - 1 } in
      has_next iter m >>= λ more.
      if not more
      then ((if is_head (m.meta iter)
            then ok m
            else (find_prev keys iter m >>= λ p. ok (set_jump p 0 m)))
          >>= λ cut. ok (set_meta iter k_empty_slot (destruct_data iter (unlink iter cut))))
      else move_to_next iter (m.meta iter) m >>= λ n. elim n [
        | none ↦ bad_read
        | some next ↦ last_loop m.slots iter next m >>= λ ends.
            let (prev, last) = ends in
            data_at last m >>= λ kv.
            let freed = unlink iter m in
            let moved = record freed {
              items = λ i. if iter == i then some kv else freed.items i;
            } in
            let replaced = destruct_data last (replace_node_by last iter moved) in
            ok (set_jump prev 0 (set_meta last k_empty_slot replaced))
      ]

  -- `erase` at an iterator
  unfoldable pub erase_at : ℕ → Dense K V → Outcome (Dense K V)
  erase_at index m = if leb index m.slots then erase_node index m else ok m

  -- `find` of the dense layout: the index of the iterator
  unfoldable pub find : K → Dense K V → Outcome ℕ
  find k m = search k m >>= λ r. elim r [ none ↦ ok k_invalid_index | some node ↦ ok node ]

  -- `erase` by a key, as `erase(find(key))`
  unfoldable pub erase : K → Dense K V → Outcome (Dense K V)
  erase k m = find k m >>= λ index. erase_at index m
