-- ===== src/Map/Dense/Rehash.antt =====
-- `DenseMapObj::InsertMaybeReHash` and `CopyFrom`.
use litetvm_ffi.Prelude.{ℕ, zero, suc, ◌+◌, ◌-◌, ◌*◌, ◌==◌, none, some, if◌then◌else◌, ◌/◌}
use litetvm_ffi.Map.Assoc.{KeyApi}
use litetvm_ffi.Map.Outcome.{Outcome, ok, check_failed, out_of_fuel, ◌>>=◌}
use litetvm_ffi.Map.Dense.Links.{k_invalid_index}
use litetvm_ffi.Map.Dense.Node.{Dense, k_empty_slot, k_protected_slot, is_empty, data_at, empty}
use litetvm_ffi.Map.Dense.Table.{set_val, push_back, try_insert}

-- `CalcNumBlocks`
unfoldable pub calc_num_blocks : ℕ → ℕ
calc_num_blocks n_slots = (n_slots + 15) / 16

module _ {K V : Type 0} where
  -- The loop over the iterator list of the old map, which inserts every entry into the new one
  unfoldable pub re_insert :
      (K × V → Dense K V → Outcome (Dense K V))
      → ℕ
      → ℕ
      → Dense K V
      → Dense K V
      → Outcome (Dense K V)
  re_insert insert zero index from p = if index == k_invalid_index then ok p else out_of_fuel
  re_insert insert (suc fuel) index from p =
      if index == k_invalid_index
      then ok p
      else (data_at index from >>= λ kv.
          insert kv p >>= λ q. re_insert insert fuel (from.links.next index) from q)

  -- The slots below a bound are copied, block by block.
  unfoldable pub copy_slots : ℕ → Dense K V → Dense K V → Outcome (Dense K V)
  copy_slots zero from p = ok p
  copy_slots (suc n) from p = copy_slots n from p >>= λ q.
      let meta = from.meta n in
      let marked = record q { meta = λ i. if n == i then meta else q.meta i } in
      if meta == k_protected_slot
      then check_failed
      else if is_empty meta
      then ok marked
      else (data_at n from >>= λ kv. ok (record marked {
        items = λ i. if n == i then some kv else q.items i;
        links = record q.links {
          prev = λ i. if n == i then from.links.prev n else q.links.prev i;
          next = λ i. if n == i then from.links.next n else q.links.next i;
        };
      }))

  -- `CopyFrom`; of the new memory nothing is read before it is written.
  unfoldable pub copy_from : Dense K V → Outcome (Dense K V)
  unfolding copy_slots calc_num_blocks
  copy_from from = copy_slots (calc_num_blocks from.slots * 16) from (record from {
    meta = λ i. k_empty_slot;
    items = λ i. none;
    links = record from.links { prev = λ i. k_invalid_index; next = λ i. k_invalid_index };
  })

module _ {K V : Type 0} (keys : KeyApi K) (null : V) where
  -- `InsertMaybeReHash`; the fuel bounds the number of times that the table is doubled.
  unfoldable pub insert_maybe_re_hash : ℕ → K × V → Dense K V → Outcome (Dense K V)
  unfolding re_insert
  insert_maybe_re_hash zero kv m = out_of_fuel
  insert_maybe_re_hash (suc fuel) kv m = try_insert keys null kv.0 m >>= λ r.
      let (slot, map_node) = r in
      elim slot [
        | some iter ↦ set_val iter kv.1 map_node >>= λ set. ok (push_back iter set)
        | none ↦ empty (map_node.fib_shift - 1) (map_node.slots * 2) >>= λ p.
            re_insert (insert_maybe_re_hash fuel) map_node.slots map_node.links.head map_node p
            >>= λ q. insert_maybe_re_hash fuel kv q
      ]
