-- ===== src/Map/Object.antt =====
-- `MapObj`, which is a small map or a dense one, and `Map`, the handle on it that copies on write.
use litetvm_ffi.Prelude.{ℕ, List, [], ◌∷◌, length, ltb, ◌==◌, if◌then◌else◌}
use litetvm_ffi.Map.Assoc.{KeyApi}
use litetvm_ffi.Map.Outcome.{Outcome, ok, bad_read, ◌>>=◌}
use litetvm_ffi.Map.Small.{SmallMap, At, k_max_size}
use litetvm_ffi.Map.Small
use litetvm_ffi.Map.Dense.Node.{Dense}
use litetvm_ffi.Map.Dense.Node
use litetvm_ffi.Map.Dense.Probe.{calc_table_size}
use litetvm_ffi.Map.Dense.Table
use litetvm_ffi.Map.Dense.Rehash

-- `IsSmallMap()` tells the two layouts apart by a bit of `slots_`.
pub data MapObj (K V : Type 0) : Type 0 where
  small : SmallMap K V → MapObj K V
  dense : Dense K V → MapObj K V

module _ {K V : Type 0} where
  -- `Empty`
  abbrev pub empty : MapObj K V
  empty = small (Small.empty Small.k_init_size)

  -- `size()`
  abbrev pub size : MapObj K V → ℕ
  size (small m) = Small.size m
  size (dense m) = m.size

  -- `CopyFrom`
  unfoldable pub copy_from : MapObj K V → Outcome (MapObj K V)
  copy_from (small m) = ok (small (Small.copy_from m))
  copy_from (dense m) = Rehash.copy_from m >>= λ p. ok (dense p)

module _ {K V : Type 0} (keys : KeyApi K) (null : V) where
  -- The loops of `CreateFromRange`
  unfoldable pub insert_small : ℕ → List (K × V) → SmallMap K V → Outcome (SmallMap K V)
  insert_small fuel [] m = ok m
  insert_small fuel ((k, v) ∷ range) m =
      Small.insert_maybe_re_hash keys fuel k v m >>= λ n. insert_small fuel range n

  unfoldable pub insert_dense : ℕ → List (K × V) → Dense K V → Outcome (Dense K V)
  insert_dense fuel [] m = ok m
  insert_dense fuel (kv ∷ range) m =
      Rehash.insert_maybe_re_hash keys null fuel kv m >>= λ n. insert_dense fuel range n

  -- `CreateFromRange`
  unfoldable pub create_from_range : ℕ → List (K × V) → Outcome (MapObj K V)
  unfolding insert_small insert_dense
  create_from_range fuel range =
      let cap = length range in
      if ltb cap k_max_size
      then (if ltb cap 2
          then ok (small (Small.create_from_range cap range))
          else (insert_small fuel range (Small.empty cap) >>= λ m. ok (small m)))
      else (calc_table_size cap >>= λ shape.
          Node.empty shape.0 shape.1 >>= λ p. insert_dense fuel range p >>= λ m. ok (dense m))

  -- `DenseMapObj::InsertMaybeReHash` on a map that was made from four entries; on a small map the
  -- cast would be wrong.
  abbrev pub insert_into_dense : ℕ → K → V → MapObj K V → Outcome (MapObj K V)
  insert_into_dense fuel k v (small m) = bad_read
  insert_into_dense fuel k v (dense m) =
      Rehash.insert_maybe_re_hash keys null fuel (k, v) m >>= λ n. ok (dense n)

  -- `InsertMaybeReHash`. A small map has at most four slots.
  unfoldable pub insert_maybe_re_hash : ℕ → K → V → MapObj K V → Outcome (MapObj K V)
  insert_maybe_re_hash fuel k v (dense m) = insert_into_dense fuel k v (dense m)
  insert_maybe_re_hash fuel k v (small m) =
      let in_place = Small.insert_maybe_re_hash keys fuel k v m >>= λ n. ok (small n) in
      if ltb m.num_slots k_max_size
      then in_place
      else if m.num_slots == k_max_size
      then (if ltb (Small.size m) m.num_slots
          then in_place
          else (create_from_range fuel m.entries >>= λ new_map. insert_into_dense fuel k v new_map))
      else ok (small m)

module _ {K V : Type 0} (keys : KeyApi K) where
  -- `count` and `at`
  abbrev pub count : K → MapObj K V → Outcome ℕ
  count k (small m) = ok (Small.count keys k m)
  count k (dense m) = Table.count keys k m

  abbrev pub at : K → MapObj K V → Outcome (At V)
  at k (small m) = ok (Small.at keys k m)
  at k (dense m) = Table.at keys k m

  -- `erase` by a key
  abbrev pub erase : K → MapObj K V → Outcome (MapObj K V)
  erase k (small m) = ok (small (Small.erase keys k m))
  erase k (dense m) = Table.erase keys k m >>= λ n. ok (dense n)
