-- ===== src/Map/Small.antt =====
-- `SmallMapObj`: up to four entries in an array, in the order of their insertion. The entries are the
-- first `size_` cells of the array; the array has `NumSlots()` cells.
pub mod Finding
pub mod Laws
pub mod Insert
use litetvm_ffi.Prelude.{
  ℕ, zero, suc, ◌+◌, ◌-◌, ◌*◌, List, [], ◌∷◌, ◌++◌, Bool, Option, none, some, length, get_elem?,
  ltb, leb, if◌then◌else◌,
}
use litetvm_ffi.Map.Assoc.{KeyApi}
use litetvm_ffi.Map.Outcome.{Outcome, ok, check_failed, out_of_fuel}

pub record SmallMap (K V : Type 0) : Type 0 where
  pub num_slots : ℕ
  pub entries : List (K × V)

abbrev pub k_init_size : ℕ
k_init_size = 2

abbrev pub k_max_size : ℕ
k_max_size = 4

-- `at`: the value, or a KeyError.
pub data At (V : Type 0) : Type 0 where
  found : V → At V
  key_error : At V

module _ {K V : Type 0} where
  -- `size()`
  abbrev pub size : SmallMap K V → ℕ
  size m = length m.entries

  -- `Empty`
  abbrev pub empty : ℕ → SmallMap K V
  empty n = record { num_slots = n; entries = [] }

  -- `CreateFromRange` of the small layout, which puts the entries down one behind the other.
  unfoldable pub create_from_range : ℕ → List (K × V) → SmallMap K V
  create_from_range n range = record { num_slots = n; entries = range }

  -- `CopyFrom`
  unfoldable pub copy_from : SmallMap K V → SmallMap K V
  unfolding create_from_range
  copy_from m = create_from_range (size m) m.entries

  -- The array with the cell at `index` dropped: `memmove` of what stands behind it.
  unfoldable pub drop_at : ℕ → List (K × V) → List (K × V)
  drop_at i [] = []
  drop_at zero (kv ∷ kvs) = kvs
  drop_at (suc i) (kv ∷ kvs) = kv ∷ drop_at i kvs

  -- `Erase`
  unfoldable pub erase_at : ℕ → SmallMap K V → SmallMap K V
  erase_at i m = if leb (size m) i then m else record m { entries = drop_at i m.entries }

  -- `itr->second = v`
  unfoldable pub set_second : ℕ → V → List (K × V) → List (K × V)
  set_second i v [] = []
  set_second zero v ((k, w) ∷ kvs) = (k, v) ∷ kvs
  set_second (suc i) v (kv ∷ kvs) = kv ∷ set_second i v kvs

  -- `IncItr` and `DecItr`
  unfoldable pub inc_itr : ℕ → SmallMap K V → ℕ
  inc_itr i m = if ltb (i + 1) (size m) then i + 1 else size m

  unfoldable pub dec_itr : ℕ → SmallMap K V → ℕ
  dec_itr i m = if ltb 0 i then i - 1 else size m

-- The number of slots that `InsertMaybeReHash` grows to.
unfoldable pub next_slots : ℕ → ℕ
next_slots n =
    let doubled = if ltb (n * 2) k_init_size then k_init_size else n * 2 in
    if ltb k_max_size doubled then k_max_size else doubled

module _ {K V : Type 0} (keys : KeyApi K) where
  open keys use {any_equal}

  -- The loop of `find`, from the index `i` on.
  unfoldable pub find_from : ℕ → K → List (K × V) → ℕ
  find_from i k [] = i
  find_from i k ((j, w) ∷ kvs) =
      let further = find_from (suc i) k kvs in if any_equal j k then i else further

  -- `find`: the index of the entry, or the size.
  unfoldable pub find : K → SmallMap K V → ℕ
  unfolding find_from
  find k m = find_from 0 k m.entries

  -- `count`
  unfoldable pub count : K → SmallMap K V → ℕ
  count k m = if ltb (find k m) (size m) then 1 else 0

  -- `at`
  unfoldable pub at : K → SmallMap K V → At V
  at k m = elim (get_elem? m.entries (find k m)) [ none ↦ key_error | some kv ↦ found kv.1 ]

  -- `erase` by a key
  unfoldable pub erase : K → SmallMap K V → SmallMap K V
  erase k m = erase_at (find k m) m

  -- `InsertMaybeReHash`, which calls itself once after it has grown the map.
  unfoldable pub insert_maybe_re_hash : ℕ → K → V → SmallMap K V → Outcome (SmallMap K V)
  insert_maybe_re_hash zero k v m = out_of_fuel
  insert_maybe_re_hash (suc fuel) k v m =
      let next = next_slots m.num_slots in
      let grown = insert_maybe_re_hash fuel k v (create_from_range next m.entries) in
      if ltb (find k m) (size m)
      then ok (record m { entries = set_second (find k m) v m.entries })
      else if ltb (size m) m.num_slots
      then ok (record m { entries = m.entries ++ (k, v) ∷ [] })
      else if ltb m.num_slots next
      then grown
      else check_failed
