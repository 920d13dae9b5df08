-- ===== src/Map/Dense/Node.antt =====
-- The state of `DenseMapObj`, and `ListNode`: a slot of the table, by its index. The bytes of the
-- metadata and the items are functions of the index; a slot holds a key and a value, or nothing.
use litetvm_ffi.Prelude.{
  ℕ, zero, suc, ◌+◌, ◌*◌, ◌%◌, ◌^◌, bit_and, bit_or, List, [], ◌∷◌, Bool, not, Option, none, some,
  drop, ltb, ◌==◌, if◌then◌else◌,
}
use litetvm_ffi.Map.Assoc.{KeyApi}
use litetvm_ffi.Map.Outcome.{Outcome, ok, check_failed, bad_read, out_of_fuel, ◌>>=◌}
use litetvm_ffi.Map.Dense.Links.{Links, k_invalid_index, store}
use litetvm_ffi.Map.Dense.Probe.{k_next_probe_location, next_probe_location, fib_hash}

pub record Dense (K V : Type 0) : Type 0 where
  pub size : ℕ
  pub slots : ℕ
  pub fib_shift : ℕ
  pub links : Links
  pub meta : ℕ → ℕ
  pub items : ℕ → Option (K × V)

abbrev pub k_empty_slot : ℕ
k_empty_slot = 0xff

abbrev pub k_protected_slot : ℕ
k_protected_slot = 0xfe

-- `IsHead` and `IsEmpty`, of a byte of the metadata
abbrev pub is_head : ℕ → Bool
is_head meta = bit_and meta 0x80 == 0

abbrev pub is_empty : ℕ → Bool
is_empty meta = meta == k_empty_slot

-- A node that may be none; a node that is none has the index 0.
abbrev pub index_of : Option ℕ → ℕ
index_of none = 0
index_of (some node) = node

module _ {K V : Type 0} where
  -- A byte of the metadata is written: `SetEmpty`, `SetProtected`.
  abbrev pub set_meta : ℕ → ℕ → Dense K V → Dense K V
  set_meta node byte m = record m { meta = store node byte m.meta }

  -- `SetJump`
  abbrev pub set_jump : ℕ → ℕ → Dense K V → Dense K V
  set_jump node jump m = set_meta node (bit_or (bit_and (m.meta node) 0x80) jump) m

  -- A new item in the slot: its links are not set.
  abbrev pub new_item : ℕ → K × V → Dense K V → Dense K V
  new_item node kv m = record m {
    items = store node (some kv) m.items;
    links = record m.links {
      prev = store node k_invalid_index m.links.prev;
      next = store node k_invalid_index m.links.next;
    };
  }

  -- `NewHead` and `NewTail`
  abbrev pub new_head : ℕ → K × V → Dense K V → Dense K V
  new_head node kv m = new_item node kv (set_meta node 0x00 m)

  abbrev pub new_tail : ℕ → K × V → Dense K V → Dense K V
  new_tail node kv m = new_item node kv (set_meta node 0x80 m)

  -- `DestructData`
  abbrev pub destruct_data : ℕ → Dense K V → Dense K V
  destruct_data node m = record m { items = store node none m.items }

  -- `Data`
  unfoldable pub data_at : ℕ → Dense K V → Outcome (K × V)
  data_at node m = elim (m.items node) [ none ↦ bad_read | some kv ↦ ok kv ]

  -- `HasNext`
  unfoldable pub has_next : ℕ → Dense K V → Outcome Bool
  has_next node m = do
    offset ← next_probe_location (bit_and (m.meta node) 0x7f)
    ok (not (offset == 0))

  -- The slot at a distance
  unfoldable pub hop : ℕ → ℕ → Dense K V → ℕ
  hop node offset m = (node + offset) % 2 ^ 64 % m.slots

  -- `MoveToNext` with the metadata of the node
  unfoldable pub move_to_next : ℕ → ℕ → Dense K V → Outcome (Option ℕ)
  unfolding hop
  move_to_next node meta m = do
    offset ← next_probe_location (bit_and meta 0x7f)
    ok (if offset == 0 then none else some (hop node offset m))

  -- The loop of `GetNextEmpty`, over the distances from the index `idx` on: the jump and the slot
  unfoldable pub first_empty : List ℕ → ℕ → ℕ → Dense K V → Option (ℕ × ℕ)
  first_empty [] idx node m = none
  first_empty (offset ∷ offsets) idx node m =
      let further = first_empty offsets (suc idx) node m in
      if is_empty (m.meta (hop node offset m)) then some (idx, hop node offset m) else further

  -- `GetNextEmpty`
  unfoldable pub get_next_empty : ℕ → Dense K V → Option (ℕ × ℕ)
  unfolding first_empty
  get_next_empty node m = first_empty (drop 1 k_next_probe_location) 1 node m

  -- `IndexFromHash`
  abbrev pub index_from_hash : ℕ → Dense K V → ℕ
  index_from_hash hash_value m = fib_hash hash_value m.fib_shift

  -- `GetListHead`
  unfoldable pub get_list_head : ℕ → Dense K V → Option ℕ
  get_list_head hash_value m =
      let node = index_from_hash hash_value m in if is_head (m.meta node) then some node else none

  -- `IsFull`. The double 0.99 is 4458563631096791 / 2 ^ 52, and its product with a power of two is
  -- exact.
  unfoldable pub is_full : Dense K V → Bool
  is_full m = ltb (m.slots * 4458563631096791) ((m.size + 1) * 2 ^ 52)

  -- `Empty`
  unfoldable pub empty : ℕ → ℕ → Outcome (Dense K V)
  empty fib_shift n_slots =
      if not (ltb 4 n_slots)
      then check_failed
      else if not (bit_and n_slots (2 ^ 63) == 0)
      then check_failed
      else ok (record {
        size = 0;
        slots = n_slots;
        fib_shift = fib_shift;
        links = record {
          head = k_invalid_index;
          tail = k_invalid_index;
          prev = λ i. k_invalid_index;
          next = λ i. k_invalid_index;
        };
        meta = λ i. k_empty_slot;
        items = λ i. none;
      })

module _ {K V : Type 0} (keys : KeyApi K) where
  open keys use {any_hash}

  -- The home slot of a key
  abbrev pub home : K → Dense K V → ℕ
  home k m = index_from_hash (any_hash k) m

  -- One round of the loop of `FindPrev`, before it goes on with the new `prev` and `next`
  abbrev pub find_prev_further :
      (ℕ → Option ℕ → Dense K V → Outcome ℕ) → Option ℕ → Dense K V → Outcome ℕ
  find_prev_further go_on none m = bad_read
  find_prev_further go_on (some n) m = move_to_next n (m.meta n) m >>= λ next. go_on n next m

  -- The loop of `FindPrev`
  unfoldable pub find_prev_loop : ℕ → ℕ → ℕ → Option ℕ → Dense K V → Outcome ℕ
  find_prev_loop zero node prev next m = out_of_fuel
  find_prev_loop (suc fuel) node prev next m =
      if node == index_of next then ok prev else find_prev_further (find_prev_loop fuel node) next m

  -- `FindPrev`
  unfoldable pub find_prev : ℕ → Dense K V → Outcome ℕ
  find_prev node m = do
    kv ← data_at node m
    let head = home kv.0 m
    next ← move_to_next head (m.meta head) m
    find_prev_loop m.slots node head next m
