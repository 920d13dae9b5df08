-- ===== src/Map/Handle.antt =====
-- `Map`, the handle on a map object: handles share an object until one of them writes. The heap has the
-- objects with their reference counts; `data_` is an address, or null.
pub mod Isolation
use litetvm_ffi.Prelude.{
  ℕ, zero, suc, ◌+◌, ◌-◌, List, [], ◌∷◌, Option, none, some, ◌==◌, if◌then◌else◌,
}
use litetvm_ffi.Map.Assoc.{KeyApi}
use litetvm_ffi.Map.Outcome.{Outcome, ok, bad_read, ◌>>=◌}
use litetvm_ffi.Map.Dense.Links.{store}
use litetvm_ffi.Map.Object.{MapObj, empty, copy_from, insert_maybe_re_hash, erase}
use litetvm_ffi.Map.Object

pub record Heap (K V : Type 0) : Type 0 where
  -- the address of the next new object
  pub next : ℕ
  pub counts : ℕ → ℕ
  pub objects : ℕ → Option (MapObj K V)

module _ {K V : Type 0} where
  -- A reference is given up; the last one takes the object with it.
  unfoldable pub release : Option ℕ → Heap K V → Heap K V
  release none h = h
  release (some a) h =
      if h.counts a == 1
      then record h { counts = store a 0 h.counts; objects = store a none h.objects }
      else record h { counts = store a (h.counts a - 1) h.counts }

  -- A new object with one reference
  abbrev pub allocate : MapObj K V → Heap K V → Heap K V
  allocate m h = record h {
    next = h.next + 1;
    counts = store h.next 1 h.counts;
    objects = store h.next (some m) h.objects;
  }

  -- `data_ = ...` with a new object: its address, and the heap
  unfoldable pub assign : Option ℕ → MapObj K V → Heap K V → ℕ × Heap K V
  unfolding release
  assign handle m h = (h.next, release handle (allocate m h))

  -- `GetMapObj()`
  unfoldable pub object_at : ℕ → Heap K V → Outcome (MapObj K V)
  object_at a h = elim (h.objects a) [ none ↦ bad_read | some m ↦ ok m ]

  -- `CopyOnWrite`
  unfoldable pub copy_on_write : Option ℕ → Heap K V → Outcome (ℕ × Heap K V)
  unfolding assign object_at
  copy_on_write none h = ok (assign none empty h)
  copy_on_write (some a) h =
      if h.counts a == 1
      then ok (a, h)
      else (object_at a h >>= copy_from >>= λ p. ok (assign (some a) p h))

  -- `clear`
  unfoldable pub clear : Option ℕ → Heap K V → Option ℕ × Heap K V
  unfolding assign
  clear none h = (none, h)
  clear (some a) h = let (b, heap) = assign (some a) empty h in (some b, heap)

  -- `size`
  unfoldable pub size : Option ℕ → Heap K V → Outcome ℕ
  unfolding object_at
  size none h = ok 0
  size (some a) h = object_at a h >>= λ m. ok (Object.size m)

module _ {K V : Type 0} (keys : KeyApi K) (null : V) where
  -- `Set`. A new object that the insertion makes takes the old one's address, which no other handle has.
  unfoldable pub set : ℕ → K → V → Option ℕ → Heap K V → Outcome (ℕ × Heap K V)
  unfolding copy_on_write object_at
  set fuel k v handle h = copy_on_write handle h >>= λ r.
      object_at r.0 r.1 >>= insert_maybe_re_hash keys null fuel k v >>= λ n.
      ok (r.0, record r.1 { objects = store r.0 (some n) r.1.objects })

  -- `Merge`: the loop over the entries of the right map
  unfoldable pub merge : ℕ → List (K × V) → Option ℕ → Heap K V → Outcome (Option ℕ × Heap K V)
  unfolding set
  merge fuel [] handle h = ok (handle, h)
  merge fuel ((k, v) ∷ entries) handle h =
      set fuel k v handle h >>= λ r. merge fuel entries (some r.0) r.1

module _ {K V : Type 0} (keys : KeyApi K) where
  -- `count`
  unfoldable pub count : K → Option ℕ → Heap K V → Outcome ℕ
  unfolding object_at
  count k none h = ok 0
  count k (some a) h = object_at a h >>= Object.count keys k

  -- `erase`
  unfoldable pub erase_key : K → Option ℕ → Heap K V → Outcome (ℕ × Heap K V)
  unfolding copy_on_write object_at
  erase_key k handle h = copy_on_write handle h >>= λ r. object_at r.0 r.1 >>= erase keys k >>= λ n.
      ok (r.0, record r.1 { objects = store r.0 (some n) r.1.objects })
