-- ===== src/Map/Handle/Isolation.antt =====
-- A write through one handle is not seen through another one.
use litetvm_ffi.Prelude.{
  ℕ, ◌-◌, ◌<◌, Option, none, some, false, ◌≡◌, ◌≢◌, refl, ap, ◌∙◌, subst, arith, ◌==◌, ==_iff,
  if◌then◌else◌, Bool-cases, Option-cases, inl, inr,
}
use litetvm_ffi.Map.Assoc.{KeyApi}
use litetvm_ffi.Map.Outcome.{Outcome, ok, check_failed, bad_read, out_of_fuel, ◌>>=◌}
use litetvm_ffi.Map.Dense.Links.{store}
use litetvm_ffi.Map.Dense.Links.Segments.{store-same, store-other}
use litetvm_ffi.Map.Object.{MapObj, empty, copy_from, insert_maybe_re_hash}
use litetvm_ffi.Map.Handle.{Heap, release, allocate, assign, object_at, copy_on_write, set}

module _ {K V : Type 0} where
  -- The object that a write goes to: the handle's own one, or a copy of one that it shares
  unfoldable pub writable : Option ℕ → Heap K V → Outcome (MapObj K V)
  unfolding object_at
  writable none h = ok empty
  writable (some a) h = if h.counts a == 1 then object_at a h else (object_at a h >>= copy_from)

  value_or : MapObj K V → Outcome (MapObj K V) → MapObj K V
  value_or m (ok n) = n
  value_or m check_failed = m
  value_or m bad_read = m
  value_or m out_of_fuel = m

  ok_injective : (m n : MapObj K V) → ok m ≡ ok n → m ≡ n
  unfolding value_or
  ok_injective m n e = ap (value_or m) e

  object_at-some :
      (a : ℕ) (h : Heap K V) (m : MapObj K V) → object_at a h ≡ ok m → h.objects a ≡ some m
  unfolding object_at
  object_at-some a h m e = elim (Option-cases (h.objects a)) [
    | inl none_there ↦
        let bad : bad_read ≡ ok m = rw (object_at, none_there) at e in absurd (cc bad)
    | inr (n, there) ↦
        let same : ok n ≡ ok m = rw (object_at, there) at e in
        there ∙ ap some (ok_injective n m same)
  ]

  bind_ok :
      (r : Outcome (MapObj K V)) (f : MapObj K V → Outcome (MapObj K V)) (n : MapObj K V)
      → (r >>= f) ≡ ok n
      → (m : MapObj K V) × (r ≡ ok m) × (f m ≡ ok n)
  bind_ok (ok m) f n e = (m, refl, e)
  bind_ok check_failed f n e = absurd (cc e)
  bind_ok bad_read f n e = absurd (cc e)
  bind_ok out_of_fuel f n e = absurd (cc e)

  -- What `CopyOnWrite` leaves: an object of the handle's own, and every object that it shared
  record Owned (handle : Option ℕ) (h : Heap K V) (m : MapObj K V) : Type 0 where
    address : ℕ
    heap : Heap K V
    returns : copy_on_write handle h ≡ ok (address, heap)
    holds : heap.objects address ≡ some m
    alone : heap.counts address ≡ 1
    apart : (b : ℕ) → b < h.next → (handle ≡ some b → h.counts b ≢ 1) → address ≢ b
    others : (b : ℕ) → b < h.next → heap.objects b ≡ h.objects b

  copy_on_write-Owned :
      (handle : Option ℕ) (h : Heap K V) (m : MapObj K V)
      → ((a : ℕ) → handle ≡ some a → a < h.next)
      → writable handle h ≡ ok m
      → Owned handle h m
  unfolding copy_on_write assign release writable object_at
  copy_on_write-Owned none h m known e = record {
    address = h.next;
    heap = allocate empty h;
    returns = refl;
    holds = store-same h.next (some empty) h.objects ∙ ap some (ok_injective empty m e);
    alone = store-same h.next 1 h.counts;
    apart = λ b old own p. omega (arith, old, p);
    others = λ b old. store-other h.next b (some empty) h.objects (λ p. omega (arith, old, p));
  }
  copy_on_write-Owned (some a) h m known e = elim (Bool-cases (h.counts a == 1)) [
    | inl unique ↦ record {
      address = a;
      heap = h;
      returns = rw unique refl;
      holds = object_at-some a h m (rw unique at e);
      alone = (==_iff (h.counts a) 1).0 unique;
      apart = λ b old own p.
          own (ap some p) (subst (λ q. h.counts q ≡ 1) p ((==_iff (h.counts a) 1).0 unique));
      others = λ b old. refl;
    }
    | inr shared ↦
        let older = known a refl in
        let new : Heap K V = allocate m h in
        let copied : (object_at a h >>= copy_from) ≡ ok m = rw shared at e in
        let kept : new.counts a ≡ h.counts a =
          store-other h.next a 1 h.counts (λ p. omega (arith, older, p)) in
        let still : (new.counts a == 1) ≡ false = ap (λ t. t == 1) kept ∙ shared in
        record {
          address = h.next;
          heap = record new { counts = store a (new.counts a - 1) new.counts };
          returns = rw (shared, copied, assign, release, still) refl;
          holds = store-same h.next (some m) h.objects;
          alone =
              store-other a h.next (new.counts a - 1) new.counts (λ p. omega (arith, older, p))
              ∙ store-same h.next 1 h.counts;
          apart = λ b old own p. omega (arith, old, p);
          others = λ b old. store-other h.next b (some m) h.objects (λ p. omega (arith, old, p));
        }
  ]

module _ {K V : Type 0} (keys : KeyApi K) (null : V) where
  -- `Set` returns when the insertion into the handle's object, or into a copy of it, does. It leaves the
  -- result as the handle's own object. An object that was there, and that is not the handle's alone, is
  -- unchanged.
  pub set-isolated :
      (fuel : ℕ) (k : K) (v : V) (handle : Option ℕ) (h : Heap K V) (n : MapObj K V) (b : ℕ)
      → ((a : ℕ) → handle ≡ some a → a < h.next)
      → (writable handle h >>= insert_maybe_re_hash keys null fuel k v) ≡ ok n
      → b < h.next
      → (handle ≡ some b → h.counts b ≢ 1)
      → (address : ℕ) × (heap : Heap K V) × (set keys null fuel k v handle h ≡ ok (address, heap))
        × (heap.objects address ≡ some n)
        × (heap.counts address ≡ 1)
        × (heap.objects b ≡ h.objects b)
  unfolding set object_at
  set-isolated fuel k v handle h n b known e old other =
      let (m, own, inserted) =
        bind_ok (writable handle h) (insert_maybe_re_hash keys null fuel k v) n e in
      let o = copy_on_write-Owned handle h m known own in
      let heap : Heap K V = record o.heap { objects = store o.address (some n) o.heap.objects } in
      (
        o.address,
        heap,
        rw (set, o.returns, object_at, o.holds, inserted) refl,
        store-same o.address (some n) o.heap.objects,
        o.alone,
        store-other o.address b (some n) o.heap.objects (o.apart b old other) ∙ o.others b old,
      )
