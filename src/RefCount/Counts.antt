-- ===== src/RefCount/Counts.antt =====
-- The combined count as the numbers of strong and weak references.
use litetvm_ffi.Prelude.{
  ℕ, Bool, ◌+◌, ◌-◌, ◌*◌, ◌^◌, ◌≤◌, ◌<◌, bit_and, [], ◌∷◌, true, false, ◌≡◌, arith, ◌==◌,
  if◌then◌else◌,
}
use litetvm_ffi.Prelude.Bits.{and_mask_32}
use litetvm_ffi.RefCount.{
  strong, weak, both, k_combined_ref_count_mask, try_promote_weak_ptr, dec_ref, dec_weak_ref,
}

-- The combined count of `s` strong and `w` weak references
abbrev pub combined : ℕ → ℕ → ℕ
combined s w = s + 2 ^ 32 * (if s == 0 then w else w + 1)

low_half : (s w : ℕ) → s < 2 ^ 32 → bit_and (combined s w) k_combined_ref_count_mask ≡ s
low_half s w small = ground (arith, and_mask_32 (combined s w), small)

-- With `s` strong and `w` weak references (at least one strong one, `s` below 2 ^ 32 and `w` below
-- 2 ^ 32 - 1), `DecRef` calls the deleter, if the object has one, to destroy the object when it gives up the
-- last strong reference, and to free its memory in the same call when there is no weak one; without a
-- deleter nothing is called. The count is that of one strong reference less, but for the last reference
-- of all, where it is 2 ^ 32.
pub dec_ref-combined :
    (has_deleter : Bool) (s w : ℕ)
    → 1 ≤ s
    → s < 2 ^ 32
    → w + 1 < 2 ^ 32
    → ((dec_ref has_deleter (combined s w)).0 ≡ (
        if has_deleter
        then (if s == 1 then (if w == 0 then both ∷ [] else strong ∷ []) else [])
        else []))
      × ((dec_ref has_deleter (combined s w)).1 ≡ (
          if s == 1 then (if w == 0 then 2 ^ 32 else combined (s - 1) w) else combined (s - 1) w))
unfolding dec_ref dec_weak_ref
dec_ref-combined true s w some_strong small few =
    rw (low_half s w small) (ground (arith, some_strong, small, few))
dec_ref-combined false s w some_strong small few =
    rw (low_half s w small) (ground (arith, some_strong, small, few))

-- With `s` strong and `w` weak references (at least one weak one, `s` below 2 ^ 32 and `w` below
-- 2 ^ 32 - 1), `DecWeakRef` calls the deleter, if the object has one, to free the memory when it gives
-- up the last weak reference and there is no strong one, and calls nothing else. The count is that of
-- one weak reference less.
pub dec_weak_ref-combined :
    (has_deleter : Bool) (s w : ℕ)
    → 1 ≤ w
    → s < 2 ^ 32
    → w + 1 < 2 ^ 32
    → ((dec_weak_ref has_deleter (combined s w)).0
        ≡ (if has_deleter then (if s == 0 then (if w == 1 then weak ∷ [] else []) else []) else []))
      × ((dec_weak_ref has_deleter (combined s w)).1 ≡ combined s (w - 1))
unfolding dec_weak_ref
dec_weak_ref-combined true s w some_weak small few = ground (arith, some_weak, small, few)
dec_weak_ref-combined false s w some_weak small few = ground (arith, some_weak, small, few)

-- A weak reference is promoted when a strong one is still there, and not after the last one is given up.
pub try_promote_weak_ptr-combined :
    (s w : ℕ)
    → s + 1 < 2 ^ 32
    → w + 1 < 2 ^ 32
    → try_promote_weak_ptr (combined s w)
      ≡ (if s == 0 then (false, combined s w) else (true, combined (s + 1) w))
unfolding try_promote_weak_ptr
try_promote_weak_ptr-combined s w small few =
    rw (low_half s w (omega (arith, small))) (ground (arith, small, few))
