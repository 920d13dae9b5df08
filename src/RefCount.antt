-- ===== src/RefCount.antt =====
-- include/ffi/object.h: the reference counts of an object, the strong one in the lower and the weak one
-- in the upper half of a 64-bit number. All strong references together hold one weak one. The code of
-- the platforms with atomic builtins is modelled, without interference of other threads.
pub mod Counts
mod Tests
use litetvm_ffi.Prelude.{
  ℕ, ◌+◌, ◌-◌, ◌*◌, ◌%◌, ◌^◌, bit_and, List, [], ◌∷◌, ◌++◌, Bool, true, false, ◌==◌, if◌then◌else◌,
}

-- The flags that the deleter is called with: to destroy the object, to free its memory, or both
pub data DeleterFlag : Type 0 where
  strong : DeleterFlag
  weak : DeleterFlag
  both : DeleterFlag

abbrev pub k_combined_ref_count_weak_one : ℕ
k_combined_ref_count_weak_one = 2 ^ 32

abbrev pub k_combined_ref_count_strong_one : ℕ
k_combined_ref_count_strong_one = 1

abbrev pub k_combined_ref_count_both_one : ℕ
k_combined_ref_count_both_one = 2 ^ 32 + 1

abbrev pub k_combined_ref_count_mask : ℕ
k_combined_ref_count_mask = 2 ^ 32 - 1

-- `__atomic_fetch_add` and `__atomic_fetch_sub`, the value that they leave
abbrev pub add_64 : ℕ → ℕ → ℕ
add_64 count n = (count + n) % 2 ^ 64

abbrev pub sub_64 : ℕ → ℕ → ℕ
sub_64 count n = (count + (2 ^ 64 - n)) % 2 ^ 64

-- `use_count`
unfoldable pub use_count : ℕ → ℕ
use_count count = bit_and count k_combined_ref_count_mask

-- `IncRef` and `IncWeakRef`
unfoldable pub inc_ref : ℕ → ℕ
inc_ref count = add_64 count 1

unfoldable pub inc_weak_ref : ℕ → ℕ
inc_weak_ref count = add_64 count k_combined_ref_count_weak_one

-- `TryPromoteWeakPtr`, whose exchange succeeds at once
unfoldable pub try_promote_weak_ptr : ℕ → Bool × ℕ
try_promote_weak_ptr count =
    if bit_and count k_combined_ref_count_mask == 0
    then (false, count)
    else (true, add_64 count k_combined_ref_count_strong_one)

-- `if (header_.deleter != nullptr) header_.deleter(&header_, flag)`
abbrev pub call_deleter : Bool → DeleterFlag → List DeleterFlag
call_deleter has_deleter flag = if has_deleter then flag ∷ [] else []

-- `DecWeakRef`: the calls of the deleter, and the count
unfoldable pub dec_weak_ref : Bool → ℕ → List DeleterFlag × ℕ
dec_weak_ref has_deleter count = (
  if count == k_combined_ref_count_weak_one then call_deleter has_deleter weak else [],
  sub_64 count k_combined_ref_count_weak_one,
)

-- `DecRef`: the calls of the deleter, and the count
unfoldable pub dec_ref : Bool → ℕ → List DeleterFlag × ℕ
unfolding dec_weak_ref
dec_ref has_deleter count =
    let after = sub_64 count k_combined_ref_count_strong_one in
    if count == k_combined_ref_count_both_one
    then (call_deleter has_deleter both, after)
    else if bit_and count k_combined_ref_count_mask == k_combined_ref_count_strong_one
    then (
      call_deleter has_deleter strong ++ (dec_weak_ref has_deleter after).0,
      (dec_weak_ref has_deleter after).1,
    )
    else ([], after)
