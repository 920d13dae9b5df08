-- ===== src/RefCount/Tests.antt =====
-- The theorems at concrete inputs.
use litetvm_ffi.Prelude.{◌^◌, ◌+◌, ◌-◌, [], ◌∷◌, true, false, ◌≡◌, arith, ◌==◌, if◌then◌else◌}
use litetvm_ffi.RefCount.{strong, weak, both, try_promote_weak_ptr, dec_ref, dec_weak_ref}
use litetvm_ffi.RefCount.Counts.{
  combined, dec_ref-combined, dec_weak_ref-combined, try_promote_weak_ptr-combined,
}

dec_ref-combined_example :
    ((dec_ref true (combined 1 2)).0
      ≡ (if true then (if 1 == 1 then (if 2 == 0 then both ∷ [] else strong ∷ []) else []) else []))
    × ((dec_ref true (combined 1 2)).1
        ≡ (if 1 == 1 then (if 2 == 0 then 2 ^ 32 else combined (1 - 1) 2) else combined (1 - 1) 2))
dec_ref-combined_example = dec_ref-combined true 1 2 (omega arith) (omega arith) (omega arith)

dec_weak_ref-combined_example :
    ((dec_weak_ref true (combined 0 1)).0
      ≡ (if true then (if 0 == 0 then (if 1 == 1 then weak ∷ [] else []) else []) else []))
    × ((dec_weak_ref true (combined 0 1)).1 ≡ combined 0 (1 - 1))
dec_weak_ref-combined_example =
    dec_weak_ref-combined true 0 1 (omega arith) (omega arith) (omega arith)

try_promote_weak_ptr-combined_example :
    try_promote_weak_ptr (combined 2 1)
    ≡ (if 2 == 0 then (false, combined 2 1) else (true, combined (2 + 1) 1))
try_promote_weak_ptr-combined_example =
    try_promote_weak_ptr-combined 2 1 (omega arith) (omega arith)
