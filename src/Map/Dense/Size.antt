-- ===== src/Map/Dense/Size.antt =====
-- The size that `CalcTableSize` gives a table, and the home slots in it.
use litetvm_ffi.Prelude.{
  ℕ, zero, suc, ◌+◌, ◌-◌, ◌*◌, ◌/◌, ◌%◌, ◌^◌, ◌≤◌, ◌<◌, ◌≡◌, ◌⊎◌, inl, inr, refl, sym, ap, ◌∙◌,
  subst, arith, ltb, true, Bool-cases,
}
use native.Mathlib.Nat.{pow-suc, pow-le-pow_right, div-lt_iff_lt-mul}
use litetvm_ffi.Map.Outcome.{ok}
use litetvm_ffi.Map.Dense.Probe.{fib_hash, table_loop, calc_table_size}

-- `d` is the number of binary digits of `c`.
record Digits (c d : ℕ) : Type 0 where
  above : c < 2 ^ d
  below : (2 ^ d ≤ 2 * c) ⊎ ((c ≡ 0) × (d ≡ 0))

Digits-half : (c d : ℕ) → Digits (suc c / 2) d → Digits (suc c) (suc d)
Digits-half c d h = record {
  above = omega (arith, pow-suc 2 d, h.above);
  below = inl (elim h.below [
    | inl b ↦ omega (arith, pow-suc 2 d, b)
    | inr z ↦ subst (λ t. 2 ^ suc t ≤ 2 * suc c) (sym z.1) (omega arith)
  ]);
}

doubled :
    (s : ℕ) → s < 63 → ◌≡◌ {A = ℕ × ℕ} (64 - s - 1, 2 ^ s * 2 % 2 ^ 64) (64 - suc s, 2 ^ suc s)
doubled s h =
    let bound = pow-le-pow_right {n = 2} (omega arith) {i = suc s} {j = 63} (omega (arith, h)) in
    let first : 64 - s - 1 ≡ 64 - suc s = omega arith in
    let second : 2 ^ s * 2 % 2 ^ 64 ≡ 2 ^ suc s = omega (arith, pow-suc 2 s, bound) in
    λ t. (first t, second t)

-- The loop doubles the number of slots once for every binary digit.
table_loop-Digits :
    (fuel n c s : ℕ)
    → c < 2 ^ n
    → n ≤ fuel
    → s + n ≤ 63
    → (d : ℕ) × (d ≤ n)
      × Digits c d
      × (table_loop fuel c (64 - s, 2 ^ s) ≡ ok (64 - (s + d), 2 ^ (s + d)))
unfolding table_loop
table_loop-Digits fuel n zero s small enough fits = (
  0,
  omega arith,
  record { above = omega arith; below = inr (refl, refl) },
  ap (λ t. ok (64 - t, 2 ^ t)) (omega arith),
)
table_loop-Digits fuel zero (suc c) s small enough fits = absurd (omega (arith, small))
table_loop-Digits zero (suc n) (suc c) s small enough fits = absurd (omega (arith, enough))
table_loop-Digits (suc fuel) (suc n) (suc c) s small enough fits =
    let (d, few, digits, e) =
      table_loop-Digits fuel n (suc c / 2) (suc s) (omega (arith, small, pow-suc 2 n))
        (omega (arith, enough)) (omega (arith, fits)) in
    (
      suc d,
      omega (arith, few),
      Digits-half c d digits,
      ap (table_loop fuel (suc c / 2)) (doubled s (omega (arith, fits)))
          ∙ e
          ∙ ap (λ t. ok (64 - t, 2 ^ t)) (omega arith),
    )

-- For a capacity from 1 to 2 ^ 62 - 1, CalcTableSize gives a power of two that is at least twice and at
-- most four times the capacity, with the shift that takes a hash to an index of a table of that size.
pub calc_table_size-power :
    (cap : ℕ)
    → 0 < cap
    → cap < 2 ^ 62
    → (e : ℕ) × (e ≤ 63)
      × (calc_table_size cap ≡ ok (64 - e, 2 ^ e))
      × (2 * cap ≤ 2 ^ e)
      × (2 ^ e ≤ 4 * cap)
unfolding calc_table_size
calc_table_size-power cap some_cap few =
    let (d, in_range, digits, run) =
      table_loop-Digits 64 62 cap 0 few (omega arith) (omega arith) in
    let from_one : 0 + d ≡ d = omega arith in
    let loop : table_loop 64 cap (64, 1) ≡ ok (64 - d, 2 ^ d) =
      run ∙ ap (λ t. ok (64 - t, 2 ^ t)) from_one in
    let above : ltb cap (2 ^ d) ≡ true = ground (arith, digits.above) in
    let wraps : cap * 2 % 2 ^ 64 ≡ cap * 2 = omega (arith, few) in
    elim (Bool-cases (ltb (2 ^ d) (cap * 2))) [
      | inl e ↦ (
        suc d,
        omega (arith, in_range),
        rw (loop, above, wraps, e) (ap ok (doubled d (omega (arith, in_range)))),
        omega (arith, pow-suc 2 d, digits.above),
        ground (arith, pow-suc 2 d, e),
      )
      | inr e ↦ (
        d,
        omega (arith, in_range),
        rw (loop, above, wraps, e) refl,
        ground (arith, e),
        elim digits.below [
          | inl b ↦ omega (arith, b)
          | inr z ↦ absurd (omega (arith, some_cap, z.0))
        ],
      )
    ]

pow_sum : (e k : ℕ) → 2 ^ e * 2 ^ k ≡ 2 ^ (e + k)
pow_sum e zero = let none_more : e ≡ e + 0 = omega arith in omega (arith, ap (λ t. 2 ^ t) none_more)
pow_sum e (suc k) =
    let one_more : e + suc k ≡ suc (e + k) = omega arith in
    grind (arith, ap (λ t. 2 ^ t) one_more, pow-suc 2 k, pow_sum e k, pow-suc 2 (e + k))

power_pos : (k : ℕ) → 0 < 2 ^ k
power_pos k = omega (arith, pow-le-pow_right {n = 2} (omega arith) {i = 0} {j = k} (omega arith))

sum_64 : (e : ℕ) → e ≤ 63 → e + (64 - e) ≡ 64
sum_64 e h = omega (arith, h)

-- The home slot of every hash is in a table of that size.
pub fib_hash-below : (e hash_value : ℕ) → e ≤ 63 → fib_hash hash_value (64 - e) < 2 ^ e
unfolding fib_hash
fib_hash-below e hash_value in_range =
    (div-lt_iff_lt-mul (power_pos (64 - e))).1
      (omega (arith, pow_sum e (64 - e), ap (λ t. 2 ^ t) (sum_64 e in_range)))
