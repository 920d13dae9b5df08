-- ===== src/Prelude/Bits.antt =====
-- The laws of `|` and `&` that the components need: `|` of numbers with disjoint bits is a sum,
-- and `&` with a mask of ones is a remainder.
use Prim.Native.Nat.{
  ℕ, zero, suc, ◌+◌, ◌*◌, ◌-◌, ◌/◌, ◌%◌, ◌^◌, ◌≤◌, ◌<◌, min, max, bit_and, bit_or, digits,
  bit_and-bitwise, bit_or-bitwise,
}
use mathlib.Core.Path.{◌≡◌, refl, ap, ◌∙◌}
use native.Mathlib.Nat.{pow-suc}
use native.Mathlib.Omega.{arith}

-- The recursion on digits gives one result for every count of digits that is large enough.
module _ (z : ℕ → ℕ) (f : ℕ → ℕ → ℕ) where
  digits_enough : (n m a b : ℕ) → a ≤ n → a ≤ m → digits z f n a b ≡ digits z f m a b
  digits_enough zero zero a b _ _ = refl
  digits_enough zero (suc m) zero b _ _ = refl
  digits_enough zero (suc m) (suc a) b h _ = absurd (omega arith)
  digits_enough (suc n) zero zero b _ _ = refl
  digits_enough (suc n) zero (suc a) b _ h = absurd (omega arith)
  digits_enough (suc n) (suc m) zero b _ _ = refl
  digits_enough (suc n) (suc m) (suc a) b p q =
      omega (arith, digits_enough n m (suc a / 2) (b / 2) (omega arith) (omega arith))

or_zero_left : (b : ℕ) → bit_or 0 b ≡ b
or_zero_left b = bit_or-bitwise 0 b

and_zero_left : (b : ℕ) → bit_and 0 b ≡ 0
and_zero_left b = bit_and-bitwise 0 b

or_halves : (a b : ℕ) → bit_or a b ≡ bit_or (a / 2) (b / 2) * 2 + max (a % 2) (b % 2)
or_halves zero b = omega (arith, or_zero_left b, or_zero_left (b / 2))
or_halves (suc a) b =
    let half = suc a / 2 in
    omega (
      arith,
      bit_or-bitwise (suc a) b,
      bit_or-bitwise half (b / 2),
      digits_enough (λ t. t) max a half half (b / 2) (omega arith) (omega arith),
    )

and_halves : (a b : ℕ) → bit_and a b ≡ bit_and (a / 2) (b / 2) * 2 + min (a % 2) (b % 2)
and_halves zero b = omega (arith, and_zero_left b, and_zero_left (b / 2))
and_halves (suc a) b =
    let half = suc a / 2 in
    omega (
      arith,
      bit_and-bitwise (suc a) b,
      bit_and-bitwise half (b / 2),
      digits_enough (λ _. zero) min a half half (b / 2) (omega arith) (omega arith),
    )

or_zero_below : (n a : ℕ) → a ≤ n → bit_or a 0 ≡ a
or_zero_below n zero h = refl
or_zero_below zero (suc a) h = absurd (omega arith)
or_zero_below (suc n) (suc a) h =
    omega (arith, or_halves (suc a) 0, or_zero_below n (suc a / 2) (omega arith))

and_zero_below : (n a : ℕ) → a ≤ n → bit_and a 0 ≡ 0
and_zero_below n zero h = refl
and_zero_below zero (suc a) h = absurd (omega arith)
and_zero_below (suc n) (suc a) h =
    omega (arith, and_halves (suc a) 0, and_zero_below n (suc a / 2) (omega arith))

scale_suc : (q k : ℕ) → q * 2 ^ suc k ≡ 2 * (q * 2 ^ k)
scale_suc q k = omega (arith, ap (λ (t : ℕ). q * t) (pow-suc 2 k))

-- `(q << k) | r` is a sum where `r` fits below the shift.
pub or_shifted : (k q r : ℕ) → r < 2 ^ k → bit_or (q * 2 ^ k) r ≡ q * 2 ^ k + r
or_shifted zero q r h = ground (arith, or_zero_below q q (omega arith))
or_shifted (suc k) q r h = ground (
  arith,
  or_halves (q * 2 ^ suc k) r,
  scale_suc q k,
  pow-suc 2 k,
  or_shifted k q (r / 2) (omega (arith, pow-suc 2 k)),
)

-- One more bit in a mask of ones.
and_ones : (a m : ℕ) → bit_and a (2 * m + 1) ≡ bit_and (a / 2) m * 2 + a % 2
and_ones a m = ground (arith, and_halves a (2 * m + 1))

and_3 : (a : ℕ) → bit_and a 3 ≡ a % 4
and_3 a =
    omega (
      arith,
      and_ones a 1,
      and_ones (a / 2) 0,
      and_zero_below (a / 2 / 2) (a / 2 / 2) (omega arith),
    )

and_15 : (a : ℕ) → bit_and a 15 ≡ a % 16
and_15 a = omega (arith, and_ones a 7, and_ones (a / 2) 3, and_3 (a / 2 / 2))

pub and_63 : (a : ℕ) → bit_and a 63 ≡ a % 64
and_63 a = omega (arith, and_ones a 31, and_ones (a / 2) 15, and_15 (a / 2 / 2))

pub and_255 : (a : ℕ) → bit_and a 255 ≡ a % 256
and_255 a = omega (arith, and_ones a 127, and_ones (a / 2) 63, and_63 (a / 2 / 2))

-- The highest bit of a byte, and the seven below it
and_even : (a m : ℕ) → bit_and a (2 * m) ≡ bit_and (a / 2) m * 2
and_even a m = ground (arith, and_halves a (2 * m))

and_1 : (a : ℕ) → bit_and a 1 ≡ a % 2
and_1 a = omega (arith, and_ones a 0, and_zero_below (a / 2) (a / 2) (omega arith))

and_8 : (a : ℕ) → bit_and a 8 ≡ a / 8 % 2 * 8
and_8 a =
    omega (arith, and_even a 4, and_even (a / 2) 2, and_even (a / 2 / 2) 1, and_1 (a / 2 / 2 / 2))

pub and_128 : (a : ℕ) → bit_and a 128 ≡ a / 128 % 2 * 128
and_128 a = omega (
  arith,
  and_even a 64,
  and_even (a / 2) 32,
  and_even (a / 2 / 2) 16,
  and_even (a / 2 / 2 / 2) 8,
  and_8 (a / 2 / 2 / 2 / 2),
)

pub and_127 : (a : ℕ) → bit_and a 127 ≡ a % 128
and_127 a = omega (arith, and_ones a 63, and_63 (a / 2))

-- A number below a power of two does not have the power's bit.
pub and_power : (k a : ℕ) → a < 2 ^ k → bit_and a (2 ^ k) ≡ 0
and_power zero a h = let none_there : a ≡ 0 = omega (arith, h) in rw none_there refl
and_power (suc k) a h =
    let half = and_power k (a / 2) (omega (arith, h, pow-suc 2 k)) in
    let double : 2 ^ suc k ≡ 2 * 2 ^ k = omega (arith, pow-suc 2 k) in
    ap (bit_and a) double ∙ omega (arith, and_even a (2 ^ k), half)

and_half_byte : (a m : ℕ) → bit_and a (16 * m + 15) ≡ bit_and (a / 16) m * 16 + a % 16
and_half_byte a m =
    let mask : 16 * m + 15 ≡ 2 * (2 * (2 * (2 * m + 1) + 1) + 1) + 1 = omega arith in
    let shift : a / 2 / 2 / 2 / 2 ≡ a / 16 = omega arith in
    ap (bit_and a) mask
    ∙ omega (
      arith,
      ap (λ t. bit_and t m) shift,
      and_ones a (2 * (2 * (2 * m + 1) + 1) + 1),
      and_ones (a / 2) (2 * (2 * m + 1) + 1),
      and_ones (a / 2 / 2) (2 * m + 1),
      and_ones (a / 2 / 2 / 2) m,
    )

-- A mask of ones, eight bits at a time
and_byte : (a m : ℕ) → bit_and a (256 * m + 255) ≡ bit_and (a / 256) m * 256 + a % 256
and_byte a m =
    let four : bit_and a (16 * (16 * m + 15) + 15) ≡ bit_and (a / 16) (16 * m + 15) * 16 + a % 16 =
      and_half_byte a (16 * m + 15) in
    let mask : 256 * m + 255 ≡ 16 * (16 * m + 15) + 15 = omega arith in
    let shift : a / 16 / 16 ≡ a / 256 = omega arith in
    ap (bit_and a) mask ∙ omega (arith, ap (λ t. bit_and t m) shift, four, and_half_byte (a / 16) m)

pub and_mask_32 : (a : ℕ) → bit_and a (2 ^ 32 - 1) ≡ a % 2 ^ 32
and_mask_32 a = omega (
  arith,
  and_byte a (2 ^ 24 - 1),
  and_byte (a / 256) (2 ^ 16 - 1),
  and_byte (a / 256 / 256) 255,
  and_255 (a / 256 / 256 / 256),
)
