-- ===== src/Json/Decimal.antt =====
-- Decimal text: what `std::to_string` and `snprintf("%lld")` print, and `strtoimax` in base ten.
use litetvm_ffi.Prelude.{
  ℕ, zero, suc, ◌+◌, ◌-◌, ◌*◌, ◌/◌, ◌%◌, ◌^◌, ◌<◌, ◌≤◌, [], ◌∷◌, ◌++◌, Bool, true, false, ◌&&◌, ◌≡◌,
  ◌≢◌, ◌∙◌, refl, arith, ap, inl, inr, not, Bool-cases, lt→ltb, All-append, Bytes, All, ltb, leb,
  ◌==◌, if◌then◌else◌,
}
use litetvm_ffi.Prelude.Int.{ℤ, pos, negsuc}
use mathlib.Core.List.{concat-ne-nil}
use native.Mathlib.Nat.{pow-suc}

abbrev pub is_digit : ℕ → Bool
is_digit c = leb b'0' c && leb c b'9'

-- The digits of `n`, first digit first; `fuel` is a bound on how many there are.
unfoldable pub digits_of : ℕ → ℕ → Bytes
digits_of zero n = []
digits_of (suc fuel) n =
    let high = digits_of fuel (n / 10) in
    let last = b'0' + n % 10 in if ltb n 10 then last ∷ [] else high ++ last ∷ []

-- Twenty digits are enough for a 64-bit number.
abbrev pub max_digits : ℕ
max_digits = 20

unfoldable pub print_nat : ℕ → Bytes
unfolding digits_of
print_nat n = digits_of max_digits n

-- A 64-bit signed number.
unfoldable pub print_int : ℤ → Bytes
unfolding print_nat
print_int (pos n) = print_nat n
print_int (negsuc n) = b'-' ∷ print_nat (suc n)

-- What `strtoimax` leaves: the number read, the text behind it, and whether `errno` was set.
pub record Scanned : Type 0 where
  pub value : ℤ
  pub end_ptr : Bytes
  pub out_of_range : Bool

-- The digits at the front of a text, read behind the number `n`.
unfoldable pub read_digits : ℕ → Bytes → ℕ × Bytes
read_digits n [] = (n, [])
read_digits n (c ∷ s) =
    let more = read_digits (n * 10 + (c - b'0')) s in if is_digit c then more else (n, c ∷ s)

abbrev starts_with_digit : Bytes → Bool
starts_with_digit [] = false
starts_with_digit (c ∷ s) = is_digit c

abbrev int64_max : ℕ
int64_max = 2 ^ 63 - 1

abbrev in_int64 : ℤ → Bool
in_int64 (pos n) = leb n int64_max
in_int64 (negsuc n) = leb n int64_max

abbrev negate : ℕ → ℤ
negate zero = pos zero
negate (suc n) = negsuc n

-- Past the range `errno` is ERANGE, and the nearest bound is stored.
abbrev clamp_int64 : ℤ → ℤ
clamp_int64 (pos n) = if leb n int64_max then pos n else pos int64_max
clamp_int64 (negsuc n) = if leb n int64_max then negsuc n else negsuc int64_max

-- The part behind the sign; without a digit nothing is converted, and `end_ptr` is the whole text.
scan_unsigned : (ℕ → ℤ) → Bytes → Bytes → Scanned
scan_unsigned sign whole s =
    let n = (read_digits 0 s).0 in
    if starts_with_digit s
    then record {
      value = clamp_int64 (sign n);
      end_ptr = (read_digits 0 s).1;
      out_of_range = not (in_int64 (sign n));
    }
    else record { value = pos 0; end_ptr = whole; out_of_range = false }

-- `strtoimax(s, &end_ptr, 10)` on a text that does not begin with white space.
unfoldable pub strtoimax : Bytes → Scanned
unfolding scan_unsigned
strtoimax [] = record { value = pos 0; end_ptr = []; out_of_range = false }
strtoimax (c ∷ s) =
    if c == b'-'
    then scan_unsigned negate (c ∷ s) s
    else if c == b'+'
    then scan_unsigned pos (c ∷ s) s
    else scan_unsigned pos (c ∷ s) (c ∷ s)

abbrev pub IsDigit : ℕ → Type 0
IsDigit c = is_digit c ≡ true

decimal-IsDigit : (n : ℕ) → IsDigit (b'0' + n % 10)
decimal-IsDigit n = ground arith

pub digits_of-IsDigit : (fuel n : ℕ) → All IsDigit (digits_of fuel n)
unfolding digits_of
digits_of-IsDigit zero n = tt
digits_of-IsDigit (suc fuel) n = elim (Bool-cases (ltb n 10)) [
  | inl small ↦ rw small (decimal-IsDigit n, tt)
  | inr large ↦ rw large (
      All-append IsDigit (digits_of fuel (n / 10)) _ (digits_of-IsDigit fuel (n / 10))
        (decimal-IsDigit n, tt))
]

-- Digits are read through, whatever stands behind them.
pub read_digits-append :
    (n : ℕ) (s t : Bytes)
    → All IsDigit s
    → read_digits n (s ++ t) ≡ read_digits (read_digits n s).0 t
unfolding read_digits
read_digits-append n [] t h = refl
read_digits-append n (c ∷ s) t h = rw h.0 (read_digits-append (n * 10 + (c - b'0')) s t h.1)

read_digits-one : (n d : ℕ) → read_digits n ((b'0' + d % 10) ∷ []) ≡ (n * 10 + d % 10, [])
unfolding read_digits
read_digits-one n d = rw (decimal-IsDigit d) (ground arith)

-- Reading back the digits of a number that the fuel is enough for.
pub read_digits-digits_of :
    (fuel n : ℕ) → n < 10 ^ suc fuel → read_digits 0 (digits_of (suc fuel) n) ≡ (n, [])
unfolding digits_of
read_digits-digits_of zero n h = rw (lt→ltb n 10 (omega arith)) (read_digits-one 0 n ∙ ground arith)
read_digits-digits_of (suc fuel) n h = elim (Bool-cases (ltb n 10)) [
  | inl small ↦ rw small (read_digits-one 0 n ∙ ground arith)
  | inr large ↦
      let high = read_digits-digits_of fuel (n / 10) (omega (arith, pow-suc 10 (suc fuel))) in
      rw large (
        read_digits-append 0 (digits_of (suc fuel) (n / 10)) _
          (digits_of-IsDigit (suc fuel) (n / 10))
        ∙ ap (λ (p : ℕ × Bytes). read_digits p.0 ((b'0' + n % 10) ∷ [])) high
        ∙ read_digits-one (n / 10) n
        ∙ ground arith)
]

pub digits_of-ne-nil : (fuel n : ℕ) → digits_of (suc fuel) n ≢ []
unfolding digits_of
digits_of-ne-nil fuel n = elim (Bool-cases (ltb n 10)) [
  | inl small ↦ rw small (ground arith)
  | inr large ↦ rw large (concat-ne-nil (b'0' + n % 10) (digits_of fuel (n / 10)))
]

-- A text of digits alone carries no sign.
strtoimax-digits :
    (s : Bytes) (n : ℕ)
    → All IsDigit s
    → s ≢ []
    → read_digits 0 s ≡ (n, [])
    → n ≤ int64_max
    → strtoimax s ≡ record { value = pos n; end_ptr = []; out_of_range = false }
strtoimax-digits [] n h some_digit e small = absurd (some_digit refl)
strtoimax-digits (c ∷ s) n h some_digit e small =
    unfold strtoimax in
    let plain : ((c == b'-') ≡ false) × ((c == b'+') ≡ false) = ground (arith, h.0) in
    rw (plain.0, plain.1, h.0, e) (ground arith)

scan_negative :
    (s : Bytes) (n : ℕ)
    → All IsDigit s
    → s ≢ []
    → read_digits 0 s ≡ (suc n, [])
    → n ≤ int64_max
    → strtoimax (b'-' ∷ s) ≡ record { value = negsuc n; end_ptr = []; out_of_range = false }
scan_negative [] n h some_digit e small = absurd (some_digit refl)
scan_negative (c ∷ s) n h some_digit e small = unfold strtoimax in rw (h.0, e) (ground arith)

-- A number that an `int64_t` can hold.
abbrev pub IsInt64 : ℤ → Type 0
IsInt64 (pos n) = n < 2 ^ 63
IsInt64 (negsuc n) = n < 2 ^ 63

-- `strtoimax` reads back every `int64_t` that was printed, up to the end of the text.
pub strtoimax-print_int :
    (z : ℤ)
    → IsInt64 z
    → strtoimax (print_int z) ≡ record { value = z; end_ptr = []; out_of_range = false }
unfolding print_int
strtoimax-print_int (pos n) h =
    strtoimax-digits (digits_of max_digits n) n (digits_of-IsDigit max_digits n)
      (digits_of-ne-nil 19 n) (read_digits-digits_of 19 n (omega arith)) (omega arith)
strtoimax-print_int (negsuc n) h =
    scan_negative (digits_of max_digits (suc n)) n (digits_of-IsDigit max_digits (suc n))
      (digits_of-ne-nil 19 (suc n)) (read_digits-digits_of 19 (suc n) (omega arith)) (omega arith)
