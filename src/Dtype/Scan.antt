-- ===== src/Dtype/Scan.antt =====
-- `strtoul` at a printed number, and the lanes read back from their text.
use litetvm_ffi.Prelude.{
  ℕ, ◌-◌, ◌%◌, ◌^◌, ◌<◌, ◌≤◌, [], ◌∷◌, ◌++◌, Bool, true, false, none, Bytes, codes, All, ltb, leb,
  ◌==◌, if◌then◌else◌, if_cases, ◌≡◌, ◌≢◌, ◌∙◌, refl, ap, arith, append-nil,
}
use litetvm_ffi.Json.Decimal.{
  print_nat, read_digits, digits_of, max_digits, IsDigit, is_digit, digits_of-IsDigit,
  digits_of-ne-nil, read_digits-digits_of, read_digits-append,
}
use litetvm_ffi.Dtype.Types.{ok}
use litetvm_ffi.Dtype.Lanes.{
  lanes_text, strip, skip_white, scan_ulong, strtoul, finish_lanes, read_lanes, read_scaled,
  is_white,
}

-- What may stand behind a number.
abbrev pub EndsDigits : Bytes → Type 0
EndsDigits [] = Unit
EndsDigits (c ∷ s) = is_digit c ≡ false

read_digits-EndsDigits : (n : ℕ) (t : Bytes) → EndsDigits t → read_digits n t ≡ (n, t)
unfolding read_digits
read_digits-EndsDigits n [] h = refl
read_digits-EndsDigits n (c ∷ s) h = rw h

-- `strtoul` at digits.
strtoul-digits :
    (s t : Bytes)
    → s ≢ []
    → All IsDigit s
    → (n : ℕ) → n < 2 ^ 64
    → read_digits 0 (s ++ t) ≡ (n, t)
    → strtoul (s ++ t) ≡ (n, t)
unfolding strtoul skip_white scan_ulong
strtoul-digits [] t ne h n small e = absurd (ne refl)
strtoul-digits (c ∷ s) t ne h n small e =
    let white : is_white c ≡ false = ground arith in
    let plus : ((c == b'-') ≡ false) × ((c == b'+') ≡ false) = ground arith in
    let fits : leb n (2 ^ 64 - 1) ≡ true = ground arith in
    rw (white, plus.0, plus.1, h.0) (rw e (rw fits refl))

pub strtoul-print_nat :
    (n : ℕ) (t : Bytes) → n < 0x10000 → EndsDigits t → strtoul (print_nat n ++ t) ≡ (n, t)
unfolding print_nat
strtoul-print_nat n t h ends =
    let digits = digits_of-IsDigit max_digits n in
    strtoul-digits (digits_of max_digits n) t (digits_of-ne-nil 19 n) digits n (omega arith) (
      read_digits-append 0 (digits_of max_digits n) t digits
      ∙ (rw (read_digits-digits_of 19 n (omega arith)) (read_digits-EndsDigits n t ends)))

-- Lanes that are read back: neither 0 nor -1, which are printed as nothing at all.
abbrev pub IsPrintedLanes : ℕ → Type 0
IsPrintedLanes lanes = (1 ≤ lanes) × (lanes < 0xFFFF)

finish_lanes-print_nat :
    (code bits n : ℕ) (negative : Bool)
    → n < 0x10000
    → finish_lanes code bits negative (print_nat n)
      ≡ ok (record {
        code = code;
        bits = bits;
        lanes = if negative then (0x10000 - n % 0x10000) % 0x10000 else n % 0x10000;
      })
unfolding finish_lanes
finish_lanes-print_nat code bits n negative h = rw (strtoul-end n h)
  where
    strtoul-end : (n : ℕ) → n < 0x10000 → strtoul (print_nat n) ≡ (n, [])
    strtoul-end n h = rw (append-nil (print_nat n)) at (strtoul-print_nat n [] h tt)

strip-digits :
    (p : ℕ) (ps s : Bytes) → is_digit p ≡ false → s ≢ [] → All IsDigit s → strip (p ∷ ps) s ≡ none
unfolding strip
strip-digits p ps [] letter ne h = absurd (ne refl)
strip-digits p ps (x ∷ s) letter ne h =
    let differs : (p == x) ≡ false = ground (arith, h.0) in rw differs

-- No letter is the front of a printed number.
pub strip-print_nat :
    (p : ℕ) (ps : Bytes) (n : ℕ) → is_digit p ≡ false → strip (p ∷ ps) (print_nat n) ≡ none
unfolding print_nat
strip-print_nat p ps n letter =
    strip-digits p ps (digits_of max_digits n) letter (digits_of-ne-nil 19 n)
      (digits_of-IsDigit max_digits n)

module _ (code bits : ℕ) where
  read_scaled-fixed :
      (n : ℕ)
      → n < 0x10000
      → read_scaled code bits (b'x' ∷ print_nat n)
        ≡ ok (record { code = code; bits = bits; lanes = n % 0x10000 })
  unfolding read_scaled strip read_lanes
  read_scaled-fixed n h =
      rw (read_scaled, strip-print_nat b'v' (codes "scale") n refl)
        (finish_lanes-print_nat code bits n false h)

  read_scaled-scalable :
      (n : ℕ)
      → n < 0x10000
      → read_scaled code bits (codes "xvscalex" ++ print_nat n)
        ≡ ok (record { code = code; bits = bits; lanes = (0x10000 - n % 0x10000) % 0x10000 })
  unfolding read_scaled strip read_lanes
  read_scaled-scalable n h = finish_lanes-print_nat code bits n true h

  -- The lanes are read back behind the bits.
  pub read_scaled-lanes_text :
      (lanes : ℕ)
      → IsPrintedLanes lanes
      → read_scaled code bits (lanes_text lanes)
        ≡ ok (record { code = code; bits = bits; lanes = lanes })
  unfolding lanes_text
  read_scaled-lanes_text lanes (low, high) =
      let type_of = λ (l : ℕ). ok (record { code = code; bits = bits; lanes = l }) in
      let P : Bytes → Type 0 = λ w. read_scaled code bits w ≡ type_of lanes in
      if_cases P (ltb lanes 0x8000)
        (λ fixed.
          if_cases P (ltb 1 lanes)
            (λ many. read_scaled-fixed lanes (omega arith) ∙ ap type_of (omega arith))
            (λ few.
              let same : 1 ≡ lanes = ground arith in
              unfold read_scaled strip read_lanes in ap type_of same))
        (λ scalable.
          if_cases P (ltb 1 (0x10000 - lanes))
            (λ many.
              read_scaled-scalable (0x10000 - lanes) (ground arith) ∙ ap type_of (omega arith))
            (λ few. absurd (ground arith)))

pub lanes_text-EndsDigits : (lanes : ℕ) → EndsDigits (lanes_text lanes)
unfolding lanes_text
lanes_text-EndsDigits lanes =
    if_cases EndsDigits (ltb lanes 0x8000)
      (λ _. if_cases EndsDigits (ltb 1 lanes) (λ _. refl) (λ _. tt))
      (λ _. if_cases EndsDigits (ltb 1 (0x10000 - lanes)) (λ _. refl) (λ _. tt))
