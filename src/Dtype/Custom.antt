-- ===== src/Dtype/Custom.antt =====
-- The names of custom types: what ParseCustomDataTypeCode makes of a name without a closing bracket.
use litetvm_ffi.Prelude.{
  ℕ, suc, ◌+◌, ◌≤◌, ◌&&◌, not, leb, true, arith, ap, ◌∙◌, length, length-append, get_elem?, [], ◌∷◌,
  ◌++◌, false, none, Bytes, codes, All, ◌==◌, ◌≡◌, refl,
}
use litetvm_ffi.Dtype.Types.{Dlpack, CustomTypes, overread}
use litetvm_ffi.Dtype.Lanes.{strip, until_bracket, parse_custom}
use litetvm_ffi.Dtype.Parse.{parse_other_name, parse_name, string_view_to_dl_data_type}

until_bracket-none :
    (s : Bytes) (len n : ℕ)
    → All (λ c. (c == b']') ≡ false) s
    → len + length s ≤ suc n
    → until_bracket len n s ≡ len + length s
unfolding until_bracket
until_bracket-none [] len n h le = omega arith
until_bracket-none (c ∷ s) len n h le =
    let inside : (leb len n && not (c == b']')) ≡ true = rw h.0 (ground (arith, le)) in
    rw inside (until_bracket-none s (suc len) n h.1 (omega (arith, le)) ∙ omega arith)

All-snoc :
    (s : Bytes) (x : ℕ)
    → All (λ c. (c == b']') ≡ false) s
    → (x == b']') ≡ false
    → All (λ c. (c == b']') ≡ false) (s ++ x ∷ [])
All-snoc [] x h k = (k, tt)
All-snoc (c ∷ s) x h k = (h.0, All-snoc s x h.1 k)

get_elem?-length : (s : Bytes) → get_elem? s (length s) ≡ none
get_elem?-length [] = refl
get_elem?-length (x ∷ s) = get_elem?-length s

module _ (dlpack : Dlpack) (customs : CustomTypes) where
  parse_custom-overread :
      (s : Bytes) → All (λ c. (c == b']') ≡ false) s → parse_custom customs (b'[' ∷ s) ≡ overread
  unfolding parse_custom
  parse_custom-overread s h =
      let buffer = s ++ 0 ∷ [] in
      let len : until_bracket 0 (length s) buffer ≡ length buffer =
        until_bracket-none buffer 0 (length s) (All-snoc s 0 h refl)
          (omega (arith, length-append s (0 ∷ [])))
        ∙ omega arith in
      let outside : get_elem? buffer (until_bracket 0 (length s) buffer) ≡ none =
        ap (get_elem? buffer) len ∙ get_elem?-length buffer in
      rw outside refl

  -- In a name that begins with "custom[" and has no closing bracket behind it, the search for the bracket
  -- reads behind the NUL.
  pub string_view-overread :
      (s : Bytes)
      → All (λ c. (c == b']') ≡ false) s
      → string_view_to_dl_data_type dlpack customs (codes "custom[" ++ s) ≡ overread
  unfolding string_view_to_dl_data_type parse_name parse_other_name strip
  string_view-overread s h = parse_custom-overread s h
