-- ===== src/Map/Dense/Links/Iterate.antt =====
-- The iterators of the dense layout follow the iterator list.
use litetvm_ffi.Prelude.{ℕ, List, [], ◌∷◌, ◌++◌, some, ◌≡◌, ◌≢◌, refl, sym, ap, ◌∙◌, length}
use litetvm_ffi.Map.Dense.Links.{Links, k_invalid_index, inc_itr, dec_itr, iterate}
use litetvm_ffi.Map.Dense.Links.Segments.{
  first_or, Segment, Absent, Segment-split, All-split, last_or-append,
}
use litetvm_ffi.Map.Dense.Links.Parts.{IsList, test_ne}

module _ (l : Links) where
  iterate_segment :
      (p : ℕ) (is : List ℕ)
      → Segment l.prev l.next p is k_invalid_index
      → Absent k_invalid_index is
      → iterate (length is) (first_or k_invalid_index is) l ≡ some is
  unfolding iterate inc_itr
  iterate_segment p [] s v = refl
  iterate_segment p (i ∷ is) s v =
      rw (test_ne i k_invalid_index (λ e. v.0 (sym e)), s.1, iterate_segment i is s.2 v.1) refl

  -- The iterators from `begin()` to `end()` are the nodes of the list, in their order.
  pub iterate-IsList : (is : List ℕ) → IsList l is → iterate (length is) l.head l ≡ some is
  iterate-IsList is h =
      ap (λ i. iterate (length is) i l) h.head_first
      ∙ iterate_segment k_invalid_index is h.segment h.valid

  -- `--` undoes `++` on every iterator of the list, also on the last one, which `++` takes to `end()`.
  pub dec_itr-inc_itr :
      (is : List ℕ) (i : ℕ) (js : List ℕ) → IsList l (is ++ i ∷ js) → dec_itr (inc_itr i l) l ≡ i
  unfolding inc_itr dec_itr
  dec_itr-inc_itr is i [] h =
      let v = All-split (λ t. k_invalid_index ≢ t) is (i ∷ []) h.valid in
      let s = Segment-split l.prev l.next k_invalid_index k_invalid_index is (i ∷ []) h.segment in
      rw (test_ne i k_invalid_index (λ e. v.1.0 (sym e)), s.1.1)
        (h.tail_last ∙ last_or-append k_invalid_index is (i ∷ []))
  dec_itr-inc_itr is i (j ∷ js) h =
      let v = All-split (λ t. k_invalid_index ≢ t) is (i ∷ j ∷ js) h.valid in
      let s =
        Segment-split l.prev l.next k_invalid_index k_invalid_index is (i ∷ j ∷ js) h.segment in
      rw
        (
          test_ne i k_invalid_index (λ e. v.1.0 (sym e)),
          s.1.1,
          test_ne j k_invalid_index (λ e. v.1.1.0 (sym e)),
        )
        s.1.2.0
