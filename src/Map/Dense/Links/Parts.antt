-- ===== src/Map/Dense/Links/Parts.antt =====
-- The iterator list in two parts, and what a change of the links between them does.
use litetvm_ffi.Prelude.{
  ℕ, List, [], ◌∷◌, ◌++◌, false, ◌≡◌, ◌≢◌, refl, sym, ◌∙◌, ◌==◌, ==_iff, inl, inr, Bool-cases,
  subst,
}
use litetvm_ffi.Map.Dense.Links.{Links, k_invalid_index, store, link_next, link_prev}
use litetvm_ffi.Map.Dense.Links.Segments.{
  first_or, last_or, Segment, Absent, Unique, Apart, All-last, first_or-append, last_or-append,
  store-other, Segment-append, Segment-store_next, Segment-store_prev, Segment-set_last,
  Segment-set_first,
}

-- The nodes of the list, in their order.
pub record IsList (l : Links) (is : List ℕ) : Type 0 where
  pub head_first : l.head ≡ first_or k_invalid_index is
  pub tail_last : l.tail ≡ last_or k_invalid_index is
  pub segment : Segment l.prev l.next k_invalid_index is k_invalid_index
  pub unique : Unique is
  pub valid : Absent k_invalid_index is

pub test_ne : (a b : ℕ) → a ≢ b → (a == b) ≡ false
test_ne a b h = elim (Bool-cases (a == b)) [ inl e ↦ absurd (h ((==_iff a b).0 e)) | inr e ↦ e ]

module _ (p n : ℕ) (l : Links) where
  link_next_first : p ≡ k_invalid_index → link_next p n l ≡ record l { head = n }
  unfolding link_next
  link_next_first h = rw (h) refl

  link_next_behind : p ≢ k_invalid_index → link_next p n l ≡ record l { next = store p n l.next }
  unfolding link_next
  link_next_behind h = rw (test_ne p k_invalid_index h) refl

module _ (n p : ℕ) (l : Links) where
  link_prev_last : n ≡ k_invalid_index → link_prev n p l ≡ record l { tail = p }
  unfolding link_prev
  link_prev_last h = rw (h) refl

  link_prev_before : n ≢ k_invalid_index → link_prev n p l ≡ record l { prev = store n p l.prev }
  unfolding link_prev
  link_prev_before h = rw (test_ne n k_invalid_index h) refl

-- The list in two parts: `is` up to a place, and `js` from it on, with `e` and `q` as the links that
-- lead over the place.
pub record Parts (l : Links) (e : ℕ) (is : List ℕ) (q : ℕ) (js : List ℕ) : Type 0 where
  pub head_first : l.head ≡ first_or e is
  pub before : Segment l.prev l.next k_invalid_index is e
  pub tail_last : l.tail ≡ last_or q js
  pub behind : Segment l.prev l.next q js k_invalid_index

pub link_next-Parts :
    (n e q : ℕ) (is js : List ℕ) (l : Links)
    → Parts l e is q js
    → Unique is
    → Absent k_invalid_index is
    → Apart is js
    → Parts (link_next (last_or k_invalid_index is) n l) n is q js
link_next-Parts n e q [] js l h u v a =
    subst (λ t. Parts t n [] q js) (sym (link_next_first k_invalid_index n l refl))
      (record { head_first = refl; before = tt; tail_last = h.tail_last; behind = h.behind })
link_next-Parts n e q (i ∷ is) js l h u v a =
    subst (λ t. Parts t n (i ∷ is) q js)
      (sym (
        link_next_behind (last_or i is) n l
          (λ p. All-last (λ t. k_invalid_index ≢ t) i is v (sym p))))
      (record {
        head_first = h.head_first;
        before = Segment-set_last l.prev l.next n k_invalid_index e i is u h.before;
        tail_last = h.tail_last;
        behind =
            Segment-store_next l.prev l.next (last_or i is) n q k_invalid_index js
              (All-last (λ t. Absent t js) i is a) h.behind;
      })

pub link_prev-Parts :
    (p e q : ℕ) (is js : List ℕ) (l : Links)
    → Parts l e is q js
    → Unique js
    → Absent k_invalid_index js
    → Apart js is
    → Parts (link_prev (first_or k_invalid_index js) p l) e is p js
link_prev-Parts p e q is [] l h u v a =
    subst (λ t. Parts t e is p []) (sym (link_prev_last k_invalid_index p l refl))
      (record { head_first = h.head_first; before = h.before; tail_last = refl; behind = tt })
link_prev-Parts p e q is (j ∷ js) l h u v a =
    subst (λ t. Parts t e is p (j ∷ js)) (sym (link_prev_before j p l (λ s. v.0 (sym s))))
      (record {
        head_first = h.head_first;
        before = Segment-store_prev l.prev l.next j p k_invalid_index e is a.0 h.before;
        tail_last = h.tail_last;
        behind = Segment-set_first l.prev l.next p q k_invalid_index j js u h.behind;
      })

-- A node that is on neither part keeps its fields.
pub link_next-other :
    (j n : ℕ) (is : List ℕ) (l : Links)
    → Absent j is
    → (link_next (last_or k_invalid_index is) n l).next j ≡ l.next j
unfolding link_next
link_next-other j n [] l a = refl
link_next-other j n (i ∷ is) l a = elim (Bool-cases (last_or i is == k_invalid_index)) [
  | inl e ↦ rw e refl
  | inr e ↦ rw e (store-other (last_or i is) j n l.next (λ p. All-last (λ t. j ≢ t) i is a (sym p)))
]

pub link_next-prev : (p n : ℕ) (l : Links) → (link_next p n l).prev ≡ l.prev
unfolding link_next
link_next-prev p n l = elim (Bool-cases (p == k_invalid_index)) [
  | inl e ↦ rw e refl
  | inr e ↦ rw e refl
]

-- The parts, once they are linked with each other
pub Parts-IsList :
    (l : Links) (is js : List ℕ)
    → Parts l (first_or k_invalid_index js) is (last_or k_invalid_index is) js
    → Unique (is ++ js)
    → Absent k_invalid_index (is ++ js)
    → IsList l (is ++ js)
Parts-IsList l is js h u v = record {
  head_first = h.head_first ∙ sym (first_or-append k_invalid_index is js);
  tail_last = h.tail_last ∙ sym (last_or-append k_invalid_index is js);
  segment = Segment-append l.prev l.next k_invalid_index k_invalid_index is js h.before h.behind;
  unique = u;
  valid = v;
}

pub link_prev-other :
    (j p : ℕ) (js : List ℕ) (l : Links)
    → Absent j js
    → (link_prev (first_or k_invalid_index js) p l).prev j ≡ l.prev j
unfolding link_prev
link_prev-other j p [] l a = refl
link_prev-other j p (i ∷ js) l a = elim (Bool-cases (i == k_invalid_index)) [
  | inl e ↦ rw e refl
  | inr e ↦ rw e (store-other i j p l.prev (λ s. a.0 (sym s)))
]

pub link_prev-next : (n p : ℕ) (l : Links) → (link_prev n p l).next ≡ l.next
unfolding link_prev
link_prev-next n p l = elim (Bool-cases (n == k_invalid_index)) [
  | inl e ↦ rw e refl
  | inr e ↦ rw e refl
]

-- The parts, once they are linked with a node between them
pub Parts-node :
    (l : Links) (is : List ℕ) (d : ℕ) (js : List ℕ)
    → Parts l d is d js
    → l.prev d ≡ last_or k_invalid_index is
    → l.next d ≡ first_or k_invalid_index js
    → Unique (is ++ d ∷ js)
    → Absent k_invalid_index (is ++ d ∷ js)
    → IsList l (is ++ d ∷ js)
Parts-node l is d js h p n u v = record {
  head_first = h.head_first ∙ sym (first_or-append k_invalid_index is (d ∷ js));
  tail_last = h.tail_last ∙ sym (last_or-append k_invalid_index is (d ∷ js));
  segment =
      Segment-append l.prev l.next k_invalid_index k_invalid_index is (d ∷ js) h.before
        (p, n, h.behind);
  unique = u;
  valid = v;
}
