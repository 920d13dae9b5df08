-- ===== src/Map/Dense/Links/Segments.antt =====
-- Parts of the iterator list, and what a write to one field does to them.
use litetvm_ffi.Prelude.{
  ◌⊎◌, ℕ, List, [], ◌∷◌, ◌++◌, ◌≡◌, ◌≢◌, refl, sym, ◌∙◌, ◌==◌, ==_iff, All, All-append, inl, inr,
  Bool-cases,
}
use litetvm_ffi.Map.Dense.Links.{store}

-- The first node, or what stands behind the list; the last node, or what stands before it.
abbrev pub first_or : ℕ → List ℕ → ℕ
first_or e [] = e
first_or e (i ∷ is) = i

abbrev pub last_or : ℕ → List ℕ → ℕ
last_or p [] = p
last_or p (i ∷ is) = last_or i is

-- The nodes are linked with each other, with `p` before them and `e` behind.
abbrev pub Segment : (ℕ → ℕ) → (ℕ → ℕ) → ℕ → List ℕ → ℕ → Type 0
Segment prev next p [] e = Unit
Segment prev next p (i ∷ is) e = (prev i ≡ p) × (next i ≡ first_or e is) × Segment prev next i is e

-- The node is not on the list.
abbrev pub Absent : ℕ → List ℕ → Type 0
Absent j is = All (λ i. j ≢ i) is

pub All-split : (P : ℕ → Type 0) (is js : List ℕ) → All P (is ++ js) → All P is × All P js
All-split P [] js h = (tt, h)
All-split P (i ∷ is) js h = let rest = All-split P is js h.1 in ((h.0, rest.0), rest.1)

abbrev pub Unique : List ℕ → Type 0
Unique [] = Unit
Unique (i ∷ is) = Absent i is × Unique is

pub All-last : (P : ℕ → Type 0) (i : ℕ) (is : List ℕ) → All P (i ∷ is) → P (last_or i is)
All-last P i [] h = h.0
All-last P i (j ∷ is) h = All-last P j is h.1

pub first_or-append : (e : ℕ) (is js : List ℕ) → first_or e (is ++ js) ≡ first_or (first_or e js) is
first_or-append e [] js = refl
first_or-append e (i ∷ is) js = refl

pub last_or-append : (p : ℕ) (is js : List ℕ) → last_or p (is ++ js) ≡ last_or (last_or p is) js
last_or-append p [] js = refl
last_or-append p (i ∷ is) js = last_or-append i is js

-- No node of the first list is on the second one.
abbrev pub Apart : List ℕ → List ℕ → Type 0
Apart is js = All (λ i. Absent i js) is

pub Unique-split : (is js : List ℕ) → Unique (is ++ js) → Unique is × Unique js × Apart is js
Unique-split [] js u = (tt, u, tt)
Unique-split (i ∷ is) js u =
    let rest = Unique-split is js u.1 in
    let here = All-split (λ j. i ≢ j) is js u.0 in ((here.0, rest.0), rest.1, (here.1, rest.2))

pub Unique-append : (is js : List ℕ) → Unique is → Unique js → Apart is js → Unique (is ++ js)
Unique-append [] js u v a = v
Unique-append (i ∷ is) js u v a =
    (All-append (λ j. i ≢ j) is js u.0 a.0, Unique-append is js u.1 v a.1)

Absent-cons : (i : ℕ) (is js : List ℕ) → Absent i js → Apart js is → Apart js (i ∷ is)
Absent-cons i is [] a h = tt
Absent-cons i is (j ∷ js) a h = ((λ s. a.0 (sym s), h.0), Absent-cons i is js a.1 h.1)

Apart-nil : (is : List ℕ) → Apart is []
Apart-nil [] = tt
Apart-nil (i ∷ is) = (tt, Apart-nil is)

pub Apart-sym : (is js : List ℕ) → Apart is js → Apart js is
Apart-sym [] js a = Apart-nil js
Apart-sym (i ∷ is) js a = Absent-cons i is js a.0 (Apart-sym is js a.1)

module _ {ℓ} {A : Type ℓ} where
  pub store-same : (i : ℕ) (a : A) (f : ℕ → A) → store i a f i ≡ a
  store-same i a f = rw ((==_iff i i).1 refl) refl

  pub store-other : (i j : ℕ) (a : A) (f : ℕ → A) → i ≢ j → store i a f j ≡ f j
  store-other i j a f h = elim (Bool-cases (i == j)) [
    | inl e ↦ absurd (h ((==_iff i j).0 e))
    | inr e ↦ rw e refl
  ]

  -- A read after a write, with the slot written and with another one
  pub store_cases {κ} :
      (P : A → Type κ) (i j : ℕ) (a : A) (f : ℕ → A)
      → (i ≡ j → P a)
      → (i ≢ j → P (f j))
      → P (store i a f j)
  store_cases P i j a f h k = elim (Bool-cases (i == j)) [
    | inl e ↦ rw e (h ((==_iff i j).0 e))
    | inr e ↦ rw e (k (λ p. cc ((==_iff i j).1 p, e)))
  ]

  pub store_read :
      (i j : ℕ) (a x : A) (f : ℕ → A)
      → store i a f j ≡ x
      → ((i ≡ j) × (a ≡ x)) ⊎ ((i ≢ j) × (f j ≡ x))
  store_read i j a x f =
      store_cases (λ t. t ≡ x → ((i ≡ j) × (a ≡ x)) ⊎ ((i ≢ j) × (f j ≡ x))) i j a f
        (λ same e. inl (same, e)) (λ other e. inr (other, e))

pub Segment-append :
    (prev next : ℕ → ℕ) (p e : ℕ) (is js : List ℕ)
    → Segment prev next p is (first_or e js)
    → Segment prev next (last_or p is) js e
    → Segment prev next p (is ++ js) e
Segment-append prev next p e [] js h k = k
Segment-append prev next p e (i ∷ []) js h k = (h.0, h.1, k)
Segment-append prev next p e (i ∷ j ∷ is) js h k =
    (h.0, h.1, Segment-append prev next i e (j ∷ is) js h.2 k)

pub Segment-split :
    (prev next : ℕ → ℕ) (p e : ℕ) (is js : List ℕ)
    → Segment prev next p (is ++ js) e
    → Segment prev next p is (first_or e js) × Segment prev next (last_or p is) js e
Segment-split prev next p e [] js h = (tt, h)
Segment-split prev next p e (i ∷ []) js h = ((h.0, h.1, tt), h.2)
Segment-split prev next p e (i ∷ j ∷ is) js h =
    let rest = Segment-split prev next i e (j ∷ is) js h.2 in ((h.0, h.1, rest.0), rest.1)

module _ (prev next : ℕ → ℕ) where
  -- A write to a node that is not on the list
  pub Segment-store_next :
      (j n p e : ℕ) (is : List ℕ)
      → Absent j is
      → Segment prev next p is e
      → Segment prev (store j n next) p is e
  Segment-store_next j n p e [] a h = tt
  Segment-store_next j n p e (i ∷ is) a h =
      (h.0, store-other j i n next a.0 ∙ h.1, Segment-store_next j n i e is a.1 h.2)

  pub Segment-store_prev :
      (j q p e : ℕ) (is : List ℕ)
      → Absent j is
      → Segment prev next p is e
      → Segment (store j q prev) next p is e
  Segment-store_prev j q p e [] a h = tt
  Segment-store_prev j q p e (i ∷ is) a h =
      (store-other j i q prev a.0 ∙ h.0, h.1, Segment-store_prev j q i e is a.1 h.2)

  -- A write to the last node's next field, and to the first one's prev field
  pub Segment-set_last :
      (n p e : ℕ) (i : ℕ) (is : List ℕ)
      → Unique (i ∷ is)
      → Segment prev next p (i ∷ is) e
      → Segment prev (store (last_or i is) n next) p (i ∷ is) n
  Segment-set_last n p e i [] u h = (h.0, store-same i n next, tt)
  Segment-set_last n p e i (j ∷ is) u h = (
    h.0,
    store-other (last_or j is) i n next (λ s. All-last (λ t. i ≢ t) j is u.0 (sym s)) ∙ h.1,
    Segment-set_last n i e j is u.1 h.2,
  )

  pub Segment-set_first :
      (q p e : ℕ) (i : ℕ) (is : List ℕ)
      → Unique (i ∷ is)
      → Segment prev next p (i ∷ is) e
      → Segment (store i q prev) next q (i ∷ is) e
  Segment-set_first q p e i is u h =
      (store-same i q prev, h.1, Segment-store_prev i q i e is u.0 h.2)
