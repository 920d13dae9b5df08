-- ===== src/Map/Dense/Table/Chains.antt =====
-- The lists of slots that the hash table keeps, one for every home slot that has keys.
use litetvm_ffi.Prelude.{
  ℕ, zero, suc, ◌≤◌, ◌<◌, ◌^◌, List, [], ◌∷◌, true, false, none, some, ◌≡◌, ◌≢◌, ◌⊎◌, inl, inr,
  refl, sym, subst, arith, length, ◌==◌, ==_iff, if◌then◌else◌, All, Bool-cases,
}
use litetvm_ffi.Map.Assoc.{KeyApi}
use litetvm_ffi.Map.Outcome.{ok}
use litetvm_ffi.Map.Dense.Links.Segments.{Absent, Unique}
use litetvm_ffi.Map.Dense.Node.{Dense, is_head, is_empty, move_to_next, home}

-- The slot is on the list.
abbrev pub In : ℕ → List ℕ → Type 0
In j [] = ⊥
In j (i ∷ is) = (j ≡ i) ⊎ In j is

module _ (P : ℕ → Type 0) where
  pub All-In : (j : ℕ) (is : List ℕ) → All P is → In j is → P j
  All-In j [] h m = absurd m
  All-In j (i ∷ is) h (inl e) = subst P (sym e) h.0
  All-In j (i ∷ is) h (inr m) = All-In j is h.1 m

  pub All-by_In : (is : List ℕ) → ((j : ℕ) → In j is → P j) → All P is
  All-by_In [] h = tt
  All-by_In (i ∷ is) h = (h i (inl refl), All-by_In is (λ j m. h j (inr m)))

-- A list of different slots below a bound is not longer than the bound.
module _ (n : ℕ) where
  without : List ℕ → List ℕ
  without [] = []
  without (i ∷ is) = if i == n then is else i ∷ without is

  without-All : (P : ℕ → Type 0) (is : List ℕ) → All P is → All P (without is)
  unfolding without
  without-All P [] h = tt
  without-All P (i ∷ is) h = elim (Bool-cases (i == n)) [
    | inl e ↦ rw e h.1
    | inr e ↦ rw e (h.0, without-All P is h.1)
  ]

  without-Unique : (is : List ℕ) → Unique is → Unique (without is)
  unfolding without
  without-Unique [] h = tt
  without-Unique (i ∷ is) h = elim (Bool-cases (i == n)) [
    | inl e ↦ rw e h.1
    | inr e ↦ rw e (without-All (λ j. i ≢ j) is h.0, without-Unique is h.1)
  ]

  below : (is : List ℕ) → Absent n is → All (λ i. i < suc n) is → All (λ i. i < n) is
  below [] a h = tt
  below (i ∷ is) a h = (
    elim (Bool-cases (i == n)) [
      | inl e ↦ absurd (a.0 (sym ((==_iff i n).0 e)))
      | inr e ↦ ground (arith, e, h.0)
    ],
    below is a.1 h.1,
  )

  without-below :
      (is : List ℕ) → Unique is → All (λ i. i < suc n) is → All (λ i. i < n) (without is)
  unfolding without
  without-below [] u h = tt
  without-below (i ∷ is) u h = elim (Bool-cases (i == n)) [
    | inl e ↦ rw e (below is (subst (λ t. Absent t is) ((==_iff i n).0 e) u.0) h.1)
    | inr e ↦ rw e (ground (arith, e, h.0), without-below is u.1 h.1)
  ]

  length-without : (is : List ℕ) → length is ≤ suc (length (without is))
  unfolding without
  length-without [] = omega arith
  length-without (i ∷ is) = elim (Bool-cases (i == n)) [
    | inl e ↦ rw e (omega arith)
    | inr e ↦ rw e (omega (arith, length-without is))
  ]

pub length-Unique : (n : ℕ) (is : List ℕ) → Unique is → All (λ i. i < n) is → length is ≤ n
length-Unique zero [] u h = omega arith
length-Unique zero (i ∷ is) u h = absurd (omega (arith, h.0))
length-Unique (suc n) is u h = omega (
  arith,
  length-without n is,
  length-Unique n (without n is) (without-Unique n is u) (without-below n is u h),
)

module _ {K V : Type 0} where
  -- The slots that the metadata leads to from a slot on
  abbrev pub Chain : Dense K V → ℕ → List ℕ → Type 0
  Chain m i [] = move_to_next i (m.meta i) m ≡ ok none
  Chain m i (j ∷ js) = (move_to_next i (m.meta i) m ≡ ok (some j)) × Chain m j js

module _ {K V : Type 0} (keys : KeyApi K) where
  -- The slot has a key whose home is `h`.
  abbrev pub Belongs : Dense K V → ℕ → ℕ → Type 0
  Belongs m h i = (kv : K × V) × (m.items i ≡ some kv) × (home keys kv.0 m ≡ h) × (i < m.slots)

  -- The slots of a home slot: itself and the tail of its list
  pub record IsList (m : Dense K V) (h : ℕ) (tail : List ℕ) : Type 0 where
    pub chain : Chain m h tail
    pub nodes : All (Belongs m h) (h ∷ tail)
    pub unique : Unique (h ∷ tail)
    pub bodies : All (λ i. is_head (m.meta i) ≡ false) tail

  -- The table: every head has its list, and every key is on the list of its home slot.
  pub record IsTable (m : Dense K V) (tails : ℕ → List ℕ) : Type 0 where
    pub lists : (h : ℕ) → is_head (m.meta h) ≡ true → IsList m h (tails h)
    pub listed :
        (i : ℕ) (kv : K × V)
        → m.items i ≡ some kv
        → (is_head (m.meta (home keys kv.0 m)) ≡ true)
          × In i (home keys kv.0 m ∷ tails (home keys kv.0 m))
    pub vacant : (i : ℕ) → is_empty (m.meta i) ≡ true → m.items i ≡ none
    pub taken :
        (i : ℕ) → is_empty (m.meta i) ≡ false → i < m.slots × ((kv : K × V) × (m.items i ≡ some kv))
    pub few : m.slots < 2 ^ 64
    pub homes : (k : K) → home keys k m < m.slots

  pub IsTable-inside :
      (m : Dense K V) (tails : ℕ → List ℕ) (i : ℕ) (kv : K × V)
      → IsTable m tails
      → m.items i ≡ some kv
      → i < m.slots
  IsTable-inside m tails i kv t here = elim (Bool-cases (is_empty (m.meta i))) [
    | inl e ↦ absurd (cc (t.vacant i e, here))
    | inr e ↦ (t.taken i e).0
  ]
