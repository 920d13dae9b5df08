-- ===== src/TypeTable/Attributes.antt =====
-- The columns of attributes are a function of the attribute's name and the type's index.
use litetvm_ffi.Prelude.{
  ℕ, zero, suc, ◌-◌, ◌≤◌, ◌<◌, Option, none, some, List, [], ◌∷◌, ◌++◌, ◌≡◌, refl, sym, ap, subst,
  ◌∙◌, ◌⊎◌, inl, inr, arith, ltb, ◌==◌, if◌then◌else◌, length, get_elem?, get_or, replicate,
  Bool-cases, Option-cases, length-append, get_elem?-snoc, get_elem?-snoc_cases, get_elem?-append,
  leb,
}
use litetvm_ffi.Map.Assoc.{KeyApi, lookup, upsert, lookup-upsert, any_equal_refl}
use litetvm_ffi.TypeTable.Result.{ok}
use litetvm_ffi.TypeTable.Members.{
  Column, Registry, enlarge, read_column, set, column_index, get_type_attr_column,
}

ℕ_some : (a b : ℕ) → some a ≡ some b → a ≡ b
ℕ_some a b e = cc

module _ {A : Type 0} where
  pub length-set : (xs : List A) (i : ℕ) (v : A) → length (set xs i v) ≡ length xs
  length-set [] i v = refl
  length-set (x ∷ xs) zero v = refl
  length-set (x ∷ xs) (suc i) v = ap suc (length-set xs i v)

  pub get_elem?-set :
      (xs : List A) (i j : ℕ) (v : A)
      → i < length xs
      → get_elem? (set xs i v) j ≡ (if i == j then some v else get_elem? xs j)
  get_elem?-set [] i j v h = absurd (omega (arith, h))
  get_elem?-set (x ∷ xs) zero zero v h = refl
  get_elem?-set (x ∷ xs) zero (suc j) v h = ground arith
  get_elem?-set (x ∷ xs) (suc i) zero v h = ground arith
  get_elem?-set (x ∷ xs) (suc i) (suc j) v h =
      get_elem?-set xs i j v (omega (arith, h)) ∙ ground arith

  pub get_elem?-lt : (xs : List A) (i : ℕ) (a : A) → get_elem? xs i ≡ some a → i < length xs
  get_elem?-lt [] i a e = absurd (cc e)
  get_elem?-lt (x ∷ xs) zero a e = omega arith
  get_elem?-lt (x ∷ xs) (suc i) a e = omega (arith, get_elem?-lt xs i a e)

  pub lt-get_elem? : (xs : List A) (i : ℕ) → i < length xs → (a : A) × (get_elem? xs i ≡ some a)
  lt-get_elem? [] i h = absurd (omega (arith, h))
  lt-get_elem? (x ∷ xs) zero h = (x, refl)
  lt-get_elem? (x ∷ xs) (suc i) h = lt-get_elem? xs i (omega (arith, h))

  pub get_or-get_elem? :
      (xs : List A) (i : ℕ) (a d : A) → get_elem? xs i ≡ some a → get_or xs i d ≡ a
  get_or-get_elem? [] i a d e = absurd (cc e)
  get_or-get_elem? (x ∷ xs) zero a d e = cc
  get_or-get_elem? (x ∷ xs) (suc i) a d e = get_or-get_elem? xs i a d e

  get_or-replicate : (n i : ℕ) (d : A) → get_or (replicate n d) i d ≡ d
  get_or-replicate zero i d = refl
  get_or-replicate (suc n) zero d = refl
  get_or-replicate (suc n) (suc i) d = get_or-replicate n i d

  get_or-append_replicate :
      (xs : List A) (n i : ℕ) (d : A) → get_or (xs ++ replicate n d) i d ≡ get_or xs i d
  get_or-append_replicate [] n i d = get_or-replicate n i d
  get_or-append_replicate (x ∷ xs) n zero d = refl
  get_or-append_replicate (x ∷ xs) n (suc i) d = get_or-append_replicate xs n i d

  length-replicate : (n : ℕ) (d : A) → length (replicate n d) ≡ n
  length-replicate zero d = refl
  length-replicate (suc n) d = ap suc (length-replicate n d)

  pub get_or-set :
      (xs : List A) (i j : ℕ) (v d : A)
      → i < length xs
      → get_or (set xs i v) j d ≡ (if i == j then v else get_or xs j d)
  get_or-set [] i j v d h = absurd (omega (arith, h))
  get_or-set (x ∷ xs) zero zero v d h = refl
  get_or-set (x ∷ xs) zero (suc j) v d h = ground arith
  get_or-set (x ∷ xs) (suc i) zero v d h = ground arith
  get_or-set (x ∷ xs) (suc i) (suc j) v d h =
      get_or-set xs i j v d (omega (arith, h)) ∙ ground arith

module _ {V : Type 0} where
  pub column_some : (a b : Column V) → some a ≡ some b → a ≡ b
  column_some a b e = cc

  -- The size that the C interface sees is that of the values.
  abbrev pub IsSized : Column V → Type 0
  IsSized c = c.size ≡ length c.data_

  get_or-behind : (xs : List (Option V)) (j : ℕ) → length xs ≤ j → get_or xs j none ≡ none
  get_or-behind [] j h = refl
  get_or-behind (x ∷ xs) zero h = absurd (omega (arith, h))
  get_or-behind (x ∷ xs) (suc j) h = get_or-behind xs j (omega (arith, h))

  pub read_column-IsSized :
      (j : ℕ) (c : Column V) → IsSized c → read_column j c ≡ get_or c.data_ j none
  read_column-IsSized j c sized = elim (Bool-cases (leb c.size j)) [
    | inl behind ↦ rw behind (sym (get_or-behind c.data_ j (ground (arith, behind, sized))))
    | inr inside ↦ rw inside refl
  ]

  pub enlarge-IsSized : (n : ℕ) (c : Column V) → IsSized c → IsSized (enlarge n c)
  enlarge-IsSized n c sized = elim (Bool-cases (ltb (length c.data_) n)) [
    | inl less ↦ rw less refl
    | inr more ↦ rw more sized
  ]

  pub read_column-enlarge :
      (n j : ℕ) (c : Column V) → IsSized c → read_column j (enlarge n c) ≡ read_column j c
  read_column-enlarge n j c sized =
      read_column-IsSized j (enlarge n c) (enlarge-IsSized n c sized)
      ∙ same
      ∙ sym (read_column-IsSized j c sized)
    where
      same : get_or (enlarge n c).data_ j none ≡ get_or c.data_ j none
      same = elim (Bool-cases (ltb (length c.data_) n)) [
        | inl less ↦ rw less (get_or-append_replicate c.data_ (n - length c.data_) j none)
        | inr more ↦ rw more refl
      ]

  pub length-enlarge : (n : ℕ) (c : Column V) → n ≤ length (enlarge n c).data_
  length-enlarge n c = elim (Bool-cases (ltb (length c.data_) n)) [
    | inl less ↦
        let empty : Option V = none in
        rw less (
          omega (
            arith,
            length-append {0} c.data_ (replicate (n - length c.data_) none),
            length-replicate (n - length c.data_) empty,
          ))
    | inr more ↦ rw more (ground (arith, more))
  ]

module _ {K V : Type 0} (keys : KeyApi K) where
  open keys use {any_equal, any_equal_iff}

  -- The value of an attribute for a type, as TypeAttrColumn reads it; none where there is no column
  unfoldable pub attr : K → ℕ → Registry K V → Option V
  unfolding get_type_attr_column
  attr q j r = elim (get_type_attr_column keys q r) [ none ↦ none | some c ↦ read_column j c ]

  -- Every name has a column of its own, and every column has its size.
  pub record IsColumned (r : Registry K V) : Type 0 where
    pub within :
        (q : K) (c : ℕ)
        → lookup keys q r.type_attr_name_to_column_index ≡ some c
        → c < length r.type_attr_columns
    pub own :
        (p q : K) (c : ℕ)
        → lookup keys p r.type_attr_name_to_column_index ≡ some c
        → lookup keys q r.type_attr_name_to_column_index ≡ some c
        → p ≡ q
    pub sized :
        (c : ℕ) (column : Column V) → get_elem? r.type_attr_columns c ≡ some column → IsSized column

  -- What `column_index` leaves: the name has the column, and no attribute has changed.
  pub record Found (name : K) (r : Registry K V) : Type 0 where
    pub index : ℕ
    pub later : Registry K V
    pub column : Column V
    pub returns : column_index keys name r ≡ (ok index, later)
    pub named : lookup keys name later.type_attr_name_to_column_index ≡ some index
    pub there : get_elem? later.type_attr_columns index ≡ some column
    pub same : (q : K) (j : ℕ) → attr q j later ≡ attr q j r
    pub columned : IsColumned later
    pub same_types : later.types ≡ r.types

  pub attr-named :
      (q : K) (j c : ℕ) (column : Column V) (r : Registry K V)
      → lookup keys q r.type_attr_name_to_column_index ≡ some c
      → get_elem? r.type_attr_columns c ≡ some column
      → attr q j r ≡ read_column j column
  unfolding attr get_type_attr_column
  attr-named q j c column r named there = rw (named, attr, get_type_attr_column) (rw there refl)

  pub attr-unnamed :
      (q : K) (j : ℕ) (r : Registry K V)
      → lookup keys q r.type_attr_name_to_column_index ≡ none
      → attr q j r ≡ none
  unfolding attr get_type_attr_column
  attr-unnamed q j r e = rw (e, attr, get_type_attr_column) refl

  module _ (name : K) (r : Registry K V)
      (fresh : lookup keys name r.type_attr_name_to_column_index ≡ none) (v : IsColumned r) where
    abbrev n : ℕ
    n = length r.type_attr_columns

    abbrev empty_column : Column V
    empty_column = record { data_ = []; size = 0 }

    abbrev added : Registry K V
    added = record r {
      type_attr_columns = r.type_attr_columns ++ empty_column ∷ [];
      type_attr_name_to_column_index = upsert keys name n r.type_attr_name_to_column_index;
    }

    named_after :
        (q : K)
        → lookup keys q added.type_attr_name_to_column_index
          ≡ (if any_equal name q then some n else lookup keys q r.type_attr_name_to_column_index)
    named_after q = lookup-upsert keys name q n r.type_attr_name_to_column_index

    named_cases :
        (q : K) (c : ℕ)
        → lookup keys q added.type_attr_name_to_column_index ≡ some c
        → ((name ≡ q) × (c ≡ n)) ⊎ (lookup keys q r.type_attr_name_to_column_index ≡ some c)
    named_cases q c e = elim (Bool-cases (any_equal name q)) [
      | inl same ↦
          let there : some n ≡ some c =
            ap (λ b. if b then some n else lookup keys q r.type_attr_name_to_column_index)
              (sym same)
            ∙ sym (named_after q)
            ∙ e in
          inl ((any_equal_iff name q).0 same, ℕ_some c n (sym there))
      | inr other ↦ inr (
          ap (λ b. if b then some n else lookup keys q r.type_attr_name_to_column_index) (sym other)
          ∙ sym (named_after q)
          ∙ e)
    ]

    added-IsColumned : IsColumned added
    added-IsColumned = record {
      within = λ q c e. elim (named_cases q c e) [
        | inl (same, last) ↦
            omega (arith, last, length-append {0} r.type_attr_columns (empty_column ∷ []))
        | inr old ↦
            omega
              (arith, v.within q c old, length-append {0} r.type_attr_columns (empty_column ∷ []))
      ];
      own = λ p q c e f. elim (named_cases p c e) [
        | inl (same, last) ↦ elim (named_cases q c f) [
          | inl (same', last') ↦ sym same ∙ same'
          | inr old ↦ absurd (omega (arith, last, v.within q c old))
        ]
        | inr old ↦ elim (named_cases q c f) [
          | inl (same', last') ↦ absurd (omega (arith, last', v.within p c old))
          | inr old' ↦ v.own p q c old old'
        ]
      ];
      sized = λ c column e.
          elim (get_elem?-snoc_cases r.type_attr_columns empty_column column c e) [
            | inl (inside, old) ↦ v.sized c column old
            | inr (last, same) ↦
                subst (λ (x : Column V). IsSized x) (column_some empty_column column same) refl
          ];
    }

    added-attr : (q : K) (j : ℕ) → attr q j added ≡ attr q j r
    added-attr q j = elim (Bool-cases (any_equal name q)) [
      | inl same ↦
          attr-named q j n empty_column added (named_after q ∙ rw same refl)
            (get_elem?-snoc r.type_attr_columns empty_column)
          ∙ read_column-IsSized j empty_column refl
          ∙ sym (
              attr-unnamed q j r (
                ap (λ k. lookup keys k r.type_attr_name_to_column_index)
                  (sym ((any_equal_iff name q).0 same))
                ∙ fresh))
      | inr other ↦ elim (Option-cases (lookup keys q r.type_attr_name_to_column_index)) [
        | inl e ↦ attr-unnamed q j added (named_after q ∙ rw other e) ∙ sym (attr-unnamed q j r e)
        | inr (c, e) ↦
            let (column, there) = lt-get_elem? r.type_attr_columns c (v.within q c e) in
            attr-named q j c column added (named_after q ∙ rw other e)
              (get_elem?-append r.type_attr_columns (empty_column ∷ []) c column there)
            ∙ sym (attr-named q j c column r e there)
      ]
    ]

  pub column_index-Found : (name : K) (r : Registry K V) → IsColumned r → Found name r
  unfolding column_index
  column_index-Found name r v =
      elim (Option-cases (lookup keys name r.type_attr_name_to_column_index)) [
        | inl fresh ↦ record {
          index = length r.type_attr_columns;
          later = added name r fresh v;
          column = record { data_ = []; size = 0 };
          returns = rw (fresh, column_index) refl;
          named = named_after name r fresh v name ∙ rw (any_equal_refl keys name) refl;
          there = get_elem?-snoc r.type_attr_columns (record { data_ = []; size = 0 });
          same = added-attr name r fresh v;
          same_types = refl;
          columned = added-IsColumned name r fresh v;
        }
        | inr (c, e) ↦
            let (column, there) = lt-get_elem? r.type_attr_columns c (v.within name c e) in
            record {
              index = c;
              later = r;
              column = column;
              returns = rw (e, column_index) refl;
              named = e;
              there = there;
              same = λ q j. refl;
              same_types = refl;
              columned = v;
            }
      ]
