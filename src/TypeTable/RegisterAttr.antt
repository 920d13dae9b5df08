-- ===== src/TypeTable/RegisterAttr.antt =====
-- `RegisterTypeAttr` sets one attribute of one type, once.
use litetvm_ffi.Prelude.{
  ℕ, ◌+◌, ◌<◌, true, false, ◌&&◌, Option, none, some, ◌≡◌, ◌≢◌, refl, sym, ap, subst, ◌∙◌, inl, inr,
  arith, ltb, ◌==◌, ==_iff, if◌then◌else◌, length, get_elem?, Bool-cases, Option-cases,
}
use litetvm_ffi.Map.Assoc.{KeyApi, lookup}
use litetvm_ffi.TypeTable.Result.{Fault, Result, ok, err, runtime_error, exited}
use litetvm_ffi.TypeTable.{get_type_entry}
use litetvm_ffi.TypeTable.Rules.{bind-ok}
use litetvm_ffi.TypeTable.Members.{
  Types, Column, Registry, read_column, enlarge, set, column_index, already_set, set_attr,
  register_type_attr,
}
use litetvm_ffi.TypeTable.Attributes.{
  attr, attr-named, attr-unnamed, IsColumned, Found, column_index-Found, length-set, get_elem?-set,
  get_elem?-lt, lt-get_elem?, get_or-get_elem?, get_or-set, length-enlarge, column_some, IsSized,
  read_column-IsSized, enlarge-IsSized, read_column-enlarge,
}

already_set_lem :
    {K : Type 0} (i : ℕ) (t : Types K)
    → already_set i t ≡ (
        if ltb i t.size
        then (elim (t.entry i) [ none ↦ exited | some e ↦ runtime_error ])
        else exited)
unfolding already_set get_type_entry
already_set_lem i t = elim (Bool-cases (ltb i t.size)) [
  | inl inside ↦ elim (Option-cases (t.entry i)) [
    | inl free ↦ rw (inside, already_set, get_type_entry) (rw free refl)
    | inr (e, there) ↦ rw (inside, already_set, get_type_entry) (rw there refl)
  ]
  | inr outside ↦ rw (outside, already_set, get_type_entry) refl
]

module _ {K V : Type 0} (keys : KeyApi K) where
  open keys use {any_equal, any_equal_iff}

  module _ (name : K) (u : Registry K V) (c : ℕ) (old column : Column V) (v : IsColumned keys u)
      (named : lookup keys name u.type_attr_name_to_column_index ≡ some c)
      (there : get_elem? u.type_attr_columns c ≡ some old) (whole : IsSized column) where
    -- One column is written.
    abbrev written : Registry K V
    written = record u { type_attr_columns = set u.type_attr_columns c column }

    within : c < length u.type_attr_columns
    within = get_elem?-lt u.type_attr_columns c old there

    written-IsColumned : IsColumned keys written
    written-IsColumned = record {
      within = λ q d e. omega (arith, v.within q d e, length-set u.type_attr_columns c column);
      own = v.own;
      sized = λ d x e. elim (Bool-cases (c == d)) [
        | inl same ↦
            subst (λ (y : Column V). IsSized y)
              (column_some column x (
                ap (λ b. if b then some column else get_elem? u.type_attr_columns d) (sym same)
                ∙ sym (get_elem?-set u.type_attr_columns c d column within)
                ∙ e))
              whole
        | inr other ↦ v.sized d x (
            ap (λ b. if b then some column else get_elem? u.type_attr_columns d) (sym other)
            ∙ sym (get_elem?-set u.type_attr_columns c d column within)
            ∙ e)
      ];
    }

    written_self : (j : ℕ) → attr keys name j written ≡ read_column j column
    written_self j = attr-named keys name j c column written named (
        get_elem?-set u.type_attr_columns c c column within
        ∙ ap (λ b. if b then some column else get_elem? u.type_attr_columns c)
            ((==_iff c c).1 refl))

    written-other :
        (q : K) (j : ℕ) → any_equal name q ≡ false → attr keys q j written ≡ attr keys q j u
    written-other q j other = elim (Option-cases (lookup keys q u.type_attr_name_to_column_index)) [
      | inl e ↦ attr-unnamed keys q j written e ∙ sym (attr-unnamed keys q j u e)
      | inr (d, e) ↦
          let (at_d, there') = lt-get_elem? u.type_attr_columns d (v.within q d e) in
          elim (Bool-cases (c == d)) [
            | inl same ↦
                let one : name ≡ q =
                  v.own name q c named (e ∙ ap some (sym ((==_iff c d).0 same))) in
                let clash : true ≡ false = sym ((any_equal_iff name q).1 one) ∙ other in
                absurd (cc clash)
            | inr apart ↦
                attr-named keys q j d at_d written e
                  (get_elem?-set u.type_attr_columns c d column within ∙ rw apart there')
                ∙ sym (attr-named keys q j d at_d u e there')
          ]
    ]

    -- The attributes behind a write that changes the column as `f` says
    written-attr :
        (q : K) (j : ℕ)
        → attr keys q j written
          ≡ (if any_equal name q then read_column j column else attr keys q j u)
    written-attr q j = elim (Bool-cases (any_equal name q)) [
      | inl same ↦
          ap (λ k. attr keys k j written) (sym ((any_equal_iff name q).0 same))
          ∙ written_self j
          ∙ ap (λ b. if b then read_column j column else attr keys q j u) (sym same)
      | inr other ↦
          written-other q j other
          ∙ ap (λ b. if b then read_column j column else attr keys q j u) (sym other)
    ]

  -- The rest of `register_type_attr` behind the choice of the column
  module _ (i : ℕ) (name : K) (r : Registry K V) (h : IsColumned keys r) (some_type : i ≢ 0) where
    found : Found keys name r
    found = column_index-Found keys name r h

    column-IsSized : IsSized found.column
    column-IsSized = found.columned.sized found.index found.column found.there

    abbrev larger : Column V
    larger = enlarge (i + 1) found.column

    larger-IsSized : IsSized larger
    larger-IsSized = enlarge-IsSized (i + 1) found.column column-IsSized

    in_larger : i < length larger.data_
    in_larger = omega (arith, length-enlarge (i + 1) found.column)

    now : attr keys name i r ≡ read_column i larger
    now =
        sym (found.same name i)
        ∙ attr-named keys name i found.index found.column found.later found.named found.there
        ∙ sym (read_column-enlarge (i + 1) i found.column column-IsSized)

    at_type : (o : Option V) → attr keys name i r ≡ o → get_elem? larger.data_ i ≡ some o
    at_type o e =
        let (x, there) = lt-get_elem? larger.data_ i in_larger in
        there
        ∙ ap some (
            sym (get_or-get_elem? larger.data_ i x none there)
            ∙ sym (read_column-IsSized i larger larger-IsSized)
            ∙ sym now
            ∙ e)

    not_zero : (i == 0) ≡ false
    not_zero = ground (arith, some_type)

    column_is :
        (q : K) (j : ℕ)
        → any_equal name q ≡ true
        → attr keys q j found.later ≡ read_column j found.column
    column_is q j same =
        ap (λ k. attr keys k j found.later) (sym ((any_equal_iff name q).0 same))
        ∙ attr-named keys name j found.index found.column found.later found.named found.there

    -- What `set_attr` does where the type has or has not a value
    answer : Option V → Option V → Result (Unit {0}) × Registry K V
    answer v none = (
      ok tt,
      record found.later {
        type_attr_columns =
            set found.later.type_attr_columns found.index
              (record larger { data_ = set larger.data_ i v });
      },
    )
    answer v (some w) = (
      err (already_set i found.later.types),
      record found.later {
        type_attr_columns = set found.later.type_attr_columns found.index larger;
      },
    )

    set_attr-at :
        (v o : Option V)
        → get_elem? larger.data_ i ≡ some o
        → set_attr i v found.index found.later ≡ answer v o
    unfolding set_attr answer
    set_attr-at v none e = rw (found.there, set_attr) (rw not_zero (rw e refl))
    set_attr-at v (some w) e = rw (found.there, set_attr) (rw not_zero (rw e refl))

    -- For a type that has no value of the attribute yet, and that is not kTVMFFINone, RegisterTypeAttr
    -- returns. The attribute of the type is then the given value, and every other attribute, of the same
    -- name or another one, is what it was.
    pub register_type_attr-attr :
        (v : Option V)
        → attr keys name i r ≡ none
        → (u : Registry K V) × (register_type_attr keys i name v r ≡ (ok tt, u))
          × IsColumned keys u
          × ((q : K) (j : ℕ)
              → attr keys q j u ≡ (if any_equal name q && i == j then v else attr keys q j r))
    unfolding register_type_attr answer
    register_type_attr-attr v free =
        let u = found.later in
        let c = found.index in
        let column : Column V = record larger { data_ = set larger.data_ i v } in
        let whole : IsSized column = larger-IsSized ∙ sym (length-set larger.data_ i v) in
        (
          written name u c found.column column found.columned found.named found.there whole,
          bind-ok (column_index keys name) (set_attr i v) r c u found.returns
              ∙ set_attr-at v none (at_type none free),
          written-IsColumned name u c found.column column found.columned found.named found.there
              whole,
          λ q j.
              written-attr name u c found.column column found.columned found.named found.there whole
                q j
              ∙ elim (Bool-cases (any_equal name q)) [
                | inl same ↦ rw same (
                    read_column-IsSized j column whole
                    ∙ get_or-set larger.data_ i j v none in_larger
                    ∙ ap (λ x. if i == j then v else x)
                        (sym (read_column-IsSized j larger larger-IsSized)
                          ∙ read_column-enlarge (i + 1) j found.column column-IsSized
                          ∙ sym (column_is q j same)
                          ∙ found.same q j))
                | inr other ↦ rw other (found.same q j)
              ],
        )

    -- For a type that has a value of the attribute, and that is not kTVMFFINone, RegisterTypeAttr throws a
    -- RuntimeError if the type has an entry in the table, and otherwise the process exits while the message
    -- is made. Every attribute is what it was.
    pub register_type_attr-refuses :
        (v : Option V) (w : V)
        → attr keys name i r ≡ some w
        → (u : Registry K V) × (register_type_attr keys i name v r ≡ (
          err (
              if ltb i r.types.size
              then (elim (r.types.entry i) [ none ↦ exited | some e ↦ runtime_error ])
              else exited),
          u,
        ))
          × ((q : K) (j : ℕ) → attr keys q j u ≡ attr keys q j r)
    unfolding register_type_attr answer
    register_type_attr-refuses v w taken =
        let u = found.later in
        let c = found.index in
        (
          written name u c found.column larger found.columned found.named found.there
              larger-IsSized,
          bind-ok (column_index keys name) (set_attr i v) r c u found.returns
              ∙ set_attr-at v (some w) (at_type (some w) taken)
              ∙ ap
                  (λ (f : Fault). (
                    err f,
                    written name u c found.column larger found.columned found.named found.there
                        larger-IsSized,
                  ))
                  (ap (already_set i) found.same_types ∙ already_set_lem i r.types),
          λ q j.
              written-attr name u c found.column larger found.columned found.named found.there
                larger-IsSized q j
              ∙ elim (Bool-cases (any_equal name q)) [
                | inl same ↦ rw same (
                    read_column-enlarge (i + 1) j found.column column-IsSized
                    ∙ sym (column_is q j same)
                    ∙ found.same q j)
                | inr other ↦ rw other (found.same q j)
              ],
        )
