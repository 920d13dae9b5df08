-- ===== src/TypeTable/Changes.antt =====
-- The three changes that an allocation makes of the table: it grows, an entry gives slots of its pool
-- away, and a new entry comes into a free place.
use litetvm_ffi.Prelude.{
  ℕ, ◌^◌, ◌≤◌, ◌<◌, Option, none, some, ◌≡◌, refl, sym, ap, ◌∙◌, subst, inl, inr, arith,
}
use litetvm_ffi.Map.Dense.Links.{store}
use litetvm_ffi.Map.Dense.Links.Segments.{store-other, store_read}
use litetvm_ffi.TypeTable.{Entry, TypeTable}
use litetvm_ffi.TypeTable.Valid.{
  Apart, IsPlaced, HasAncestors, IsValid, IsRevised, Revises, Revises-IsValid,
}

module _ {K F M D : Type 0} where
  pub some-injective : (a b : Entry K F M D) → some a ≡ some b → a ≡ b
  some-injective a b e = cc

  some_or : (e : Entry K F M D) → Option (Entry K F M D) → Entry K F M D
  some_or e none = e
  some_or e (some a) = a

  pub grow-IsValid :
      (t : TypeTable K F M D) (c : ℕ)
      → t.size ≤ c
      → c < 2 ^ 31
      → IsValid t
      → IsValid (record t { type_counter = c; size = c })
  grow-IsValid t c more low v = record {
    full = refl;
    begun = omega (arith, v.begun, more);
    small = low;
    placed = λ i e there.
        let p = v.placed i e there in
        record {
          own = p.own;
          some_allocated = p.some_allocated;
          few_allocated = p.few_allocated;
          within = omega (arith, p.within, more);
          single = p.single;
          depth = p.depth;
        };
    apart = v.apart;
    ancestors = v.ancestors;
  }

  pub IsRevised-refl : (size i : ℕ) (e : Entry K F M D) → IsPlaced size i e → IsRevised e e
  IsRevised-refl size i e p = record {
    index = refl;
    key = refl;
    depth = refl;
    chain = refl;
    slots = refl;
    overflow = refl;
    more = omega arith;
    few = p.few_allocated;
  }

  -- An entry is written again, with more allocated slots or other reflection data.
  pub rewrite-Revises :
      (t : TypeTable K F M D) (i : ℕ) (a b : Entry K F M D)
      → t.entry i ≡ some a
      → IsRevised a b
      → IsValid t
      → Revises t (record t { entry = store i (some b) t.entry })
  rewrite-Revises t i a b there r v = record {
    same_counter = refl;
    same_size = refl;
    back = λ j d e. elim (store_read i j (some b) (some d) t.entry e) [
      | inl (same, new) ↦
          (a, ap t.entry (sym same) ∙ there, subst (λ q. IsRevised a q) (some-injective b d new) r)
      | inr (other, old) ↦ (d, old, IsRevised-refl t.size j d (v.placed j d old))
    ];
    forth = λ j c e. elim (store_read i j (some b) (u.entry j) t.entry refl) [
      | inl (same, new) ↦ (
        b,
        sym new,
        subst (λ q. IsRevised q b) (some-injective a c (sym there ∙ ap t.entry same ∙ e)) r,
      )
      | inr (other, old) ↦ (c, sym old ∙ e, IsRevised-refl t.size j c (v.placed j c e))
    ];
  }
    where
      u : TypeTable K F M D
      u = record t { entry = store i (some b) t.entry }

  pub rewrite-IsValid :
      (t : TypeTable K F M D) (i : ℕ) (a b : Entry K F M D)
      → t.entry i ≡ some a
      → IsRevised a b
      → IsValid t
      → IsValid (record t { entry = store i (some b) t.entry })
  rewrite-IsValid t i a b there r v =
      Revises-IsValid t (record t { entry = store i (some b) t.entry })
        (rewrite-Revises t i a b there r v) v

  -- A new entry fits into a free place.
  pub record Fits (t : TypeTable K F M D) (i : ℕ) (e : Entry K F M D) : Type 0 where
    pub free : t.entry i ≡ none
    pub place : IsPlaced t.size i e
    pub above : (j : ℕ) (a : Entry K F M D) → t.entry j ≡ some a → j < i → Apart j a i e
    pub below : (j : ℕ) (a : Entry K F M D) → t.entry j ≡ some a → i < j → Apart i e j a
    pub known : HasAncestors t i e

  pub Fits-IsValid :
      (t : TypeTable K F M D) (i : ℕ) (e : Entry K F M D)
      → Fits t i e
      → IsValid t
      → IsValid (record t { entry = store i (some e) t.entry })
  Fits-IsValid t i e f v = record {
    full = v.full;
    begun = v.begun;
    small = v.small;
    placed = λ j b there. elim (store_read i j (some e) (some b) t.entry there) [
      | inl (same, new) ↦
          subst (λ q. IsPlaced t.size q b) same
            (subst (IsPlaced t.size i) (some-injective e b new) f.place)
      | inr (other, old) ↦ v.placed j b old
    ];
    apart = λ j k a b ea eb lt. elim (store_read i j (some e) (some a) t.entry ea) [
      | inl (same, new) ↦ elim (store_read i k (some e) (some b) t.entry eb) [
        | inl (same', new') ↦ absurd (omega (arith, same, same', lt))
        | inr (other, old) ↦
            subst (λ q. Apart q a k b) same
              (subst (λ q. Apart i q k b) (some-injective e a new)
                (f.below k b old (omega (arith, same, lt))))
      ]
      | inr (other, old) ↦ elim (store_read i k (some e) (some b) t.entry eb) [
        | inl (same, new) ↦
            subst (λ q. Apart j a q b) same
              (subst (λ q. Apart j a i q) (some-injective e b new)
                (f.above j a old (omega (arith, same, lt))))
        | inr (other', old') ↦ v.apart j k a b old old' lt
      ]
    ];
    ancestors = λ j b there. elim (store_read i j (some e) (some b) t.entry there) [
      | inl (same, new) ↦
          subst (λ q. HasAncestors u q b) same
            (subst (λ q. HasAncestors u i q) (some-injective e b new) (kept i e f.known))
      | inr (other, old) ↦ kept j b (v.ancestors j b old)
    ];
  }
    where
      u : TypeTable K F M D
      u = record t { entry = store i (some e) t.entry }

      kept : (j : ℕ) (b : Entry K F M D) → HasAncestors t j b → HasAncestors u j b
      kept j b h k m at_k =
          let (p, there, above) = h k m at_k in
          (
            p,
            store-other i m (some e) t.entry
                  (λ q. let clash : none ≡ some p = sym f.free ∙ ap t.entry q ∙ there in cc clash)
                ∙ there,
            above,
          )
