-- ===== src/Map/Dense/Table/Frame.antt =====
-- What a change of the map leaves of the lists of slots.
use mathlib.Core.Option.{some-injective}
use litetvm_ffi.Prelude.{
  ℕ, List, [], ◌∷◌, true, false, Option, none, some, ◌≡◌, inl, inr, refl, sym, ap, ◌∙◌, subst, All,
}
use litetvm_ffi.Map.Assoc.{KeyApi}
use litetvm_ffi.Map.Dense.Links.{Links, store}
use litetvm_ffi.Map.Dense.Links.Segments.{store_cases, store_read}
use litetvm_ffi.Map.Dense.Node.{Dense, is_head, is_empty, move_to_next, home, hop}
use litetvm_ffi.Map.Dense.Table.Chains.{In, Chain, Belongs, IsList, IsTable}

all : (P : ℕ → Type 0) (is : List ℕ) → ((i : ℕ) → P i) → All P is
all P [] h = tt
all P (i ∷ is) h = (h i, all P is h)

module _ {K V : Type 0} where
  -- The map with other metadata and items; its number of slots and its hash are the old ones.
  abbrev pub changed : ℕ → Links → (ℕ → ℕ) → (ℕ → Option (K × V)) → Dense K V → Dense K V
  changed size links meta items m = record m {
    size = size;
    links = links;
    meta = meta;
    items = items;
  }

  -- A slot that has an item keeps its key.
  abbrev pub KeepsKey : (ℕ → Option (K × V)) → (ℕ → Option (K × V)) → ℕ → Type 0
  KeepsKey items items' i = (kv : K × V) → items i ≡ some kv → (w : V) × (items' i ≡ some (kv.0, w))

module _ {K V : Type 0} (keys : KeyApi K) (size : ℕ) (links : Links) (meta : ℕ → ℕ)
    (items : ℕ → Option (K × V)) (m : Dense K V) where
  pub Chain-changed :
      (i : ℕ) (is : List ℕ)
      → All (λ j. meta j ≡ m.meta j) (i ∷ is)
      → Chain m i is
      → Chain (changed size links meta items m) i is
  unfolding move_to_next hop
  Chain-changed i [] a c = rw a.0 c
  Chain-changed i (j ∷ js) a c = (rw a.0 c.0, Chain-changed j js a.1 c.1)

  pub Belongs-changed :
      (h : ℕ) (is : List ℕ)
      → All (KeepsKey m.items items) is
      → All (Belongs keys m h) is
      → All (Belongs keys (changed size links meta items m) h) is
  Belongs-changed h [] a b = tt
  Belongs-changed h (i ∷ is) a b =
      let ((k, v), here, at_home, inside) = b.0 in
      let (w, there) = a.0 (k, v) here in
      (((k, w), there, at_home, inside), Belongs-changed h is a.1 b.1)

  pub bodies-changed :
      (is : List ℕ)
      → All (λ j. meta j ≡ m.meta j) is
      → All (λ i. is_head (m.meta i) ≡ false) is
      → All (λ i. is_head (meta i) ≡ false) is
  bodies-changed [] a b = tt
  bodies-changed (i ∷ is) a b = (ap is_head a.0 ∙ b.0, bodies-changed is a.1 b.1)

  -- A list whose slots keep their metadata and their keys
  pub IsList-changed :
      (h : ℕ) (tail : List ℕ)
      → All (λ j. meta j ≡ m.meta j) (h ∷ tail)
      → All (KeepsKey m.items items) (h ∷ tail)
      → IsList keys m h tail
      → IsList keys (changed size links meta items m) h tail
  IsList-changed h tail a k l = record {
    chain = Chain-changed h tail a l.chain;
    nodes = Belongs-changed h (h ∷ tail) k l.nodes;
    unique = l.unique;
    bodies = bodies-changed tail a.1 l.bodies;
  }

module _ {K V : Type 0} (keys : KeyApi K) where
  keeps_key :
      (i : ℕ) (k : K) (w v : V) (m : Dense K V)
      → m.items i ≡ some (k, w)
      → (j : ℕ) → KeepsKey m.items (store i (some (k, v)) m.items) j
  keeps_key i k w v m here j kv there =
      store_cases (λ t. (x : V) × (t ≡ some (kv.0, x))) i j (some (k, v)) m.items
        (λ same.
          let pair = some-injective (k, w) kv (sym here ∙ ap m.items same ∙ there) in
          (v, ap (λ p. some (p.0, v)) pair))
        (λ other. (kv.1, there))

  -- A new value for a key, and other links
  pub IsTable-set_val :
      (size : ℕ) (links : Links) (i : ℕ) (k : K) (w v : V) (m : Dense K V) (tails : ℕ → List ℕ)
      → IsTable keys m tails
      → m.items i ≡ some (k, w)
      → IsTable keys (changed size links m.meta (store i (some (k, v)) m.items) m) tails
  IsTable-set_val size links i k w v m tails t here = record {
    lists = λ h head.
        IsList-changed keys size links m.meta (store i (some (k, v)) m.items) m h (tails h)
          (all (λ j. m.meta j ≡ m.meta j) (h ∷ tails h) (λ j. refl))
          (all (KeepsKey m.items (store i (some (k, v)) m.items)) (h ∷ tails h)
            (λ j. keeps_key i k w v m here j))
          (t.lists h head);
    listed = λ j kv there. elim (store_read i j (some (k, v)) (some kv) m.items there) [
      | inl (same, e) ↦
          let key = ap (λ p. p.0) (some-injective (k, v) kv e) in
          subst
            (λ q.
              (is_head (m.meta (home keys q m)) ≡ true)
              × In j (home keys q m ∷ tails (home keys q m)))
            key (t.listed j (k, w) (sym (ap m.items same) ∙ here))
      | inr (other, e) ↦ t.listed j kv e
    ];
    vacant = λ j e.
        store_cases (λ x. x ≡ none) i j (some (k, v)) m.items
          (λ same.
            absurd (cc (t.vacant i (subst (λ q. is_empty (m.meta q) ≡ true) (sym same) e), here)))
          (λ other. t.vacant j e);
    taken = λ j e.
        let (inside, old) = t.taken j e in
        (
          inside,
          store_cases (λ x. (kv : K × V) × (x ≡ some kv)) i j (some (k, v)) m.items
              (λ same. ((k, v), refl)) (λ other. old),
        );
    few = t.few;
    homes = t.homes;
  }

  -- Other links
  pub IsTable-links :
      (size : ℕ) (links : Links) (m : Dense K V) (tails : ℕ → List ℕ)
      → IsTable keys m tails
      → IsTable keys (changed size links m.meta m.items m) tails
  IsTable-links size links m tails t = record {
    lists = λ h head.
        IsList-changed keys size links m.meta m.items m h (tails h)
          (all (λ j. m.meta j ≡ m.meta j) (h ∷ tails h) (λ j. refl))
          (all (KeepsKey m.items m.items) (h ∷ tails h) (λ j kv there. (kv.1, there)))
          (t.lists h head);
    listed = t.listed;
    vacant = t.vacant;
    taken = t.taken;
    few = t.few;
    homes = t.homes;
  }
