-- ===== src/Map/Dense/Table/Jump.antt =====
-- The jumps in the metadata, and the next empty slot.
use mathlib.Core.Option.{some-injective}
use native.Mathlib.Nat.{mod-lt}
use litetvm_ffi.Prelude.{
  ℕ, zero, suc, ◌+◌, ◌*◌, ◌/◌, ◌%◌, ◌^◌, ◌<◌, bit_and, bit_or, List, [], ◌∷◌, Bool, true, false,
  some, ◌≡◌, inl, inr, refl, sym, ap, ◌∙◌, subst, arith, length, drop, get_elem?, ◌==◌,
  if◌then◌else◌, Bool-cases,
}
use litetvm_ffi.Prelude.Bits.{or_shifted, and_128, and_127}
use litetvm_ffi.Map.Outcome.{ok}
use litetvm_ffi.Map.Dense.Links.Parts.{test_ne}
use litetvm_ffi.Map.Dense.Probe.{k_next_probe_location, next_probe_location}
use litetvm_ffi.Map.Dense.Node.{
  Dense, is_head, is_empty, hop, move_to_next, first_empty, get_next_empty,
}

-- The byte that `SetJump` writes
abbrev pub jump_byte : ℕ → ℕ → ℕ
jump_byte byte jump = bit_or (bit_and byte 0x80) jump

module _ (byte jump : ℕ) (small : jump < 126) where
  jump_byte-sum : jump_byte byte jump ≡ byte / 128 % 2 * 128 + jump
  jump_byte-sum =
      ap (λ t. bit_or t jump) (and_128 byte)
      ∙ or_shifted 7 (byte / 128 % 2) jump (omega (arith, small))

  -- It keeps the bit of the head, leads over the jump, and is not the byte of an empty slot.
  pub jump_byte-jump : bit_and (jump_byte byte jump) 0x7f ≡ jump
  jump_byte-jump = omega (arith, and_127 (jump_byte byte jump), jump_byte-sum, small)

  pub is_head-jump_byte : is_head (jump_byte byte jump) ≡ is_head byte
  is_head-jump_byte =
      ap (λ t. t == 0)
        (omega (arith, and_128 (jump_byte byte jump), and_128 byte, jump_byte-sum, small))

  pub is_empty-jump_byte : is_empty (jump_byte byte jump) ≡ false
  is_empty-jump_byte =
      test_ne (jump_byte byte jump) 255 (λ p. omega (arith, p, jump_byte-sum, small))

-- No distance behind the first one is 0.
nonzero : List ℕ → Bool
nonzero [] = true
nonzero (x ∷ xs) = if x == 0 then false else nonzero xs

nonzero-get_elem? :
    (xs : List ℕ) (n x : ℕ)
    → nonzero xs ≡ true
    → get_elem? xs n ≡ some x
    → (n < length xs) × ((x == 0) ≡ false)
unfolding nonzero
nonzero-get_elem? [] n x h e = absurd (cc e)
nonzero-get_elem? (y ∷ ys) zero x h e = elim (Bool-cases (y == 0)) [
  | inl z ↦ let bad : false ≡ true = rw z at h in absurd (cc bad)
  | inr z ↦ (omega arith, ap (λ t. t == 0) (sym (some-injective y x e)) ∙ z)
]
nonzero-get_elem? (y ∷ ys) (suc n) x h e = elim (Bool-cases (y == 0)) [
  | inl z ↦ let bad : false ≡ true = rw z at h in absurd (cc bad)
  | inr z ↦ let rest = nonzero-get_elem? ys n x (rw z at h) e in (omega (arith, rest.0), rest.1)
]

plus_zero : (n : ℕ) → n ≡ n + 0
plus_zero n = omega arith

module _ {K V : Type 0} where
  -- Where the loop of `GetNextEmpty` stops
  record Empty (offsets : List ℕ) (idx node : ℕ) (m : Dense K V) (jump slot : ℕ) : Type 0 where
    n : ℕ
    offset : ℕ
    at_n : jump ≡ idx + n
    on_list : get_elem? offsets n ≡ some offset
    there : slot ≡ hop node offset m
    free : is_empty (m.meta slot) ≡ true

  first_empty-Empty :
      (offsets : List ℕ) (idx node : ℕ) (m : Dense K V) (jump slot : ℕ)
      → first_empty offsets idx node m ≡ some (jump, slot)
      → Empty offsets idx node m jump slot
  unfolding first_empty
  first_empty-Empty [] idx node m jump slot e = absurd (cc e)
  first_empty-Empty (offset ∷ offsets) idx node m jump slot e =
      elim (Bool-cases (is_empty (m.meta (hop node offset m)))) [
        | inl free ↦
            let hit : some (idx, hop node offset m) ≡ some (jump, slot) = rw free at e in
            let pair = some-injective (idx, hop node offset m) (jump, slot) hit in
            let same = ap (λ t. t.1) pair in
            record {
              n = 0;
              offset = offset;
              at_n = sym (ap (λ t. t.0) pair) ∙ plus_zero idx;
              on_list = refl;
              there = sym same;
              free = subst (λ t. is_empty (m.meta t) ≡ true) same free;
            }
        | inr full ↦
            let rest = first_empty-Empty offsets (suc idx) node m jump slot (rw full at e) in
            record {
              n = suc rest.n;
              offset = rest.offset;
              at_n = omega (arith, rest.at_n);
              on_list = rest.on_list;
              there = rest.there;
              free = rest.free;
            }
      ]

  -- The slot that `GetNextEmpty` gives is empty, and the jump leads to it.
  pub record NextEmpty (node : ℕ) (m : Dense K V) (jump slot : ℕ) : Type 0 where
    pub small : jump < 126
    pub free : is_empty (m.meta slot) ≡ true
    pub inside : 0 < m.slots → slot < m.slots
    pub leads : (byte : ℕ) → move_to_next node (jump_byte byte jump) m ≡ ok (some slot)

  pub get_next_empty-NextEmpty :
      (node : ℕ) (m : Dense K V) (jump slot : ℕ)
      → get_next_empty node m ≡ some (jump, slot)
      → NextEmpty node m jump slot
  unfolding get_next_empty hop move_to_next next_probe_location nonzero
  get_next_empty-NextEmpty node m jump slot e =
      let r = first_empty-Empty (drop 1 k_next_probe_location) 1 node m jump slot e in
      let (few, z) = nonzero-get_elem? (drop 1 k_next_probe_location) r.n r.offset refl r.on_list in
      let small : jump < 126 = omega (arith, r.at_n, few) in
      let next : jump ≡ suc r.n = omega (arith, r.at_n) in
      let entry : get_elem? k_next_probe_location jump ≡ some r.offset =
        ap (get_elem? k_next_probe_location) next ∙ r.on_list in
      record {
        small = small;
        free = r.free;
        inside = λ some_slots.
            subst (λ c. c < m.slots) (sym r.there) (mod-lt ((node + r.offset) % 2 ^ 64) some_slots);
        leads = λ byte.
            rw (jump_byte-jump byte jump small, entry, z) (ap (λ t. ok (some t)) (sym r.there));
      }
