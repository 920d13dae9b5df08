-- ===== src/TypeTable/Rules.antt =====
-- What holds of both ways to go on from a checked step.
use litetvm_ffi.Prelude.{
  ℕ, ◌+◌, ◌^◌, ◌<◌, Bool, true, false, some, ◌≡◌, refl, ap, some, ltb, lt→ltb, if_cases, arith,
}
use litetvm_ffi.Map.Dense.Links.{store}
use litetvm_ffi.TypeTable.Result.{
  Fault, Result, ok, err, Action, check_failed, int_overflow, bad_access, ◌>>=◌, ◌>>◌,
}
use litetvm_ffi.TypeTable.{Entry, TypeTable, check, add_32, set_entry, entry_at, get_type_entry}

pub ltb→lt : (a b : ℕ) → ltb a b ≡ true → a < b
ltb→lt a b h = ground arith

module _ {S B : Type 0} (P : Result B × S → Type 0) where
  pub add_32-cases :
      (a b : ℕ) (f : ℕ → Action S B) (s : S)
      → (a + b < 2 ^ 31 → P (f (a + b) s))
      → P (err int_overflow, s)
      → P ((add_32 a b >>= f) s)
  add_32-cases a b f s h k =
      if_cases (λ (r : Result ℕ × S). P (elim r.0 [ ok n ↦ f n r.1 | err e ↦ (err e, r.1) ]))
        (ltb (a + b) (2 ^ 31)) {x = (ok (a + b), s)} {y = (err int_overflow, s)}
        (λ e. h (ltb→lt _ _ e)) (λ e. k)

  pub check-cases :
      (b : Bool) (k : Action S B) (s : S)
      → (b ≡ true → P (k s))
      → (b ≡ false → P (err check_failed, s))
      → P ((check b >> k) s)
  check-cases true k s h g = h refl
  check-cases false k s h g = g refl

module _ {K F M D B : Type 0} (P : Result B × TypeTable K F M D → Type 0) where
  pub set_entry-cases :
      (i : ℕ) (e : Entry K F M D) (k : Action (TypeTable K F M D) B) (t : TypeTable K F M D)
      → (i < t.size → P (k (record t { entry = store i (some e) t.entry })))
      → P (err bad_access, t)
      → P ((set_entry i e >> k) t)
  set_entry-cases i e k t h g =
      if_cases
        (λ (r : Result (Unit {0}) × TypeTable K F M D).
          P (elim r.0 [ ok n ↦ k r.1 | err e ↦ (err e, r.1) ]))
        (ltb i t.size) {x = (ok tt, record t { entry = store i (some e) t.entry })}
        {y = (err bad_access, t)} (λ e. h (ltb→lt _ _ e)) (λ e. g)

module _ {S A B : Type 0} (P : Result B × S → Type 0) where
  -- The same for a step that has laws of its own
  after :
      (q : Result A × S) (f : A → Action S B)
      → ((a : A) → q.0 ≡ ok a → P (f a q.1))
      → ((e : Fault) → q.0 ≡ err e → P (err e, q.1))
      → P (elim q.0 [ ok a ↦ f a q.1 | err e ↦ (err e, q.1) ])
  after (ok a, u) f h k = h a refl
  after (err e, u) f h k = k e refl

  pub bind-cases :
      (m : Action S A) (f : A → Action S B) (s : S)
      → ((a : A) → (m s).0 ≡ ok a → P (f a (m s).1))
      → ((e : Fault) → (m s).0 ≡ err e → P (err e, (m s).1))
      → P ((m >>= f) s)
  bind-cases m f s h k = after (m s) f h k

module _ {S A B : Type 0} where
  -- A step that succeeds hands its value and its state on.
  bound :
      (q : Result A × S) (f : A → Action S B) (a : A) (u : S)
      → q ≡ (ok a, u)
      → elim q.0 [ ok x ↦ f x q.1 | err e ↦ (err e, q.1) ] ≡ f a u
  bound q f a u e =
      ap
        (λ (r : Result A × S). elim r.0 as (λ _. Result B × S) [
          | ok x ↦ f x r.1
          | err e ↦ (err e, r.1)
        ])
        e

  pub bind-ok :
      (m : Action S A) (f : A → Action S B) (s : S) (a : A) (u : S)
      → m s ≡ (ok a, u)
      → (m >>= f) s ≡ f a u
  bind-ok m f s a u e = bound (m s) f a u e

module _ {K F M D : Type 0} (t : TypeTable K F M D) (i : ℕ) where
  pub entry_at-within : i < t.size → entry_at i t ≡ (ok (t.entry i), t)
  entry_at-within h = rw (lt→ltb i t.size h) refl

  pub get_type_entry-some :
      (e : Entry K F M D) → i < t.size → t.entry i ≡ some e → get_type_entry i t ≡ (ok e, t)
  unfolding get_type_entry
  get_type_entry-some e h there = rw (lt→ltb i t.size h, get_type_entry) (rw there refl)
