-- ===== src/TypeTable/Result.antt =====
-- How an operation on the type table ends.

-- `check_failed`: a TVM_FFI_ICHECK throws. `runtime_error`: a RuntimeError is thrown. `bad_access`: the
-- code would read or write behind a vector, or through a null entry. `int_overflow`: a number would not
-- fit into an int32_t. `exited`: the process ends, where a C function that cannot throw caught an error.
pub data Fault : Type 0 where
  check_failed : Fault
  runtime_error : Fault
  bad_access : Fault
  int_overflow : Fault
  exited : Fault

pub data Result (A : Type 0) : Type 0 where
  ok : A → Result A
  err : Fault → Result A

-- An operation changes its state also where it fails.
abbrev pub Action : Type 0 → Type 0 → Type 0
Action S A = S → Result A × S

module _ {S : Type 0} where
  infixl 5 ◌>>=◌ ◌>>◌
  abbrev pub ◌>>=◌ : {A B : Type 0} → Action S A → (A → Action S B) → Action S B
  ◌>>=◌ m f s = elim (m s).0 [ ok a ↦ f a (m s).1 | err e ↦ (err e, (m s).1) ]

  abbrev pub ◌>>◌ : {A B : Type 0} → Action S A → Action S B → Action S B
  m >> k = m >>= λ _. k

  abbrev pub pure : {A : Type 0} → A → Action S A
  pure a s = (ok a, s)

  abbrev pub fail : {A : Type 0} → Fault → Action S A
  fail e s = (err e, s)

  abbrev pub get : Action S S
  get s = (ok s, s)

  abbrev pub put : S → Action S (Unit {0})
  put t s = (ok tt, t)
