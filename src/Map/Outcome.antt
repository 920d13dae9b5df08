-- ===== src/Map/Outcome.antt =====
-- How an operation on a map ends.

-- `check_failed`: a TVM_FFI_ICHECK throws. `bad_read`: the code would read a slot without an entry, or
-- behind the table of the probing distances. `out_of_fuel`: the fuel of the model is used up.
pub data Outcome (A : Type 0) : Type 0 where
  ok : A → Outcome A
  check_failed : Outcome A
  bad_read : Outcome A
  out_of_fuel : Outcome A

infixl 5 ◌>>=◌
abbrev pub ◌>>=◌ : {A B : Type 0} → Outcome A → (A → Outcome B) → Outcome B
ok a >>= f = f a
check_failed >>= f = check_failed
bad_read >>= f = bad_read
out_of_fuel >>= f = out_of_fuel
