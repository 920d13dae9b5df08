-- ===== src/Map/Dense/Probe.antt =====
-- Where `DenseMapObj` looks for a slot: the size of the table, the home slot of a hash, and the
-- distances of the probing.
use litetvm_ffi.Prelude.{
  ℕ, zero, suc, ◌-◌, ◌*◌, ◌/◌, ◌%◌, ◌^◌, List, [], ◌∷◌, none, some, get_elem?, ltb, if◌then◌else◌,
}
use litetvm_ffi.Map.Outcome.{Outcome, ok, check_failed, bad_read, out_of_fuel, ◌>>=◌}

-- `kNextProbeLocation`
abbrev pub k_next_probe_location : List ℕ
k_next_probe_location =
    0 ∷ 1 ∷ 2 ∷ 3 ∷ 4 ∷ 5 ∷ 6 ∷ 7 ∷ 8 ∷ 9 ∷ 10 ∷ 11 ∷ 12 ∷ 13 ∷ 14 ∷ 15 ∷ 21 ∷ 28 ∷ 36 ∷ 45 ∷ 55
    ∷ 66 ∷ 78 ∷ 91 ∷ 105 ∷ 120 ∷ 136 ∷ 153 ∷ 171 ∷ 190 ∷ 210 ∷ 231 ∷ 253 ∷ 276 ∷ 300 ∷ 325 ∷ 351
    ∷ 378 ∷ 406 ∷ 435 ∷ 465 ∷ 496 ∷ 528 ∷ 561 ∷ 595 ∷ 630 ∷ 666 ∷ 703 ∷ 741 ∷ 780 ∷ 820 ∷ 861 ∷ 903
    ∷ 946 ∷ 990 ∷ 1035 ∷ 1081 ∷ 1128 ∷ 1176 ∷ 1225 ∷ 1275 ∷ 1326 ∷ 1378 ∷ 1431 ∷ 1485 ∷ 1540 ∷ 1596
    ∷ 1653 ∷ 1711 ∷ 1770 ∷ 1830 ∷ 1891 ∷ 1953 ∷ 2016 ∷ 2080 ∷ 2145 ∷ 2211 ∷ 2278 ∷ 2346 ∷ 2415
    ∷ 2485 ∷ 2556 ∷ 2628 ∷ 8515 ∷ 19110 ∷ 42778 ∷ 96141 ∷ 216153 ∷ 486591 ∷ 1092981 ∷ 2458653
    ∷ 5532801 ∷ 12442566 ∷ 27993903 ∷ 62983476 ∷ 141717030 ∷ 318844378 ∷ 717352503 ∷ 1614057336
    ∷ 3631522476 ∷ 8170957530 ∷ 18384510628 ∷ 41364789378 ∷ 93070452520 ∷ 209408356380
    ∷ 471168559170 ∷ 1060128894105 ∷ 2385289465695 ∷ 5366898840628 ∷ 12075518705635 ∷ 27169915244790
    ∷ 61132312065111 ∷ 137547689707000 ∷ 309482283181501 ∷ 696335127828753 ∷ 1566753995631385
    ∷ 3525196511162271 ∷ 7931691992677701 ∷ 17846306936293605 ∷ 40154190677507445
    ∷ 90346928918121501 ∷ 203280589587557251 ∷ 457381325854679626 ∷ 1029107982097042876
    ∷ 2315492959180353330 ∷ 5209859154120846435 ∷ []

-- `NextProbeLocation`
unfoldable pub next_probe_location : ℕ → Outcome ℕ
next_probe_location index = elim (get_elem? k_next_probe_location index) [
  | none ↦ bad_read
  | some offset ↦ ok offset
]

-- `FibHash`; the product wraps around.
unfoldable pub fib_hash : ℕ → ℕ → ℕ
fib_hash hash_value fib_shift = 11400714819323198485 * hash_value % 2 ^ 64 / 2 ^ fib_shift

-- The loop of `CalcTableSize`, which halves `c` until it is 0: `(shift, slots)`
unfoldable pub table_loop : ℕ → ℕ → ℕ × ℕ → Outcome (ℕ × ℕ)
table_loop fuel zero (shift, slots) = ok (shift, slots)
table_loop zero (suc c) (shift, slots) = out_of_fuel
table_loop (suc fuel) (suc c) (shift, slots) =
    table_loop fuel (suc c / 2) (shift - 1, slots * 2 % 2 ^ 64)

-- `CalcTableSize`: `(fib_shift, n_slots)`. 64 rounds of the loop are enough for a `uint64_t`.
unfoldable pub calc_table_size : ℕ → Outcome (ℕ × ℕ)
calc_table_size cap = do
  (shift, slots) ← table_loop 64 cap (64, 1)
  if ltb cap slots
      then if ltb slots (cap * 2 % 2 ^ 64)
        then ok (shift - 1, slots * 2 % 2 ^ 64)
        else ok (shift, slots)
      else check_failed
