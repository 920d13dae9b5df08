-- ===== src/Map/Dense/Table/New.antt =====
-- The new table of `CreateFromRange`.
use litetvm_ffi.Prelude.{
  ℕ, ◌-◌, ◌^◌, ◌≤◌, ◌<◌, bit_and, [], true, none, ◌≡◌, refl, arith, ltb, ◌==◌, ==_iff,
}
use litetvm_ffi.Prelude.Bits.{and_power}
use litetvm_ffi.Map.Assoc.{KeyApi}
use litetvm_ffi.Map.Outcome.{ok, ◌>>=◌}
use litetvm_ffi.Map.Dense.Probe.{calc_table_size}
use litetvm_ffi.Map.Dense.Size.{calc_table_size-power, fib_hash-below}
use litetvm_ffi.Map.Dense.Node.{Dense, k_empty_slot, empty}
use litetvm_ffi.Map.Dense.Links.{k_invalid_index}
use litetvm_ffi.Map.Dense.Table.Entries.{IsMap}

module _ {K V : Type 0} (keys : KeyApi K) where
  -- `Empty` with the size that `CalcTableSize` gives for 4 entries or more is the map without entries.
  pub empty-IsMap :
      (cap : ℕ)
      → 4 ≤ cap
      → cap < 2 ^ 61
      → (m : Dense K V) × ((calc_table_size cap >>= λ shape. empty shape.0 shape.1) ≡ ok m)
        × IsMap keys m (λ h. []) [] []
  unfolding empty
  empty-IsMap cap many few =
      let (e, in_range, size, twice, four) =
        calc_table_size-power cap (omega (arith, many)) (omega (arith, few)) in
      let enough : ltb 4 (2 ^ e) ≡ true = ground (arith, many, twice) in
      let tag : (bit_and (2 ^ e) (2 ^ 63) == 0) ≡ true =
        (==_iff (bit_and (2 ^ e) (2 ^ 63)) 0).1 (and_power 63 (2 ^ e) (omega (arith, four, few))) in
      (
        record {
          size = 0;
          slots = 2 ^ e;
          fib_shift = 64 - e;
          links = record {
            head = k_invalid_index;
            tail = k_invalid_index;
            prev = λ i. k_invalid_index;
            next = λ i. k_invalid_index;
          };
          meta = λ i. k_empty_slot;
          items = λ i. none;
        },
        rw (size, enough, tag) refl,
        record {
          table = record {
            lists = λ h head. absurd (cc head);
            listed = λ i kv here. absurd (cc here);
            vacant = λ i p. refl;
            taken = λ i p. absurd (cc p);
            few = omega (arith, four, few);
            homes = λ k. fib_hash-below e (keys.any_hash k) in_range;
          };
          list = record {
            head_first = refl;
            tail_last = refl;
            segment = tt;
            unique = tt;
            valid = tt;
          };
          entries = tt;
          complete = λ i kv here. absurd (cc here);
          counted = refl;
          distinct = tt;
        },
      )
