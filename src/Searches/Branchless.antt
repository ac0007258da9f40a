-- ===== src/Searches/Branchless.antt =====
-- searches/branchless_binary_search.h. The code keeps positions in an `int`; a value that does not
-- fit one, or an overflow, is the fault `undefined`. Its prefetches have no effect.
pub mod Steps
pub mod Correct
pub mod Overrun
use sosd.Prelude.{
  ℕ, zero, suc, ◌+◌, ◌-◌, ◌/◌, ◌==◌, List, [], ◌∷◌, Run, ok, fault, out_of_bounds, undefined,
  out_of_fuel, at, ◌>>=◌, drop, leb, ltb, if◌then◌else◌,
}
use sosd.Prelude.Words.{add64, sub64, int_limit}
use sosd.Data.{Row}
use sosd.Searches.{Outcome, report_miss, summed}

unfoldable pub to_int : ℕ → Run ℕ
to_int x = if ltb x int_limit then ok x else fault undefined

-- while (const int half = n / 2) { ... }; the result is `lower`.
unfoldable pub halve_loop : ℕ → List Row → ℕ → ℕ → ℕ → Run ℕ
unfolding to_int
halve_loop zero rows lookup_key lower n = fault out_of_fuel
halve_loop (suc fuel) rows lookup_key lower n =
    let body = do
      middle ← to_int (lower + n / 2)
      r ← at rows middle
      let up = halve_loop fuel rows lookup_key middle (n - n / 2)
      let stay = halve_loop fuel rows lookup_key lower (n - n / 2)
      if leb r.key lookup_key then up else stay
    in if n / 2 == 0 then ok lower else body

-- while (lower > 0 && data[lower - 1].key == lookup_key) --lower;
unfoldable pub scroll_back : List Row → ℕ → ℕ → Run ℕ
scroll_back rows lookup_key zero = ok zero
scroll_back rows lookup_key (suc lower) = do
  r ← at rows lower
  let back = scroll_back rows lookup_key lower
  if r.key == lookup_key then back else ok (suc lower)

-- The summing loop, over the rows from `lower` on. Its condition reads data[i] before it compares
-- `i` with the size, so behind the last row the read is out of bounds.
unfoldable pub sum_forward : ℕ → List Row → ℕ → ℕ → Run (ℕ × ℕ)
sum_forward lookup_key [] result count = fault out_of_bounds
sum_forward lookup_key (r ∷ rows) result count =
    if r.key == lookup_key
    then sum_forward lookup_key rows (add64 result r.data0) (add64 count 1)
    else ok (result, count)

-- The test of the row at `lower`, and the sum from there or the miss.
unfoldable pub sum_at : List Row → ℕ → ℕ → Run Outcome
unfolding sum_forward report_miss
sum_at rows lookup_key lower = do
  r ← at rows lower
  if r.key == lookup_key
      then (do total ← sum_forward lookup_key (drop lower rows) 0 0; ok (summed total))
      else report_miss rows lookup_key

unfoldable pub branchless_search : List Row → ℕ → ℕ → ℕ → Run Outcome
unfolding to_int halve_loop scroll_back sum_at
branchless_search rows lookup_key start stop = do
  n ← to_int (add64 (sub64 stop start) 1)
  first ← to_int start
  last ← halve_loop (n + 1) rows lookup_key first n
  lower ← scroll_back rows lookup_key last
  sum_at rows lookup_key lower
