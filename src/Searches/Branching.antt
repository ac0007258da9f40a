-- ===== src/Searches/Branching.antt =====
-- searches/branching_binary_search.h.
use sosd.Prelude.{ℕ, ◌≤◌, ◌<◌, ◌≡◌, List, Run, ok, ◌>>=◌, length}
use sosd.Prelude.Words.{u64_mod}
use sosd.Data.{Row, row_keys, ValuesFit}
use sosd.Sorted.{IsSorted, lower_index}
use sosd.Algorithms.{lower_bound, lower_bound-eq}
use sosd.Searches.{Outcome, row_below, sum_from, expected}
use sosd.Searches.Spec.{lower_index-Splits, sum_from-eq}

unfoldable pub branching_search : List Row → ℕ → ℕ → ℕ → Run Outcome
unfolding sum_from lower_bound
branching_search rows lookup_key start stop = do
  it ← lower_bound (row_below lookup_key) rows start stop
  sum_from rows lookup_key it

-- On fewer than 2 ^ 64 sorted rows with 64-bit payloads, with bounds between which the key belongs
-- and an end inside the data, the search returns the sum over all rows with the key (modulo 2 ^ 64)
-- and their number; without such a row it returns 0, counts 0 and reports the key's position.
pub branching_search-expected :
    (rows : List Row) (key start stop : ℕ)
    → IsSorted (row_keys rows)
    → ValuesFit rows
    → length rows < u64_mod
    → start ≤ lower_index key (row_keys rows)
    → lower_index key (row_keys rows) ≤ stop
    → stop ≤ length rows
    → branching_search rows key start stop ≡ ok (expected rows key)
unfolding branching_search
branching_search-expected rows key start stop sorted fit small lo hi inside =
    rw
      (lower_bound-eq (row_below key) rows (lower_index key (row_keys rows)) start stop
        (lower_index-Splits rows key sorted) lo hi inside)
      (sum_from-eq rows key sorted fit small)
