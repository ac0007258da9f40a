-- ===== src/Searches/Linear.antt =====
-- searches/linear_search.h.
use sosd.Prelude.{ℕ, ◌≤◌, ◌<◌, ◌≡◌, List, Run, ok, ◌>>=◌, length, Bool, ◌==◌, inl, inr, arith}
use sosd.Prelude.Words.{u64_mod}
use sosd.Data.{Row, row_keys, ValuesFit}
use sosd.Sorted.{IsSorted, lower_index, lt_of_lower_index}
use sosd.Algorithms.{find_if, find_if-eq}
use sosd.Searches.{Outcome, sum_from, expected}
use sosd.Searches.Spec.{
  get_elem?-row_keys, count_matching_at, key_cases, sum_from-eq, sum_from_absent,
}

abbrev row_has : ℕ → Row → Bool
row_has lookup_key r = r.key == lookup_key

unfoldable pub linear_search : List Row → ℕ → ℕ → ℕ → Run Outcome
unfolding sum_from find_if
linear_search rows lookup_key start stop = do
  it ← find_if (row_has lookup_key) rows start stop
  sum_from rows lookup_key it

-- The linear search agrees with the specification under the same conditions as the binary search:
-- fewer than 2 ^ 64 sorted rows, 64-bit payloads, and bounds between which the key belongs that end
-- inside the data.
pub linear_search-expected :
    (rows : List Row) (key start stop : ℕ)
    → IsSorted (row_keys rows)
    → ValuesFit rows
    → length rows < u64_mod
    → start ≤ lower_index key (row_keys rows)
    → lower_index key (row_keys rows) ≤ stop
    → stop ≤ length rows
    → linear_search rows key start stop ≡ ok (expected rows key)
unfolding linear_search
linear_search-expected rows key start stop sorted fit small lo hi inside =
    elim (key_cases rows key sorted) [
      | inr (r, e, same) ↦
          rw
            (find_if-eq (row_has key) rows (lower_index key (row_keys rows)) start stop
              (λ i x q h.
                ground (
                  arith,
                  lt_of_lower_index key (row_keys rows) i (get_elem?-row_keys rows i x q) h,
                ))
              (λ x q h. ground arith) lo hi inside)
            (sum_from-eq rows key sorted fit small)
      | inl absent ↦
          rw
            (find_if-eq (row_has key) rows stop start stop
              (λ i x q h. ground (arith, count_matching_at key rows i q))
              (λ x q h. absurd (ground arith)) (omega arith) (omega arith) inside)
            (sum_from_absent rows key sorted stop absent inside)
    ]
