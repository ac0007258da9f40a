-- ===== src/Searches/Branchless/Correct.antt =====
-- searches/branchless_binary_search.h: the search with bounds that end inside the rows.
use sosd.Prelude.{
  ℕ, ◌+◌, ◌-◌, ◌≤◌, ◌<◌, ◌==◌, ◌≡◌, List, ok, drop, arith, inl, inr, get_elem?, get_elem?-lt, some,
  true, false, length, length-drop,
}
use sosd.Prelude.Words.{add64, sub64, int_limit, u64_mod}
use sosd.Data.{Row, row_keys}
use sosd.Sorted.{IsSorted, lower_index}
use sosd.Searches.{count_matching, expected}
use sosd.Searches.Spec.{
  rows_le, key_cases, lower_index-Splits, report_miss-eq, count_matching_at, count_matching-le,
  matching-drop, drop-above, drop-IsSorted,
}
use sosd.Searches.Branchless.{scroll_back, sum_at, branchless_search}
use sosd.Searches.Branchless.Steps.{
  Stops, halve_loop-Stops, scroll_back-eq, sum_forward-eq, to_int-lt,
}

module _ (rows : List Row) (key : ℕ) (sorted : IsSorted (row_keys rows)) where
  -- A row without the key leads to the report.
  sum_at_absent :
      (l : ℕ)
      → l < length rows
      → count_matching key rows ≡ 0
      → sum_at rows key l ≡ ok (expected rows key)
  unfolding sum_at
  sum_at_absent l inside h =
      let (r, e) = get_elem?-lt rows l inside in
      let other : (r.key == key) ≡ false = ground (arith, count_matching_at key rows l e) in
      rw (e, other) (report_miss-eq rows key sorted h)

  -- From the first row with the key the loop sums all of them, if a larger key follows.
  sum_at_found :
      (r : Row)
      → get_elem? rows (lower_index key (row_keys rows)) ≡ some r
      → (r.key == key) ≡ true
      → length rows < u64_mod
      → lower_index key (row_keys rows) + count_matching key rows < length rows
      → sum_at rows key (lower_index key (row_keys rows)) ≡ ok (expected rows key)
  unfolding sum_at expected
  sum_at_found r e same small larger =
      let p = lower_index key (row_keys rows) in
      let (sums, counts) = matching-drop key rows in
      let run =
        sum_forward-eq key (drop p rows) 0 0 (drop-IsSorted p rows sorted)
          (drop-above key rows sorted) (omega (arith, length-drop p rows)) (omega arith)
          (omega (arith, count_matching-le key rows)) in
      let here = count_matching_at key rows p e (ground arith) in
      rw (e, same, run, sums, counts) (ground arith)

module _ (rows : List Row) (key start stop : ℕ) (sorted : IsSorted (row_keys rows))
    (inside : stop < length rows) (small : length rows < int_limit)
    (lo : start ≤ lower_index key (row_keys rows)) (hi : lower_index key (row_keys rows) ≤ stop)
    (larger : lower_index key (row_keys rows) + count_matching key rows < length rows) where
  -- The loops lead to the first row with the key, if there is one.
  stop_found :
      (l : ℕ) (r : Row)
      → Stops rows key start stop l
      → get_elem? rows (lower_index key (row_keys rows)) ≡ some r
      → r.key ≡ key
      → scroll_back rows key l ≡ ok (lower_index key (row_keys rows))
  stop_found l r s e same =
      let p = lower_index key (row_keys rows) in
      let (q, f) = get_elem?-lt rows l (omega arith) in
      let reached : p ≤ l = ground (arith, s.high p r e) in
      let held : q.key ≤ key = ground (arith, s.low q f, rows_le rows sorted l p q r) in
      scroll_back-eq rows key p l reached (omega arith)
        (λ i x a b c.
          ground (
            arith,
            rows_le rows sorted p i r x b e a,
            rows_le rows sorted i l x q (omega arith) a f,
          ))
        (λ i x a b. ground (arith, (lower_index-Splits rows key sorted).before i x a b))

  -- On sorted rows of fewer than 2 ^ 31, with bounds between which the key belongs, the end inside
  -- the rows, and some row with a larger key, the search meets its specification.
  pub branchless_search-expected : branchless_search rows key start stop ≡ ok (expected rows key)
  unfolding branchless_search
  branchless_search-expected =
      let n = stop + 1 - start in
      let width : add64 (sub64 stop start) 1 ≡ n = omega arith in
      let (l, run, s) =
        halve_loop-Stops rows key start stop sorted inside small (n + 1) start n (omega arith)
          (omega arith) (omega arith) (omega arith) (λ r e h. absurd (omega arith))
          (λ i r e a b. absurd (omega arith)) in
      rw (width, to_int-lt n (omega arith), to_int-lt start (omega arith), run)
        (elim (key_cases rows key sorted) [
          | inr (r, e, same) ↦
              rw (stop_found l r s e (ground arith))
                (sum_at_found rows key sorted r e same (omega arith) larger)
          | inl absent ↦
              rw
                (scroll_back-eq rows key l l (omega arith) (omega arith)
                  (λ i r e a b. absurd (omega arith))
                  (λ i r e a same. omega (arith, count_matching_at key rows i e same)))
                (sum_at_absent rows key sorted l (omega arith) absent)
        ])
