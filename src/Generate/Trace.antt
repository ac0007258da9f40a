-- ===== src/Generate/Trace.antt =====
-- generate.cc: the lookups of a trace.
use sosd.Prelude.{
  ℕ, ◌≤◌, ◌<◌, ◌≡◌, refl, List, [], ◌∷◌, All, map, ok, length, some, false, ◌==◌, get_elem?-lt,
  arith,
}
use sosd.Prelude.Words.{u64_mod}
use sosd.Data.{Row, row_keys, ValuesFit}
use sosd.Sorted.{IsSorted, lower_index, lt_of_lower_index}
use sosd.Algorithms.{lower_bound_end, lower_bound-eq}
use sosd.Searches.{expected, row_below, report_miss, sum_from}
use sosd.Searches.Spec.{get_elem?-row_keys, lower_index-Splits}
use sosd.Searches.Branching.{branching_search, branching_search-expected}
use sosd.Generate.{trace_loop, generate_equality_lookups_from_trace}

module _ (rows : List Row) (sorted : IsSorted (row_keys rows)) where
  -- A search that ends before the key's position ends at a smaller key.
  search_short :
      (key size : ℕ)
      → size < lower_index key (row_keys rows)
      → branching_search rows key 0 size
        ≡ ok (record {
          result = 0;
          num_qualifying = 0;
          correct_index = some (lower_index key (row_keys rows));
        })
  unfolding branching_search sum_from report_miss
  search_short key size h =
      let s = lower_index-Splits rows key sorted in
      let (r, e) = get_elem?-lt rows size (omega (arith, s.inside)) in
      let smaller =
        lt_of_lower_index key (row_keys rows) size (get_elem?-row_keys rows size r e) h in
      let inside : (size == length rows) ≡ false = ground (arith, s.inside) in
      let other : (r.key == key) ≡ false = ground arith in
      rw
        (
          lower_bound_end (row_below key) rows size (omega (arith, s.inside))
              (λ i x q b. s.before i x q (omega arith)),
          inside,
          e,
          other,
          lower_bound-eq (row_below key) rows (lower_index key (row_keys rows)) 0 (length rows) s
              (omega arith) s.inside (omega arith),
        )
        refl

  trace_loop_misses :
      (size : ℕ) (keys : List ℕ)
      → All (λ k. size < lower_index k (row_keys rows)) keys
      → trace_loop rows size keys ≡ ok (map (λ k. record { key = k; result = 0 }) keys)
  unfolding trace_loop
  trace_loop_misses size [] h = refl
  trace_loop_misses size (k ∷ keys) h =
      rw (search_short k size h.0, trace_loop_misses size keys h.1) refl

  -- If every key of the trace belongs behind the position that is the trace's length, each of them
  -- gets the result 0, also those that rows have.
  pub trace_misses :
      (keys : List ℕ)
      → All (λ k. length keys < lower_index k (row_keys rows)) keys
      → generate_equality_lookups_from_trace rows keys
        ≡ ok (map (λ k. record { key = k; result = 0 }) keys)
  unfolding generate_equality_lookups_from_trace
  trace_misses keys h = trace_loop_misses (length keys) keys h

  module _ (fit : ValuesFit rows) (small : length rows < u64_mod) where
    trace_loop-expected :
        (size : ℕ) (keys : List ℕ)
        → size ≤ length rows
        → All (λ k. lower_index k (row_keys rows) ≤ size) keys
        → trace_loop rows size keys
          ≡ ok (map (λ k. record { key = k; result = (expected rows k).result }) keys)
    unfolding trace_loop
    trace_loop-expected size [] le h = refl
    trace_loop-expected size (k ∷ keys) le h =
        rw
          (
            branching_search-expected rows k 0 size sorted fit small (omega arith) h.0 le,
            trace_loop-expected size keys le h.1,
          )
          refl

    -- For fewer than 2 ^ 64 sorted rows with 64-bit payloads, a trace that is no longer than the
    -- rows, and whose keys belong at positions up to its length, each of its keys gets the sum over
    -- all rows with it.
    pub trace_expected :
        (keys : List ℕ)
        → length keys ≤ length rows
        → All (λ k. lower_index k (row_keys rows) ≤ length keys) keys
        → generate_equality_lookups_from_trace rows keys
          ≡ ok (map (λ k. record { key = k; result = (expected rows k).result }) keys)
    unfolding generate_equality_lookups_from_trace
    trace_expected keys le h = trace_loop-expected (length keys) keys le h
