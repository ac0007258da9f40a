-- ===== src/Tests/Searches.antt =====
-- The searches on four rows.
use sosd.Prelude.{◌≡◌, refl, ok, fault, out_of_bounds, some, none, arith}
use sosd.Algorithms.{lower_bound}
use sosd.Sorted.{lower_index}
use sosd.Searches.{expected, count_matching}
use sosd.Searches.Branching.{branching_search, branching_search-expected}
use sosd.Searches.Linear.{linear_search, linear_search-expected}
use sosd.Searches.Branchless.{branchless_search, sum_at}
use sosd.Searches.Branchless.Correct.{branchless_search-expected}
use sosd.Searches.Branchless.Overrun.{branchless_search-overruns, sum_at-overruns}
use sosd.Tests.{four_rows}

-- Two rows have the key 5, and their payloads add up to 50.
branching_search_five :
    branching_search four_rows 5 0 4
    ≡ ok (record { result = 50; num_qualifying = 2; correct_index = none })
unfolding branching_search
branching_search_five = refl

-- The key 7 is missing, and belongs at position 3.
linear_search_seven :
    linear_search four_rows 7 0 4
    ≡ ok (record { result = 0; num_qualifying = 0; correct_index = some 3 })
unfolding linear_search lower_bound
linear_search_seven = refl

branchless_search_five :
    branchless_search four_rows 5 0 3
    ≡ ok (record { result = 50; num_qualifying = 2; correct_index = none })
unfolding branchless_search
branchless_search_five = refl

branching_search-expected_example : branching_search four_rows 5 0 4 ≡ ok (expected four_rows 5)
unfolding lower_index
branching_search-expected_example =
    branching_search-expected four_rows 5 0 4 (omega arith) (omega arith) (omega arith)
      (omega arith) (omega arith) (omega arith)

linear_search-expected_example : linear_search four_rows 7 1 4 ≡ ok (expected four_rows 7)
unfolding lower_index
linear_search-expected_example =
    linear_search-expected four_rows 7 1 4 (omega arith) (omega arith) (omega arith) (omega arith)
      (omega arith) (omega arith)

branchless_search-expected_example : branchless_search four_rows 5 0 3 ≡ ok (expected four_rows 5)
unfolding lower_index count_matching
branchless_search-expected_example =
    branchless_search-expected four_rows 5 0 3 (omega arith) (omega arith) (omega arith)
      (omega arith) (omega arith) (omega arith)

branchless_search-overruns_example : branchless_search four_rows 9 1 4 ≡ fault out_of_bounds
branchless_search-overruns_example =
    branchless_search-overruns four_rows 9 (omega arith) (omega arith) 1 (omega arith)

sum_at-overruns_example : sum_at four_rows 9 3 ≡ fault out_of_bounds
sum_at-overruns_example = sum_at-overruns four_rows 9 3 (omega arith) (refl, tt)
