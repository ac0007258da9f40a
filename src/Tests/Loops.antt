-- ===== src/Tests/Loops.antt =====
-- The lookup loops and the windows of the wrapped indexes at small inputs.
use sosd.Prelude.{
  ℕ, ◌≡◌, refl, ◌↔◌, List, [], ◌∷◌, ok, Option, false, true, fault, fail, arith, All,
}
use sosd.Data.{KeyValue, EqualityLookup, row_keys}
use sosd.Sorted.{lower_index}
use sosd.Searches.{expected}
use sosd.Searches.Linear.{linear_search}
use sosd.Util.{add_values}
use sosd.EndToEnd.Radix.{build_and_serve, build_and_serve-IsAnswered}
use sosd.Benchmark.Load.{index_data_from}
use sosd.Benchmark.Lookups.{Index, find, cold_core_loop, batches, check_results}
use sosd.Benchmark.Lookups.Cold.{cold_core_loop-IsAnswered}
use sosd.Benchmark.Lookups.Batches.{Cover, batches-Cover}
use sosd.Competitors.Bounds.{Brackets}
use sosd.Competitors.Windows.{whole_lookup, rmi_lookup, pgm_lookup, sampled_lookup, sampled}
use sosd.Competitors.Windows.Guess.{rmi_lookup-Brackets, pgm_lookup-Brackets}
use sosd.Competitors.Windows.Sampled.{first_at_least, sampled_lookup-Brackets}
use sosd.Tests.{four_rows, four_keys}

abbrev lower_bound_of : List KeyValue → ℕ → Option ℕ
lower_bound_of entries key = first_at_least key entries

batches-Cover_example : Cover 0 150000 (batches 150001 0 150000)
batches-Cover_example = batches-Cover 150000 (omega arith)

-- Two batches of 65536 requests and the rest.
three_batches : batches 4 0 150000 ≡ (0, 65536) ∷ (65536, 131072) ∷ (131072, 150000) ∷ []
unfolding batches
three_batches = refl

rmi_lookup-Brackets_example : Brackets four_keys 5 (rmi_lookup 4 2 1)
unfolding lower_index
rmi_lookup-Brackets_example =
    rmi_lookup-Brackets four_keys 5 2 1 (omega arith) (omega arith) (omega arith)

pgm_lookup-Brackets_example :
    Brackets
      (row_keys four_rows)
      6
      (pgm_lookup 2 4 (lower_bound_of (index_data_from 0 four_rows) 6))
pgm_lookup-Brackets_example =
    pgm_lookup-Brackets lower_bound_of 2 6 four_rows (omega arith) (omega arith) (omega arith) refl

-- Every second entry: the positions 0 and 2.
sampled_lookup-Brackets_example :
    Brackets
      (row_keys four_rows)
      6
      (sampled_lookup 2 4 (lower_bound_of (sampled 2 (index_data_from 0 four_rows)) 6))
sampled_lookup-Brackets_example =
    sampled_lookup-Brackets lower_bound_of 2 6 four_rows (omega arith) (omega arith) (omega arith)
      (omega arith) refl

-- One result is wrong: the row with the key 9 has the payload 40.
abbrev wrong_requests : List EqualityLookup
wrong_requests = record { key = 5; result = 50 } ∷ record { key = 9; result = 41 } ∷ []

-- An index over the whole data.
abbrev whole_index : Index ℕ
whole_index = record {
  equality_lookup = λ data_size key. ok (whole_lookup data_size);
  insert = λ data_size entry.
      fault (fail "Attempted to use inserts on index where wrapper does not support");
}

cold_core_loop-IsAnswered_example :
    (cold_core_loop whole_index four_rows wrong_requests linear_search 4 0 2 false ≡ ok false)
    ↔ All (λ request. (expected four_rows request.key).result ≡ request.result) wrong_requests
unfolding find whole_lookup linear_search expected
cold_core_loop-IsAnswered_example =
    cold_core_loop-IsAnswered whole_index four_rows wrong_requests linear_search 4
      (expected four_rows) (refl, (refl, tt)) (omega arith)

wrong_requests_fail :
    cold_core_loop whole_index four_rows wrong_requests linear_search 4 0 2 false ≡ ok true
unfolding cold_core_loop find whole_lookup linear_search check_results
wrong_requests_fail = refl

build_and_serve-IsAnswered_example :
    (build_and_serve 32 2 four_keys wrong_requests ≡ ok false)
    ↔ All
        (λ request. (expected (add_values four_keys) request.key).result ≡ request.result)
        wrong_requests
build_and_serve-IsAnswered_example =
    build_and_serve-IsAnswered 32 2 four_keys 2 9 (omega arith) (omega arith) (omega arith) refl
      refl (omega arith) wrong_requests (omega arith) (omega arith)
