-- ===== src/Tests/Traces.antt =====
-- The lookup generator on four rows.
use sosd.Prelude.{ℕ, List, Bool, false, ◌≡◌, ◌*◌, refl, [], ◌∷◌, ok, arith}
use sosd.Sorted.{lower_index}
use sosd.Searches.{expected}
use sosd.Generate.{
  generate_equality_lookups, generate_equality_lookups_from_trace, to_nice_number, Suffix,
  suffix_scale,
}
use sosd.Generate.Trace.{trace_misses, trace_expected}
use sosd.Generate.Retries.{Ends}
use sosd.Generate.Positive.{generate_equality_lookups-Ends}
use sosd.Generate.Names.{to_nice_number-scale}
use sosd.Tests.{four_rows}

-- The row with the key 9 is not found: the trace has two keys, and the row stands at position 3.
trace_misses_example :
    generate_equality_lookups_from_trace four_rows (9 ∷ 9 ∷ [])
    ≡ ok (record { key = 9; result = 0 } ∷ record { key = 9; result = 0 } ∷ [])
unfolding lower_index
trace_misses_example = trace_misses four_rows (omega arith) (9 ∷ 9 ∷ []) (omega arith)

trace_expected_example :
    generate_equality_lookups_from_trace four_rows (9 ∷ 5 ∷ 6 ∷ [])
    ≡ ok (
        record { key = 9; result = (expected four_rows 9).result }
        ∷ record { key = 5; result = (expected four_rows 5).result }
        ∷ record { key = 6; result = (expected four_rows 6).result }
        ∷ [])
unfolding lower_index
trace_expected_example =
    trace_expected four_rows (omega arith) (omega arith) (omega arith) (9 ∷ 5 ∷ 6 ∷ [])
      (omega arith) (omega arith)

to_nice_number-scale_example :
    (to_nice_number 10000000).0 * suffix_scale (to_nice_number 10000000).1 ≡ 10000000
to_nice_number-scale_example = to_nice_number-scale 10000000

ten_millions : to_nice_number 10000000 ≡ (10, Suffix.millions)
unfolding to_nice_number
ten_millions = refl

abbrev three_keys : List ℕ
three_keys = 2 ∷ 5 ∷ 9 ∷ []

abbrev never : ℕ → Bool
never draw = false

abbrev smallest_key : ℕ → ℕ → ℕ → ℕ
smallest_key min_key max_key draw = min_key

generate_equality_lookups-Ends_example :
    Ends four_rows three_keys 2 0
      (generate_equality_lookups false never smallest_key four_rows three_keys 2 303)
generate_equality_lookups-Ends_example =
    generate_equality_lookups-Ends never smallest_key four_rows three_keys 2 (omega arith)
      (omega arith) (omega arith) (omega arith) (omega arith) 303 (omega arith) (omega arith)
