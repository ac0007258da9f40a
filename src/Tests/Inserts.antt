-- ===== src/Tests/Inserts.antt =====
-- The mixed loop on four rows.
use sosd.Prelude.{
  le→ltb, length, ◌++◌, fault, out_of_bounds, ℕ, ◌+◌, ◌*◌, ◌%◌, ◌≡◌, refl, drop, List, [], ◌∷◌, ok,
  arith,
}
use sosd.Data.{entry_keys, KeyValue, EqualityLookup, row_keys}
use sosd.Sorted.{lower_index}
use sosd.Algorithms.{lower_bound-eq}
use sosd.Searches.{row_below, sum_run}
use sosd.Searches.Spec.{lower_index-Splits}
use sosd.Searches.Branchless.{to_int}
use sosd.Competitors.Windows.{whole_lookup}
use sosd.Benchmark.Lookups.{Index, sum_lookup, sum_behind, mixed_core_loop}
use sosd.Benchmark.Lookups.Mixed.{Writes, count_writes, mixed_core_loop-Writes}
use mathlib.Core.List.{Perm}
use sosd.Sorted.{IsSorted}
use sosd.Benchmark.Load.{index_data_from}
use sosd.Benchmark.Inserts.{split_data, select_inserts}
use sosd.Benchmark.Inserts.Sorting.{split_data-Perm, select_inserts-overruns}
use sosd.Tests.{four_rows}

abbrev requests : List EqualityLookup
requests =
    record { key = 5; result = 50 }
    ∷ record { key = 9; result = 40 }
    ∷ record { key = 2; result = 10 }
    ∷ []

abbrev saved_entries : List KeyValue
saved_entries = record { key = 3; value = 1 } ∷ record { key = 4; value = 2 } ∷ []

-- The state is the number of entries.
abbrev counting_index : Index ℕ
counting_index = record {
  equality_lookup = λ entries key. ok (whole_lookup 4);
  insert = λ entries e. ok (entries + 1);
}

reads_end : (entries key : ℕ) → (r : ℕ) × (sum_lookup counting_index four_rows entries key ≡ ok r)
unfolding sum_lookup sum_behind whole_lookup to_int
reads_end entries key =
    let s = lower_index-Splits four_rows key (omega arith) in
    (
      (sum_run key (drop (lower_index key (row_keys four_rows)) four_rows) 0 0).0,
      rw
          (
            lower_bound-eq (row_below key) four_rows (lower_index key (row_keys four_rows)) 0 4 s
                (omega arith) s.inside (omega arith),
            le→ltb 4 (lower_index key (row_keys four_rows)) s.inside,
          )
          refl,
    )

abbrev one_more : ℕ → KeyValue → ℕ
one_more entries e = entries + 1

-- The first and the third draw insert.
mixed_core_loop-Writes_example :
    Writes one_more 4 saved_entries
      (count_writes (λ i. i * 60 % 100) 50 0 3)
      (mixed_core_loop counting_index four_rows requests 50 (λ i. i * 60 % 100) 0 3 4 saved_entries)
mixed_core_loop-Writes_example =
    mixed_core_loop-Writes counting_index four_rows requests one_more reads_end (λ entries e. refl)
      (λ i. i * 60 % 100) 50 4 saved_entries (omega arith)

-- Two of four entries are taken: the last and the first.
split_data-Perm_example :
    (left : List KeyValue) × (taken : List KeyValue) × (split_data
        (0 ∷ 3 ∷ [])
        (index_data_from 0 four_rows)
      ≡ ok (left, taken))
    × Perm (taken ++ left) (index_data_from 0 four_rows)
    × (length taken ≡ length {A = ℕ} (0 ∷ 3 ∷ []))
    × IsSorted (entry_keys left)
unfolding index_data_from
split_data-Perm_example =
    split_data-Perm (0 ∷ 3 ∷ []) (index_data_from 0 four_rows) (omega arith) (omega arith)
      (omega arith) (omega arith)

split_first_and_last :
    split_data (0 ∷ 3 ∷ []) (index_data_from 0 four_rows)
    ≡ ok (
      record { key = 5; value = 2 } ∷ record { key = 5; value = 1 } ∷ [],
      record { key = 9; value = 3 } ∷ record { key = 2; value = 0 } ∷ [],
    )
unfolding split_data index_data_from
split_first_and_last = refl

-- Three requests and a portion of 30 per cent.
select_inserts-overruns_example :
    select_inserts 10 (λ i. i) 30 requests (index_data_from 0 four_rows) ≡ fault out_of_bounds
select_inserts-overruns_example =
    select_inserts-overruns 9 (λ i. i) 30 requests (index_data_from 0 four_rows) (omega arith)
      (omega arith) (omega arith) (omega arith)
