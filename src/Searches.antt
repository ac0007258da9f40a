-- ===== src/Searches.antt =====
-- searches/: the last-mile searches over the sorted rows. This file has what they share: the
-- outcome of a search, the sum over the rows that follow the first hit, and the specification.
pub mod Spec
pub mod Branching
pub mod Linear
pub mod Branchless
use sosd.Prelude.{
  ℕ, ◌+◌, ◌%◌, List, [], ◌∷◌, map, Bool, Option, none, some, ltb, ◌==◌, if◌then◌else◌, length, drop,
  Run, ok, at, ◌>>=◌, zero, suc,
}
use sosd.Prelude.Words.{u64_mod, add64}
use sosd.Data.{Row, row_keys}
use sosd.Sorted.{lower_index}
use sosd.Algorithms.{lower_bound}

-- What a search returns, what it leaves in `*num_qualifying`, and the "correct index" that it
-- prints when it has not found the key.
pub record Outcome : Type 0 where
  pub result : ℕ
  pub num_qualifying : ℕ
  pub correct_index : Option ℕ

-- The comparison that every call of std::lower_bound passes.
abbrev pub row_below : ℕ → Row → Bool
row_below lookup_key r = ltb r.key lookup_key

-- while (++it != data.end() && it->key == lookup_key) { result += ...; ++(*num_qualifying); }
-- over the rows behind `it`.
unfoldable pub sum_run : ℕ → List Row → ℕ → ℕ → ℕ × ℕ
sum_run lookup_key [] result count = (result, count)
sum_run lookup_key (r ∷ rows) result count =
    if r.key == lookup_key
    then sum_run lookup_key rows (add64 result r.data0) (add64 count 1)
    else (result, count)

-- The error branch: the correct index is computed for the message, and 0 is returned.
unfoldable pub report_miss : List Row → ℕ → Run Outcome
report_miss rows lookup_key = do
  corr ← lower_bound (row_below lookup_key) rows 0 (length rows)
  ok (record { result = 0; num_qualifying = 0; correct_index = some corr })

abbrev pub summed : ℕ × ℕ → Outcome
summed (s, n) = record { result = s; num_qualifying = n; correct_index = none }

-- What BranchingBinarySearch and LinearSearch do with the position `it` of the first hit.
unfoldable pub sum_from : List Row → ℕ → ℕ → Run Outcome
unfolding sum_run report_miss
sum_from rows lookup_key it =
    let found = do
      r ← at rows it
      if r.key == lookup_key
          then ok (summed (sum_run lookup_key (drop (suc it) rows) r.data0 1))
          else report_miss rows lookup_key
    in if it == length rows then report_miss rows lookup_key else found

-- The specification: the sum and the number of all rows with the key, wherever they stand.
unfoldable pub sum_matching : ℕ → List Row → ℕ
sum_matching key [] = 0
sum_matching key (r ∷ rows) = (if r.key == key then r.data0 else 0) + sum_matching key rows

unfoldable pub count_matching : ℕ → List Row → ℕ
count_matching key [] = 0
count_matching key (r ∷ rows) = (if r.key == key then 1 else 0) + count_matching key rows

-- `*num_qualifying` and the result of a search that finds every row with the key; a search for a
-- key that no row has reports where it would stand.
unfoldable pub expected : List Row → ℕ → Outcome
unfolding sum_matching count_matching
expected rows key = record {
  result = sum_matching key rows % u64_mod;
  num_qualifying = count_matching key rows;
  correct_index =
      if count_matching key rows == 0 then some (lower_index key (row_keys rows)) else none;
}
