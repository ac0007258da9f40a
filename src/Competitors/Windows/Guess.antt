-- ===== src/Competitors/Windows/Guess.antt =====
-- competitors/rmi_search.h and competitors/pgm_index.h: the windows around a guess.
use sosd.Prelude.{
  ℕ, ◌+◌, ◌≤◌, ◌<◌, ◌≡◌, refl, ap, List, [], ◌∷◌, Option, none, some, length, length-map, arith,
}
use sosd.Prelude.Words.{u64_mod}
use sosd.Data.{Row, KeyValue, row_keys}
use sosd.Sorted.{IsSorted, lower_index, lower_index-le}
use sosd.Benchmark.Load.{index_data_from}
use sosd.Competitors.Bounds.{Brackets}
use sosd.Competitors.Windows.{rmi_lookup, pgm_lookup, sampled, skips}
use sosd.Competitors.Windows.Sampled.{first_at_least, IsFirst, first_at_least-IsFirst}

-- If the model's guess misses the position of the key by no more than the error that it reports,
-- and their sum is a 64-bit number, the window of the RMI brackets the key.
pub rmi_lookup-Brackets :
    (keys : List ℕ) (key guess error : ℕ)
    → guess ≤ lower_index key keys + error
    → lower_index key keys ≤ guess + error
    → guess + error < u64_mod
    → Brackets keys key (rmi_lookup (length keys) guess error)
unfolding rmi_lookup
rmi_lookup-Brackets keys key guess error below above fits =
    let inside = lower_index-le key keys in
    record { lo = ground arith; hi = ground arith; inside = ground arith }

sampled_one : (entries : List KeyValue) → sampled 1 entries ≡ entries
unfolding sampled skips
sampled_one [] = refl
sampled_one (e ∷ entries) = ap (λ l. e ∷ l) (sampled_one entries)

IsFirst-Brackets_pgm :
    (pgm_error key : ℕ) (rows : List Row)
    → 0 < length rows
    → length rows < u64_mod
    → (found : Option ℕ) → IsFirst 1 0 (length rows) (lower_index key (row_keys rows)) found
    → Brackets (row_keys rows) key (pgm_lookup pgm_error (length rows) found)
unfolding pgm_lookup
IsFirst-Brackets_pgm pgm_error key rows some_row fits none f =
    let count = length-map (λ (r : Row). r.key) rows in
    let inside = lower_index-le key (row_keys rows) in
    let far = f (lower_index key (row_keys rows)) (omega arith) (omega arith) in
    record { lo = ground arith; hi = ground arith; inside = ground arith }
IsFirst-Brackets_pgm pgm_error key rows some_row fits (some v) f =
    let count = length-map (λ (r : Row). r.key) rows in
    record { lo = ground arith; hi = ground arith; inside = ground arith }

-- If lower_bound of the PGM index gives, for the sorted entries of all rows, the value of the first
-- entry that is not below the key, or its end if there is none, the wrapper's window brackets the key,
-- for any pgm_error and any sorted data of fewer than 2 ^ 64 rows that is not empty.
pub pgm_lookup-Brackets :
    (pgm_lower_bound : List KeyValue → ℕ → Option ℕ) (pgm_error key : ℕ) (rows : List Row)
    → 0 < length rows
    → length rows < u64_mod
    → IsSorted (row_keys rows)
    → pgm_lower_bound (index_data_from 0 rows) key ≡ first_at_least key (index_data_from 0 rows)
    → Brackets
        (row_keys rows)
        key
        (pgm_lookup pgm_error (length rows) (pgm_lower_bound (index_data_from 0 rows) key))
pgm_lookup-Brackets pgm_lower_bound pgm_error key rows some_row fits sorted documented =
    let first = first_at_least-IsFirst 1 key 0 rows (omega arith) sorted in
    rw documented (
      IsFirst-Brackets_pgm pgm_error key rows some_row fits
        (first_at_least key (index_data_from 0 rows))
        (rw (sampled_one (index_data_from 0 rows)) at first))
