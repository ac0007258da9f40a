-- ===== src/EndToEnd.antt =====
-- An index and a search together, as the benchmark joins them: the bound of the lookup goes to the
-- search over the rows.
pub mod Radix
use sosd.Prelude.{
  ℕ, ◌<◌, ◌≡◌, List, [], ◌∷◌, Run, ok, ◌>>=◌, length, zero, suc, ◌+◌, refl, ap, length-map, arith,
}
use sosd.Prelude.Words.{u64_mod}
use sosd.Data.{Row, KeyValue, SearchBound, row_keys, entry_keys, ValuesFit}
use sosd.Sorted.{IsSorted}
use sosd.Competitors.Bounds.{Brackets}
use sosd.Searches.{Outcome, expected}
use sosd.Searches.Branching.{branching_search, branching_search-expected}

-- Whatever the index, a bound that brackets the key makes the binary search meet its
-- specification.
pub Brackets-search :
    (rows : List Row) (key : ℕ) (b : SearchBound)
    → IsSorted (row_keys rows)
    → ValuesFit rows
    → length rows < u64_mod
    → Brackets (row_keys rows) key b
    → branching_search rows key b.start b.stop ≡ ok (expected rows key)
Brackets-search rows key b sorted fit small br =
    branching_search-expected rows key b.start b.stop sorted fit small br.lo br.hi
      (omega (arith, br.inside, length-map (λ (r : Row). r.key) rows))
