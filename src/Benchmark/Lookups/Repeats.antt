-- ===== src/Benchmark/Lookups/Repeats.antt =====
-- benchmark.h: the times that the repeats of DoEqualityLookups leave.
use sosd.Prelude.{
  ℕ, ◌≤◌, ◌<◌, ◌≡◌, List, All, ◌⊎◌, Bool, true, false, some, Run, ok, length, replicate, get_elem?,
}
use sosd.Data.{EqualityLookup}
use sosd.Searches.{Outcome}
use sosd.Benchmark.Lookups.Cold.{IsAnswered}

module _ (ms : ℕ → ℕ) (failed : ℕ → Bool) where
  -- What the repeats from `i` to `n` leave: all times zero if one of them failed, and else the time
  -- of each, with the times of the repeats before.
  abbrev Leaves : ℕ → ℕ → List ℕ → Run (List ℕ) → Type 0
  Leaves i n runs run =
      ((j : ℕ) × (i ≤ j) × (j < n) × (failed j ≡ true) × (run ≡ ok (replicate n 0)))
      ⊎ (((j : ℕ) → i ≤ j → j < n → failed j ≡ false)
          × ((times : List ℕ) × (run ≡ ok times)
              × (length times ≡ n)
              × ((j : ℕ) → i ≤ j → j < n → get_elem? times j ≡ some (ms j))
              × ((j : ℕ) → j < i → get_elem? times j ≡ get_elem? runs j)))

-- The times of the repeats, those measured if the requests were answered as their file says, and zeros
-- if some request was not.
abbrev pub Times : (ℕ → Outcome) → List EqualityLookup → (ℕ → ℕ) → ℕ → List ℕ → Type 0
Times answer lookups ms num_repeats times =
    (All (IsAnswered answer) lookups
      × ((j : ℕ) → j < num_repeats → get_elem? times j ≡ some (ms j)))
    ⊎ ((¬ All (IsAnswered answer) lookups) × (times ≡ replicate num_repeats 0))
