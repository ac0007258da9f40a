-- ===== src/Tests/Helpers.antt =====
-- util.h and the constructor of the benchmark on small inputs.
use Prim.Native.String.{String}
use sosd.Prelude.{ℕ, ◌≡◌, ◌≤◌, refl, ◌↔◌, [], ◌∷◌, ok, true, false, arith}
use sosd.Sorted.{IsAscending}
use sosd.Util.{remove_duplicates, is_unique}
use sosd.Util.Unique.{Has, remove_duplicates_unique}
use sosd.Util.Random.{
  FastRandom, default_seed, rand_uint32, rand_uint32_between, rand_uint32_between_bounds,
}
use sosd.Benchmark.Load.{Options, Benchmark, load, erase_prefix, erase_to}
use sosd.Benchmark.Load.Loaded.{IsLoaded, IsAccepted, load-IsLoaded}
use sosd.Tests.{four_keys}

remove_duplicates_four : remove_duplicates four_keys ≡ 2 ∷ 5 ∷ 9 ∷ []
unfolding remove_duplicates
remove_duplicates_four = refl

remove_duplicates_unique_example :
    IsAscending (remove_duplicates four_keys)
    × (is_unique (remove_duplicates four_keys) ≡ true)
    × ((key : ℕ) → Has key (remove_duplicates four_keys) ↔ Has key four_keys)
remove_duplicates_unique_example = remove_duplicates_unique four_keys (omega arith)

abbrev first_random : FastRandom
first_random = record { seed = default_seed }

rand_uint32_between_bounds_example :
    (x : ℕ) × (rand_uint32_between first_random 3 9 ≡ ok ((rand_uint32 first_random).0, x))
    × (3 ≤ x)
    × (x ≤ 9)
rand_uint32_between_bounds_example =
    rand_uint32_between_bounds first_random 3 9 (omega arith) (omega arith) (omega arith)

abbrev plain : Options
plain = record {
  num_repeats = 1;
  num_threads = 1;
  write_portion = 0;
  perf = false;
  build = false;
  fence = false;
  cold_cache = false;
  track_errors = false;
  csv = false;
}

abbrev wiki : String
wiki = "data/wiki_ts_200M_uint64"

load-IsLoaded_example :
    ((b : Benchmark) × (load wiki plain four_keys [] ≡ ok b) × IsLoaded wiki plain four_keys [] b)
    ↔ IsAccepted wiki plain four_keys
load-IsLoaded_example = load-IsLoaded wiki plain four_keys []

-- The name of the data set is what stands behind "data/".
wiki_name : erase_prefix wiki ≡ ok "wiki_ts_200M_uint64"
unfolding erase_prefix erase_to
wiki_name = refl
