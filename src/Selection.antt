-- ===== src/Selection.antt =====
-- benchmark.cc: which indexes run, by the key type and the options.
pub mod Variants
pub mod Applicable
use Prim.Native.String.{String}
use text.Mathlib.Text.{◌==◌, find?}
use sosd.Prelude.{
  ℕ, List, [], ◌∷◌, ◌++◌, map, Bool, true, false, ◌||◌, not, if◌then◌else◌, Option, none, some,
}
use sosd.Selection.Variants.{
  benchmark_32_rs, benchmark_32_ts, benchmark_32_pgm, benchmark_32_cht, benchmark_32_btree,
  benchmark_32_ibtree, benchmark_32_fast, benchmark_32_alex, benchmark_32_fst,
  benchmark_32_wormhole, benchmark_32_rbs, benchmark_64_rs, benchmark_64_ts, benchmark_64_pgm,
  benchmark_64_cht, benchmark_64_art, benchmark_64_btree, benchmark_64_ibtree, benchmark_64_fast,
  benchmark_64_alex, benchmark_64_fst, benchmark_64_wormhole, benchmark_64_rbs,
}

-- A run of an index: its tag on the command line, and its template argument.
abbrev pub IndexRun : Type 0
IndexRun = String × ℕ

abbrev pub tagged : String → List ℕ → List IndexRun
tagged tag variants = map (λ (n : ℕ). (tag, n)) variants

-- check_only.
unfoldable pub check_only : Bool → String → String → List ℕ → List IndexRun
check_only only_mode only tag variants =
    if not only_mode || only == tag then tagged tag variants else []

-- An index without a template argument.
abbrev pub plain : List ℕ
plain = 0 ∷ []

-- run_rmi_binary_pareto, over the variants of one data set: none unless the file is one of it.
unfoldable pub run_rmi_binary_pareto : String → String → Bool → Bool → List ℕ
run_rmi_binary_pareto filename name uses_binary_search pareto =
    let more = 1 ∷ 2 ∷ 3 ∷ 4 ∷ (if uses_binary_search then 5 ∷ 6 ∷ 7 ∷ 8 ∷ 9 ∷ [] else []) in
    elim (find? filename name) [ none ↦ [] | some position ↦ 0 ∷ (if pareto then more else []) ]

unfoldable pub rmi_runs : String → List String → Bool → Bool → List ℕ
unfolding run_rmi_binary_pareto
rmi_runs filename [] uses_binary_search pareto = []
rmi_runs filename (name ∷ names) uses_binary_search pareto =
    run_rmi_binary_pareto filename name uses_binary_search pareto
    ++ rmi_runs filename names uses_binary_search pareto

unfoldable pub benchmark_32_rmi : String → Bool → Bool → List ℕ
unfolding rmi_runs
benchmark_32_rmi filename uses_binary_search pareto =
    rmi_runs filename
      ("/books_200M_uint32" ∷ "/normal_200M_uint32" ∷ "/lognormal_200M_uint32"
        ∷ "/uniform_dense_200M_uint32" ∷ "/uniform_sparse_200M_uint32" ∷ [])
      uses_binary_search pareto

unfoldable pub benchmark_64_rmi : String → Bool → Bool → List ℕ
unfolding rmi_runs
benchmark_64_rmi filename uses_binary_search pareto =
    rmi_runs filename
      ("/fb_200M_uint64" ∷ "/osm_cellids_200M_uint64" ∷ "/wiki_ts_200M_uint64"
        ∷ "/books_200M_uint64" ∷ "/osm_cellids_400M_uint64" ∷ "/osm_cellids_600M_uint64"
        ∷ "/osm_cellids_800M_uint64" ∷ "/books_400M_uint64" ∷ "/books_600M_uint64"
        ∷ "/books_800M_uint64" ∷ "/normal_200M_uint64" ∷ "/lognormal_200M_uint64"
        ∷ "/uniform_dense_200M_uint64" ∷ "/uniform_sparse_200M_uint64" ∷ [])
      uses_binary_search pareto

-- A sequence of check_only.
unfoldable pub check_all : Bool → String → List (String × List ℕ) → List IndexRun
unfolding check_only
check_all only_mode only [] = []
check_all only_mode only ((tag, variants) ∷ checks) =
    check_only only_mode only tag variants ++ check_all only_mode only checks

module _ (filename : String) (binary pareto : Bool) where
  -- What execute_32_bit checks, on a system other than Apple's and with FST; `binary` is
  -- uses_binary_search().
  unfoldable pub checks_32_bit : List (String × List ℕ)
  checks_32_bit =
      (("RMI", benchmark_32_rmi filename binary pareto)
        ∷ ("RS", benchmark_32_rs binary pareto)
        ∷ ("TS", benchmark_32_ts binary pareto)
        ∷ ("PGM", benchmark_32_pgm binary pareto)
        ∷ ("CHT", benchmark_32_cht binary pareto)
        ∷ ("BTree", benchmark_32_btree binary pareto)
        ∷ ("IBTree", benchmark_32_ibtree binary pareto)
        ∷ ("FAST", benchmark_32_fast binary pareto)
        ∷ ("ALEX", benchmark_32_alex binary pareto)
        ∷ ("FST", benchmark_32_fst binary pareto)
        ∷ ("Wormhole", benchmark_32_wormhole binary pareto)
        ∷ [])
      ++ (if binary
          then (("RBS", benchmark_32_rbs binary pareto)
              ∷ ("CuckooMap", plain)
              ∷ ("RobinHash", plain)
              ∷ ("BS", plain)
              ∷ [])
          else [])

  -- What execute_64_bit checks.
  unfoldable pub checks_64_bit : List (String × List ℕ)
  checks_64_bit =
      (("RMI", benchmark_64_rmi filename binary pareto)
        ∷ ("RS", benchmark_64_rs binary pareto)
        ∷ ("TS", benchmark_64_ts binary pareto)
        ∷ ("PGM", benchmark_64_pgm binary pareto)
        ∷ ("CHT", benchmark_64_cht binary pareto)
        ∷ ("ART", benchmark_64_art binary pareto)
        ∷ ("BTree", benchmark_64_btree binary pareto)
        ∷ ("IBTree", benchmark_64_ibtree binary pareto)
        ∷ ("FAST", benchmark_64_fast binary pareto)
        ∷ ("ALEX", benchmark_64_alex binary pareto)
        ∷ ("FST", benchmark_64_fst binary pareto)
        ∷ ("Wormhole", benchmark_64_wormhole binary pareto)
        ∷ [])
      ++ (if binary
          then (("RBS", benchmark_64_rbs binary pareto) ∷ ("RobinHash", plain) ∷ ("BS", plain) ∷ [])
          else [])

unfoldable pub execute_32_bit : String → Bool → String → Bool → Bool → List IndexRun
unfolding check_all checks_32_bit
execute_32_bit filename only_mode only binary pareto =
    check_all only_mode only (checks_32_bit filename binary pareto)

unfoldable pub execute_64_bit : String → Bool → String → Bool → Bool → List IndexRun
unfolding check_all checks_64_bit
execute_64_bit filename only_mode only binary pareto =
    check_all only_mode only (checks_64_bit filename binary pareto)
