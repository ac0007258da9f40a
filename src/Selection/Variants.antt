-- ===== src/Selection/Variants.antt =====
-- benchmarks/*.cc: with which template argument each index runs, in order.
use sosd.Prelude.{ℕ, List, [], ◌∷◌, ◌++◌, Bool, if◌then◌else◌}

-- The index runs with `first`; with pareto also with `more`, and then with `coarse` if the search is
-- a binary search.
unfoldable pub selected : ℕ → List ℕ → List ℕ → Bool → Bool → List ℕ
selected first more coarse uses_binary_search pareto =
    first ∷ (if pareto then more ++ (if uses_binary_search then coarse else []) else [])

unfoldable pub benchmark_32_rs : Bool → Bool → List ℕ
unfolding selected
benchmark_32_rs uses_binary_search pareto =
    selected 10 (9 ∷ 8 ∷ 7 ∷ 6 ∷ 5 ∷ 4 ∷ 3 ∷ 2 ∷ 1 ∷ []) ([]) uses_binary_search pareto

unfoldable pub benchmark_64_rs : Bool → Bool → List ℕ
unfolding selected
benchmark_64_rs uses_binary_search pareto =
    selected 10 (9 ∷ 8 ∷ 7 ∷ 6 ∷ 5 ∷ 4 ∷ 3 ∷ 2 ∷ 1 ∷ []) ([]) uses_binary_search pareto

unfoldable pub benchmark_32_ts : Bool → Bool → List ℕ
unfolding selected
benchmark_32_ts uses_binary_search pareto =
    selected 10 (9 ∷ 8 ∷ 7 ∷ 6 ∷ 5 ∷ 4 ∷ 3 ∷ 2 ∷ 1 ∷ []) ([]) uses_binary_search pareto

unfoldable pub benchmark_64_ts : Bool → Bool → List ℕ
unfolding selected
benchmark_64_ts uses_binary_search pareto =
    selected 10 (9 ∷ 8 ∷ 7 ∷ 6 ∷ 5 ∷ 4 ∷ 3 ∷ 2 ∷ 1 ∷ []) ([]) uses_binary_search pareto

unfoldable pub benchmark_32_pgm : Bool → Bool → List ℕ
unfolding selected
benchmark_32_pgm uses_binary_search pareto =
    selected 1 (4 ∷ 8 ∷ 16 ∷ 32 ∷ 64 ∷ 256 ∷ 1024 ∷ 2048 ∷ []) (4096 ∷ 8192 ∷ []) uses_binary_search
      pareto

unfoldable pub benchmark_64_pgm : Bool → Bool → List ℕ
unfolding selected
benchmark_64_pgm uses_binary_search pareto =
    selected 1 (4 ∷ 8 ∷ 16 ∷ 32 ∷ 64 ∷ 256 ∷ 1024 ∷ 2048 ∷ []) (4096 ∷ 8192 ∷ []) uses_binary_search
      pareto

unfoldable pub benchmark_32_cht : Bool → Bool → List ℕ
unfolding selected
benchmark_32_cht uses_binary_search pareto =
    selected 10 (9 ∷ 8 ∷ 7 ∷ 6 ∷ 5 ∷ 4 ∷ 3 ∷ 2 ∷ 1 ∷ []) ([]) uses_binary_search pareto

unfoldable pub benchmark_64_cht : Bool → Bool → List ℕ
unfolding selected
benchmark_64_cht uses_binary_search pareto =
    selected 10 (9 ∷ 8 ∷ 7 ∷ 6 ∷ 5 ∷ 4 ∷ 3 ∷ 2 ∷ 1 ∷ []) ([]) uses_binary_search pareto

unfoldable pub benchmark_64_art : Bool → Bool → List ℕ
unfolding selected
benchmark_64_art uses_binary_search pareto =
    selected 1 (32 ∷ 64 ∷ 128 ∷ 256 ∷ 512 ∷ []) (1024 ∷ 2048 ∷ 4096 ∷ 8192 ∷ []) uses_binary_search
      pareto

unfoldable pub benchmark_32_btree : Bool → Bool → List ℕ
unfolding selected
benchmark_32_btree uses_binary_search pareto =
    selected 1 (4 ∷ 16 ∷ 32 ∷ 64 ∷ 128 ∷ 512 ∷ 1024 ∷ []) (4096 ∷ 16384 ∷ 65536 ∷ 262144 ∷ [])
      uses_binary_search pareto

unfoldable pub benchmark_64_btree : Bool → Bool → List ℕ
unfolding selected
benchmark_64_btree uses_binary_search pareto =
    selected 1 (4 ∷ 16 ∷ 32 ∷ 64 ∷ 128 ∷ 512 ∷ 1024 ∷ []) (4096 ∷ 16384 ∷ 65536 ∷ 262144 ∷ [])
      uses_binary_search pareto

unfoldable pub benchmark_32_ibtree : Bool → Bool → List ℕ
unfolding selected
benchmark_32_ibtree uses_binary_search pareto =
    selected 1 (32 ∷ 64 ∷ 128 ∷ 256 ∷ 512 ∷ []) (1024 ∷ 2048 ∷ 4096 ∷ 8192 ∷ []) uses_binary_search
      pareto

unfoldable pub benchmark_64_ibtree : Bool → Bool → List ℕ
unfolding selected
benchmark_64_ibtree uses_binary_search pareto =
    selected 1 (32 ∷ 64 ∷ 128 ∷ 256 ∷ 512 ∷ []) (1024 ∷ 2048 ∷ 4096 ∷ 8192 ∷ []) uses_binary_search
      pareto

unfoldable pub benchmark_32_fast : Bool → Bool → List ℕ
unfolding selected
benchmark_32_fast uses_binary_search pareto =
    selected 1 (16 ∷ 256 ∷ 512 ∷ 768 ∷ 1024 ∷ 1526 ∷ 2048 ∷ []) (4096 ∷ 8192 ∷ [])
      uses_binary_search pareto

unfoldable pub benchmark_64_fast : Bool → Bool → List ℕ
unfolding selected
benchmark_64_fast uses_binary_search pareto =
    selected 1 (16 ∷ 256 ∷ 512 ∷ 768 ∷ 1024 ∷ 1526 ∷ 2048 ∷ []) (4096 ∷ 8192 ∷ [])
      uses_binary_search pareto

unfoldable pub benchmark_32_alex : Bool → Bool → List ℕ
unfolding selected
benchmark_32_alex uses_binary_search pareto =
    selected 1 (4 ∷ 8 ∷ 16 ∷ 32 ∷ 64 ∷ 128 ∷ 256 ∷ 512 ∷ 1024 ∷ 2048 ∷ []) (4096 ∷ 8192 ∷ [])
      uses_binary_search pareto

unfoldable pub benchmark_64_alex : Bool → Bool → List ℕ
unfolding selected
benchmark_64_alex uses_binary_search pareto =
    selected 1 (4 ∷ 8 ∷ 16 ∷ 32 ∷ 64 ∷ 128 ∷ 256 ∷ 512 ∷ 1024 ∷ 2048 ∷ []) (4096 ∷ 8192 ∷ [])
      uses_binary_search pareto

unfoldable pub benchmark_32_fst : Bool → Bool → List ℕ
unfolding selected
benchmark_32_fst uses_binary_search pareto =
    selected 128 (256 ∷ 512 ∷ 1024 ∷ 2048 ∷ 4096 ∷ 8192 ∷ []) ([]) uses_binary_search pareto

unfoldable pub benchmark_64_fst : Bool → Bool → List ℕ
unfolding selected
benchmark_64_fst uses_binary_search pareto =
    selected 128 (256 ∷ 512 ∷ 1024 ∷ 2048 ∷ 4096 ∷ 8192 ∷ []) ([]) uses_binary_search pareto

unfoldable pub benchmark_32_wormhole : Bool → Bool → List ℕ
unfolding selected
benchmark_32_wormhole uses_binary_search pareto =
    selected 512 (1024 ∷ 2048 ∷ 4096 ∷ []) (6384 ∷ 5536 ∷ 62144 ∷ []) uses_binary_search pareto

unfoldable pub benchmark_64_wormhole : Bool → Bool → List ℕ
unfolding selected
benchmark_64_wormhole uses_binary_search pareto =
    selected 512 (1024 ∷ 2048 ∷ 4096 ∷ []) (6384 ∷ 5536 ∷ 62144 ∷ []) uses_binary_search pareto

unfoldable pub benchmark_32_rbs : Bool → Bool → List ℕ
unfolding selected
benchmark_32_rbs uses_binary_search pareto =
    selected 28 (26 ∷ 24 ∷ 22 ∷ 20 ∷ []) (18 ∷ 16 ∷ 14 ∷ 12 ∷ 10 ∷ 8 ∷ []) uses_binary_search pareto

unfoldable pub benchmark_64_rbs : Bool → Bool → List ℕ
unfolding selected
benchmark_64_rbs uses_binary_search pareto =
    selected 28 (26 ∷ 24 ∷ 22 ∷ 20 ∷ []) (18 ∷ 16 ∷ 14 ∷ 12 ∷ 10 ∷ 8 ∷ []) uses_binary_search pareto
