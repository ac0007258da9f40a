-- ===== src/Selection/Applicable.antt =====
-- benchmarks/: the runs of RS, TS and CHT that are selected, and their parameters.
use Prim.Native.String.{String}
use sosd.Prelude.{ℕ, ◌≤◌, List, Bool, true, false, All, All-map, arith}
use sosd.Selection.Variants.{
  benchmark_32_rs, benchmark_32_ts, benchmark_32_cht, benchmark_64_rs, benchmark_64_ts,
  benchmark_64_cht,
}
use sosd.Competitors.Parameters.{
  rs_configs, ts_configs, cht_configs, rs_set_parameters, ts_set_parameters, cht_set_parameters,
}
use sosd.Competitors.Parameters.Bounds.{
  Sets, IsRsConfig, IsTsConfig, IsChtConfig, set_parameters_bounds,
}

-- A size_scale that the tables of RS, TS and CHT have an entry for.
abbrev IsScale : ℕ → Type 0
IsScale size_scale = (1 ≤ size_scale) × (size_scale ≤ 10)

variants-IsScale :
    (binary pareto : Bool)
    → All IsScale (benchmark_32_rs binary pareto)
      × All IsScale (benchmark_64_rs binary pareto)
      × All IsScale (benchmark_32_ts binary pareto)
      × All IsScale (benchmark_64_ts binary pareto)
      × All IsScale (benchmark_32_cht binary pareto)
      × All IsScale (benchmark_64_cht binary pareto)
unfolding benchmark_32_rs benchmark_64_rs benchmark_32_ts benchmark_64_ts benchmark_32_cht
    benchmark_64_cht
variants-IsScale true true = omega arith
variants-IsScale false true = omega arith
variants-IsScale binary false = omega arith

-- What SetParameters of the three indexes gives at a size_scale.
abbrev pub SetsAll : String → ℕ → Type 0
SetsAll dataset size_scale =
    Sets IsRsConfig rs_configs dataset (rs_set_parameters size_scale dataset)
    × Sets IsTsConfig ts_configs dataset (ts_set_parameters size_scale dataset)
    × Sets IsChtConfig cht_configs dataset (cht_set_parameters size_scale dataset)

IsScale-SetsAll :
    (dataset : String) (variants : List ℕ) → All IsScale variants → All (SetsAll dataset) variants
IsScale-SetsAll dataset variants a =
    All-map (λ (n : ℕ) h. set_parameters_bounds n dataset h.0 h.1) variants a

-- In every run of RS, TS or CHT that is selected, on any data set, SetParameters ends normally,
-- and sets parameters in range unless it has none for the data set.
pub variants-SetsAll :
    (dataset : String) (binary pareto : Bool)
    → All (SetsAll dataset) (benchmark_32_rs binary pareto)
      × All (SetsAll dataset) (benchmark_64_rs binary pareto)
      × All (SetsAll dataset) (benchmark_32_ts binary pareto)
      × All (SetsAll dataset) (benchmark_64_ts binary pareto)
      × All (SetsAll dataset) (benchmark_32_cht binary pareto)
      × All (SetsAll dataset) (benchmark_64_cht binary pareto)
variants-SetsAll dataset binary pareto =
    let (a, b, c, d, e, f) = variants-IsScale binary pareto in
    (
      IsScale-SetsAll dataset _ a,
      IsScale-SetsAll dataset _ b,
      IsScale-SetsAll dataset _ c,
      IsScale-SetsAll dataset _ d,
      IsScale-SetsAll dataset _ e,
      IsScale-SetsAll dataset _ f,
    )
