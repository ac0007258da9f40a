-- ===== src/Tests/Choices.antt =====
-- Which indexes run, and with which parameters.
use Prim.Native.String.{String}
use sosd.Prelude.{◌≤◌, ◌≡◌, refl, [], ◌∷◌, All, ok, fault, fail, some, true, false, arith}
use sosd.Selection.{execute_32_bit, benchmark_32_rmi}
use sosd.Selection.Variants.{
  benchmark_32_rs, benchmark_32_ts, benchmark_32_cht, benchmark_64_rs, benchmark_64_ts,
  benchmark_64_cht,
}
use sosd.Selection.Applicable.{SetsAll, variants-SetsAll}
use sosd.Competitors.Parameters.{rs_set_parameters}
use sosd.Competitors.Parameters.Bounds.{rs_set_parameters_mono}

abbrev fb : String
fb = "fb_200M_uint64"

-- A size_scale out of the tables fails the assertion.
fb_zero :
    rs_set_parameters 0 fb ≡ fault (fail "Assertion `size_scale >= 1 && size_scale <= 10' failed.")
unfolding rs_set_parameters
fb_zero = refl

fb_seven : rs_set_parameters 7 fb ≡ ok (some (24, 70))
unfolding rs_set_parameters
fb_seven = refl

rs_set_parameters_mono_example : ◌≤◌ 10 24
unfolding rs_set_parameters
rs_set_parameters_mono_example =
    rs_set_parameters_mono 5 7 fb (10, 90) (24, 70) (omega arith) (omega arith) (omega arith) refl
      refl

only_rmi : execute_32_bit "data/books_200M_uint32" true "RMI" true false ≡ ("RMI", 0) ∷ []
unfolding execute_32_bit benchmark_32_rmi
only_rmi = refl

variants-SetsAll_example :
    All (SetsAll fb) (benchmark_32_rs true true)
    × All (SetsAll fb) (benchmark_64_rs true true)
    × All (SetsAll fb) (benchmark_32_ts true true)
    × All (SetsAll fb) (benchmark_64_ts true true)
    × All (SetsAll fb) (benchmark_32_cht true true)
    × All (SetsAll fb) (benchmark_64_cht true true)
variants-SetsAll_example = variants-SetsAll fb true true
