-- ===== src/Competitors/Parameters.antt =====
-- competitors/rs.h, ts.h and cht.h: the parameters for each data set, by size_scale.
pub mod Bounds
use Prim.Native.String.{String}
use text.Mathlib.Text.{◌==◌}
use sosd.Prelude.{
  ℕ, List, [], ◌∷◌, Option, none, some, Bool, ◌&&◌, leb, if◌then◌else◌, Run, ok, fault, fail, at,
  ◌>>=◌,
}
use sosd.Prelude.Words.{sub64}

-- num_radix_bits and max_error.
abbrev pub rs_configs : List (String × List (ℕ × ℕ))
rs_configs =
    (
      "normal_200M_uint32",
      (10, 6)
          ∷ (15, 1)
          ∷ (16, 1)
          ∷ (18, 1)
          ∷ (20, 1)
          ∷ (21, 1)
          ∷ (24, 1)
          ∷ (25, 1)
          ∷ (26, 1)
          ∷ (26, 1)
          ∷ [],
    )
    ∷ (
      "normal_200M_uint64",
      (14, 2)
          ∷ (16, 1)
          ∷ (16, 1)
          ∷ (20, 1)
          ∷ (22, 1)
          ∷ (24, 1)
          ∷ (26, 1)
          ∷ (26, 1)
          ∷ (28, 1)
          ∷ (28, 1)
          ∷ [],
    )
    ∷ (
      "lognormal_200M_uint32",
      (12, 20)
          ∷ (16, 3)
          ∷ (16, 2)
          ∷ (18, 1)
          ∷ (20, 1)
          ∷ (22, 1)
          ∷ (24, 1)
          ∷ (24, 1)
          ∷ (26, 1)
          ∷ (28, 1)
          ∷ [],
    )
    ∷ (
      "lognormal_200M_uint64",
      (12, 3)
          ∷ (18, 1)
          ∷ (18, 1)
          ∷ (20, 1)
          ∷ (22, 1)
          ∷ (24, 1)
          ∷ (26, 1)
          ∷ (26, 1)
          ∷ (28, 1)
          ∷ (28, 1)
          ∷ [],
    )
    ∷ (
      "uniform_dense_200M_uint32",
      (4, 2)
          ∷ (16, 2)
          ∷ (18, 1)
          ∷ (20, 1)
          ∷ (20, 1)
          ∷ (22, 2)
          ∷ (24, 1)
          ∷ (26, 3)
          ∷ (26, 3)
          ∷ (28, 2)
          ∷ [],
    )
    ∷ (
      "uniform_dense_200M_uint64",
      (4, 2)
          ∷ (16, 1)
          ∷ (16, 1)
          ∷ (20, 1)
          ∷ (22, 1)
          ∷ (24, 1)
          ∷ (24, 1)
          ∷ (26, 1)
          ∷ (28, 1)
          ∷ (28, 1)
          ∷ [],
    )
    ∷ (
      "uniform_sparse_200M_uint32",
      (12, 220)
          ∷ (14, 100)
          ∷ (14, 80)
          ∷ (16, 30)
          ∷ (18, 20)
          ∷ (20, 10)
          ∷ (20, 8)
          ∷ (20, 5)
          ∷ (24, 3)
          ∷ (26, 1)
          ∷ [],
    )
    ∷ (
      "uniform_sparse_200M_uint64",
      (12, 150)
          ∷ (14, 70)
          ∷ (16, 50)
          ∷ (18, 20)
          ∷ (20, 20)
          ∷ (20, 9)
          ∷ (20, 5)
          ∷ (24, 3)
          ∷ (26, 2)
          ∷ (28, 1)
          ∷ [],
    )
    ∷ (
      "books_200M_uint32",
      (14, 250)
          ∷ (14, 250)
          ∷ (16, 190)
          ∷ (18, 80)
          ∷ (18, 50)
          ∷ (22, 20)
          ∷ (22, 9)
          ∷ (22, 8)
          ∷ (24, 3)
          ∷ (28, 2)
          ∷ [],
    )
    ∷ (
      "books_200M_uint64",
      (12, 380)
          ∷ (16, 170)
          ∷ (16, 110)
          ∷ (20, 50)
          ∷ (20, 30)
          ∷ (22, 20)
          ∷ (22, 10)
          ∷ (24, 3)
          ∷ (26, 3)
          ∷ (28, 2)
          ∷ [],
    )
    ∷ (
      "books_400M_uint64",
      (16, 220)
          ∷ (16, 220)
          ∷ (18, 160)
          ∷ (20, 60)
          ∷ (20, 40)
          ∷ (22, 20)
          ∷ (22, 7)
          ∷ (26, 3)
          ∷ (28, 2)
          ∷ (28, 1)
          ∷ [],
    )
    ∷ (
      "books_600M_uint64",
      (18, 330)
          ∷ (18, 330)
          ∷ (18, 190)
          ∷ (20, 70)
          ∷ (22, 50)
          ∷ (22, 20)
          ∷ (24, 7)
          ∷ (26, 3)
          ∷ (28, 2)
          ∷ (28, 1)
          ∷ [],
    )
    ∷ (
      "books_800M_uint64",
      (18, 320)
          ∷ (18, 320)
          ∷ (18, 200)
          ∷ (22, 80)
          ∷ (22, 60)
          ∷ (22, 20)
          ∷ (24, 9)
          ∷ (26, 3)
          ∷ (28, 3)
          ∷ (28, 3)
          ∷ [],
    )
    ∷ (
      "fb_200M_uint64",
      (8, 140)
          ∷ (8, 140)
          ∷ (8, 140)
          ∷ (8, 140)
          ∷ (10, 90)
          ∷ (22, 90)
          ∷ (24, 70)
          ∷ (26, 80)
          ∷ (26, 7)
          ∷ (28, 80)
          ∷ [],
    )
    ∷ (
      "osm_cellids_200M_uint64",
      (20, 160)
          ∷ (20, 160)
          ∷ (20, 160)
          ∷ (20, 160)
          ∷ (20, 80)
          ∷ (24, 40)
          ∷ (24, 20)
          ∷ (26, 8)
          ∷ (26, 3)
          ∷ (28, 2)
          ∷ [],
    )
    ∷ (
      "osm_cellids_400M_uint64",
      (20, 190)
          ∷ (20, 190)
          ∷ (20, 190)
          ∷ (20, 190)
          ∷ (22, 80)
          ∷ (24, 20)
          ∷ (26, 20)
          ∷ (26, 10)
          ∷ (28, 6)
          ∷ (28, 2)
          ∷ [],
    )
    ∷ (
      "osm_cellids_600M_uint64",
      (20, 190)
          ∷ (20, 190)
          ∷ (20, 190)
          ∷ (22, 180)
          ∷ (22, 100)
          ∷ (24, 20)
          ∷ (26, 20)
          ∷ (28, 7)
          ∷ (28, 5)
          ∷ (28, 2)
          ∷ [],
    )
    ∷ (
      "osm_cellids_800M_uint64",
      (22, 190)
          ∷ (22, 190)
          ∷ (22, 190)
          ∷ (22, 190)
          ∷ (24, 190)
          ∷ (26, 30)
          ∷ (26, 20)
          ∷ (28, 7)
          ∷ (28, 5)
          ∷ (28, 1)
          ∷ [],
    )
    ∷ (
      "wiki_ts_200M_uint64",
      (14, 100)
          ∷ (14, 100)
          ∷ (16, 60)
          ∷ (18, 20)
          ∷ (20, 20)
          ∷ (20, 9)
          ∷ (20, 5)
          ∷ (22, 3)
          ∷ (26, 2)
          ∷ (26, 1)
          ∷ [],
    )
    ∷ []

-- spline_max_error, num_bins and tree_max_error.
abbrev pub ts_configs : List (String × List (ℕ × ℕ × ℕ))
ts_configs =
    (
      "books_200M_uint64",
      (512, 128, 2)
          ∷ (256, 256, 2)
          ∷ (128, 256, 16)
          ∷ (64, 1024, 4)
          ∷ (32, 1024, 16)
          ∷ (16, 1024, 16)
          ∷ (16, 1024, 8)
          ∷ (4, 256, 8)
          ∷ (2, 512, 8)
          ∷ (2, 1024, 8)
          ∷ [],
    )
    ∷ (
      "fb_200M_uint64",
      (1024, 1024, 16)
          ∷ (1024, 1024, 16)
          ∷ (1024, 512, 8)
          ∷ (256, 512, 8)
          ∷ (128, 512, 8)
          ∷ (16, 128, 16)
          ∷ (16, 1024, 16)
          ∷ (8, 1024, 16)
          ∷ (4, 256, 16)
          ∷ (2, 256, 16)
          ∷ [],
    )
    ∷ (
      "osm_cellids_200M_uint64",
      (1024, 32, 16)
          ∷ (1024, 32, 16)
          ∷ (512, 32, 16)
          ∷ (128, 128, 16)
          ∷ (64, 128, 16)
          ∷ (16, 64, 16)
          ∷ (8, 32, 16)
          ∷ (8, 256, 16)
          ∷ (2, 256, 16)
          ∷ (2, 512, 16)
          ∷ [],
    )
    ∷ (
      "wiki_ts_200M_uint64",
      (1024, 128, 4)
          ∷ (128, 128, 8)
          ∷ (64, 256, 8)
          ∷ (32, 1024, 8)
          ∷ (16, 1024, 8)
          ∷ (16, 1024, 4)
          ∷ (4, 128, 16)
          ∷ (8, 128, 2)
          ∷ (2, 512, 8)
          ∷ (2, 128, 2)
          ∷ [],
    )
    ∷ []

-- num_bins and max_error.
abbrev pub cht_configs : List (String × List (ℕ × ℕ))
cht_configs =
    (
      "books_200M_uint64",
      (128, 512)
          ∷ (128, 512)
          ∷ (128, 512)
          ∷ (128, 512)
          ∷ (16, 512)
          ∷ (256, 128)
          ∷ (64, 64)
          ∷ (512, 32)
          ∷ (128, 16)
          ∷ (1024, 16)
          ∷ [],
    )
    ∷ (
      "fb_200M_uint64",
      (64, 1024)
          ∷ (64, 1024)
          ∷ (64, 1024)
          ∷ (64, 1024)
          ∷ (256, 1024)
          ∷ (1024, 512)
          ∷ (64, 128)
          ∷ (512, 128)
          ∷ (256, 64)
          ∷ (256, 32)
          ∷ [],
    )
    ∷ (
      "osm_cellids_200M_uint64",
      (32, 1024)
          ∷ (32, 1024)
          ∷ (32, 1024)
          ∷ (32, 1024)
          ∷ (32, 512)
          ∷ (64, 256)
          ∷ (64, 128)
          ∷ (64, 32)
          ∷ (64, 16)
          ∷ (1024, 8)
          ∷ [],
    )
    ∷ []

-- The chain of tests of the data set's name.
unfoldable pub configs_of {ℓ} : {A : Type ℓ} → String → List (String × List A) → Option (List A)
configs_of dataset [] = none
configs_of dataset ((name, configs) ∷ table) =
    if dataset == name then some configs else configs_of dataset table

-- configs[size_scale - 1], where the index is of type size_t and wraps, or nothing for a data set
-- without parameters.
unfoldable pub choose {ℓ} : {A : Type ℓ} → ℕ → Option (List A) → Run (Option A)
choose size_scale none = ok none
choose size_scale (some configs) = at configs (sub64 size_scale 1) >>= λ config. ok (some config)

-- SetParameters: none if the data set has no parameters, and then the index is not applicable. The
-- assertion is compiled in; with NDEBUG it is not, which matters only for a size_scale out of range.
unfoldable pub set_parameters {ℓ} :
    {A : Type ℓ} → List (String × List A) → ℕ → String → Run (Option A)
unfolding configs_of choose
set_parameters table size_scale dataset =
    if leb 1 size_scale && leb size_scale 10
    then choose size_scale (configs_of dataset table)
    else fault (fail "Assertion `size_scale >= 1 && size_scale <= 10' failed.")

unfoldable pub rs_set_parameters : ℕ → String → Run (Option (ℕ × ℕ))
unfolding set_parameters
rs_set_parameters size_scale dataset = set_parameters rs_configs size_scale dataset

unfoldable pub ts_set_parameters : ℕ → String → Run (Option (ℕ × ℕ × ℕ))
unfolding set_parameters
ts_set_parameters size_scale dataset = set_parameters ts_configs size_scale dataset

unfoldable pub cht_set_parameters : ℕ → String → Run (Option (ℕ × ℕ))
unfolding set_parameters
cht_set_parameters size_scale dataset = set_parameters cht_configs size_scale dataset
