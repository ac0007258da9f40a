-- ===== src/Competitors/Parameters/Bounds.antt =====
-- competitors/rs.h, ts.h and cht.h: what SetParameters gives.
use Prim.Native.String.{String}
use text.Mathlib.Text.{◌==◌}
use sosd.Prelude.{
  ℕ, ◌-◌, ◌≤◌, ◌<◌, ◌≡◌, refl, List, [], ◌∷◌, map, Option, none, some, Bool-cases, Option-cases,
  subst, ◌∙◌, inl, inr, ◌⊎◌, All, All_at, length, get_elem?, get_elem?-lt, get_elem?-map, Run, ok,
  arith, leb, ◌&&◌, true,
}
use sosd.Prelude.Words.{sub64}
use sosd.Sorted.{IsSorted, sorted_le}
use sosd.Competitors.Parameters.{
  configs_of, choose, set_parameters, rs_configs, ts_configs, cht_configs, rs_set_parameters,
  ts_set_parameters, cht_set_parameters,
}

module _ {A : Type 0} (P : List A → Type 0) where
  configs_of-All :
      (dataset : String) (table : List (String × List A))
      → All (λ row. P row.1) table
      → (configs_of dataset table ≡ none)
        ⊎ ((configs : List A) × (configs_of dataset table ≡ some configs) × P configs)
  unfolding configs_of
  configs_of-All dataset [] a = inl refl
  configs_of-All dataset ((name, configs) ∷ table) a = elim (Bool-cases (dataset == name)) [
    | inl here ↦ inr (configs, rw here refl, a.0)
    | inr other ↦ rw other (configs_of-All dataset table a.1)
  ]

-- Ten parameters, each as required.
abbrev pub Ten : {A : Type 0} → (A → Type 0) → List A → Type 0
Ten Q configs = (length configs ≡ 10) × All Q configs

-- The table has nothing for the data set and nothing is set, or what is set is as required.
abbrev pub Sets :
    {A : Type 0} → (A → Type 0) → List (String × List A) → String → Run (Option A) → Type 0
Sets {A} Q table dataset run =
    ((configs_of dataset table ≡ none) × (run ≡ ok none))
    ⊎ ((config : A) × (run ≡ ok (some config)) × Q config)

-- With a size_scale of the tables the assertion holds and the index does not wrap.
in_range : (n : ℕ) → 1 ≤ n → n ≤ 10 → (leb 1 n && leb n 10) ≡ true
in_range n lo hi = ground arith

sub64_one : (n : ℕ) → 1 ≤ n → n ≤ 10 → sub64 n 1 ≡ n - 1
sub64_one n lo hi = omega arith

set_parameters-Sets :
    {A : Type 0} (Q : A → Type 0) (table : List (String × List A)) (size_scale : ℕ)
    (dataset : String)
    → All (λ row. Ten Q row.1) table
    → 1 ≤ size_scale
    → size_scale ≤ 10
    → Sets Q table dataset (set_parameters table size_scale dataset)
unfolding set_parameters choose
set_parameters-Sets Q table size_scale dataset a lo hi =
    elim (configs_of-All (Ten Q) dataset table a) [
      | inl nothing ↦ inl (nothing, rw (in_range size_scale lo hi, nothing) refl)
      | inr (configs, here, ten) ↦
          let (config, q) = get_elem?-lt configs (size_scale - 1) (omega (arith, ten.0)) in
          inr (
            config,
            rw (in_range size_scale lo hi, here, sub64_one size_scale lo hi, q) refl,
            All_at Q configs (size_scale - 1) ten.1 q,
          )
    ]

-- A number of radix bits that RadixSpline takes, and an error.
abbrev pub IsRsConfig : ℕ × ℕ → Type 0
IsRsConfig (num_radix_bits, max_error) =
    (0 < num_radix_bits) × (num_radix_bits ≤ 28) × (0 < max_error)

abbrev pub IsTsConfig : ℕ × ℕ × ℕ → Type 0
IsTsConfig (spline_max_error, num_bins, tree_max_error) =
    (0 < spline_max_error) × (1 < num_bins) × (0 < tree_max_error)

abbrev pub IsChtConfig : ℕ × ℕ → Type 0
IsChtConfig (num_bins, max_error) = (1 < num_bins) × (0 < max_error)

rs_configs-Ten : All (λ row. Ten IsRsConfig row.1) rs_configs
rs_configs-Ten = omega arith

ts_configs-Ten : All (λ row. Ten IsTsConfig row.1) ts_configs
ts_configs-Ten = omega arith

cht_configs-Ten : All (λ row. Ten IsChtConfig row.1) cht_configs
cht_configs-Ten = omega arith

module _ (size_scale : ℕ) (dataset : String) (lo : 1 ≤ size_scale) (hi : size_scale ≤ 10) where
  -- For each size_scale from 1 to 10, SetParameters of RS, TS and CHT ends normally: it sets nothing
  -- if the table has nothing for the data set, and otherwise parameters in range, of RS between 1
  -- and 28 radix bits and an error, of TS and CHT at least two bins and errors.
  pub set_parameters_bounds :
      Sets IsRsConfig rs_configs dataset (rs_set_parameters size_scale dataset)
      × Sets IsTsConfig ts_configs dataset (ts_set_parameters size_scale dataset)
      × Sets IsChtConfig cht_configs dataset (cht_set_parameters size_scale dataset)
  unfolding rs_set_parameters ts_set_parameters cht_set_parameters
  set_parameters_bounds = (
    set_parameters-Sets IsRsConfig rs_configs size_scale dataset rs_configs-Ten lo hi,
    set_parameters-Sets IsTsConfig ts_configs size_scale dataset ts_configs-Ten lo hi,
    set_parameters-Sets IsChtConfig cht_configs size_scale dataset cht_configs-Ten lo hi,
  )

abbrev RadixSorted : List (ℕ × ℕ) → Type 0
RadixSorted configs = IsSorted (map (λ (c : ℕ × ℕ). c.0) configs)

rs_configs-RadixSorted : All (λ row. RadixSorted row.1) rs_configs
rs_configs-RadixSorted = omega arith

-- Parameters are set from the table's entry, with a size_scale that it has.
set_parameters_inv :
    {A : Type 0} (table : List (String × List A)) (size_scale : ℕ) (dataset : String) (c : A)
    → 1 ≤ size_scale
    → size_scale ≤ 10
    → set_parameters table size_scale dataset ≡ ok (some c)
    → (configs : List A) × (configs_of dataset table ≡ some configs)
      × (get_elem? configs (size_scale - 1) ≡ some c)
unfolding set_parameters choose
set_parameters_inv table size_scale dataset c lo hi h =
    elim (Option-cases (configs_of dataset table)) [
      | inl nothing ↦ absurd (cc (rw (in_range size_scale lo hi, nothing) at h))
      | inr (configs, here) ↦ elim (Option-cases (get_elem? configs (size_scale - 1))) [
        | inl missing ↦
            absurd
              (cc (rw (in_range size_scale lo hi, here, sub64_one size_scale lo hi, missing) at h))
        | inr (d, q) ↦ (
          configs,
          here,
          q ∙ (cc (rw (in_range size_scale lo hi, here, sub64_one size_scale lo hi, q) at h)),
        )
      ]
    ]

-- For size_scales from 1 to 10, RS with a larger one never has fewer radix bits on the same data set.
pub rs_set_parameters_mono :
    (small large : ℕ) (dataset : String) (c d : ℕ × ℕ)
    → 1 ≤ small
    → small ≤ large
    → large ≤ 10
    → rs_set_parameters small dataset ≡ ok (some c)
    → rs_set_parameters large dataset ≡ ok (some d)
    → c.0 ≤ d.0
unfolding rs_set_parameters
rs_set_parameters_mono small large dataset c d lo le hi p q =
    let (configs, here, at_small) =
      set_parameters_inv rs_configs small dataset c lo (omega arith) p in
    let (configs', here', at_large) =
      set_parameters_inv rs_configs large dataset d (omega arith) hi q in
    let same : configs' ≡ configs = cc in
    let f = λ (e : ℕ × ℕ). e.0 in
    elim (configs_of-All RadixSorted dataset rs_configs rs_configs-RadixSorted) [
      | inl nothing ↦ absurd (cc)
      | inr (configs'', here'', s) ↦
          let same' : configs'' ≡ configs = cc in
          sorted_le (map f configs) (small - 1) (large - 1) (subst RadixSorted same' s)
            (omega arith) (get_elem?-map f configs (small - 1) at_small)
            (get_elem?-map f configs (large - 1) (rw same at at_large))
    ]
