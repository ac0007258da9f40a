-- ===== src/Competitors/Windows/Sampled.antt =====
-- An ordered map over every size_scale-th entry, and the window before what its lower_bound finds.
use sosd.Prelude.{
  ℕ, zero, suc, ◌+◌, ◌%◌, ◌≤◌, ◌<◌, ◌≡◌, refl, List, [], ◌∷◌, Option, none, some, true, false, ◌≢◌,
  ◌≢◌, ltb, length, arith, Bool-cases, inl, inr, if◌then◌else◌, length-map, ltb→le, All, ltb→le,
  All,
}
use sosd.Prelude.Words.{u64_mod}
use sosd.Data.{Row, KeyValue, row_keys}
use sosd.Sorted.{IsSorted, lower_index, lower_index-le}
use sosd.Benchmark.Load.{index_data_from}
use sosd.Competitors.Bounds.{Brackets}
use sosd.Competitors.Windows.{skips, sampled_lookup, sampled}

-- What lower_bound of an ordered map is documented to give: the value of the first entry whose key
-- is not below the lookup key.
unfoldable pub first_at_least : ℕ → List KeyValue → Option ℕ
first_at_least key [] = none
first_at_least key (e ∷ entries) =
    if ltb e.key key then first_at_least key entries else some e.value

-- With `l` the position of the key among rows from `pos` on: the entry found is the first sampled
-- one from there, and none is found only if no sampled position is left.
abbrev pub IsFirst : (scale pos size l : ℕ) → Option ℕ → Type 0
IsFirst scale pos size l (some v) =
    (v % scale ≡ 0) × (pos + l ≤ v) × (v < pos + l + scale) × (v < pos + size)
IsFirst scale pos size l none = (v : ℕ) → v % scale ≡ 0 → pos + l ≤ v → pos + size ≤ v

skips-false : (scale pos : ℕ) → 0 < scale → skips scale pos ≡ false → pos % scale ≡ 0
unfolding skips
skips-false scale pos h e = grind arith

skips-true : (scale pos : ℕ) → skips scale pos ≡ true → pos % scale ≢ 0
unfolding skips
skips-true scale pos e = ground arith

multiple_apart : (scale pos v : ℕ) → v % scale ≡ 0 → pos % scale ≢ 0 → v ≢ pos + scale
multiple_apart scale pos v e h q = grind arith

-- The next row belongs before the key, or the key belongs here.
IsFirst-below_row :
    (scale pos size l : ℕ) (found : Option ℕ)
    → IsFirst scale (pos + 1) size l found
    → IsFirst scale pos (suc size) (suc l) found
IsFirst-below_row scale pos size l (some v) f = omega arith
IsFirst-below_row scale pos size l none f = λ v e h. omega (arith, f v e (omega arith))

IsFirst-skipped :
    (scale pos size : ℕ) (found : Option ℕ)
    → pos % scale ≢ 0
    → IsFirst scale (pos + 1) size 0 found
    → IsFirst scale pos (suc size) 0 found
IsFirst-skipped scale pos size (some v) h f = omega (arith, multiple_apart scale pos v f.0 h)
IsFirst-skipped scale pos size none h f = λ v e q. ground (arith, f v e)

pub lower_index_zero_at :
    (key k : ℕ) (ks : List ℕ) → All (λ j. k ≤ j) ks → key ≤ k → lower_index key ks ≡ 0
unfolding lower_index
lower_index_zero_at key k [] a h = refl
lower_index_zero_at key k (j ∷ ks) a h = ground arith

pub first_at_least-IsFirst :
    (scale key pos : ℕ) (rows : List Row)
    → 0 < scale
    → IsSorted (row_keys rows)
    → IsFirst scale pos
        (length rows)
        (lower_index key (row_keys rows))
        (first_at_least key (sampled scale (index_data_from pos rows)))
unfolding first_at_least sampled index_data_from lower_index
first_at_least-IsFirst scale key pos [] h s = λ v e q. omega arith
first_at_least-IsFirst scale key pos (r ∷ rows) h s =
    let rest = first_at_least-IsFirst scale key (pos + 1) rows h s.1 in
    let found = first_at_least key (sampled scale (index_data_from (pos + 1) rows)) in
    let l = lower_index key (row_keys rows) in
    elim (Bool-cases (skips scale pos)) [
      | inl skip ↦ rw skip (elim (Bool-cases (ltb r.key key)) [
        | inl below ↦ rw below (IsFirst-below_row scale pos (length rows) l found rest)
        | inr above ↦
            let nothing : l ≡ 0 =
              lower_index_zero_at key r.key (row_keys rows) s.0 (ltb→le r.key key above) in
            rw above (
              IsFirst-skipped scale pos (length rows) found (skips-true scale pos skip)
                (rw nothing at rest))
      ])
      | inr take ↦
          let multiple = skips-false scale pos h take in
          rw take (elim (Bool-cases (ltb r.key key)) [
            | inl below ↦ rw below (IsFirst-below_row scale pos (length rows) l found rest)
            | inr above ↦ rw above (omega arith)
          ])
    ]

pub multiple_from :
    (scale l : ℕ) → 0 < scale → (v : ℕ) × (v % scale ≡ 0) × (l ≤ v) × (v < l + scale)
multiple_from scale zero h = (0, grind arith, omega arith, omega arith)
multiple_from scale (suc l) h =
    let (v, e, lo, hi) = multiple_from scale l h in
    elim (Bool-cases (ltb l v)) [
      | inl behind ↦ (v, e, ground arith, omega arith)
      | inr here ↦ (v + scale, grind arith, omega arith, ground arith)
    ]

IsFirst-Brackets :
    (scale key : ℕ) (rows : List Row)
    → 0 < scale
    → 0 < length rows
    → length rows < u64_mod
    → (found : Option ℕ) → IsFirst scale 0 (length rows) (lower_index key (row_keys rows)) found
    → Brackets (row_keys rows) key (sampled_lookup scale (length rows) found)
unfolding sampled_lookup
IsFirst-Brackets scale key rows h some_row fits none f =
    let count = length-map (λ (r : Row). r.key) rows in
    let inside = lower_index-le key (row_keys rows) in
    let (v, e, lo, hi) = multiple_from scale (lower_index key (row_keys rows)) h in
    let far = f v e (omega arith) in
    record { lo = ground arith; hi = ground arith; inside = ground arith }
IsFirst-Brackets scale key rows h some_row fits (some v) f =
    let count = length-map (λ (r : Row). r.key) rows in
    record { lo = ground arith; hi = ground arith; inside = ground arith }

-- If lower_bound of the tree gives, for the sorted entries that it was loaded with, the value of the
-- first entry that is not below the key, the window before that value brackets the key: every
-- size_scale-th entry is enough, for any positive size_scale and any data of fewer than 2 ^ 64 rows
-- that is not empty.
pub sampled_lookup-Brackets :
    (tree_lower_bound : List KeyValue → ℕ → Option ℕ) (size_scale key : ℕ) (rows : List Row)
    → 0 < size_scale
    → 0 < length rows
    → length rows < u64_mod
    → IsSorted (row_keys rows)
    → tree_lower_bound (sampled size_scale (index_data_from 0 rows)) key
      ≡ first_at_least key (sampled size_scale (index_data_from 0 rows))
    → Brackets (row_keys rows) key (
        sampled_lookup size_scale
          (length rows)
          (tree_lower_bound (sampled size_scale (index_data_from 0 rows)) key))
sampled_lookup-Brackets tree_lower_bound size_scale key rows h some_row fits sorted documented =
    rw documented (
      IsFirst-Brackets size_scale key rows h some_row fits
        (first_at_least key (sampled size_scale (index_data_from 0 rows)))
        (first_at_least-IsFirst size_scale key 0 rows h sorted))
