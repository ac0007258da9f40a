-- ===== src/Competitors/InterpolationBtree/Bound.antt =====
-- competitors/interpolation_btree.h: Build and EqualityLookup together.
use sosd.Prelude.{
  ℕ, suc, ◌+◌, ◌-◌, ◌%◌, ◌==◌, ◌≤◌, ◌<◌, ◌≡◌, ◌≢◌, refl, sym, subst, List, [], ◌∷◌, length, arith,
  Option, some, none, Bool-cases, inl, inr, ok, fault, out_of_bounds, of_option, if◌then◌else◌, ltb,
  ltb→le, length-map, ==→ne,
}
use sosd.Data.{Row, SearchBound, KeyValue, row_keys}
use sosd.Sorted.{IsSorted, lower_index}
use sosd.Benchmark.Load.{index_data_from, entry_keys-index_data_from}
use sosd.Competitors.Bounds.{Brackets}
use sosd.Competitors.Windows.Sampled.{first_at_least, lower_index_zero_at, multiple_from}
use sosd.Competitors.InterpolationBtree.{ibtree_build, ibtree_lookup, Tree, btree_lookup}
use sosd.Competitors.InterpolationBtree.Generator.{kept, ibtree_build-Holds}
use sosd.Competitors.InterpolationBtree.Lookup.{btree_lookup-first}

-- Among rows from `pos` on, with the key's position `l` behind it: the entry found is none before
-- that position and none behind a multiple of the scale there; none is found only at the end.
abbrev IsNext : (scale pos size l : ℕ) → Option ℕ → Type 0
IsNext scale pos size l (some v) =
    (pos + l ≤ v)
    × (v < pos + size)
    × ((w : ℕ) → w % scale ≡ 0 → pos + l ≤ w → w < pos + size → v ≤ w)
IsNext scale pos size l none = size ≤ l

IsNext-below :
    (scale pos size l : ℕ) (found : Option ℕ)
    → IsNext scale (pos + 1) size l found
    → IsNext scale pos (suc size) (suc l) found
IsNext-below scale pos size l (some v) (lo, hi, least) =
    (omega arith, omega arith, λ w e h b. least w e (omega arith) (omega arith))
IsNext-below scale pos size l none f = omega arith

IsNext-skipped :
    (scale pos size : ℕ) (found : Option ℕ)
    → pos % scale ≢ 0
    → 0 < size
    → IsNext scale (pos + 1) size 0 found
    → IsNext scale pos (suc size) 0 found
IsNext-skipped scale pos size (some v) other some_left (lo, hi, least) =
    (omega arith, omega arith, λ w e h b. ground (arith, least w e))
IsNext-skipped scale pos size none other some_left f = absurd (omega arith)

first_at_least-kept :
    (scale key pos : ℕ) (rows : List Row)
    → IsSorted (row_keys rows)
    → IsNext scale pos
        (length rows)
        (lower_index key (row_keys rows))
        (first_at_least key (kept scale pos (index_data_from pos rows)))
unfolding first_at_least kept index_data_from lower_index
first_at_least-kept scale key pos [] s = omega arith
first_at_least-kept scale key pos (r ∷ []) s = elim (Bool-cases (ltb r.key key)) [
  | inl below ↦ rw below (omega arith)
  | inr above ↦ rw above (omega arith, omega arith, λ w e h b. omega arith)
]
first_at_least-kept scale key pos (r ∷ next ∷ rows) s =
    let rest = first_at_least-kept scale key (pos + 1) (next ∷ rows) s.1 in
    let size = suc (length rows) in
    let found =
      first_at_least key (kept scale (pos + 1) (index_data_from (pos + 1) (next ∷ rows))) in
    let l = lower_index key (row_keys (next ∷ rows)) in
    elim (Bool-cases (ltb r.key key)) [
      | inl below ↦
          let shifted = IsNext-below scale pos size l found rest in
          elim (Bool-cases (pos % scale == 0)) [
            | inl keep ↦ rw (keep, below) shifted
            | inr leave ↦ rw (leave, below) shifted
          ]
      | inr above ↦
          let nothing : l ≡ 0 =
            lower_index_zero_at key r.key (row_keys (next ∷ rows)) s.0 (ltb→le r.key key above) in
          elim (Bool-cases (pos % scale == 0)) [
            | inl keep ↦ rw (keep, above) (omega arith, omega arith, λ w e h b. omega arith)
            | inr leave ↦
                rw (leave, above)
                  (IsNext-skipped scale pos size found (==→ne (pos % scale) 0 leave) (omega arith)
                    (rw nothing at rest))
          ]
    ]

IsNext-Brackets :
    (scale key : ℕ) (rows : List Row)
    → 0 < scale
    → lower_index key (row_keys rows) < length rows
    → (found : Option ℕ) → IsNext scale 0 (length rows) (lower_index key (row_keys rows)) found
    → (v : ℕ) × (found ≡ some v)
      × Brackets
          (row_keys rows)
          key
          (record { start = if ltb v scale then 0 else v - scale; stop = v })
IsNext-Brackets scale key rows h inside none f = absurd (omega arith)
IsNext-Brackets scale key rows h inside (some v) (lo, hi, least) =
    let count = length-map (λ (r : Row). r.key) rows in
    let (w, e, low, high) = multiple_from scale (lower_index key (row_keys rows)) h in
    let near : v < lower_index key (row_keys rows) + scale =
      elim (Bool-cases (ltb w (length rows))) [
        | inl early ↦ omega (arith, least w e (omega arith) (ground arith))
        | inr late ↦ ground arith
      ] in
    (v, refl, record { lo = ground arith; hi = omega arith; inside = omega arith })

IsNext-none :
    (scale key : ℕ) (rows : List Row)
    → lower_index key (row_keys rows) ≡ length rows
    → (found : Option ℕ) → IsNext scale 0 (length rows) (lower_index key (row_keys rows)) found
    → found ≡ none
IsNext-none scale key rows beyond none f = refl
IsNext-none scale key rows beyond (some v) (lo, hi, least) = absurd (omega arith)

module _ (guess : List ℕ → ℕ → ℕ) (size_scale : ℕ) (r : Row) (rows : List Row) (key : ℕ)
    (sorted : IsSorted (row_keys (r ∷ rows))) where
  -- The build ends normally, and its tree finds the value of the first kept entry.
  build_and_lookup :
      (tree : Tree) × (ibtree_build size_scale (index_data_from 0 (r ∷ rows)) ≡ ok (some tree))
      × (btree_lookup guess tree.0 tree.1 key
          ≡ of_option (first_at_least key (kept size_scale 0 (index_data_from 0 (r ∷ rows)))))
  unfolding index_data_from
  build_and_lookup =
      let entries = index_data_from 1 rows in
      let e : KeyValue = record { key = r.key; value = 0 } in
      let s = subst IsSorted (sym (entry_keys-index_data_from 0 (r ∷ rows))) sorted in
      let (h, root, builds, holds, some_kept, s') = ibtree_build-Holds size_scale e entries s in
      (
        (h, root),
        builds,
        btree_lookup-first guess h root key (kept size_scale 0 (e ∷ entries)) holds some_kept s',
      )

  -- For sorted rows, at least one, and a positive size_scale, the build ends normally, and whatever
  -- the interpolation guesses, the lookup of a key that some row's key is not below ends normally
  -- with a bound that brackets the key.
  pub ibtree_lookup-Brackets :
      0 < size_scale
      → lower_index key (row_keys (r ∷ rows)) < length (r ∷ rows)
      → (tree : Tree) × (b : SearchBound) × (ibtree_build size_scale (index_data_from 0 (r ∷ rows))
          ≡ ok (some tree))
        × (ibtree_lookup guess size_scale (some tree) key ≡ ok b)
        × Brackets (row_keys (r ∷ rows)) key b
  unfolding ibtree_lookup
  ibtree_lookup-Brackets positive inside =
      let (tree, builds, finds) = build_and_lookup in
      let (v, q, brackets) =
        IsNext-Brackets size_scale key (r ∷ rows) positive inside
          (first_at_least key (kept size_scale 0 (index_data_from 0 (r ∷ rows))))
          (first_at_least-kept size_scale key 0 (r ∷ rows) sorted) in
      (tree, _, builds, rw (finds, q) refl, brackets)

  -- For sorted rows, at least one, all with smaller keys, the lookup reads behind the last leaf's
  -- entries.
  pub ibtree_lookup-overruns :
      lower_index key (row_keys (r ∷ rows)) ≡ length (r ∷ rows)
      → (tree : Tree) × (ibtree_build size_scale (index_data_from 0 (r ∷ rows)) ≡ ok (some tree))
        × (ibtree_lookup guess size_scale (some tree) key ≡ fault out_of_bounds)
  unfolding ibtree_lookup
  ibtree_lookup-overruns beyond =
      let (tree, builds, finds) = build_and_lookup in
      let nothing =
        IsNext-none size_scale key (r ∷ rows) beyond
          (first_at_least key (kept size_scale 0 (index_data_from 0 (r ∷ rows))))
          (first_at_least-kept size_scale key 0 (r ∷ rows) sorted) in
      (tree, builds, rw (finds, nothing) refl)
