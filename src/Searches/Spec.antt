-- ===== src/Searches/Spec.antt =====
-- searches/: the summing loop and the specification of the searches.
use sosd.Prelude.{
  ℕ, zero, suc, ◌+◌, ◌%◌, ◌≤◌, ◌<◌, ◌≡◌, refl, ap, subst, ◌∙◌, List, [], ◌∷◌, true, false, some,
  arith, ltb, ◌==◌, if◌then◌else◌, Bool-cases, Option-cases, ne→==, ◌⊎◌, inl, inr, length,
  get_elem?, drop, All, All-map, All_at, ok, get_elem?-lt, get_elem?-map, lt_of_get_elem?,
  length-map, drop_at, drop_all, lt→ltb, le→ltb, ltb→le,
}
use sosd.Prelude.Words.{u64_mod, add64}
use sosd.Data.{Row, row_keys, ValuesFit}
use sosd.Sorted.{
  IsSorted, lower_index, sorted_le, lower_index-le, lt_of_lower_index, le_of_lower_index,
}
use sosd.Algorithms.{Splits, lower_bound-eq}
use sosd.Searches.{
  row_below, sum_run, report_miss, sum_from, sum_matching, count_matching, expected,
}

pub get_elem?-row_keys :
    (rows : List Row) (i : ℕ) (r : Row)
    → get_elem? rows i ≡ some r
    → get_elem? (row_keys rows) i ≡ some r.key
get_elem?-row_keys rows i r h = get_elem?-map (λ (x : Row). x.key) rows i h

pub rows_le :
    (rows : List Row)
    → IsSorted (row_keys rows)
    → (i j : ℕ) (a b : Row) → i ≤ j
    → get_elem? rows i ≡ some a
    → get_elem? rows j ≡ some b
    → a.key ≤ b.key
rows_le rows sorted i j a b h p q =
    sorted_le (row_keys rows) i j sorted h (get_elem?-row_keys rows i a p)
      (get_elem?-row_keys rows j b q)

pub lower_index-Splits :
    (rows : List Row) (key : ℕ)
    → IsSorted (row_keys rows)
    → Splits (row_below key) rows (lower_index key (row_keys rows))
lower_index-Splits rows key s = record {
  inside = omega (arith, lower_index-le key (row_keys rows), length-map (λ (x : Row). x.key) rows);
  before = λ i x e h.
      lt→ltb _ _ (lt_of_lower_index key (row_keys rows) i (get_elem?-row_keys rows i x e) h);
  after = λ i x e h.
      le→ltb _ _ (le_of_lower_index key (row_keys rows) i s (get_elem?-row_keys rows i x e) h);
}

-- Rows whose keys all lie above the key contribute nothing.
pub matching_above :
    (key : ℕ) (rows : List Row)
    → All (λ j. suc key ≤ j) (row_keys rows)
    → (sum_matching key rows ≡ 0) × (count_matching key rows ≡ 0)
unfolding sum_matching count_matching
matching_above key [] a = (refl, refl)
matching_above key (r ∷ rows) a = ground (arith, matching_above key rows)

-- On sorted rows that begin at the key or above, the loop sums all rows with the key.
sum_run-eq :
    (key : ℕ) (rows : List Row) (s n : ℕ)
    → IsSorted (row_keys rows)
    → All (λ j. key ≤ j) (row_keys rows)
    → s < u64_mod
    → n + count_matching key rows < u64_mod
    → sum_run key rows s n ≡ ((s + sum_matching key rows) % u64_mod, n + count_matching key rows)
unfolding sum_run sum_matching count_matching
sum_run-eq key [] s n sorted above hs hn = ground arith
sum_run-eq key (r ∷ rows) s n sorted above hs hn = elim (Bool-cases (r.key == key)) [
  | inl same ↦ rw same (
      sum_run-eq key rows (add64 s r.data0) (add64 n 1) sorted.1 above.1 (ground arith)
        (ground arith)
      ∙ ground arith)
  | inr other ↦
      let none_left =
        matching_above key rows (All-map (λ i p. ground arith) (row_keys rows) sorted.0) in
      rw other (ground arith)
]

-- Rows below the position of the key do not have it.
pub matching-drop :
    (key : ℕ) (rows : List Row)
    → (sum_matching key rows ≡ sum_matching key (drop (lower_index key (row_keys rows)) rows))
      × (count_matching key rows ≡ count_matching key (drop (lower_index key (row_keys rows)) rows))
unfolding sum_matching count_matching lower_index
matching-drop key [] = (refl, refl)
matching-drop key (r ∷ rows) = ground (arith, matching-drop key rows)

pub drop-IsSorted :
    (n : ℕ) (rows : List Row) → IsSorted (row_keys rows) → IsSorted (row_keys (drop n rows))
drop-IsSorted zero rows s = s
drop-IsSorted (suc n) [] s = tt
drop-IsSorted (suc n) (r ∷ rows) s = drop-IsSorted n rows s.1

pub count_matching-le : (key : ℕ) (rows : List Row) → count_matching key rows ≤ length rows
unfolding count_matching
count_matching-le key [] = omega arith
count_matching-le key (r ∷ rows) = ground (arith, count_matching-le key rows)

-- From the position of the key on, no key lies below it.
pub drop-above :
    (key : ℕ) (rows : List Row)
    → IsSorted (row_keys rows)
    → All (λ j. key ≤ j) (row_keys (drop (lower_index key (row_keys rows)) rows))
unfolding lower_index
drop-above key [] s = tt
drop-above key (r ∷ rows) s = elim (Bool-cases (ltb r.key key)) [
  | inl below ↦ rw below (drop-above key rows s.1)
  | inr above ↦ rw above (ltb→le r.key key above, All-map (λ i p. ground arith) (row_keys rows) s.0)
]

pub count_matching_at :
    (key : ℕ) (rows : List Row) (i : ℕ) {r : Row}
    → get_elem? rows i ≡ some r
    → r.key ≡ key
    → 0 < count_matching key rows
unfolding count_matching
count_matching_at key [] i e h = absurd (ground arith)
count_matching_at key (x ∷ rows) zero e h = ground arith
count_matching_at key (x ∷ rows) (suc i) e h = ground (arith, count_matching_at key rows i e h)

sum_matching_zero :
    (key : ℕ) (rows : List Row) → count_matching key rows ≡ 0 → sum_matching key rows ≡ 0
unfolding count_matching sum_matching
sum_matching_zero key [] h = refl
sum_matching_zero key (r ∷ rows) h = ground (arith, sum_matching_zero key rows)

expected_absent :
    (rows : List Row) (key : ℕ)
    → count_matching key rows ≡ 0
    → expected rows key ≡ record {
      result = 0;
      num_qualifying = 0;
      correct_index = some (lower_index key (row_keys rows));
    }
unfolding expected
expected_absent rows key h = rw (h, sum_matching_zero key rows h) refl

module _ (rows : List Row) (key : ℕ) (sorted : IsSorted (row_keys rows)) where
  pub report_miss-eq : count_matching key rows ≡ 0 → report_miss rows key ≡ ok (expected rows key)
  unfolding report_miss
  report_miss-eq h =
      let s = lower_index-Splits rows key sorted in
      rw (
        lower_bound-eq (row_below key) rows (lower_index key (row_keys rows)) 0 (length rows) s
            (omega arith) s.inside (omega arith),
        expected_absent rows key h,
      )

  -- A search that stops at any position in rows without the key reports the miss.
  pub sum_from_absent :
      (it : ℕ)
      → count_matching key rows ≡ 0
      → it ≤ length rows
      → sum_from rows key it ≡ ok (expected rows key)
  unfolding sum_from
  sum_from_absent it h fits = elim (Bool-cases (it == length rows)) [
    | inl end ↦ rw end (report_miss-eq h)
    | inr more ↦
        let (r, e) = get_elem?-lt rows it (ground arith) in
        rw (more, e)
          (elim (Bool-cases (r.key == key)) [
            | inl same ↦ absurd (ground (arith, count_matching_at key rows it e))
            | inr other ↦ rw other (report_miss-eq h)
          ])
  ]

  -- What stands at the position of the key and behind it.
  suffix_above :
      (r : Row)
      → get_elem? rows (lower_index key (row_keys rows)) ≡ some r
      → (key ≤ r.key)
        × IsSorted (row_keys (drop (suc (lower_index key (row_keys rows))) rows))
        × All (λ j. r.key ≤ j) (row_keys (drop (suc (lower_index key (row_keys rows))) rows))
  suffix_above r e =
      let here = drop-IsSorted (lower_index key (row_keys rows)) rows sorted in
      let (least, rest) =
        subst (λ l. IsSorted (row_keys l)) (drop_at rows (lower_index key (row_keys rows)) e)
          here in
      (
        le_of_lower_index key (row_keys rows) _ sorted (get_elem?-row_keys rows _ r e)
            (omega arith),
        rest,
        least,
      )

  module _ (r : Row) (e : get_elem? rows (lower_index key (row_keys rows)) ≡ some r) where
    split_matching :
        (sum_matching key rows
          ≡ (if r.key == key then r.data0 else 0)
            + sum_matching key (drop (suc (lower_index key (row_keys rows))) rows))
        × (count_matching key rows
            ≡ (if r.key == key then 1 else 0)
              + count_matching key (drop (suc (lower_index key (row_keys rows))) rows))
    unfolding sum_matching count_matching
    split_matching =
        let (sums, counts) = matching-drop key rows in
        let split = drop_at rows (lower_index key (row_keys rows)) e in
        (sums ∙ ap (sum_matching key) split, counts ∙ ap (count_matching key) split)

    sum_from_found :
        (r.key == key) ≡ true
        → ValuesFit rows
        → length rows < u64_mod
        → sum_from rows key (lower_index key (row_keys rows)) ≡ ok (expected rows key)
    unfolding sum_from expected
    sum_from_found same fit small =
        let p = lower_index key (row_keys rows) in
        let (low, rest, least) = suffix_above r e in
        let (sums, counts) = rw same at split_matching in
        let few = count_matching-le key rows in
        let run =
          sum_run-eq key (drop (suc p) rows) r.data0 1 rest (All-map (λ i q. omega arith) _ least)
            (All_at (λ x. x.data0 < u64_mod) rows p fit e) (omega arith) in
        rw
          (
            ne→== p (length rows) (omega (arith, lt_of_get_elem? rows p e)),
            e,
            same,
            run,
            sums,
            counts,
          )
          (ground arith)

    absent_other : (r.key == key) ≡ false → count_matching key rows ≡ 0
    absent_other other =
        let (low, rest, least) = suffix_above r e in
        let above =
          matching_above key (drop (suc (lower_index key (row_keys rows))) rows)
            (All-map (λ i q. ground arith) _ least) in
        ground (arith, split_matching)

  absent_end : lower_index key (row_keys rows) ≡ length rows → count_matching key rows ≡ 0
  unfolding count_matching
  absent_end end =
      (matching-drop key rows).1
      ∙ ap (count_matching key) (drop_all rows (lower_index key (row_keys rows)) (omega arith))

  -- Either no row has the key, or the row at the position of the key has it.
  pub key_cases :
      (count_matching key rows ≡ 0)
      ⊎ ((r : Row) × (get_elem? rows (lower_index key (row_keys rows)) ≡ some r)
          × ((r.key == key) ≡ true))
  key_cases = elim (Option-cases (get_elem? rows (lower_index key (row_keys rows)))) [
    | inl end ↦ inl (
        absent_end (
          ground (
            arith,
            (lower_index-Splits rows key sorted).inside,
            get_elem?-lt rows (lower_index key (row_keys rows)),
          )))
    | inr (r, e) ↦ elim (Bool-cases (r.key == key)) [
      | inl same ↦ inr (r, e, same)
      | inr other ↦ inl (absent_other r e other)
    ]
  ]

  -- From the first position of the key the search sums every row that has it.
  pub sum_from-eq :
      ValuesFit rows
      → length rows < u64_mod
      → sum_from rows key (lower_index key (row_keys rows)) ≡ ok (expected rows key)
  sum_from-eq fit small = elim key_cases [
    | inl absent ↦
        sum_from_absent (lower_index key (row_keys rows)) absent
          (lower_index-Splits rows key sorted).inside
    | inr (r, e, same) ↦ sum_from_found r e same fit small
  ]
