-- ===== src/Searches/Branchless/Steps.antt =====
-- searches/branchless_binary_search.h: the three loops, on sorted rows.
use sosd.Prelude.{
  ℕ, zero, suc, ◌+◌, ◌-◌, ◌/◌, ◌%◌, ◌≤◌, ◌<◌, ◌==◌, ◌≡◌, ◌≢◌, ◌∙◌, List, [], ◌∷◌, ok, leb, arith,
  Bool-cases, inl, inr, get_elem?, get_elem?-lt, some, lt→ltb, length, All, All-map,
}
use sosd.Prelude.Words.{add64, int_limit, u64_mod}
use sosd.Data.{Row, row_keys}
use sosd.Sorted.{IsSorted}
use sosd.Searches.{sum_matching, count_matching}
use sosd.Searches.Spec.{rows_le, matching_above}
use sosd.Searches.Branchless.{to_int, halve_loop, scroll_back, sum_forward}

pub to_int-lt : (x : ℕ) → x < int_limit → to_int x ≡ ok x
unfolding to_int
to_int-lt x h = rw (lt→ltb x int_limit h)

-- `l` holds the last key of the range that is not above the lookup key, or is its start.
pub record Stops (rows : List Row) (key start stop l : ℕ) : Type 0 where
  pub from : start ≤ l
  pub upto : l ≤ stop
  pub low : (r : Row) → get_elem? rows l ≡ some r → start < l → r.key ≤ key
  pub high : (i : ℕ) (r : Row) → get_elem? rows i ≡ some r → l < i → i ≤ stop → key < r.key

module _ (rows : List Row) (key start stop : ℕ) (sorted : IsSorted (row_keys rows))
    (inside : stop < length rows) (small : length rows < int_limit) where
  pub halve_loop-Stops :
      (fuel lower n : ℕ)
      → n < fuel
      → 0 < n
      → start ≤ lower
      → lower + n ≤ stop + 1
      → ((r : Row) → get_elem? rows lower ≡ some r → start < lower → r.key ≤ key)
      → ((i : ℕ) (r : Row) → get_elem? rows i ≡ some r → lower + n ≤ i → i ≤ stop → key < r.key)
      → (l : ℕ) × (halve_loop fuel rows key lower n ≡ ok l) × Stops rows key start stop l
  unfolding halve_loop
  halve_loop-Stops zero lower n f pos lo hi low high = absurd (omega arith)
  halve_loop-Stops (suc fuel) lower n f pos lo hi low high = elim (Bool-cases (n / 2 == 0)) [
    | inl one ↦ (
      lower,
      rw one,
      record {
        from = lo;
        upto = omega arith;
        low = low;
        high = λ i r e a b. high i r e (ground arith) b;
      },
    )
    | inr more ↦
        let m = lower + n / 2 in
        let (r, e) = get_elem?-lt rows m (omega arith) in
        rw (more, to_int-lt m (omega arith), e)
          (elim (Bool-cases (leb r.key key)) [
            | inl up ↦ rw up (
                halve_loop-Stops fuel m (n - n / 2) (ground arith) (omega arith) (omega arith)
                  (omega arith) (λ x q h. ground arith) (λ i x q a b. high i x q (omega arith) b))
            | inr stay ↦ rw stay (
                halve_loop-Stops fuel lower (n - n / 2) (ground arith) (omega arith) lo
                  (omega arith) low
                  (λ i x q a b. ground (arith, rows_le rows sorted m i r x (omega arith) e q)))
          ])
  ]

pub scroll_back-eq :
    (rows : List Row) (key p l : ℕ)
    → p ≤ l
    → l < length rows
    → ((i : ℕ) (r : Row) → get_elem? rows i ≡ some r → p ≤ i → i < l → r.key ≡ key)
    → ((i : ℕ) (r : Row) → get_elem? rows i ≡ some r → i < p → r.key ≢ key)
    → scroll_back rows key l ≡ ok p
unfolding scroll_back
scroll_back-eq rows key p zero le inside same other = ground arith
scroll_back-eq rows key p (suc l) le inside same other =
    let (r, e) = get_elem?-lt rows l (omega arith) in
    rw e (elim (Bool-cases (r.key == key)) [
      | inl hit ↦ rw hit (
          scroll_back-eq rows key p l (ground (arith, other l r e)) (omega arith)
            (λ i x q a b. same i x q a (omega arith)) other)
      | inr miss ↦ rw miss (ground (arith, same l r e))
    ])

-- The summing loop ends before the rows do, if some row has a larger key.
pub sum_forward-eq :
    (key : ℕ) (rows : List Row) (s n : ℕ)
    → IsSorted (row_keys rows)
    → All (λ j. key ≤ j) (row_keys rows)
    → count_matching key rows < length rows
    → s < u64_mod
    → n + count_matching key rows < u64_mod
    → sum_forward key rows s n
      ≡ ok ((s + sum_matching key rows) % u64_mod, n + count_matching key rows)
unfolding sum_forward sum_matching count_matching
sum_forward-eq key [] s n sorted above larger hs hn = absurd (omega arith)
sum_forward-eq key (r ∷ rows) s n sorted above larger hs hn = elim (Bool-cases (r.key == key)) [
  | inl same ↦ rw same (
      sum_forward-eq key rows (add64 s r.data0) (add64 n 1) sorted.1 above.1 (ground arith)
        (ground arith) (ground arith)
      ∙ ground arith)
  | inr other ↦
      let none_left =
        matching_above key rows (All-map (λ i p. ground arith) (row_keys rows) sorted.0) in
      rw other (ground arith)
]
