-- ===== src/Searches/Branchless/Overrun.antt =====
-- searches/branchless_binary_search.h: the search with bounds that end at the rows' end, and its
-- summing loop.
use sosd.Prelude.{
  ℕ, zero, suc, ◌+◌, ◌-◌, ◌/◌, ◌≤◌, ◌<◌, ◌==◌, ◌≡◌, refl, List, [], ◌∷◌, fault, out_of_bounds, drop,
  leb, arith, Bool-cases, inl, inr, get_elem?-lt, get_elem?-ge, true, false, length, All, All_at,
  drop_at, subst,
}
use sosd.Prelude.Words.{add64, sub64, int_limit}
use sosd.Data.{Row}
use sosd.Searches.Branchless.{halve_loop, sum_forward, sum_at, branchless_search}
use sosd.Searches.Branchless.Steps.{to_int-lt}

module _ (rows : List Row) (key : ℕ) (low : All (λ r. r.key ≤ key) rows)
    (small : suc (length rows) < int_limit) where
  halve_loop-overruns :
      (fuel lower n : ℕ)
      → n < fuel
      → 1 < n
      → lower + n ≡ length rows + 1
      → halve_loop fuel rows key lower n ≡ fault out_of_bounds
  unfolding halve_loop
  halve_loop-overruns zero lower n f two e = absurd (omega arith)
  halve_loop-overruns (suc fuel) lower n f two e =
      let m = lower + n / 2 in
      let more : (n / 2 == 0) ≡ false = ground arith in
      rw (more, to_int-lt m (omega arith))
        (elim (Bool-cases (m == length rows)) [
          | inl end ↦ rw (get_elem?-ge rows m (ground arith))
          | inr within ↦
              let (r, q) = get_elem?-lt rows m (ground arith) in
              let up : leb r.key key ≡ true =
                ground (arith, All_at (λ r. r.key ≤ key) rows m low q) in
              rw (q, up)
                (halve_loop-overruns fuel m (n - n / 2) (omega arith) (ground arith) (omega arith))
        ])

  -- If no key exceeds the lookup key, there are rows from the start on, and fewer than 2 ^ 31 - 1
  -- rows, bounds that end at the rows' end make the search read out of bounds.
  pub branchless_search-overruns :
      (start : ℕ)
      → start < length rows
      → branchless_search rows key start (length rows) ≡ fault out_of_bounds
  unfolding branchless_search
  branchless_search-overruns start h =
      let n = length rows + 1 - start in
      let width : add64 (sub64 (length rows) start) 1 ≡ n = omega arith in
      rw (
        width,
        to_int-lt n (omega arith),
        to_int-lt start (omega arith),
        halve_loop-overruns (n + 1) start n (omega arith) (omega arith) (omega arith),
      )

sum_forward-overruns :
    (key : ℕ) (rows : List Row) (s n : ℕ)
    → All (λ r. r.key ≡ key) rows
    → sum_forward key rows s n ≡ fault out_of_bounds
unfolding sum_forward
sum_forward-overruns key [] s n a = refl
sum_forward-overruns key (r ∷ rows) s n a =
    let same : (r.key == key) ≡ true = ground arith in
    rw same (sum_forward-overruns key rows (add64 s r.data0) (add64 n 1) a.1)

-- If all rows from a position inside the data to its end have the lookup key, the summing loop,
-- started there, reads out of bounds.
pub sum_at-overruns :
    (rows : List Row) (key lower : ℕ)
    → lower < length rows
    → All (λ r. r.key ≡ key) (drop lower rows)
    → sum_at rows key lower ≡ fault out_of_bounds
unfolding sum_at
sum_at-overruns rows key lower inside same =
    let (r, e) = get_elem?-lt rows lower inside in
    let split = drop_at rows lower e in
    let hit : (r.key == key) ≡ true =
      ground (arith, (subst (λ l. All (λ (x : Row). x.key ≡ key) l) split same).0) in
    rw (e, hit, sum_forward-overruns key (drop lower rows) 0 0 same)
