-- ===== src/Benchmark/Lookups/Cold.antt =====
-- benchmark.h: the core loop with clear_cache, which checks each result.
use native.Mathlib.Numerals.{add-one}
use sosd.Prelude.{
  ℕ, zero, suc, ◌+◌, ◌≤◌, ◌<◌, ◌≡◌, ◌≢◌, refl, ◌↔◌, List, ◌∷◌, Bool, true, false, Run, ok, length,
  arith, All, drop, drop_at, get_elem?-lt, drop_all, Bool-cases, inl, inr, All_at,
}
use sosd.Prelude.Words.{u32_mod}
use sosd.Data.{Row, EqualityLookup}
use sosd.Searches.{Outcome}
use sosd.Benchmark.Lookups.{Index, find, cold_loop, cold_core_loop, rounds_of, check_results}

check_results→eq : (a b : ℕ) → check_results a b ≡ true → a ≡ b
unfolding check_results
check_results→eq a b h = ground arith

check_results→ne : (a b : ℕ) → check_results a b ≡ false → a ≢ b
unfolding check_results
check_results→ne a b h = ground arith

-- The request was answered as its file says.
abbrev pub IsAnswered : (ℕ → Outcome) → EqualityLookup → Type 0
IsAnswered answer request = (answer request.key).result ≡ request.result

module _ {S : Type 0} (ix : Index S) (rows : List Row) (lookups : List EqualityLookup)
    (searcher : List Row → ℕ → ℕ → ℕ → Run Outcome) (index : S) (answer : ℕ → Outcome)
    (ends : All
      (λ request. find ix rows searcher index request.key ≡ ok (answer request.key))
      lookups) where
  cold_loop_suffix :
      (rounds idx : ℕ)
      → idx + rounds ≡ length lookups
      → (cold_loop ix rows lookups searcher index rounds idx false ≡ ok false)
        ↔ All (IsAnswered answer) (drop idx lookups)
  unfolding cold_loop
  cold_loop_suffix zero idx e = rw (drop_all lookups idx (omega arith)) (λ h. tt, λ h. refl)
  cold_loop_suffix (suc rounds) idx e =
      let (request, q) = get_elem?-lt lookups idx (omega arith) in
      let (to, from) = cold_loop_suffix rounds (idx + 1) (omega arith) in
      let split : drop idx lookups ≡ request ∷ drop (idx + 1) lookups =
        rw add-one (drop_at lookups idx q) in
      rw
        (
          split,
          q,
          All_at (λ request. find ix rows searcher index request.key ≡ ok (answer request.key))
              lookups idx ends q,
        )
        (elim (Bool-cases (check_results (answer request.key).result request.result)) [
          | inl same ↦ rw same (λ h. (check_results→eq _ _ same, to h), λ h. from h.1)
          | inr other ↦ rw other (λ h. absurd (cc), λ h. absurd (check_results→ne _ _ other h.0))
        ])

  -- For fewer than 2 ^ 32 requests whose lookup and search end normally, the checked core loop from the
  -- first to the last request reports no failure exactly if each request's result is the expected one.
  pub cold_core_loop-IsAnswered :
      length lookups < u32_mod
      → (cold_core_loop ix rows lookups searcher index 0 (length lookups) false ≡ ok false)
        ↔ All (IsAnswered answer) lookups
  unfolding cold_core_loop
  cold_core_loop-IsAnswered few =
      let all_rounds : rounds_of 0 (length lookups) ≡ length lookups = omega arith in
      rw all_rounds (cold_loop_suffix (length lookups) 0 (omega arith))

  cold_loop-ends :
      (rounds idx : ℕ)
      → idx + rounds ≤ length lookups
      → (b : Bool) × (cold_loop ix rows lookups searcher index rounds idx false ≡ ok b)
  unfolding cold_loop
  cold_loop-ends zero idx h = (false, refl)
  cold_loop-ends (suc rounds) idx h =
      let (request, q) = get_elem?-lt lookups idx (omega arith) in
      let (b, rest) = cold_loop-ends rounds (idx + 1) (omega arith) in
      let found =
        All_at (λ request. find ix rows searcher index request.key ≡ ok (answer request.key))
          lookups idx ends q in
      elim (Bool-cases (check_results (answer request.key).result request.result)) [
        | inl same ↦ (b, rw (q, found, same) rest)
        | inr other ↦ (true, rw (q, found, other) refl)
      ]

  pub cold_core_loop-ends :
      length lookups < u32_mod
      → (b : Bool) × (cold_core_loop ix rows lookups searcher index 0 (length lookups) false ≡ ok b)
  unfolding cold_core_loop
  cold_core_loop-ends few =
      let all_rounds : rounds_of 0 (length lookups) ≡ length lookups = omega arith in
      rw all_rounds (cold_loop-ends (length lookups) 0 (omega arith))
