-- ===== src/Algorithms.antt =====
-- The standard algorithms that the searches call, on a vector and positions in it.
-- std::lower_bound halves the range as the standard library does; std::find_if walks it.
use sosd.Prelude.{
  ℕ, zero, suc, ◌+◌, ◌-◌, ◌/◌, ◌≤◌, ◌<◌, ◌≡◌, List, Bool, true, false, some, arith, ◌==◌,
  if◌then◌else◌, length, get_elem?, Run, ok, fault, out_of_fuel, at, ◌>>=◌, get_elem?-lt,
  Bool-cases, inl, inr, refl,
}

module _ {ℓ} {A : Type ℓ} (below : A → Bool) (xs : List A) where
  -- The loop of std::lower_bound over `len` elements from `first`.
  unfoldable pub lower_bound_loop : ℕ → ℕ → ℕ → Run ℕ
  lower_bound_loop zero first len = fault out_of_fuel
  lower_bound_loop (suc fuel) first len =
      let narrow = do
        x ← at xs (first + len / 2)
        let above = lower_bound_loop fuel (first + len / 2 + 1) (len - len / 2 - 1)
        let here = lower_bound_loop fuel first (len / 2)
        if below x then above else here
      in if len == 0 then ok first else narrow

  unfoldable pub lower_bound : ℕ → ℕ → Run ℕ
  unfolding lower_bound_loop
  lower_bound first last = lower_bound_loop (last - first + 1) first (last - first)

  -- The loop of std::find_if over `n` elements from `i`.
  unfoldable pub find_if_loop : ℕ → ℕ → Run ℕ
  find_if_loop zero i = ok i
  find_if_loop (suc n) i = do
    x ← at xs i
    let rest = find_if_loop n (i + 1)
    if below x then ok i else rest

  unfoldable pub find_if : ℕ → ℕ → Run ℕ
  unfolding find_if_loop
  find_if first last = find_if_loop (last - first) first

  -- `p` splits the vector: the elements before it lie below, the others do not.
  pub record Splits (p : ℕ) : Type ℓ where
    pub inside : p ≤ length xs
    pub before : (i : ℕ) (x : A) → get_elem? xs i ≡ some x → i < p → below x ≡ true
    pub after : (i : ℕ) (x : A) → get_elem? xs i ≡ some x → p ≤ i → below x ≡ false

  lower_bound_loop-eq :
      (p : ℕ)
      → Splits p
      → (fuel first len : ℕ) → len < fuel
      → first ≤ p
      → p ≤ first + len
      → first + len ≤ length xs
      → lower_bound_loop fuel first len ≡ ok p
  unfolding lower_bound_loop
  lower_bound_loop-eq p s zero first len f lo hi fits = absurd (omega arith)
  lower_bound_loop-eq p s (suc fuel) first len f lo hi fits = elim (Bool-cases (len == 0)) [
    | inl stop ↦ ground arith
    | inr more ↦
        let (x, e) = get_elem?-lt xs (first + len / 2) (ground arith) in
        rw (more, e)
          (elim (Bool-cases (below x)) [
            | inl small ↦ rw small (
                lower_bound_loop-eq p s fuel _ _ (ground arith) (ground (arith, s.after _ x e))
                  (ground arith) (ground arith))
            | inr large ↦ rw large (
                lower_bound_loop-eq p s fuel _ _ (ground arith) lo (ground (arith, s.before _ x e))
                  (ground arith))
          ])
  ]

  -- On a range that holds the split point std::lower_bound returns it.
  pub lower_bound-eq :
      (p first last : ℕ)
      → Splits p
      → first ≤ p
      → p ≤ last
      → last ≤ length xs
      → lower_bound first last ≡ ok p
  unfolding lower_bound
  lower_bound-eq p first last s lo hi fits =
      lower_bound_loop-eq p s (last - first + 1) first (last - first) (omega arith) lo (omega arith)
        (omega arith)

  lower_bound_loop_end :
      (last fuel first len : ℕ)
      → len < fuel
      → first + len ≡ last
      → last ≤ length xs
      → ((i : ℕ) (x : A) → get_elem? xs i ≡ some x → i < last → below x ≡ true)
      → lower_bound_loop fuel first len ≡ ok last
  unfolding lower_bound_loop
  lower_bound_loop_end last zero first len f end fits small = absurd (omega arith)
  lower_bound_loop_end last (suc fuel) first len f end fits small = elim (Bool-cases (len == 0)) [
    | inl stop ↦ ground arith
    | inr more ↦
        let (x, e) = get_elem?-lt xs (first + len / 2) (ground arith) in
        let up =
          lower_bound_loop_end last fuel (first + len / 2 + 1) (len - len / 2 - 1) (ground arith)
            (ground arith) fits small in
        rw (more, e, small _ x e (ground arith), up) refl
  ]

  -- If all elements before the end of the range lie below, std::lower_bound returns the end.
  pub lower_bound_end :
      (last : ℕ)
      → last ≤ length xs
      → ((i : ℕ) (x : A) → get_elem? xs i ≡ some x → i < last → below x ≡ true)
      → lower_bound 0 last ≡ ok last
  unfolding lower_bound
  lower_bound_end last fits small =
      lower_bound_loop_end last (last - 0 + 1) 0 (last - 0) (omega arith) (omega arith) fits small

  find_if_loop-eq :
      (p : ℕ)
      → ((i : ℕ) (x : A) → get_elem? xs i ≡ some x → i < p → below x ≡ false)
      → (n first : ℕ) → first ≤ p
      → p ≤ first + n
      → first + n ≤ length xs
      → ((x : A) → get_elem? xs p ≡ some x → p < first + n → below x ≡ true)
      → find_if_loop n first ≡ ok p
  unfolding find_if_loop
  find_if_loop-eq p miss zero first lo hi fits hit = ground arith
  find_if_loop-eq p miss (suc n) first lo hi fits hit =
      let (x, e) = get_elem?-lt xs first (omega arith) in
      rw e (elim (Bool-cases (below x)) [
        | inl found ↦ rw found (ground (arith, miss first x e))
        | inr other ↦
            let away : first < p = ground (arith, hit x) in
            rw other (
              find_if_loop-eq p miss n (first + 1) (omega arith) (omega arith) (omega arith)
                (λ y q h. hit y q (omega arith)))
      ])

  -- std::find_if returns the first hit in the range, or the range's end.
  pub find_if-eq :
      (p first last : ℕ)
      → ((i : ℕ) (x : A) → get_elem? xs i ≡ some x → i < p → below x ≡ false)
      → ((x : A) → get_elem? xs p ≡ some x → p < last → below x ≡ true)
      → first ≤ p
      → p ≤ last
      → last ≤ length xs
      → find_if first last ≡ ok p
  unfolding find_if
  find_if-eq p first last miss hit lo hi fits =
      find_if_loop-eq p miss _ first lo (omega arith) (omega arith) (λ x e h. hit x e (omega arith))
