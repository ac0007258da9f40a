-- ===== src/Generate/Positive.antt =====
-- generate.cc: the lookups that are drawn when no negative ones are wanted.
use sosd.Prelude.{
  ℕ, zero, suc, ◌+◌, ◌-◌, ◌*◌, ◌%◌, ◌==◌, ◌&&◌, ◌≤◌, ◌<◌, ◌≡◌, refl, List, [], length, length-map,
  some, get_elem?, get_elem?-lt, Bool, Bool-cases, true, false, inl, inr, ltb, leb, ok, arith, ap,
  subst, ◌∙◌, ltb→lt,
}
use sosd.Prelude.Words.{u32_mod, u64_mod, sub64}
use sosd.Data.{Row, row_keys, ValuesFit}
use sosd.Sorted.{IsSorted, lower_index-le}
use sosd.Searches.{expected}
use sosd.Searches.Branching.{branching_search, branching_search-expected}
use sosd.Util.Random.{FastRandom, rand_uint32, rand_uint32_between, rand_uint32_between_bounds}
use sosd.Generate.Retries.{
  IsRight, Ends, Retried, Retried-over, Retried-accepted, Retried-Overdrawn, Ends-cons,
}
use sosd.Generate.{
  max_num_qualifying, max_num_retries, positive_draw, generate_loop, generate_equality_lookups,
}

and_false : (b : Bool) → (b && false) ≡ false
and_false true = refl
and_false false = refl

one_more : (n : ℕ) → suc n ≡ n + 1
one_more n = omega arith

module _ (draws_negative : ℕ → Bool) (scaled_key : ℕ → ℕ → ℕ → ℕ) (rows : List Row)
    (unique_keys : List ℕ) (num_lookups : ℕ) (sorted : IsSorted (row_keys rows))
    (fit : ValuesFit rows) (small : length rows < u64_mod) (some_key : 0 < length unique_keys)
    (few : length unique_keys < u32_mod) where
  draw_at :
      (ranny next : FastRandom) (x key : ℕ)
      → rand_uint32_between ranny 0 (sub64 (length unique_keys) 1 % u32_mod) ≡ ok (next, x)
      → get_elem? unique_keys x ≡ some key
      → branching_search rows key 0 (length rows) ≡ ok (expected rows key)
      → positive_draw false draws_negative scaled_key rows unique_keys num_lookups ranny
        ≡ ok (
          next,
          record { key = key; result = (expected rows key).result },
          (expected rows key).num_qualifying,
        )
  unfolding positive_draw
  draw_at ranny next x key draws q search = rw (draws, q, search) refl

  positive_draw-expected :
      (ranny : FastRandom)
      → (key : ℕ) × (i : ℕ) × (rand_uint32_between ranny 0 (length unique_keys - 1)
          ≡ ok ((rand_uint32 ranny).0, i))
        × (get_elem? unique_keys i ≡ some key)
        × (positive_draw false draws_negative scaled_key rows unique_keys num_lookups ranny
            ≡ ok (
              (rand_uint32 ranny).0,
              record { key = key; result = (expected rows key).result },
              (expected rows key).num_qualifying,
            ))
  positive_draw-expected ranny =
      let last : sub64 (length unique_keys) 1 % u32_mod ≡ length unique_keys - 1 = omega arith in
      let (x, draws, lo, hi) =
        rand_uint32_between_bounds ranny 0 (length unique_keys - 1) (omega arith) (omega arith)
          (omega arith) in
      let (key, q) = get_elem?-lt unique_keys x (omega arith) in
      let count = length-map (λ (r : Row). r.key) rows in
      let search =
        branching_search-expected rows key 0 (length rows) sorted fit small (omega arith)
          (omega (arith, lower_index-le key (row_keys rows))) (omega arith) in
      (
        key,
        x,
        draws,
        q,
        draw_at ranny (rand_uint32 ranny).0 x key (ap (rand_uint32_between ranny 0) last ∙ draws) q
            search,
      )

  generate_loop-Ends :
      (fuel min_key max_key num_generated num_retries : ℕ) (ranny : FastRandom)
      → num_generated ≤ num_lookups
      → num_retries ≤ max_num_retries
      → Retried rows unique_keys num_lookups ranny num_retries
      → (num_lookups - num_generated) * 101 + 101 ≤ fuel + num_retries
      → Ends rows unique_keys num_lookups num_generated (
          generate_loop false draws_negative scaled_key rows unique_keys num_lookups fuel min_key
            max_key num_generated num_retries ranny)
  unfolding generate_loop
  generate_loop-Ends zero min_key max_key num_generated num_retries ranny le retries r f =
      absurd (omega arith)
  generate_loop-Ends (suc fuel) min_key max_key num_generated num_retries ranny le retries r f =
      let (key, i, drawn, q, draws) = positive_draw-expected ranny in
      let next = (rand_uint32 ranny).0 in
      elim (Bool-cases (leb num_lookups num_generated)) [
        | inl done ↦ rw done (inr ([], refl, ground arith, tt))
        | inr more ↦
            rw (more, and_false (num_retries == 0), draws)
              (elim (Bool-cases (ltb max_num_qualifying (expected rows key).num_qualifying)) [
                | inl many ↦
                    let r' =
                      Retried-over rows unique_keys num_lookups ranny num_retries r
                        (i, key, drawn, q, ltb→lt _ _ many) in
                    rw many (elim (Bool-cases (ltb max_num_retries (num_retries + 1))) [
                      | inl over ↦ rw over (
                          inl (
                            refl,
                            Retried-Overdrawn rows unique_keys num_lookups next (suc num_retries)
                                (ground (arith, over)) r',
                          ))
                      | inr again ↦ rw again (
                          generate_loop-Ends fuel min_key max_key num_generated (num_retries + 1)
                            next le (ground arith)
                            (subst (Retried rows unique_keys num_lookups next)
                              (one_more num_retries) r')
                            (omega arith))
                    ])
                | inr enough ↦
                    let right : IsRight rows unique_keys num_lookups
                        (record { key = key; result = (expected rows key).result }) =
                      (refl, ground arith, (i, q)) in
                    rw enough (
                      Ends-cons rows unique_keys num_lookups
                        (record { key = key; result = (expected rows key).result }) num_generated
                        (generate_loop false draws_negative scaled_key rows unique_keys num_lookups
                          fuel min_key max_key (num_generated + 1) 0 next)
                        right
                        (generate_loop-Ends fuel min_key max_key (num_generated + 1) 0 next
                          (ground arith) (omega arith)
                          (Retried-accepted rows unique_keys num_lookups ranny num_retries r)
                          (ground arith)))
              ])
      ]

  -- Without negative lookups the generator ends, for rows and unique keys that are not empty, sorted
  -- rows with 64-bit payloads, fewer than 2 ^ 64 rows and fewer than 2 ^ 32 unique keys: with the
  -- error message, and then 101 draws in a row, among the draws from the seed 42 on, are of unique keys
  -- with more than 100 rows; or with num_lookups lookups of unique keys that each have the sum over their
  -- rows, of which there are at most 100. Fuel for 101 draws a lookup and 101 more is enough.
  pub generate_equality_lookups-Ends :
      (fuel : ℕ)
      → 0 < length rows
      → num_lookups * 101 + 101 ≤ fuel
      → Ends rows unique_keys num_lookups 0 (
          generate_equality_lookups false draws_negative scaled_key rows unique_keys num_lookups
            fuel)
  unfolding generate_equality_lookups
  generate_equality_lookups-Ends fuel some_row enough =
      let (front, q) = get_elem?-lt rows 0 some_row in
      let (back, q1) = get_elem?-lt rows (length rows - 1) (omega arith) in
      rw (q, q1)
        (generate_loop-Ends fuel front.key back.key 0 0 (record { seed = 42 }) (omega arith)
          (omega arith) (0, refl, λ j lt. absurd (omega arith)) (omega arith))
