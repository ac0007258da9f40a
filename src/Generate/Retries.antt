-- ===== src/Generate/Retries.antt =====
-- generate.cc: the draws of keys with too many rows, counted as retries, and the ends of the
-- generator.
use sosd.Prelude.{
  ℕ, zero, suc, ◌+◌, ◌-◌, ◌==◌, ◌≤◌, ◌<◌, ◌≡◌, refl, List, ◌∷◌, All, length, some, get_elem?,
  Bool-cases, inl, inr, ◌⊎◌, Run, ok, fault, fail, ◌>>=◌, arith, sym, ap, subst, ◌∙◌, ==→eq,
}
use sosd.Data.{Row, EqualityLookup}
use sosd.Searches.{expected}
use sosd.Util.Random.{FastRandom, rand_uint32, rand_uint32_between}
use sosd.Generate.{max_num_qualifying}

next_draw : (k n : ℕ) → suc (k + n) ≡ k + suc n
next_draw k n = omega arith

no_more : (k n : ℕ) → suc (k + n) ≡ suc (k + n) + 0
no_more k n = omega arith

module _ (rows : List Row) (unique_keys : List ℕ) (num_lookups : ℕ) where
  -- A lookup of one of the unique keys, with the sum over its rows, of which there are not too many.
  abbrev pub IsRight : EqualityLookup → Type 0
  IsRight l =
      (l.result ≡ (expected rows l.key).result)
      × ((expected rows l.key).num_qualifying ≤ max_num_qualifying)
      × ((i : ℕ) × (get_elem? unique_keys i ≡ some l.key))

  -- The generator after so many draws of 32 bits.
  abbrev pub after : ℕ → FastRandom → FastRandom
  after zero ranny = ranny
  after (suc n) ranny = (rand_uint32 (after n ranny)).0

  -- What the generator draws next is the place of a unique key with too many rows.
  abbrev pub IsOverFull : FastRandom → Type 0
  IsOverFull ranny =
      (i : ℕ) × (key : ℕ) × (rand_uint32_between ranny 0 (length unique_keys - 1)
        ≡ ok ((rand_uint32 ranny).0, i))
      × (get_elem? unique_keys i ≡ some key)
      × (max_num_qualifying < (expected rows key).num_qualifying)

  -- 101 draws in a row, somewhere among the draws from the seed 42 on, are of such keys.
  abbrev pub Overdrawn : Type 0
  Overdrawn = (k : ℕ) × ((j : ℕ) → j < 101 → IsOverFull (after (k + j) (record { seed = 42 })))

  -- What the loop may end with: the error message, where 101 draws in a row were of keys with too many
  -- rows, or as many right lookups as are still wanted.
  abbrev pub Ends : ℕ → Run (List EqualityLookup) → Type 0
  Ends num_generated run =
      ((run ≡ fault (fail "generate_equality_lookups: exceeded max number of retries")) × Overdrawn)
      ⊎ ((lookups : List EqualityLookup) × (run ≡ ok lookups)
          × (length lookups + num_generated ≡ num_lookups)
          × All IsRight lookups)

  -- The last `num_retries` draws were of keys with too many rows.
  abbrev pub Retried : FastRandom → ℕ → Type 0
  Retried ranny num_retries =
      (k : ℕ) × (ranny ≡ after (k + num_retries) (record { seed = 42 }))
      × ((j : ℕ) → j < num_retries → IsOverFull (after (k + j) (record { seed = 42 })))

  pub Retried-over :
      (ranny : FastRandom) (num_retries : ℕ)
      → Retried ranny num_retries
      → IsOverFull ranny
      → Retried (rand_uint32 ranny).0 (suc num_retries)
  Retried-over ranny num_retries (k, now, before) over = (
    k,
    ap (λ r. (rand_uint32 r).0) now
        ∙ ap (λ n. after n (record { seed = 42 })) (next_draw k num_retries),
    λ j lt. elim (Bool-cases (j == num_retries)) [
      | inl last ↦
          subst (λ n. IsOverFull (after (k + n) (record { seed = 42 })))
            (sym (==→eq j num_retries last)) (subst IsOverFull now over)
      | inr earlier ↦ before j (ground (arith, earlier))
    ],
  )

  pub Retried-accepted :
      (ranny : FastRandom) (num_retries : ℕ)
      → Retried ranny num_retries
      → Retried (rand_uint32 ranny).0 0
  Retried-accepted ranny num_retries (k, now, before) = (
    suc (k + num_retries),
    ap (λ r. (rand_uint32 r).0) now
        ∙ ap (λ n. after n (record { seed = 42 })) (no_more k num_retries),
    λ j lt. absurd (omega arith),
  )

  pub Retried-Overdrawn :
      (ranny : FastRandom) (num_retries : ℕ)
      → 101 ≤ num_retries
      → Retried ranny num_retries
      → Overdrawn
  Retried-Overdrawn ranny num_retries many (k, now, before) = (k, λ j lt. before j (omega arith))

  pub Ends-cons :
      (l : EqualityLookup) (num_generated : ℕ) (run : Run (List EqualityLookup))
      → IsRight l
      → Ends (num_generated + 1) run
      → Ends num_generated (run >>= λ rest. ok (l ∷ rest))
  Ends-cons l num_generated run right (inl (failed, over)) = inl (rw failed refl, over)
  Ends-cons l num_generated run right (inr (lookups, q, n, a)) =
      inr (l ∷ lookups, rw q refl, omega arith, (right, a))
