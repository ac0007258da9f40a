-- ===== src/Benchmark/Lookups/Batches.antt =====
-- benchmark.h: the ranges that the threads take from the atomic counter.
use sosd.Prelude.{
  ℕ, zero, suc, ◌+◌, ◌%◌, ◌≤◌, ◌<◌, ◌≡◌, refl, List, [], ◌∷◌, leb, arith, Bool-cases, inl, inr, min,
  true, false,
}
use sosd.Prelude.Words.{u32_mod}
use sosd.Benchmark.Lookups.{batch_size, batches}

-- Consecutive ranges, none of them empty or longer than a batch, from `start` to `stop`.
abbrev pub Cover : ℕ → ℕ → List (ℕ × ℕ) → Type 0
Cover start stop [] = start ≡ stop
Cover start stop ((b, l) ∷ rest) = (b ≡ start) × (b < l) × (l ≤ b + batch_size) × Cover l stop rest

batches_none : (fuel begin size : ℕ) → size ≤ begin → batches fuel begin size ≡ []
unfolding batches
batches_none zero begin size h = refl
batches_none (suc fuel) begin size h = ground arith

limit_full :
    (begin size : ℕ)
    → leb (begin + batch_size) size ≡ true
    → size < u32_mod
    → min (begin + batch_size) size % u32_mod ≡ begin + batch_size
limit_full begin size h s = ground arith

limit_cut :
    (begin size : ℕ)
    → leb (begin + batch_size) size ≡ false
    → size < u32_mod
    → min (begin + batch_size) size % u32_mod ≡ size
limit_cut begin size h s = ground arith

batches-Cover_from :
    (fuel begin size : ℕ)
    → begin ≤ size
    → size < begin + fuel
    → size < u32_mod
    → Cover begin size (batches fuel begin size)
unfolding batches
batches-Cover_from zero begin size b f s = absurd (omega arith)
batches-Cover_from (suc fuel) begin size b f s =
    let later : begin + batch_size ≤ size
        → Cover (begin + batch_size) size (batches fuel (begin + batch_size) size) =
      λ h. batches-Cover_from fuel (begin + batch_size) size h (omega arith) s in
    let last = batches_none fuel (begin + batch_size) size in
    elim (Bool-cases (leb size begin)) [
      | inl done ↦ rw done (ground arith)
      | inr more ↦ elim (Bool-cases (leb (begin + batch_size) size)) [
        | inl full ↦
            rw (more, limit_full begin size full s)
              (refl, omega arith, omega arith, later (ground arith))
        | inr cut ↦
            rw (more, limit_cut begin size cut s, last (ground arith))
              (refl, ground arith, ground arith, refl)
      ]
    ]

-- For fewer than 2 ^ 32 requests the batches are consecutive, not empty and at most 65536 long, and
-- cover the requests from the first to the last, each once.
pub batches-Cover : (size : ℕ) → size < u32_mod → Cover 0 size (batches (size + 1) 0 size)
batches-Cover size s = batches-Cover_from (size + 1) 0 size (omega arith) (omega arith) s
