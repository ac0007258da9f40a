-- ===== src/Generate/Names.antt =====
-- generate.cc: the numbers in the file names.
use sosd.Prelude.{ℕ, ◌*◌, ◌/◌, ◌≡◌, arith, Bool-cases, inl, inr, true}
use sosd.Generate.{to_nice_number, suffix_scale, is_multiple}

is_multiple-eq : (num unit : ℕ) → is_multiple num unit ≡ true → num / unit * unit ≡ num
unfolding is_multiple
is_multiple-eq num unit h = ground arith

-- The number that is printed, times what its suffix stands for, is the number of lookups.
pub to_nice_number-scale :
    (num : ℕ) → (to_nice_number num).0 * suffix_scale (to_nice_number num).1 ≡ num
unfolding to_nice_number
to_nice_number-scale num = elim (Bool-cases (is_multiple num 1000000000)) [
  | inl b ↦ rw b (is_multiple-eq num 1000000000 b)
  | inr b ↦ rw b (elim (Bool-cases (is_multiple num 1000000)) [
    | inl m ↦ rw m (is_multiple-eq num 1000000 m)
    | inr m ↦ rw m (elim (Bool-cases (is_multiple num 1000)) [
      | inl k ↦ rw k (is_multiple-eq num 1000 k)
      | inr k ↦ rw k (omega arith)
    ])
  ])
]
