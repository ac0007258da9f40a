-- ===== src/Prelude/Arrays.antt =====
-- Arrays of fixed size as functions of the index, and a write to a vector.
use Prim.Native.Nat.{ℕ, zero, suc, ◌+◌, ◌≤◌, ◌<◌}
use mathlib.Core.Path.{◌≡◌, refl}
use mathlib.Core.Logic.{◌≢◌, ◌⊎◌, inl, inr}
use mathlib.Core.List.{List, [], ◌∷◌}
use mathlib.Core.Option.{Option, none, some}
use native.Mathlib.Omega.{arith}
use sosd.Prelude.Lists.{length, get_elem?, set}
use sosd.Prelude.Tests.{◌==◌, if◌then◌else◌, Bool-cases, ==→eq, ==→ne}

abbrev pub update {ℓ} : {A : Type ℓ} → (ℕ → A) → ℕ → A → ℕ → A
update f i v j = if j == i then v else f j

-- The first of the keys i, i + 1, ... that is equal, of so many keys: what a loop over them finds, and
-- what the lowest bit of the mask of a comparison of all keys at once stands for.
unfoldable pub find_key : (ℕ → ℕ) → ℕ → ℕ → ℕ → Option ℕ
find_key keys key i zero = none
find_key keys key i (suc n) = if keys i == key then some i else find_key keys key (suc i) n

pub find_key-cases :
    (key : ℕ → ℕ) (b i n : ℕ)
    → ((find_key key b i n ≡ none) × ((j : ℕ) → i ≤ j → j < i + n → key j ≢ b))
      ⊎ ((j : ℕ) × (find_key key b i n ≡ some j) × (i ≤ j) × (j < i + n) × (key j ≡ b))
unfolding find_key
find_key-cases key b i zero = inl (refl, λ j lo hi. absurd (omega arith))
find_key-cases key b i (suc n) = elim (Bool-cases (key i == b)) [
  | inl eq ↦ inr (i, rw eq refl, omega arith, omega arith, ==→eq (key i) b eq)
  | inr ne ↦ elim (find_key-cases key b (suc i) n) [
    | inl (e, none_of) ↦ inl (
      rw ne e,
      λ j lo hi. elim (Bool-cases (j == i)) [
        | inl same ↦ rw (==→eq j i same) (==→ne (key i) b ne)
        | inr other ↦ none_of j (ground arith) (omega arith)
      ],
    )
    | inr (j, e, lo, hi, k) ↦ inr (j, rw ne e, omega arith, omega arith, k)
  ]
]

pub get_elem?-set {ℓ} :
    {A : Type ℓ} (xs : List A) (i j : ℕ) (v : A)
    → j < length xs
    → get_elem? (set xs j v) i ≡ (if i == j then some v else get_elem? xs i)
get_elem?-set [] i j v h = absurd (omega arith)
get_elem?-set (x ∷ xs) zero zero v h = refl
get_elem?-set (x ∷ xs) zero (suc j) v h = ground arith
get_elem?-set (x ∷ xs) (suc i) zero v h = ground arith
get_elem?-set (x ∷ xs) (suc i) (suc j) v h = ground (arith, get_elem?-set xs i j v)
