-- ===== src/Sorted.antt =====
-- Sorted keys, and the position at which a key belongs.
use sosd.Prelude.{
  ℕ, zero, suc, ◌≤◌, ◌<◌, ◌≡◌, refl, List, [], ◌∷◌, Bool, true, false, some, arith, ltb,
  if◌then◌else◌, Bool-cases, inl, inr, length, get_elem?, All, All-map, All_at,
}

abbrev pub IsSorted : List ℕ → Type 0
IsSorted [] = Unit
IsSorted (k ∷ ks) = All (λ j. k ≤ j) ks × IsSorted ks

-- No key twice, in ascending order.
abbrev pub IsAscending : List ℕ → Type 0
IsAscending [] = Unit
IsAscending (k ∷ ks) = All (λ j. k < j) ks × IsAscending ks

-- std::is_sorted.
unfoldable pub is_sorted : List ℕ → Bool
is_sorted [] = true
is_sorted (k ∷ []) = true
is_sorted (k ∷ j ∷ ks) = if ltb j k then false else is_sorted (j ∷ ks)

All-le_trans : (k j : ℕ) (ks : List ℕ) → k ≤ j → All (λ i. j ≤ i) ks → All (λ i. k ≤ i) ks
All-le_trans k j ks h a = All-map (λ i p. omega arith) ks a

pub is_sorted→IsSorted : (ks : List ℕ) → is_sorted ks ≡ true → IsSorted ks
unfolding is_sorted
is_sorted→IsSorted [] h = tt
is_sorted→IsSorted (k ∷ []) h = (tt, tt)
is_sorted→IsSorted (k ∷ j ∷ ks) h =
    let rest : IsSorted (j ∷ ks) = is_sorted→IsSorted (j ∷ ks) (ground arith) in
    let first : k ≤ j = ground arith in ((first, All-le_trans k j ks first rest.0), rest)

pub IsSorted→is_sorted : (ks : List ℕ) → IsSorted ks → is_sorted ks ≡ true
unfolding is_sorted
IsSorted→is_sorted [] s = refl
IsSorted→is_sorted (k ∷ []) s = refl
IsSorted→is_sorted (k ∷ j ∷ ks) s = ground (arith, IsSorted→is_sorted (j ∷ ks) s.1)

pub IsAscending→IsSorted : (ks : List ℕ) → IsAscending ks → IsSorted ks
IsAscending→IsSorted [] a = tt
IsAscending→IsSorted (k ∷ ks) a = (All-map (λ i p. omega arith) ks a.0, IsAscending→IsSorted ks a.1)

pub sorted_le :
    (ks : List ℕ) (i j : ℕ) {a b : ℕ}
    → IsSorted ks
    → i ≤ j
    → get_elem? ks i ≡ some a
    → get_elem? ks j ≡ some b
    → a ≤ b
sorted_le [] i j s h p q = absurd (ground arith)
sorted_le (k ∷ ks) zero zero s h p q = ground arith
sorted_le (k ∷ ks) zero (suc j) s h p q = ground (arith, All_at (λ i. k ≤ i) ks j s.0 q)
sorted_le (k ∷ ks) (suc i) zero s h p q = absurd (omega arith)
sorted_le (k ∷ ks) (suc i) (suc j) s h p q = sorted_le ks i j s.1 (omega arith) p q

-- How many keys at the front lie below `key`: in sorted keys, the first position at which `key`
-- could stand.
unfoldable pub lower_index : ℕ → List ℕ → ℕ
lower_index key [] = 0
lower_index key (k ∷ ks) = if ltb k key then suc (lower_index key ks) else 0

pub lower_index-le : (key : ℕ) (ks : List ℕ) → lower_index key ks ≤ length ks
unfolding lower_index
lower_index-le key [] = omega arith
lower_index-le key (k ∷ ks) = ground (arith, lower_index-le key ks)

pub lower_index_below :
    (key k : ℕ) (ks : List ℕ) → k < key → lower_index key (k ∷ ks) ≡ suc (lower_index key ks)
unfolding lower_index
lower_index_below key k ks h = ground arith

pub lower_index_above : (key k : ℕ) (ks : List ℕ) → key ≤ k → lower_index key (k ∷ ks) ≡ 0
unfolding lower_index
lower_index_above key k ks h = ground arith

-- Below that position the keys are smaller,
pub lt_of_lower_index :
    (key : ℕ) (ks : List ℕ) (i : ℕ) {k : ℕ}
    → get_elem? ks i ≡ some k
    → i < lower_index key ks
    → k < key
unfolding lower_index
lt_of_lower_index key [] i e h = absurd (omega arith)
lt_of_lower_index key (j ∷ ks) zero e h = ground arith
lt_of_lower_index key (j ∷ ks) (suc i) e h = lt_of_lower_index key ks i e (ground arith)

-- and from it on they are not.
pub le_of_lower_index :
    (key : ℕ) (ks : List ℕ) (i : ℕ) {k : ℕ}
    → IsSorted ks
    → get_elem? ks i ≡ some k
    → lower_index key ks ≤ i
    → key ≤ k
unfolding lower_index
le_of_lower_index key [] i s e h = absurd (ground arith)
le_of_lower_index key (j ∷ ks) zero s e h = ground arith
le_of_lower_index key (j ∷ ks) (suc i) s e h = elim (Bool-cases (ltb j key)) [
  | inl below ↦ le_of_lower_index key ks i s.1 e (ground arith)
  | inr above ↦ ground (arith, All_at (λ i. j ≤ i) ks i s.0 e)
]

-- A key below the one at `i` belongs at `i` or before.
pub lower_index-le_at :
    (key : ℕ) (ks : List ℕ) (i : ℕ) {k : ℕ}
    → get_elem? ks i ≡ some k
    → key ≤ k
    → lower_index key ks ≤ i
unfolding lower_index
lower_index-le_at key [] i e h = absurd (ground arith)
lower_index-le_at key (j ∷ ks) zero e h = ground arith
lower_index-le_at key (j ∷ ks) (suc i) e h = ground (arith, lower_index-le_at key ks i e h)

-- A key above the one at `i` belongs behind `i`.
pub lt-lower_index_at :
    (key : ℕ) (ks : List ℕ) (i : ℕ) {k : ℕ}
    → IsSorted ks
    → get_elem? ks i ≡ some k
    → k < key
    → i < lower_index key ks
unfolding lower_index
lt-lower_index_at key [] i s e h = absurd (ground arith)
lt-lower_index_at key (j ∷ ks) zero s e h = ground arith
lt-lower_index_at key (j ∷ ks) (suc i) s e h =
    ground (arith, All_at (λ i. j ≤ i) ks i s.0 e, lt-lower_index_at key ks i s.1 e h)
