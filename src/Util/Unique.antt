-- ===== src/Util/Unique.antt =====
-- util.h: is_unique and remove_duplicates on sorted keys.
use sosd.Prelude.{
  ℕ, ◌==◌, ◌≤◌, ◌<◌, ◌≡◌, ◌↔◌, refl, List, [], ◌∷◌, true, arith, All, All-map, Bool-cases, inl, inr,
  ◌⊎◌,
}
use sosd.Data.{KeyValue, entry_keys}
use sosd.Sorted.{IsSorted, IsAscending, IsAscending→IsSorted}
use sosd.Util.{is_unique, is_unique_entries, remove_duplicates}

All-lt_trans : (k j : ℕ) (ks : List ℕ) → k < j → All (λ i. j ≤ i) ks → All (λ i. k < i) ks
All-lt_trans k j ks h a = All-map (λ i p. omega arith) ks a

-- Of sorted keys, is_unique tells whether they ascend strictly.
pub is_unique-IsAscending : (ks : List ℕ) → IsSorted ks → (is_unique ks ≡ true) ↔ IsAscending ks
unfolding is_unique
is_unique-IsAscending [] s = (λ h. tt, λ h. refl)
is_unique-IsAscending (k ∷ []) s = (λ h. (tt, tt), λ h. refl)
is_unique-IsAscending (k ∷ j ∷ ks) s =
    let (to, from) = is_unique-IsAscending (j ∷ ks) s.1 in
    (
      λ h.
          let step : k < j = ground arith in
          ((step, All-lt_trans k j ks step s.1.0), to (ground arith)),
      λ h. let rest = from h.1 in ground arith,
    )

-- is_unique of entries is that of their keys.
pub is_unique_entries-keys :
    (entries : List KeyValue) → is_unique_entries entries ≡ is_unique (entry_keys entries)
unfolding is_unique is_unique_entries
is_unique_entries-keys [] = refl
is_unique_entries-keys (d ∷ []) = refl
is_unique_entries-keys (d ∷ e ∷ entries) = rw (is_unique_entries-keys (e ∷ entries)) refl

-- `key` is one of the keys.
abbrev pub Has : ℕ → List ℕ → Type 0
Has key [] = ⊥
Has key (k ∷ ks) = (key ≡ k) ⊎ Has key ks

All-remove_duplicates : (P : ℕ → Type 0) (ks : List ℕ) → All P ks → All P (remove_duplicates ks)
unfolding remove_duplicates
All-remove_duplicates P [] a = tt
All-remove_duplicates P (k ∷ []) a = a
All-remove_duplicates P (k ∷ j ∷ ks) a = elim (Bool-cases (k == j)) [
  | inl same ↦ rw same (All-remove_duplicates P (j ∷ ks) a.1)
  | inr other ↦ rw other (a.0, All-remove_duplicates P (j ∷ ks) a.1)
]

-- Of sorted keys remove_duplicates leaves strictly ascending ones.
pub remove_duplicates-IsAscending : (ks : List ℕ) → IsSorted ks → IsAscending (remove_duplicates ks)
unfolding remove_duplicates
remove_duplicates-IsAscending [] s = tt
remove_duplicates-IsAscending (k ∷ []) s = (tt, tt)
remove_duplicates-IsAscending (k ∷ j ∷ ks) s = elim (Bool-cases (k == j)) [
  | inl same ↦ rw same (remove_duplicates-IsAscending (j ∷ ks) s.1)
  | inr other ↦
      let step : k < j = ground arith in
      rw other (
        All-remove_duplicates (λ i. k < i) (j ∷ ks) (step, All-lt_trans k j ks step s.1.0),
        remove_duplicates-IsAscending (j ∷ ks) s.1,
      )
]

-- No key is lost and none is added.
pub remove_duplicates-Has : (key : ℕ) (ks : List ℕ) → Has key (remove_duplicates ks) ↔ Has key ks
unfolding remove_duplicates
remove_duplicates-Has key [] = (λ h. h, λ h. h)
remove_duplicates-Has key (k ∷ []) = (λ h. h, λ h. h)
remove_duplicates-Has key (k ∷ j ∷ ks) =
    let (to, from) = remove_duplicates-Has key (j ∷ ks) in
    elim (Bool-cases (k == j)) [
      | inl same ↦ rw same (
        λ h. inr (to h),
        λ h. elim h [ inl here ↦ from (inl (ground arith)) | inr there ↦ from there ],
      )
      | inr other ↦ rw other (
        λ h. elim h [ inl here ↦ inl here | inr there ↦ inr (to there) ],
        λ h. elim h [ inl here ↦ inl here | inr there ↦ inr (from there) ],
      )
    ]

-- On sorted keys remove_duplicates gives the same keys, strictly ascending, which is_unique
-- accepts.
pub remove_duplicates_unique :
    (ks : List ℕ)
    → IsSorted ks
    → IsAscending (remove_duplicates ks)
      × (is_unique (remove_duplicates ks) ≡ true)
      × ((key : ℕ) → Has key (remove_duplicates ks) ↔ Has key ks)
remove_duplicates_unique ks s =
    let up = remove_duplicates-IsAscending ks s in
    (
      up,
      (is_unique-IsAscending (remove_duplicates ks)
            (IsAscending→IsSorted (remove_duplicates ks) up)).1
          up,
      λ key. remove_duplicates-Has key ks,
    )
