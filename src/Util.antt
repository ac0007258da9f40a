-- ===== src/Util.antt =====
-- util.h: the helpers on keys and values.
pub mod Unique
pub mod Values
pub mod Random
use sosd.Prelude.{
  ℕ, zero, suc, ◌+◌, ◌-◌, ◌*◌, ◌%◌, ◌==◌, List, [], ◌∷◌, Bool, true, false, if◌then◌else◌,
}
use sosd.Prelude.Words.{u64_mod}
use sosd.Data.{Row, KeyValue}

abbrev pub not_found : ℕ
not_found = u64_mod - 1

-- is_unique of a vector of keys: every key is compared with the one before it.
unfoldable pub is_unique : List ℕ → Bool
is_unique [] = true
is_unique (k ∷ []) = true
is_unique (k ∷ j ∷ ks) = if j == k then false else is_unique (j ∷ ks)

-- is_unique of a vector of KeyValue.
unfoldable pub is_unique_entries : List KeyValue → Bool
is_unique_entries [] = true
is_unique_entries (d ∷ []) = true
is_unique_entries (d ∷ e ∷ entries) =
    if e.key == d.key then false else is_unique_entries (e ∷ entries)

-- std::unique and the erasure of the rest: of neighbours that are equal one stays.
unfoldable pub remove_duplicates : List ℕ → List ℕ
remove_duplicates [] = []
remove_duplicates (k ∷ []) = k ∷ []
remove_duplicates (k ∷ j ∷ ks) =
    let rest = remove_duplicates (j ∷ ks) in if k == j then rest else k ∷ rest

unfoldable pub get_value : ℕ → ℕ
get_value i = i

-- The loop of add_values, from position `i`. ROW_WIDTH is 1, so `j` is 0 only.
unfoldable pub add_values_from : ℕ → List ℕ → List Row
unfolding get_value
add_values_from i [] = []
add_values_from i (k ∷ keys) =
    record { key = k; data0 = get_value (i * (0 + 1) % u64_mod) } ∷ add_values_from (i + 1) keys

unfoldable pub add_values : List ℕ → List Row
unfolding add_values_from
add_values keys = add_values_from 0 keys
