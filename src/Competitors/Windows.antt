-- ===== src/Competitors/Windows.antt =====
-- The wrappers of indexes that the repository does not contain. Such an index answers with a guess,
-- here an argument, and the wrapper opens a window of positions around it.
pub mod Guess
pub mod Sampled
use sosd.Prelude.{
  ℕ, ◌+◌, ◌-◌, ◌*◌, ◌%◌, ◌==◌, List, [], ◌∷◌, Option, none, some, Run, ok, fault, fail, ltb, leb,
  ◌&&◌, not, Bool, if◌then◌else◌,
}
use sosd.Prelude.Words.{add64}
use sosd.Data.{KeyValue, SearchBound}

-- competitors/binary_search.h: the whole data.
unfoldable pub whole_lookup : ℕ → SearchBound
whole_lookup data_size = record { start = 0; stop = data_size }

-- competitors/hash.h: the position that the map has for the key.
unfoldable pub robin_lookup : Option ℕ → Run SearchBound
robin_lookup none = fault (fail "Could not find lookup key in hashmap!")
robin_lookup (some value) = ok (record { start = value; stop = add64 value 1 })

-- competitors/rmi_search.h: the guess and the error of the model, cut off at the data's ends.
unfoldable pub rmi_lookup : ℕ → ℕ → ℕ → SearchBound
rmi_lookup data_size guess error = record {
  start = if ltb guess error then 0 else guess - error;
  stop = if leb data_size (add64 guess error) then data_size else add64 guess error;
}

-- start = guess < error ? 0 : guess - error; stop = guess + 1
unfoldable pub window_before : ℕ → ℕ → SearchBound
window_before error guess = record {
  start = if ltb guess error then 0 else guess - error;
  stop = add64 guess 1;
}

-- competitors/stx_btree.h and competitors/alex.h: `found` is the position that the tree's
-- lower_bound gives, or none at its end.
unfoldable pub sampled_lookup : ℕ → ℕ → Option ℕ → SearchBound
unfolding window_before
sampled_lookup size_scale data_size none = window_before (size_scale - 1) (data_size - 1)
sampled_lookup size_scale data_size (some guess) = window_before (size_scale - 1) guess

-- competitors/pgm_index.h.
unfoldable pub pgm_lookup : ℕ → ℕ → Option ℕ → SearchBound
unfolding window_before
pgm_lookup pgm_error data_size none = window_before pgm_error (data_size - 1)
pgm_lookup pgm_error data_size (some guess) = window_before pgm_error guess

-- competitors/fst_wrapper.h below the largest key: `found` is the entry's number in the trie, or
-- none for an invalid iterator.
unfoldable pub fst_guess_lookup : ℕ → ℕ → Option ℕ → SearchBound
fst_guess_lookup size_scale data_size none = record { start = 0; stop = data_size }
fst_guess_lookup size_scale data_size (some entry) =
    let guess = entry * size_scale in
    let start = if ltb guess size_scale then 0 else guess - size_scale in
    if ltb data_size start then record { start = 0; stop = data_size } else record {
      start = start;
      stop = if leb data_size (guess + size_scale) then data_size else guess + size_scale + 1;
    }

unfoldable pub fst_lookup : ℕ → ℕ → ℕ → ℕ → ℕ → Option ℕ → SearchBound
unfolding fst_guess_lookup
fst_lookup size_scale data_size max_key max_val lookup_key found =
    if leb max_key lookup_key
    then record { start = max_val; stop = data_size }
    else fst_guess_lookup size_scale data_size found

-- size_scale > 1 && idx % size_scale != 0
unfoldable pub skips : ℕ → ℕ → Bool
skips size_scale idx = ltb 1 size_scale && not (idx % size_scale == 0)

-- The entries that Build of stx_btree.h, alex.h and fst_wrapper.h passes on: every size_scale-th.
unfoldable pub sampled : ℕ → List KeyValue → List KeyValue
sampled size_scale [] = []
sampled size_scale (e ∷ entries) =
    if skips size_scale e.value then sampled size_scale entries else e ∷ sampled size_scale entries
