-- ===== src/Util/Values.antt =====
-- util.h: the rows that add_values makes of the keys.
use sosd.Prelude.{
  ℕ, zero, suc, ◌+◌, ◌%◌, ◌≡◌, refl, ap, List, [], ◌∷◌, some, get_elem?, arith, length,
}
use sosd.Prelude.Words.{u64_mod}
use sosd.Data.{row_keys, ValuesFit}
use sosd.Util.{add_values, add_values_from, get_value}

row_keys-add_values_from : (i : ℕ) (keys : List ℕ) → row_keys (add_values_from i keys) ≡ keys
unfolding add_values_from
row_keys-add_values_from i [] = refl
row_keys-add_values_from i (k ∷ keys) = ap (λ l. k ∷ l) (row_keys-add_values_from (i + 1) keys)

pub row_keys-add_values : (keys : List ℕ) → row_keys (add_values keys) ≡ keys
unfolding add_values
row_keys-add_values keys = row_keys-add_values_from 0 keys

length-add_values_from : (i : ℕ) (keys : List ℕ) → length (add_values_from i keys) ≡ length keys
unfolding add_values_from
length-add_values_from i [] = refl
length-add_values_from i (k ∷ keys) = ap suc (length-add_values_from (i + 1) keys)

pub length-add_values : (keys : List ℕ) → length (add_values keys) ≡ length keys
unfolding add_values
length-add_values keys = length-add_values_from 0 keys

ValuesFit-add_values_from : (i : ℕ) (keys : List ℕ) → ValuesFit (add_values_from i keys)
unfolding add_values_from
ValuesFit-add_values_from i [] = tt
ValuesFit-add_values_from i (k ∷ keys) = (omega arith, ValuesFit-add_values_from (i + 1) keys)

pub ValuesFit-add_values : (keys : List ℕ) → ValuesFit (add_values keys)
unfolding add_values
ValuesFit-add_values keys = ValuesFit-add_values_from 0 keys

get_elem?-add_values_from :
    (pos : ℕ) (keys : List ℕ) (i : ℕ) {k : ℕ}
    → get_elem? keys i ≡ some k
    → get_elem? (add_values_from pos keys) i
      ≡ some (record { key = k; data0 = (pos + i) % u64_mod })
unfolding add_values_from get_value
get_elem?-add_values_from pos [] i e = absurd (ground arith)
get_elem?-add_values_from pos (j ∷ keys) zero e = ground arith
get_elem?-add_values_from pos (j ∷ keys) (suc i) e =
    let there = get_elem?-add_values_from (pos + 1) keys i e in
    let same : pos + 1 + i ≡ pos + suc i = omega arith in rw same at there

-- Each row has its position as payload.
pub get_elem?-add_values :
    (keys : List ℕ) (i : ℕ) {k : ℕ}
    → get_elem? keys i ≡ some k
    → get_elem? (add_values keys) i ≡ some (record { key = k; data0 = i % u64_mod })
unfolding add_values
get_elem?-add_values keys i e =
    let there = get_elem?-add_values_from 0 keys i e in
    let same : 0 + i ≡ i = omega arith in rw same at there
