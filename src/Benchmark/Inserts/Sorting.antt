-- ===== src/Benchmark/Inserts/Sorting.antt =====
-- benchmark.h: the sort of the index data that is left, the split, and the selection of the
-- insertion data.
use mathlib.Core.List.{Perm}
use mathlib.Core.List.Perm
use sosd.Prelude.{
  lt→ltb, ℕ, suc, ◌-◌, ◌*◌, ◌/◌, ◌==◌, ◌≤◌, ◌<◌, ◌≡◌, refl, ap, ◌∙◌, fault, out_of_bounds, List, [],
  ◌∷◌, ◌++◌, length, get_elem?-lt, All, All-map, ltb, Bool-cases, inl, inr, false, ok, arith,
}
use sosd.Data.{KeyValue, EqualityLookup, entry_keys}
use sosd.Sorted.{IsSorted}
use sosd.Benchmark.Inserts.{
  insert_by_key, sort_by_key, sort_desc, split_data, insert_target, collect_ids, select_inserts,
}
use sosd.Searches.Branchless.{to_int}
use sosd.Benchmark.Inserts.Taken.{
  IsDistinct, take_ids-Perm, sort_desc-All, sort_desc-IsDescending, length-sort_desc,
}

insert_by_key-Perm :
    (e : KeyValue) (entries : List KeyValue) → Perm (insert_by_key e entries) (e ∷ entries)
unfolding insert_by_key
insert_by_key-Perm e [] = Perm.refl (e ∷ [])
insert_by_key-Perm e (f ∷ entries) = elim (Bool-cases (ltb f.key e.key)) [
  | inl below ↦
      rw below (Perm.trans (Perm.cons f (insert_by_key-Perm e entries)) (Perm.swap e f entries))
  | inr above ↦ rw above (Perm.refl (e ∷ f ∷ entries))
]

sort_by_key-Perm : (entries : List KeyValue) → Perm (sort_by_key entries) entries
unfolding sort_by_key
sort_by_key-Perm [] = Perm.refl []
sort_by_key-Perm (e ∷ entries) =
    Perm.trans (insert_by_key-Perm e (sort_by_key entries)) (Perm.cons e (sort_by_key-Perm entries))

insert_by_key-All :
    (P : ℕ → Type 0) (e : KeyValue) (entries : List KeyValue)
    → P e.key
    → All P (entry_keys entries)
    → All P (entry_keys (insert_by_key e entries))
unfolding insert_by_key
insert_by_key-All P e [] p a = (p, tt)
insert_by_key-All P e (f ∷ entries) p a = elim (Bool-cases (ltb f.key e.key)) [
  | inl below ↦ rw below (a.0, insert_by_key-All P e entries p a.1)
  | inr above ↦ rw above (p, a)
]

insert_by_key-IsSorted :
    (e : KeyValue) (entries : List KeyValue)
    → IsSorted (entry_keys entries)
    → IsSorted (entry_keys (insert_by_key e entries))
unfolding insert_by_key
insert_by_key-IsSorted e [] s = (tt, tt)
insert_by_key-IsSorted e (f ∷ entries) s = elim (Bool-cases (ltb f.key e.key)) [
  | inl below ↦ rw below (
    insert_by_key-All (λ j. f.key ≤ j) e entries (ground arith) s.0,
    insert_by_key-IsSorted e entries s.1,
  )
  | inr above ↦
      let first : e.key ≤ f.key = ground arith in
      rw above ((first, All-map (λ (j : ℕ) h. omega arith) (entry_keys entries) s.0), s)
]

sort_by_key-IsSorted : (entries : List KeyValue) → IsSorted (entry_keys (sort_by_key entries))
unfolding sort_by_key
sort_by_key-IsSorted [] = tt
sort_by_key-IsSorted (e ∷ entries) =
    insert_by_key-IsSorted e (sort_by_key entries) (sort_by_key-IsSorted entries)

length-insert_by_key :
    (e : KeyValue) (entries : List KeyValue)
    → length (insert_by_key e entries) ≡ suc (length entries)
unfolding insert_by_key
length-insert_by_key e [] = refl
length-insert_by_key e (f ∷ entries) = ground (arith, length-insert_by_key e entries)

length-sort_by_key : (entries : List KeyValue) → length (sort_by_key entries) ≡ length entries
unfolding sort_by_key
length-sort_by_key [] = refl
length-sort_by_key (e ∷ entries) =
    length-insert_by_key e (sort_by_key entries) ∙ ap suc (length-sort_by_key entries)

-- For ids of entries, at least one, none twice, and fewer than the entries, the split ends normally:
-- it takes one entry for each id, what it takes and what is left are together the entries in some
-- order, and what is left is sorted.
pub split_data-Perm :
    (ids : List ℕ) (index_data : List KeyValue)
    → 0 < length ids
    → length ids < length index_data
    → IsDistinct ids
    → All (λ id. id < length index_data) ids
    → (left : List KeyValue) × (taken : List KeyValue) × (split_data ids index_data
        ≡ ok (left, taken))
      × Perm (taken ++ left) index_data
      × (length taken ≡ length ids)
      × IsSorted (entry_keys left)
unfolding split_data
split_data-Perm ids index_data some_id fewer d a =
    let n = length-sort_desc ids in
    let (left, taken, takes, p, count, rest) =
      take_ids-Perm (sort_desc ids) index_data [] (sort_desc-IsDescending ids d)
        (sort_desc-All (λ id. id < length index_data) ids a) in
    let m = length-sort_by_key left in
    let (largest, q) = get_elem?-lt (sort_desc ids) 0 (omega arith) in
    let (smallest, q') = get_elem?-lt (sort_desc ids) (length (sort_desc ids) - 1) (omega arith) in
    let (first, r) = get_elem?-lt (sort_by_key left) 0 (omega arith) in
    let (last, r') =
      get_elem?-lt (sort_by_key left) (length (sort_by_key left) - 1) (omega arith) in
    (
      sort_by_key left,
      taken,
      rw (q, q', takes, r, r') refl,
      Perm.trans (Perm.append_left taken (sort_by_key-Perm left)) p,
      omega arith,
      sort_by_key-IsSorted left,
    )

insert_target-none :
    (write_portion count : ℕ)
    → write_portion < 100
    → count * write_portion < 100
    → count < 1000
    → insert_target write_portion count ≡ ok 0
unfolding insert_target to_int
insert_target-none write_portion count h few small =
    let a : count * write_portion / 100 ≡ 0 = omega arith in
    let b : count / 1000 ≡ 0 = omega arith in
    let c : (write_portion == 100) ≡ false = ground arith in rw (a, b, c) refl

-- With a positive write portion below 100 and so few requests that no insertion is expected of them,
-- the selection of the insertion data reads the first id of an empty vector.
pub select_inserts-overruns :
    (fuel : ℕ) (draw : ℕ → ℕ) (write_portion : ℕ) (lookups : List EqualityLookup)
    (index_data : List KeyValue)
    → 0 < write_portion
    → write_portion < 100
    → length lookups * write_portion < 100
    → length lookups < 1000
    → select_inserts (suc fuel) draw write_portion lookups index_data ≡ fault out_of_bounds
unfolding select_inserts collect_ids split_data sort_desc
select_inserts-overruns fuel draw write_portion lookups index_data some_part h few small =
    rw
      (
        lt→ltb 0 write_portion some_part,
        insert_target-none write_portion (length lookups) h few small,
      )
      refl
