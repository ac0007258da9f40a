-- ===== src/Benchmark/Inserts.antt =====
-- benchmark.h: what Run takes out of the index data for later insertion. The draws of the random
-- distribution are an argument, as a function of how many came before.
pub mod Taken
pub mod Sorting
use sosd.Prelude.{
  ℕ, zero, suc, ◌+◌, ◌-◌, ◌*◌, ◌/◌, ◌==◌, ltb, leb, if◌then◌else◌, List, [], ◌∷◌, ◌++◌, map, length,
  set, Bool, true, false, ◌||◌, ◌&&◌, Option, none, some, Run, ok, fault, out_of_bounds,
  out_of_fuel, at, ◌>>=◌,
}
use sosd.Data.{KeyValue, EqualityLookup}
use sosd.Searches.Branchless.{to_int}

-- find_if and erase of the first request with the key.
unfoldable pub erase_first : ℕ → List EqualityLookup → Option (List EqualityLookup)
erase_first key [] = none
erase_first key (l ∷ lookups) =
    if l.key == key
    then some lookups
    else elim (erase_first key lookups) [ none ↦ none | some rest ↦ some (l ∷ rest) ]

-- while (true): erases until no request has the key.
unfoldable pub erase_key : ℕ → ℕ → List EqualityLookup → Run (List EqualityLookup)
unfolding erase_first
erase_key zero key lookups = fault out_of_fuel
erase_key (suc fuel) key lookups = elim (erase_first key lookups) [
  | none ↦ ok lookups
  | some rest ↦ erase_key fuel key rest
]

-- The requests that PGM is not asked for.
unfoldable pub without_forbidden : List EqualityLookup → Run (List EqualityLookup)
unfolding erase_key
without_forbidden lookups = do
  kept ← erase_key (length lookups + 1) 18446744073709551615 lookups
  erase_key (length kept + 1) 4294967295 kept

unfoldable pub contains : ℕ → List ℕ → Bool
contains x [] = false
contains x (y ∷ ys) = y == x || contains x ys

-- ids_set.insert(id).
unfoldable pub insert_id : ℕ → List ℕ → List ℕ
unfolding contains
insert_id id ids = if contains id ids then ids else id ∷ ids

-- while (ids_set.size() < target): with `checks` an id whose key is requested is left out.
unfoldable pub collect_ids :
    ℕ → Bool → List KeyValue → List ℕ → (ℕ → ℕ) → ℕ → ℕ → List ℕ → Run (List ℕ)
unfolding insert_id
collect_ids zero checks index_data lookup_keys draw drawn target ids = fault out_of_fuel
collect_ids (suc fuel) checks index_data lookup_keys draw drawn target ids =
    let more = do
      e ← at index_data (draw drawn)
      let taken = checks && contains e.key lookup_keys
      collect_ids fuel checks index_data lookup_keys draw (drawn + 1) target
          (if taken then ids else insert_id (draw drawn) ids)
    in if ltb (length ids) target then more else ok ids

-- How many ids are collected.
unfoldable pub insert_target : ℕ → ℕ → Run ℕ
insert_target write_portion count = do
  insert_count ← to_int (count * write_portion / 100)
  extra_entries ← to_int (count / 1000)
  ok (if write_portion == 100 then count else insert_count + extra_entries)

-- std::sort in descending order, and by ascending key; it leaves open in which order entries with
-- equal keys come.
unfoldable pub insert_desc : ℕ → List ℕ → List ℕ
insert_desc x [] = x ∷ []
insert_desc x (y ∷ ys) = if ltb x y then y ∷ insert_desc x ys else x ∷ y ∷ ys

unfoldable pub sort_desc : List ℕ → List ℕ
unfolding insert_desc
sort_desc [] = []
sort_desc (x ∷ xs) = insert_desc x (sort_desc xs)

unfoldable pub insert_by_key : KeyValue → List KeyValue → List KeyValue
insert_by_key e [] = e ∷ []
insert_by_key e (f ∷ entries) =
    if ltb f.key e.key then f ∷ insert_by_key e entries else e ∷ f ∷ entries

unfoldable pub sort_by_key : List KeyValue → List KeyValue
unfolding insert_by_key
sort_by_key [] = []
sort_by_key (e ∷ entries) = insert_by_key e (sort_by_key entries)

-- xs.back() and what xs.pop_back() leaves, of x ∷ xs.
unfoldable pub back : KeyValue → List KeyValue → KeyValue
back e [] = e
back e (f ∷ entries) = back f entries

unfoldable pub popped : KeyValue → List KeyValue → List KeyValue
popped e [] = []
popped e (f ∷ entries) = e ∷ popped f entries

-- index_data_[id] = index_data_.back(); index_data_.pop_back();
unfoldable pub swap_pop : ℕ → List KeyValue → List KeyValue
unfolding back popped
swap_pop id [] = []
swap_pop zero (e ∷ []) = []
swap_pop zero (e ∷ f ∷ entries) = back f entries ∷ popped f entries
swap_pop (suc id) (e ∷ entries) = e ∷ swap_pop id entries

-- for (int id : ids): the insertion data so far, in order, and the index data left.
unfoldable pub take_ids :
    List ℕ → List KeyValue → List KeyValue → Run (List KeyValue × List KeyValue)
unfolding swap_pop
take_ids [] index_data insertion_data = ok (index_data, insertion_data)
take_ids (id ∷ ids) index_data insertion_data = do
  e ← at index_data id
  take_ids ids (swap_pop id index_data) (insertion_data ++ e ∷ [])

-- What Run does before the build if write_portion_ > 0, after `ids` is collected. It prints the
-- first and the last id and the first and the last key left.
unfoldable pub split_data : List ℕ → List KeyValue → Run (List KeyValue × List KeyValue)
unfolding sort_desc take_ids sort_by_key
split_data ids_set index_data = do
  let ids = sort_desc ids_set
  largest ← at ids 0
  smallest ← at ids (length ids - 1)
  (left, insertion_data) ← take_ids ids index_data []
  let sorted = sort_by_key left
  first ← at sorted 0
  last ← at sorted (length sorted - 1)
  ok (sorted, insertion_data)

-- What the index data and the insertion data are before the build: nothing is selected with a write
-- portion of 0.
unfoldable pub select_inserts :
    ℕ → (ℕ → ℕ) → ℕ → List EqualityLookup → List KeyValue → Run (List KeyValue × List KeyValue)
unfolding insert_target collect_ids split_data
select_inserts fuel draw write_portion lookups index_data =
    let selected = do
      target ← insert_target write_portion (length lookups)
      let lookup_keys = map (λ (l : EqualityLookup). l.key) lookups
      ids ← collect_ids fuel (ltb write_portion 100) index_data lookup_keys draw 0 target []
      split_data ids index_data
    in if ltb 0 write_portion then selected else ok (index_data, [])
