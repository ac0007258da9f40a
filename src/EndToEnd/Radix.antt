-- ===== src/EndToEnd/Radix.antt =====
-- benchmark.h: the radix index with the binary search, over the data as the constructor loads it.
use sosd.Prelude.{
  ℕ, ◌-◌, ◌^◌, ◌<◌, ◌≡◌, sym, ◌∙◌, subst, List, Run, ok, ◌>>=◌, length, get_elem?, some, arith, All,
  refl, ◌↔◌, Bool, false, fault, fail, All-map,
}
use sosd.Prelude.Words.{u32_mod}
use sosd.Data.{row_keys, entry_keys, EqualityLookup}
use sosd.Sorted.{IsSorted}
use sosd.Util.{add_values}
use sosd.Util.Values.{row_keys-add_values, length-add_values, ValuesFit-add_values}
use sosd.Benchmark.Load.{index_data_from, entry_keys-index_data_from, length-index_data_from}
use sosd.Searches.{Outcome, expected}
use sosd.Searches.Branching.{branching_search}
use sosd.Competitors.Bounds.{Brackets}
use sosd.Competitors.RadixBinarySearch.{RadixBinarySearch, build, equality_lookup}
use sosd.Competitors.RadixBinarySearch.Built.{build_total}
use sosd.Competitors.RadixBinarySearch.Lookup.{equality_lookup-Brackets}
use sosd.Benchmark.Lookups.{Index, find, cold_core_loop}
use sosd.Benchmark.Lookups.Cold.{cold_core_loop-IsAnswered}
use sosd.EndToEnd.{Brackets-search}

abbrev pub radix_index : ℕ → Index RadixBinarySearch
radix_index key_bits = record {
  equality_lookup = equality_lookup key_bits;
  insert = λ index entry.
      fault (fail "Attempted to use inserts on index where wrapper does not support");
}

-- Build over the data of a key file, look a key up, and search the rows within the bound.
unfoldable pub build_and_find : ℕ → ℕ → List ℕ → ℕ → Run Outcome
build_and_find key_bits num_radix_bits keys key =
    let rows = add_values keys in
    do
      index ← build key_bits num_radix_bits (index_data_from 0 rows)
      find (radix_index key_bits) rows branching_search index key

-- Build over the data of a key file, and one pass of the checked core loop over the requests of a lookup
-- file: the cold cache's branch, with one thread and one repeat.
unfoldable pub build_and_serve : ℕ → ℕ → List ℕ → List EqualityLookup → Run Bool
build_and_serve key_bits num_radix_bits keys lookups =
    let rows = add_values keys in
    do
      index ← build key_bits num_radix_bits (index_data_from 0 rows)
      cold_core_loop (radix_index key_bits) rows lookups branching_search index 0 (length lookups)
          false

module _ (key_bits num_radix_bits : ℕ) (keys : List ℕ) (least most : ℕ) (sorted : IsSorted keys)
    (fits : All (λ k. k < 2 ^ key_bits) keys) (small : length keys < u32_mod)
    (first : get_elem? keys 0 ≡ some least) (last : get_elem? keys (length keys - 1) ≡ some most)
    (differ : least < most) where
  -- The build ends normally, and so do the lookup and the search of every key in what it leaves.
  pub built-find :
      (index : RadixBinarySearch) × (build key_bits num_radix_bits
          (index_data_from 0 (add_values keys))
        ≡ ok index)
      × ((key : ℕ)
          → key < 2 ^ key_bits
          → find (radix_index key_bits) (add_values keys) branching_search index key
            ≡ ok (expected (add_values keys) key))
  unfolding find
  built-find =
      let rows = add_values keys in
      let entries = index_data_from 0 rows in
      let as_rows : row_keys rows ≡ keys = row_keys-add_values keys in
      let as_entries : entry_keys entries ≡ keys = entry_keys-index_data_from 0 rows ∙ as_rows in
      let count : length entries ≡ length keys =
        length-index_data_from 0 rows ∙ length-add_values keys in
      let sorted' = subst IsSorted (sym as_entries) sorted in
      let fits' = subst (λ l. All (λ k. k < 2 ^ key_bits) l) (sym as_entries) fits in
      let (index, builds, built) =
        build_total key_bits num_radix_bits entries least most sorted' fits' (rw count small)
          (rw as_entries first) (rw (as_entries, count) last) differ in
      (
        index,
        builds,
        λ key fit.
            let (b, finds, br) =
              equality_lookup-Brackets key_bits num_radix_bits entries index sorted' fits'
                (rw count small) builds key fit in
            rw finds (
              Brackets-search rows key b (subst IsSorted (sym as_rows) sorted)
                (ValuesFit-add_values keys) (omega (arith, length-add_values keys))
                (subst (λ l. Brackets l key b) (as_entries ∙ sym as_rows) br)),
      )

  -- For a sorted key file with at least two different keys and fewer than 2 ^ 32 keys, all of the key
  -- type, and for any key of the key type: the build, the lookup and the search end normally, and the
  -- search returns the sum over all rows with the key modulo 2 ^ 64 and their number, or reports where
  -- an absent key belongs.
  pub build_and_find-expected :
      (key : ℕ)
      → key < 2 ^ key_bits
      → build_and_find key_bits num_radix_bits keys key ≡ ok (expected (add_values keys) key)
  unfolding build_and_find
  build_and_find-expected key fit =
      let (index, builds, finds) = built-find in rw (builds, finds key fit) refl

  -- For a sorted key file with at least two different keys and fewer than 2 ^ 32 keys, all of the key
  -- type, and fewer than 2 ^ 32 requests whose keys are of the key type: the build and the checked core
  -- loop from the first to the last request report no failure exactly if each request's expected result
  -- is the sum over all rows with its key.
  pub build_and_serve-IsAnswered :
      (lookups : List EqualityLookup)
      → length lookups < u32_mod
      → All (λ request. request.key < 2 ^ key_bits) lookups
      → (build_and_serve key_bits num_radix_bits keys lookups ≡ ok false)
        ↔ All (λ request. (expected (add_values keys) request.key).result ≡ request.result) lookups
  unfolding build_and_serve
  build_and_serve-IsAnswered lookups few fit =
      let (index, builds, finds) = built-find in
      rw builds (
        cold_core_loop-IsAnswered (radix_index key_bits) (add_values keys) lookups branching_search
          index (expected (add_values keys))
          (All-map (λ (request : EqualityLookup) fits_one. finds request.key fits_one) lookups fit)
          few)
