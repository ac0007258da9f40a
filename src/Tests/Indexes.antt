-- ===== src/Tests/Indexes.antt =====
-- The indexes on four keys.
use sosd.Prelude.{◌≡◌, refl, List, [], ◌∷◌, ok, fault, undefined, arith}
use sosd.Data.{KeyValue, SearchBound, entry_keys}
use sosd.Util.{add_values}
use sosd.Searches.{expected}
use sosd.Competitors.Bounds.{Brackets}
use sosd.Competitors.RadixBinarySearch.{
  RadixBinarySearch, build, equality_lookup, prefix, hinted_bound,
}
use sosd.Competitors.RadixBinarySearch.Built.{IsBuilt, build_total, build-undefined}
use sosd.Competitors.RadixBinarySearch.Lookup.{equality_lookup-Brackets}
use sosd.EndToEnd.Radix.{build_and_find, build_and_find-expected}
use sosd.Tests.{four_keys}

abbrev entries : List KeyValue
entries =
    record { key = 2; value = 0 }
    ∷ record { key = 5; value = 1 }
    ∷ record { key = 5; value = 2 }
    ∷ record { key = 9; value = 3 }
    ∷ []

-- Keys up to 7 above the least one need three bits; the upper two are the prefix.
abbrev built_index : RadixBinarySearch
built_index = record {
  n = 4;
  min = 2;
  max = 9;
  shift_bits = 1;
  radix_hint = 0 ∷ 1 ∷ 3 ∷ 3 ∷ 4 ∷ [];
}

build_entries : build 32 2 entries ≡ ok built_index
unfolding build
build_entries = refl

lookup_five : equality_lookup 32 built_index 5 ≡ ok (record { start = 0; stop = 4 })
unfolding equality_lookup hinted_bound prefix
lookup_five = refl

build_total_example :
    (index : RadixBinarySearch) × (build 32 2 entries ≡ ok index) × IsBuilt 32 2 entries index
build_total_example =
    build_total 32 2 entries 2 9 (omega arith) (omega arith) (omega arith) refl refl (omega arith)

equality_lookup-Brackets_example :
    (b : SearchBound) × (equality_lookup 32 built_index 5 ≡ ok b)
    × Brackets (entry_keys entries) 5 b
equality_lookup-Brackets_example =
    equality_lookup-Brackets 32 2 entries built_index (omega arith) (omega arith) (omega arith)
      build_entries 5 (omega arith)

build-undefined_example : build 32 2 (record { key = 7; value = 0 } ∷ []) ≡ fault undefined
build-undefined_example =
    build-undefined 32 2 (record { key = 7; value = 0 } ∷ []) 7 (omega arith) refl refl

build_and_find-expected_example :
    build_and_find 32 2 four_keys 5 ≡ ok (expected (add_values four_keys) 5)
build_and_find-expected_example =
    build_and_find-expected 32 2 four_keys 2 9 (omega arith) (omega arith) (omega arith) refl refl
      (omega arith) 5 (omega arith)
