-- ===== src/Tests/Maps.antt =====
-- The cuckoo hash map with two buckets.
use sosd.Prelude.{
  ℕ, ◌+◌, ◌*◌, ◌==◌, ◌≡◌, ◌≢◌, if◌then◌else◌, refl, [], ◌∷◌, List, Option, some, none, false, inl,
  Run, ok, arith,
}
use sosd.Data.{KeyValue}
use sosd.Prelude.Arrays.{find_key}
use sosd.Competitors.Cuckoo.{
  CuckooHashMap, Insertion, placed, new_map, get, insert_entry, insert_with, place, evict, put_slot,
  set_value, count_used, first_bucket, second_bucket, alt_mod, hash32, cuckoo_build, invalid_key,
}
use sosd.Competitors.Cuckoo.Slots.{Entry, IsValid}
use sosd.Competitors.Cuckoo.Fresh.{new_map-IsValid}
use sosd.Competitors.Cuckoo.Stored.{Stores, insert_entry-Stores}
use sosd.Competitors.Cuckoo.Placed.{insert_entry-placed}

abbrev memory : ℕ → ℕ
memory j = j + 100

abbrev counter : ℕ → ℕ
counter drawn = drawn * 7 + 3

insert_entry-Stores_example :
    Stores (new_map memory 16) 5 42 (insert_entry counter 3 (new_map memory 16) 5 42 false)
insert_entry-Stores_example =
    insert_entry-Stores counter 3 (new_map memory 16) 5 42 false
      (new_map-IsValid memory 16 (omega arith) (omega arith)) (omega arith)

free_slot_of_five : Entry (new_map memory 16) (first_bucket 5 2) 0 invalid_key 100
unfolding new_map first_bucket alt_mod hash32
free_slot_of_five =
    (record { keys = λ j. invalid_key; values = memory }, refl, omega arith, refl, refl)

insert_entry-placed_example :
    (now : CuckooHashMap) × (insert_entry counter 1 (new_map memory 16) 5 42 false
      ≡ ok (placed now))
    × IsValid now
    × ((k : ℕ)
        → k ≢ invalid_key
        → get now k ≡ (if k == 5 then ok (some 42) else get (new_map memory 16) k))
unfolding new_map
insert_entry-placed_example =
    insert_entry-placed counter 0 (new_map memory 16) 5 42 (first_bucket 5 2) 0 100 false
      (new_map-IsValid memory 16 (omega arith) (omega arith)) (omega arith) (inl refl)
      free_slot_of_five

-- Three keys are built in, and the second is found.
abbrev keys_from : ℕ → List KeyValue
keys_from k =
    record { key = k; value = k + 1 }
    ∷ record { key = k + 1; value = k + 2 }
    ∷ record { key = k + 2; value = k + 3 }
    ∷ []

abbrev looked_up : Run Insertion → ℕ → Run (Option ℕ)
looked_up (ok (placed m)) key = get m key
looked_up r key = ok none

three_keys_found :
    looked_up (cuckoo_build counter 4 (keys_from 7) (new_map memory 16)) 8 ≡ ok (some 9)
unfolding cuckoo_build insert_entry insert_with place evict put_slot set_value count_used get
    first_bucket second_bucket alt_mod hash32 new_map find_key
three_keys_found = refl

-- The sentinel is found in a bucket that is not full, with what the memory holds.
sentinel_found : get (new_map memory 16) invalid_key ≡ ok (some 100)
unfolding get new_map first_bucket second_bucket alt_mod hash32 find_key
sentinel_found = refl
