-- ===== src/Competitors/Cuckoo.antt =====
-- competitors/stanford_hash.h: the bucketed cuckoo hash map with 32-bit keys and values, and its
-- wrapper. The numbers of the generator are an argument, as a function of how many were drawn
-- before.
pub mod Fresh
pub mod Placed
pub mod Slots
pub mod Stored
pub mod Writes
use Prim.Native.Nat.{bit_xor}
use sosd.Prelude.{
  ℕ, zero, suc, ◌+◌, ◌-◌, ◌*◌, ◌/◌, ◌%◌, ◌^◌, ◌==◌, ◌&&◌, List, [], ◌∷◌, Option, none, some, Bool,
  true, false, ltb, leb, if◌then◌else◌, replicate, set, Run, ok, fault, fail, at, ◌>>=◌,
}
use sosd.Prelude.Words.{u32_mod}
use sosd.Prelude.Arrays.{update, find_key}
use sosd.Data.{KeyValue, SearchBound}

abbrev pub invalid_key : ℕ
invalid_key = u32_mod - 1

abbrev pub bucket_size : ℕ
bucket_size = 8

-- The finalization of Murmur3, on a 32-bit number.
unfoldable pub hash32 : ℕ → ℕ
hash32 value =
    let a = bit_xor value (value / 2 ^ 16) * 0x85ebca6b % u32_mod in
    let b = bit_xor a (a / 2 ^ 13) * 0xc2b2ae35 % u32_mod in bit_xor b (b / 2 ^ 16) % u32_mod

unfoldable pub alt_mod : ℕ → ℕ → ℕ
alt_mod x n = x * n / 2 ^ 32

-- The arrays of a bucket have bucket_size elements.
pub record Bucket : Type 0 where
  pub keys : ℕ → ℕ
  pub values : ℕ → ℕ

-- `drawn` is the state of rand_: how many numbers were drawn.
pub record CuckooHashMap : Type 0 where
  pub buckets : List Bucket
  pub num_buckets : ℕ
  pub size : ℕ
  pub drawn : ℕ

-- The constructor: `values` is what the allocated memory holds.
unfoldable pub new_map : (ℕ → ℕ) → ℕ → CuckooHashMap
new_map values capacity =
    let num_buckets = (capacity + bucket_size - 1) % u32_mod / bucket_size in
    record {
      buckets = replicate num_buckets (record { keys = λ j. invalid_key; values = values });
      num_buckets = num_buckets;
      size = 0;
      drawn = 0;
    }

-- i1 and i2, the numbers of the two buckets of a key.
unfoldable pub first_bucket : ℕ → ℕ → ℕ
first_bucket key num_buckets = alt_mod (hash32 key) num_buckets

unfoldable pub second_bucket : ℕ → ℕ → ℕ
second_bucket key num_buckets =
    let i1 = first_bucket key num_buckets in
    let i2 = alt_mod (hash32 (bit_xor key (hash32 key))) num_buckets in
    if i2 == i1 then (if i1 == (num_buckets + u32_mod - 1) % u32_mod then 0 else i1 + 1) else i2

-- The comparison of the key with all keys of a bucket, and the index of the lowest bit of the mask.
abbrev pub match_key : Bucket → ℕ → Option ℕ
match_key b key = find_key b.keys key 0 bucket_size

-- The value at a matched slot, or what follows where no slot matches.
abbrev pub value_or : Bucket → Run (Option ℕ) → Option ℕ → Run (Option ℕ)
value_or b rest none = rest
value_or b rest (some j) = ok (some (b.values j))

-- get: the value, or none for a result that is not found.
unfoldable pub get : CuckooHashMap → ℕ → Run (Option ℕ)
get m key = do
  b1 ← at m.buckets (first_bucket key m.num_buckets)
  let in_second = do
    b2 ← at m.buckets (second_bucket key m.num_buckets)
    value_or b2 (ok none) (match_key b2 key)
  value_or b1 in_second (match_key b1 key)

-- The write of a key and its value to slot `j` of bucket `i`, which is `b`.
unfoldable pub put_slot : CuckooHashMap → ℕ → Bucket → ℕ → ℕ → ℕ → CuckooHashMap
put_slot m i b j key value = record {
  buckets =
      set m.buckets i (record { keys = update b.keys j key; values = update b.values j value });
  num_buckets = m.num_buckets;
  size = m.size;
  drawn = m.drawn;
}

unfoldable pub set_value : CuckooHashMap → ℕ → Bucket → ℕ → ℕ → CuckooHashMap
set_value m i b j value = record {
  buckets = set m.buckets i (record { keys = b.keys; values = update b.values j value });
  num_buckets = m.num_buckets;
  size = m.size;
  drawn = m.drawn;
}

-- count1 and count2: the slots of a bucket below `n` that have a key.
unfoldable pub count_used : (ℕ → ℕ) → ℕ → ℕ
count_used keys zero = 0
count_used keys (suc n) = count_used keys n + (if keys n == invalid_key then 0 else 1)

-- Where an insertion stands when its recursive calls are used up: it is done, or the next call is
-- the one that inserts this key and value again.
pub data Insertion : Type 0 where
  placed : CuckooHashMap → Insertion
  pending : CuckooHashMap → ℕ → ℕ → Insertion

module _ (rand : ℕ → ℕ) (again : CuckooHashMap → ℕ → ℕ → Run Insertion) where
  -- Both buckets are full: the key takes a random slot, and its entry is inserted again.
  unfoldable pub evict : CuckooHashMap → ℕ → ℕ → Bucket → Bucket → ℕ → ℕ → Run Insertion
  evict m i1 i2 b1 b2 key value =
      let to_second = rand m.drawn % 2 == 0 in
      let i = if to_second then i2 else i1 in
      let b = if to_second then b2 else b1 in
      let j = rand (m.drawn + 1) % bucket_size in
      let drawn : CuckooHashMap = record {
        buckets = m.buckets;
        num_buckets = m.num_buckets;
        size = m.size;
        drawn = m.drawn + 2;
      } in
      again (put_slot drawn i b j key value) (b.keys j) (b.values j)

  -- A key that is in neither bucket.
  unfoldable pub place : CuckooHashMap → ℕ → ℕ → Bucket → Bucket → ℕ → ℕ → Bool → Run Insertion
  place m i1 i2 b1 b2 key value is_reinsert =
      let counted : CuckooHashMap = record {
        buckets = m.buckets;
        num_buckets = m.num_buckets;
        size = if is_reinsert then m.size else (m.size + 1) % u32_mod;
        drawn = m.drawn;
      } in
      let count1 = count_used b1.keys bucket_size in
      let count2 = count_used b2.keys bucket_size in
      if leb count1 count2 && ltb count1 bucket_size
      then ok (placed (put_slot counted i1 b1 count1 key value))
      else if ltb count2 bucket_size
      then ok (placed (put_slot counted i2 b2 count2 key value))
      else evict counted i1 i2 b1 b2 key value

  -- The update of the value at a matched slot, or what follows.
  abbrev pub update_or : CuckooHashMap → ℕ → Bucket → ℕ → Run Insertion → Option ℕ → Run Insertion
  update_or m i b value rest none = rest
  update_or m i b value rest (some j) = ok (placed (set_value m i b j value))

  -- The body of insert, with its recursive call as an argument.
  unfoldable pub insert_with : CuckooHashMap → ℕ → ℕ → Bool → Run Insertion
  insert_with m key value is_reinsert = do
    let i1 = first_bucket key m.num_buckets
    let i2 = second_bucket key m.num_buckets
    b1 ← at m.buckets i1
    b2 ← at m.buckets i2
    update_or m i1 b1 value
        (update_or m i2 b2 value (place m i1 i2 b1 b2 key value is_reinsert) (match_key b2 key))
        (match_key b1 key)

abbrev pub when_placed : (CuckooHashMap → Run Insertion) → Insertion → Run Insertion
when_placed next (placed m) = next m
when_placed next (pending m key value) = ok (pending m key value)

module _ (rand : ℕ → ℕ) where
  -- insert, with so many calls.
  unfoldable pub insert_entry : ℕ → CuckooHashMap → ℕ → ℕ → Bool → Run Insertion
  insert_entry zero m key value is_reinsert = ok (pending m key value)
  insert_entry (suc calls) m key value is_reinsert =
      insert_with rand (λ n k v. insert_entry calls n k v true) m key value is_reinsert

  -- CuckooHash::Build. An insertion that is not done leaves the entries behind it out.
  unfoldable pub cuckoo_build : ℕ → List KeyValue → CuckooHashMap → Run Insertion
  cuckoo_build calls [] m = ok (placed m)
  cuckoo_build calls (e ∷ rest) m = do
    r ← insert_entry calls m e.key (e.value % u32_mod) false
    when_placed (cuckoo_build calls rest) r

-- CuckooHash::EqualityLookup.
abbrev pub value_bound : Option ℕ → Run SearchBound
value_bound none = fault (fail "Could not find key in hashmap")
value_bound (some value) = ok (record { start = value; stop = (value + 1) % u32_mod })

unfoldable pub cuckoo_lookup : CuckooHashMap → ℕ → Run SearchBound
cuckoo_lookup m lookup_key = do result ← get m lookup_key; value_bound result
