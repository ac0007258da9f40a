-- ===== src/Competitors/Cuckoo/Stored.antt =====
-- competitors/stanford_hash.h: insert, with its evictions.
use sosd.Prelude.{
  ℕ, zero, suc, ◌+◌, ◌%◌, ◌==◌, ◌&&◌, ◌≤◌, ◌<◌, ◌≡◌, ◌≢◌, inl, inr, refl, sym, ap, subst, ◌∙◌,
  get_elem?, Option, some, Bool, Bool-cases, ne→==, ==→eq, ==→ne, ltb, leb, if◌then◌else◌, true,
  false, Run, ok, arith,
}
use sosd.Prelude.Words.{u32_mod}
use sosd.Prelude.Arrays.{find_key-cases}
use native.Mathlib.Nat.{mod-lt}
use sosd.Competitors.Cuckoo.{
  Bucket, CuckooHashMap, Insertion, placed, pending, invalid_key, bucket_size, first_bucket,
  second_bucket, get, put_slot, set_value, count_used, evict, place, insert_with, insert_entry,
}
use sosd.Competitors.Cuckoo.Slots.{
  Entry, IsBucketOf, IsValid, BucketPair, pair_of, absent-if, get-at,
}
use sosd.Competitors.Cuckoo.Writes.{
  Writes, Writes-IsValid, get-Writes, put_slot-Writes, put_slot-Packed, set_value-Writes,
  set_value-Packed, count_used-eq, update-Packed,
}

-- What get will find when the calls that are left have run: the entry that is to be inserted again
-- counts as the map's.
abbrev pub found_after : Insertion → ℕ → Run (Option ℕ)
found_after (placed m) key = get m key
found_after (pending m old value) key = if key == old then ok (some value) else get m key

abbrev pub IsValidInsertion : Insertion → Type 0
IsValidInsertion (placed m) = IsValid m
IsValidInsertion (pending m old value) = IsValid m × (old ≢ invalid_key)

-- The run ends normally, in a valid map that has the entry and every other entry of `m`.
abbrev pub Stores : CuckooHashMap → ℕ → ℕ → Run Insertion → Type 0
Stores m key value r =
    (s : Insertion) × (r ≡ ok s)
    × IsValidInsertion s
    × ((k : ℕ)
        → k ≢ invalid_key
        → found_after s k ≡ (if k == key then ok (some value) else get m k))

-- The map with another count and another state of the generator.
abbrev counting : CuckooHashMap → ℕ → ℕ → CuckooHashMap
counting m size drawn = record {
  buckets = m.buckets;
  num_buckets = m.num_buckets;
  size = size;
  drawn = drawn;
}

counting-IsValid :
    (m : CuckooHashMap) (size drawn : ℕ) → IsValid m → IsValid (counting m size drawn)
counting-IsValid m size drawn v = record {
  sized = v.sized;
  not_empty = v.not_empty;
  small = v.small;
  located = v.located;
  unique = v.unique;
  packed = v.packed;
}

get-counting :
    (m : CuckooHashMap) (size drawn key : ℕ) → get (counting m size drawn) key ≡ get m key
unfolding get
get-counting m size drawn key = refl

-- The write of a key that stands nowhere, in a slot of one of its buckets.
module _ (m : CuckooHashMap) (i : ℕ) (b : Bucket) (j key value : ℕ) (v : IsValid m)
    (valid : key ≢ invalid_key) (is : get_elem? m.buckets i ≡ some b) (own : IsBucketOf m key i)
    (absent : (k l w : ℕ) → ¬ Entry m k l key w) (lt : j < bucket_size)
    (le : j ≤ (v.packed i b is).used) where
  put_slot-IsValid : IsValid (put_slot m i b j key value)
  put_slot-IsValid =
      Writes-IsValid m (put_slot m i b j key value) i j key value v
        (put_slot-Writes m i b j value is lt key) own (λ k l w entry. absurd (absent k l w entry))
        (put_slot-Packed m i b j value is lt key
          (update-Packed b.keys (v.packed i b is) j key valid le lt) v.packed)

  -- Every key but the one that stood in the slot is found as before.
  put_slot-get :
      (k : ℕ)
      → k ≢ invalid_key
      → k ≢ b.keys j
      → get (put_slot m i b j key value) k ≡ (if k == key then ok (some value) else get m k)
  put_slot-get k valid_k other =
      get-Writes m (put_slot m i b j key value) i j key value k v put_slot-IsValid
        (put_slot-Writes m i b j value is lt key) valid valid_k
        (λ w differ (x, e, h, kx, wx).
          let same : x ≡ b = cc in other (sym kx ∙ ap (λ (y : Bucket). y.keys j) same))

-- A slot whose key is already the one to insert gets the value.
set_value-Stores :
    (m : CuckooHashMap) (i : ℕ) (b : Bucket) (j key value : ℕ)
    → IsValid m
    → key ≢ invalid_key
    → get_elem? m.buckets i ≡ some b
    → IsBucketOf m key i
    → j < bucket_size
    → b.keys j ≡ key
    → Stores m key value (ok (placed (set_value m i b j value)))
set_value-Stores m i b j key value v valid is own lt key_is =
    let now = set_value m i b j value in
    let writes : Writes m i j key value now =
      subst (λ k. Writes m i j k value now) key_is (set_value-Writes m i b j value is lt) in
    let v_now =
      Writes-IsValid m now i j key value v writes own
        (λ k l w entry. v.unique k l i j key w (b.values j) entry (b, is, lt, key_is, refl) valid)
        (set_value-Packed m i b j value is lt v.packed) in
    (
      placed now,
      refl,
      v_now,
      λ k valid_k.
          get-Writes m now i j key value k v v_now writes valid valid_k
            (λ w differ (x, e, h, kx, wx).
              let same : x ≡ b = cc in
              differ (sym kx ∙ (ap (λ (y : Bucket). y.keys j) same ∙ key_is))),
    )

module _ (rand : ℕ → ℕ) (again : CuckooHashMap → ℕ → ℕ → Run Insertion) (m : CuckooHashMap)
    (key value : ℕ) (v : IsValid m) (valid : key ≢ invalid_key)
    (absent : (k l w : ℕ) → ¬ Entry m k l key w)
    (ih : (n : CuckooHashMap) (k w : ℕ)
      → IsValid n
      → k ≢ invalid_key
      → Stores n k w (again n k w)) where
  -- A free slot takes the entry.
  free-Stores :
      (i size : ℕ) (b : Bucket)
      → get_elem? m.buckets i ≡ some b
      → IsBucketOf m key i
      → count_used b.keys bucket_size < bucket_size
      → Stores m key value (
          ok (
            placed
              (put_slot (counting m size m.drawn) i b (count_used b.keys bucket_size) key value)))
  free-Stores i size b is own room =
      let n = counting m size m.drawn in
      let vn = counting-IsValid m size m.drawn v in
      let p = vn.packed i b is in
      let used : count_used b.keys bucket_size ≡ p.used =
        (count_used-eq b.keys bucket_size p (omega arith)).1 p.fits in
      let j = count_used b.keys bucket_size in
      let le : j ≤ p.used = omega arith in
      (
        placed (put_slot n i b j key value),
        refl,
        put_slot-IsValid n i b j key value vn valid is own absent room le,
        λ k valid_k.
            put_slot-get n i b j key value vn valid is own absent room le k valid_k
              (λ e. valid_k (e ∙ p.behind j (omega arith) room))
            ∙ ap (λ r. if k == key then ok (some value) else r) (get-counting m size m.drawn k),
      )

  -- A full bucket's slot takes the entry, and the one that stood there is inserted again.
  victim-Stores :
      (i j size drawn : ℕ) (b : Bucket)
      → get_elem? m.buckets i ≡ some b
      → IsBucketOf m key i
      → j < bucket_size
      → bucket_size ≤ count_used b.keys bucket_size
      → Stores m key value
          (again (put_slot (counting m size drawn) i b j key value) (b.keys j) (b.values j))
  victim-Stores i j size drawn b is own lt full =
      let n = counting m size drawn in
      let vn = counting-IsValid m size drawn v in
      let p = vn.packed i b is in
      let used : count_used b.keys bucket_size ≡ p.used =
        (count_used-eq b.keys bucket_size p (omega arith)).1 p.fits in
      let le : j ≤ p.used = omega arith in
      let old_valid : b.keys j ≢ invalid_key = p.before j (omega arith) in
      let v_now = put_slot-IsValid n i b j key value vn valid is own absent lt le in
      let (s, run, vs, finds) =
        ih (put_slot n i b j key value) (b.keys j) (b.values j) v_now old_valid in
      (
        s,
        run,
        vs,
        λ k valid_k. elim (Bool-cases (k == b.keys j)) [
          | inl old ↦
              let k_is = ==→eq k (b.keys j) old in
              let entry : Entry m i j k (b.values j) = (b, is, lt, sym k_is, refl) in
              let ne : (k == key) ≡ false =
                ne→== k key (λ e.
                  absent i j (b.values j) (subst (λ y. Entry m i j y (b.values j)) e entry)) in
              let e = finds k valid_k in
              let e1 : found_after s k ≡ ok (some (b.values j)) = rw old at e in
              rw ne (e1 ∙ sym (get-at m i j k (b.values j) v entry valid_k))
          | inr other ↦
              let e = finds k valid_k in
              let e1 : found_after s k ≡ get (put_slot n i b j key value) k = rw other at e in
              e1
              ∙ (put_slot-get n i b j key value vn valid is own absent lt le k valid_k
                    (==→ne k (b.keys j) other)
                  ∙ ap (λ r. if k == key then ok (some value) else r) (get-counting m size drawn k))
        ],
      )

  evict-Stores :
      (size : ℕ) (b : BucketPair m key)
      → bucket_size ≤ count_used b.first.keys bucket_size
      → bucket_size ≤ count_used b.second.keys bucket_size
      → Stores m key value (
          evict rand again
            (counting m size m.drawn)
            (first_bucket key m.num_buckets)
            (second_bucket key m.num_buckets)
            b.first
            b.second
            key
            value)
  unfolding evict
  evict-Stores size b full1 full2 =
      let j = rand (m.drawn + 1) % bucket_size in
      let lt : j < bucket_size = mod-lt (rand (m.drawn + 1)) (omega arith) in
      elim (Bool-cases (rand m.drawn % 2 == 0)) [
        | inl second ↦ rw second (
            victim-Stores (second_bucket key m.num_buckets) j size (m.drawn + 2) b.second
              b.second_is (inr refl) lt full2)
        | inr first ↦ rw first (
            victim-Stores (first_bucket key m.num_buckets) j size (m.drawn + 2) b.first b.first_is
              (inl refl) lt full1)
      ]

  place-Stores :
      (b : BucketPair m key) (is_reinsert : Bool)
      → Stores m key value (
          place rand again m
            (first_bucket key m.num_buckets)
            (second_bucket key m.num_buckets)
            b.first
            b.second
            key
            value
            is_reinsert)
  unfolding place
  place-Stores b is_reinsert =
      let size = if is_reinsert then m.size else (m.size + 1) % u32_mod in
      let count1 = count_used b.first.keys bucket_size in
      let count2 = count_used b.second.keys bucket_size in
      let p1 = v.packed (first_bucket key m.num_buckets) b.first b.first_is in
      let fits1 : count1 ≤ bucket_size =
        omega
          (arith, (count_used-eq b.first.keys bucket_size p1 (omega arith)).1 p1.fits, p1.fits) in
      elim (Bool-cases (leb count1 count2 && ltb count1 bucket_size)) [
        | inl first ↦ rw first (
            free-Stores (first_bucket key m.num_buckets) size b.first b.first_is (inl refl)
              (ground (arith, first)))
        | inr not_first ↦ elim (Bool-cases (ltb count2 bucket_size)) [
          | inl second ↦
              rw (not_first, second)
                (free-Stores (second_bucket key m.num_buckets) size b.second b.second_is (inr refl)
                  (ground (arith, second)))
          | inr full ↦
              rw (not_first, full)
                (evict-Stores size b (ground (arith, not_first, full, fits1))
                  (ground (arith, full)))
        ]
      ]

module _ (rand : ℕ → ℕ) (again : CuckooHashMap → ℕ → ℕ → Run Insertion)
    (ih : (n : CuckooHashMap) (k w : ℕ)
      → IsValid n
      → k ≢ invalid_key
      → Stores n k w (again n k w)) where
  insert_with-Stores :
      (m : CuckooHashMap) (key value : ℕ) (is_reinsert : Bool)
      → IsValid m
      → key ≢ invalid_key
      → Stores m key value (insert_with rand again m key value is_reinsert)
  unfolding insert_with
  insert_with-Stores m key value is_reinsert v valid =
      let b = pair_of m key v in
      elim (find_key-cases b.first.keys key 0 bucket_size) [
        | inr (j, e, lo, hi, k) ↦
            rw (b.first_is, b.second_is, e)
              (set_value-Stores m (first_bucket key m.num_buckets) b.first j key value v valid
                b.first_is (inl refl) (omega arith) k)
        | inl (e, none1) ↦ elim (find_key-cases b.second.keys key 0 bucket_size) [
          | inr (j, e2, lo, hi, k) ↦
              rw (b.first_is, b.second_is, e, e2)
                (set_value-Stores m (second_bucket key m.num_buckets) b.second j key value v valid
                  b.second_is (inr refl) (omega arith) k)
          | inl (e2, none2) ↦
              let absent =
                absent-if m key v b valid (λ j lt. none1 j (omega arith) (omega arith))
                  (λ j lt. none2 j (omega arith) (omega arith)) in
              rw (b.first_is, b.second_is, e, e2)
                (place-Stores rand again m key value v valid absent ih b is_reinsert)
        ]
      ]

-- For a valid map, a key but the sentinel, any numbers of the generator and any number of calls, the
-- insertion ends normally with a valid map. Where an entry is still to be inserted again, it is not
-- the sentinel and counts as the map's: for every key but the sentinel get then finds the new value
-- for the new key, and for any other key what it found before.
pub insert_entry-Stores :
    (rand : ℕ → ℕ) (calls : ℕ) (m : CuckooHashMap) (key value : ℕ) (is_reinsert : Bool)
    → IsValid m
    → key ≢ invalid_key
    → Stores m key value (insert_entry rand calls m key value is_reinsert)
unfolding insert_entry
insert_entry-Stores rand zero m key value is_reinsert v valid =
    (pending m key value, refl, (v, valid), λ k valid_k. refl)
insert_entry-Stores rand (suc calls) m key value is_reinsert v valid =
    insert_with-Stores rand (λ n k w. insert_entry rand calls n k w true)
      (λ n k w vn vk. insert_entry-Stores rand calls n k w true vn vk) m key value is_reinsert v
      valid
