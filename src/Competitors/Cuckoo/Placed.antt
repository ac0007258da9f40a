-- ===== src/Competitors/Cuckoo/Placed.antt =====
-- competitors/stanford_hash.h: an insertion where one of the key's buckets has a free slot.
use sosd.Prelude.{
  ℕ, suc, ◌+◌, ◌%◌, ◌&&◌, ◌==◌, ◌<◌, ◌≡◌, ◌≢◌, ◌⊎◌, inl, inr, refl, sym, ap, subst, ◌∙◌, get_elem?,
  some, Bool, Bool-cases, ltb, leb, if◌then◌else◌, true, Run, ok, arith,
}
use sosd.Prelude.Words.{u32_mod}
use sosd.Prelude.Arrays.{find_key-cases}
use sosd.Competitors.Cuckoo.{
  Bucket, CuckooHashMap, Insertion, placed, get, invalid_key, bucket_size, first_bucket,
  second_bucket, count_used, put_slot, set_value, place, insert_with, insert_entry,
}
use sosd.Competitors.Cuckoo.Slots.{Entry, IsBucketOf, IsValid, pair_of}
use sosd.Competitors.Cuckoo.Writes.{count_used-eq}
use sosd.Competitors.Cuckoo.Stored.{Stores, found_after, IsValidInsertion, insert_entry-Stores}

-- A bucket with a free slot is not counted as full.
count_used_lt :
    (m : CuckooHashMap) (i j w : ℕ) (b : Bucket)
    → IsValid m
    → get_elem? m.buckets i ≡ some b
    → Entry m i j invalid_key w
    → count_used b.keys bucket_size < bucket_size
count_used_lt m i j w b v is (x, e, lt, k, wx) =
    let p = v.packed i b is in
    let used = (count_used-eq b.keys bucket_size p (omega arith)).1 p.fits in
    let same : x ≡ b = cc in
    let free : b.keys j ≡ invalid_key = ap (λ (y : Bucket). y.keys j) (sym same) ∙ k in
    elim (Bool-cases (ltb j p.used)) [
      | inl below ↦ absurd (p.before j (ground (arith, below)) free)
      | inr behind ↦ ground (arith, behind, used)
    ]

-- One call of insert ends with a placed entry.
insert_entry-ends :
    (rand : ℕ → ℕ) (calls : ℕ) (m : CuckooHashMap) (key value i j w : ℕ) (is_reinsert : Bool)
    → IsValid m
    → IsBucketOf m key i
    → Entry m i j invalid_key w
    → (now : CuckooHashMap) × (insert_entry rand (suc calls) m key value is_reinsert
        ≡ ok (placed now))
unfolding insert_entry insert_with place
insert_entry-ends rand calls m key value i j w is_reinsert v own free =
    let b = pair_of m key v in
    let i1 = first_bucket key m.num_buckets in
    let i2 = second_bucket key m.num_buckets in
    let count1 = count_used b.first.keys bucket_size in
    let count2 = count_used b.second.keys bucket_size in
    let counted : CuckooHashMap = record {
      buckets = m.buckets;
      num_buckets = m.num_buckets;
      size = if is_reinsert then m.size else (m.size + 1) % u32_mod;
      drawn = m.drawn;
    } in
    let room : (count1 < bucket_size) ⊎ (count2 < bucket_size) = elim own [
      | inl is ↦ inl (
          count_used_lt m i1 j w b.first v b.first_is
            (subst (λ n. Entry m n j invalid_key w) is free))
      | inr is ↦ inr (
          count_used_lt m i2 j w b.second v b.second_is
            (subst (λ n. Entry m n j invalid_key w) is free))
    ] in
    elim (find_key-cases b.first.keys key 0 bucket_size) [
      | inr (l, e, lo, hi, k) ↦
          (set_value m i1 b.first l value, rw (b.first_is, b.second_is, e) refl)
      | inl (e, none1) ↦ elim (find_key-cases b.second.keys key 0 bucket_size) [
        | inr (l, e2, lo, hi, k) ↦
            (set_value m i2 b.second l value, rw (b.first_is, b.second_is, e, e2) refl)
        | inl (e2, none2) ↦ elim (Bool-cases (leb count1 count2 && ltb count1 bucket_size)) [
          | inl first ↦ (
            put_slot counted i1 b.first count1 key value,
            rw (b.first_is, b.second_is, e, e2, first) refl,
          )
          | inr other ↦
              let second : ltb count2 bucket_size ≡ true = ground (arith, other, room) in
              (
                put_slot counted i2 b.second count2 key value,
                rw (b.first_is, b.second_is, e, e2, other, second) refl,
              )
        ]
      ]
    ]

-- What the insertion stores is in the map that it ends with.
Stores-placed :
    (m now : CuckooHashMap) (key value : ℕ) (r : Run Insertion)
    → r ≡ ok (placed now)
    → Stores m key value r
    → IsValid now
      × ((k : ℕ) → k ≢ invalid_key → get now k ≡ (if k == key then ok (some value) else get m k))
Stores-placed m now key value r e (s, q, valid, found) =
    let same : s ≡ placed now = cc (sym q ∙ e) in
    (
      subst IsValidInsertion same valid,
      λ k h.
          subst (λ t. found_after t k ≡ (if k == key then ok (some value) else get m k)) same
            (found k h),
    )

-- For a valid map with a free slot in one of the key's buckets, and a key but the sentinel, one call of
-- insert is enough: it ends normally with a valid map and no entry left to insert again, and for every
-- key but the sentinel get finds in that map the new value for the new key, and for any other key what
-- it found before.
pub insert_entry-placed :
    (rand : ℕ → ℕ) (calls : ℕ) (m : CuckooHashMap) (key value i j w : ℕ) (is_reinsert : Bool)
    → IsValid m
    → key ≢ invalid_key
    → IsBucketOf m key i
    → Entry m i j invalid_key w
    → (now : CuckooHashMap) × (insert_entry rand (suc calls) m key value is_reinsert
        ≡ ok (placed now))
      × IsValid now
      × ((k : ℕ) → k ≢ invalid_key → get now k ≡ (if k == key then ok (some value) else get m k))
insert_entry-placed rand calls m key value i j w is_reinsert v valid own free =
    let (now, ends) = insert_entry-ends rand calls m key value i j w is_reinsert v own free in
    let (kept, found) =
      Stores-placed m now key value (insert_entry rand (suc calls) m key value is_reinsert) ends
        (insert_entry-Stores rand (suc calls) m key value is_reinsert v valid) in
    (now, ends, kept, found)
