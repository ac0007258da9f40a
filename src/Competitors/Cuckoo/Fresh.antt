-- ===== src/Competitors/Cuckoo/Fresh.antt =====
-- competitors/stanford_hash.h: the map that the constructor leaves.
use sosd.Prelude.{
  ℕ, zero, suc, ◌+◌, ◌-◌, ◌%◌, ◌/◌, ◌≤◌, ◌<◌, ◌≡◌, sym, ap, ◌∙◌, replicate, length-replicate,
  get_elem?, some, arith,
}
use sosd.Prelude.Words.{u32_mod}
use sosd.Competitors.Cuckoo.{Bucket, invalid_key, bucket_size, new_map}
use sosd.Competitors.Cuckoo.Slots.{Entry, IsValid}

get_elem?-replicate :
    (n : ℕ) (a : Bucket) (i : ℕ) {b : Bucket} → get_elem? (replicate n a) i ≡ some b → a ≡ b
get_elem?-replicate zero a i e = absurd (ground arith)
get_elem?-replicate (suc n) a zero e = cc
get_elem?-replicate (suc n) a (suc i) e = get_elem?-replicate n a i e

fresh_key :
    (values : ℕ → ℕ) (capacity i j key value : ℕ)
    → Entry (new_map values capacity) i j key value
    → key ≡ invalid_key
unfolding new_map
fresh_key values capacity i j key value (b, e, lt, k, w) =
    let n = (capacity + bucket_size - 1) % u32_mod / bucket_size in
    let same = get_elem?-replicate n (record { keys = λ l. invalid_key; values = values }) i e in
    sym k ∙ ap (λ (y : Bucket). y.keys j) (sym same)

pub new_map-IsValid :
    (values : ℕ → ℕ) (capacity : ℕ)
    → 0 < capacity
    → capacity + bucket_size ≤ u32_mod
    → IsValid (new_map values capacity)
unfolding new_map
new_map-IsValid values capacity h fits =
    let n = (capacity + bucket_size - 1) % u32_mod / bucket_size in
    let fresh : Bucket = record { keys = λ l. invalid_key; values = values } in
    record {
      sized = length-replicate n fresh;
      not_empty = omega arith;
      small = omega arith;
      located = λ i j key value entry valid.
          absurd (valid (fresh_key values capacity i j key value entry));
      unique = λ i j k l key value other entry entry1 valid.
          absurd (valid (fresh_key values capacity i j key value entry));
      packed = λ i b e.
          let same = get_elem?-replicate n fresh i e in
          record {
            used = 0;
            fits = omega arith;
            before = λ j lt. absurd (omega arith);
            behind = λ j lo hi. ap (λ (y : Bucket). y.keys j) (sym same);
          };
    }
