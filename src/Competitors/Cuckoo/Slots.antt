-- ===== src/Competitors/Cuckoo/Slots.antt =====
-- competitors/stanford_hash.h: what holds of the slots of a map, and what get finds in them.
use Prim.Native.Nat.{bit_xor}
use sosd.Prelude.{
  ℕ, ◌+◌, ◌-◌, ◌*◌, ◌%◌, ◌^◌, ◌==◌, ◌≤◌, ◌<◌, ◌≡◌, ◌≢◌, ◌⊎◌, inl, inr, refl, sym, ap, ◌∙◌, length,
  get_elem?, get_elem?-lt, none, some, Bool-cases, ==→ne, ok, arith,
}
use sosd.Prelude.Words.{u32_mod}
use sosd.Prelude.Arith.{div-lt_of_lt_mul}
use sosd.Prelude.Arrays.{find_key-cases}
use native.Mathlib.Nat.{mod-lt}
use sosd.Competitors.Cuckoo.{
  Bucket, CuckooHashMap, invalid_key, bucket_size, hash32, alt_mod, first_bucket, second_bucket,
  get,
}

-- Slot `j` of bucket `i` has the key and the value.
abbrev pub Entry : CuckooHashMap → ℕ → ℕ → ℕ → ℕ → Type 0
Entry m i j key value =
    (b : Bucket) × (get_elem? m.buckets i ≡ some b)
    × (j < bucket_size)
    × (b.keys j ≡ key)
    × (b.values j ≡ value)

abbrev pub IsBucketOf : CuckooHashMap → ℕ → ℕ → Type 0
IsBucketOf m key i = (i ≡ first_bucket key m.num_buckets) ⊎ (i ≡ second_bucket key m.num_buckets)

-- The slots of a bucket are taken from the first on.
pub record Packed (keys : ℕ → ℕ) : Type 0 where
  pub used : ℕ
  pub fits : used ≤ bucket_size
  pub before : (j : ℕ) → j < used → keys j ≢ invalid_key
  pub behind : (j : ℕ) → used ≤ j → j < bucket_size → keys j ≡ invalid_key

-- Each key stands in one of its buckets, and once.
pub record IsValid (m : CuckooHashMap) : Type 0 where
  pub sized : length m.buckets ≡ m.num_buckets
  pub not_empty : 0 < m.num_buckets
  pub small : m.num_buckets < u32_mod
  pub located : (i j key value : ℕ) → Entry m i j key value → key ≢ invalid_key → IsBucketOf m key i
  pub unique :
      (i j k l key value other : ℕ)
      → Entry m i j key value
      → Entry m k l key other
      → key ≢ invalid_key
      → (i ≡ k) × (j ≡ l)
  pub packed : (i : ℕ) (b : Bucket) → get_elem? m.buckets i ≡ some b → Packed b.keys

hash32-lt : (value : ℕ) → hash32 value < u32_mod
unfolding hash32
hash32-lt value = mod-lt _ (omega arith)

alt_mod-lt : (x n : ℕ) → x < u32_mod → 0 < n → alt_mod x n < n
unfolding alt_mod
alt_mod-lt x n hx hn = div-lt_of_lt_mul (x * n) n (2 ^ 32) (omega arith) (grind arith)

pub first_bucket-lt : (key n : ℕ) → 0 < n → first_bucket key n < n
unfolding first_bucket
first_bucket-lt key n h = alt_mod-lt (hash32 key) n (hash32-lt key) h

pub second_bucket-lt : (key n : ℕ) → 0 < n → n < u32_mod → second_bucket key n < n
unfolding second_bucket
second_bucket-lt key n h small =
    let i1 = first_bucket key n in
    let i2 = alt_mod (hash32 (bit_xor key (hash32 key))) n in
    let first = first_bucket-lt key n h in
    let second =
      alt_mod-lt (hash32 (bit_xor key (hash32 key))) n (hash32-lt (bit_xor key (hash32 key))) h in
    let last : (n + u32_mod - 1) % u32_mod ≡ n - 1 = omega arith in
    elim (Bool-cases (i2 == i1)) [
      | inr other ↦ rw other second
      | inl same ↦ elim (Bool-cases (i1 == (n + u32_mod - 1) % u32_mod)) [
        | inl at_end ↦ rw (same, at_end) h
        | inr inside ↦
            let ne = ==→ne i1 ((n + u32_mod - 1) % u32_mod) inside in
            rw (same, inside) (omega arith)
      ]
    ]

-- The buckets of a key.
pub record BucketPair (m : CuckooHashMap) (key : ℕ) : Type 0 where
  pub first : Bucket
  pub second : Bucket
  pub first_is : get_elem? m.buckets (first_bucket key m.num_buckets) ≡ some first
  pub second_is : get_elem? m.buckets (second_bucket key m.num_buckets) ≡ some second

pub pair_of : (m : CuckooHashMap) (key : ℕ) → IsValid m → BucketPair m key
pair_of m key v =
    let lt = first_bucket-lt key m.num_buckets v.not_empty in
    let lt2 = second_bucket-lt key m.num_buckets v.not_empty v.small in
    let (first, e) =
      get_elem?-lt m.buckets (first_bucket key m.num_buckets) (omega (arith, v.sized)) in
    let (second, e2) =
      get_elem?-lt m.buckets (second_bucket key m.num_buckets) (omega (arith, v.sized)) in
    record { first = first; second = second; first_is = e; second_is = e2 }

-- A key that no slot of its two buckets has stands nowhere.
pub absent-if :
    (m : CuckooHashMap) (key : ℕ) (v : IsValid m) (b : BucketPair m key)
    → key ≢ invalid_key
    → ((j : ℕ) → j < bucket_size → b.first.keys j ≢ key)
    → ((j : ℕ) → j < bucket_size → b.second.keys j ≢ key)
    → (i j value : ℕ) → ¬ Entry m i j key value
absent-if m key v b valid none1 none2 i j value (x, e, lt, k, w) =
    elim (v.located i j key value (x, e, lt, k, w) valid) [
      | inl is ↦
          let same : x ≡ b.first = cc in none1 j lt (ap (λ (y : Bucket). y.keys j) (sym same) ∙ k)
      | inr is ↦
          let same : x ≡ b.second = cc in none2 j lt (ap (λ (y : Bucket). y.keys j) (sym same) ∙ k)
    ]

-- get finds the value of a slot with the key, or the key stands in no slot.
pub get-cases :
    (m : CuckooHashMap) (key : ℕ)
    → IsValid m
    → key ≢ invalid_key
    → ((i : ℕ) × (j : ℕ) × (value : ℕ) × Entry m i j key value × (get m key ≡ ok (some value)))
      ⊎ (((i j value : ℕ) → ¬ Entry m i j key value) × (get m key ≡ ok none))
unfolding get
get-cases m key v valid =
    let b = pair_of m key v in
    elim (find_key-cases b.first.keys key 0 bucket_size) [
      | inr (j, e, lo, hi, k) ↦ inl (
        first_bucket key m.num_buckets,
        j,
        b.first.values j,
        (b.first, b.first_is, omega arith, k, refl),
        rw (b.first_is, b.second_is, e) refl,
      )
      | inl (e, none1) ↦ elim (find_key-cases b.second.keys key 0 bucket_size) [
        | inr (j, e2, lo, hi, k) ↦ inl (
          second_bucket key m.num_buckets,
          j,
          b.second.values j,
          (b.second, b.second_is, omega arith, k, refl),
          rw (b.first_is, b.second_is, e, e2) refl,
        )
        | inl (e2, none2) ↦ inr (
          absent-if m key v b valid (λ j lt. none1 j (omega arith) (omega arith))
              (λ j lt. none2 j (omega arith) (omega arith)),
          rw (b.first_is, b.second_is, e, e2) refl,
        )
      ]
    ]

-- A slot with a key is the one that get finds.
pub get-at :
    (m : CuckooHashMap) (i j key value : ℕ)
    → IsValid m
    → Entry m i j key value
    → key ≢ invalid_key
    → get m key ≡ ok (some value)
get-at m i j key value v entry valid = elim (get-cases m key v valid) [
  | inr (absent, e) ↦ absurd (absent i j value entry)
  | inl (k, l, other, (x, q, lt, kx, wx), e) ↦
      let (b, p, ltb, kb, wb) = entry in
      let (same_i, same_j) =
        v.unique k l i j key other value (x, q, lt, kx, wx) (b, p, ltb, kb, wb) valid in
      let same : x ≡ b = cc in
      e
      ∙ ap (λ (n : ℕ). ok (some n))
          (sym wx
            ∙ (ap (λ (n : ℕ). x.values n) same_j ∙ (ap (λ (y : Bucket). y.values j) same ∙ wb)))
]
