-- ===== src/Competitors/Cuckoo/Writes.antt =====
-- competitors/stanford_hash.h: what the write of one slot changes.
use sosd.Prelude.{
  ℕ, zero, suc, ◌+◌, ◌==◌, ◌≤◌, ◌<◌, ◌≡◌, ◌≢◌, ◌⊎◌, inl, inr, refl, sym, ap, subst, ◌∙◌, length,
  length-set, set, get_elem?, lt_of_get_elem?, some, Bool-cases, eq→==, ne→==, ==→eq, ==→ne,
  if◌then◌else◌, ok, arith,
}
use sosd.Prelude.Arrays.{update, get_elem?-set}
use sosd.Competitors.Cuckoo.{
  Bucket, CuckooHashMap, invalid_key, bucket_size, get, put_slot, set_value, count_used,
}
use sosd.Competitors.Cuckoo.Slots.{Entry, IsBucketOf, Packed, IsValid, get-cases, get-at}

-- `now` is `m` with the key and the value in one slot.
pub record Writes (m : CuckooHashMap) (i j key value : ℕ) (now : CuckooHashMap) : Type 0 where
  pub same_num : now.num_buckets ≡ m.num_buckets
  pub same_length : length now.buckets ≡ length m.buckets
  pub new : Entry now i j key value
  pub from :
      (k l x w : ℕ)
      → Entry now k l x w
      → ((k ≡ i) × (l ≡ j) × (key ≡ x)) ⊎ ((¬ ((k ≡ i) × (l ≡ j))) × Entry m k l x w)
  pub keeps : (k l x w : ℕ) → ¬ ((k ≡ i) × (l ≡ j)) → Entry m k l x w → Entry now k l x w

bucket_unique : {a b : Bucket} → some a ≡ some b → a ≡ b
bucket_unique e = cc

-- A slot written in a bucket, where the slot's keys and values are `keys` and `values` afterwards.
module _ (m now : CuckooHashMap) (i j key value : ℕ) (b nb : Bucket)
    (is : get_elem? m.buckets i ≡ some b) (lt : j < bucket_size)
    (buckets : now.buckets ≡ set m.buckets i nb) (num : now.num_buckets ≡ m.num_buckets)
    (key_is : nb.keys j ≡ key) (value_is : nb.values j ≡ value)
    (keys_else : (l : ℕ) → l ≢ j → nb.keys l ≡ b.keys l)
    (values_else : (l : ℕ) → l ≢ j → nb.values l ≡ b.values l) where
  bucket_at :
      (k : ℕ) → get_elem? now.buckets k ≡ (if k == i then some nb else get_elem? m.buckets k)
  bucket_at k =
      ap (λ bs. get_elem? bs k) buckets
      ∙ get_elem?-set m.buckets k i nb (lt_of_get_elem? m.buckets i is)

  bucket_here : get_elem? now.buckets i ≡ some nb
  bucket_here = bucket_at i ∙ (rw (eq→== i i refl) refl)

  bucket_other : (k : ℕ) → k ≢ i → get_elem? now.buckets k ≡ get_elem? m.buckets k
  bucket_other k ne = bucket_at k ∙ (rw (ne→== k i ne) refl)

  pub bucket-Packed :
      Packed nb.keys
      → ((k : ℕ) (x : Bucket) → get_elem? m.buckets k ≡ some x → Packed x.keys)
      → (k : ℕ) (x : Bucket) → get_elem? now.buckets k ≡ some x
      → Packed x.keys
  bucket-Packed here old k x e = elim (Bool-cases (k == i)) [
    | inl eq ↦
        let at_i : get_elem? now.buckets i ≡ some x =
          subst (λ n. get_elem? now.buckets n ≡ some x) (==→eq k i eq) e in
        let same : nb ≡ x = bucket_unique (sym bucket_here ∙ at_i) in
        subst (λ (y : Bucket). Packed y.keys) same here
    | inr ne ↦ old k x (sym (bucket_other k (==→ne k i ne)) ∙ e)
  ]

  pub bucket-Writes : Writes m i j key value now
  bucket-Writes = record {
    same_num = num;
    same_length = ap length buckets ∙ length-set m.buckets i nb;
    new = (nb, bucket_here, lt, key_is, value_is);
    from = λ k l x w (y, e, h, kx, wx). elim (Bool-cases (k == i)) [
      | inr ne ↦
          inr (λ (p, q). ==→ne k i ne p, (y, sym (bucket_other k (==→ne k i ne)) ∙ e, h, kx, wx))
      | inl eq ↦
          let at_i : get_elem? now.buckets i ≡ some y =
            subst (λ n. get_elem? now.buckets n ≡ some y) (==→eq k i eq) e in
          let same : nb ≡ y = bucket_unique (sym bucket_here ∙ at_i) in
          let k_is : nb.keys l ≡ x = ap (λ (z : Bucket). z.keys l) same ∙ kx in
          let w_is : nb.values l ≡ w = ap (λ (z : Bucket). z.values l) same ∙ wx in
          elim (Bool-cases (l == j)) [
            | inl here ↦ inl (
              ==→eq k i eq,
              ==→eq l j here,
              sym key_is ∙ (ap nb.keys (sym (==→eq l j here)) ∙ k_is),
            )
            | inr other ↦ inr (
              λ (p, q). ==→ne l j other q,
              (
                b,
                ap (λ n. get_elem? m.buckets n) (==→eq k i eq) ∙ is,
                h,
                sym (keys_else l (==→ne l j other)) ∙ k_is,
                sym (values_else l (==→ne l j other)) ∙ w_is,
              ),
            )
          ]
    ];
    keeps = λ k l x w other (y, e, h, kx, wx). elim (Bool-cases (k == i)) [
      | inr ne ↦ (y, bucket_other k (==→ne k i ne) ∙ e, h, kx, wx)
      | inl eq ↦
          let at_i : get_elem? m.buckets i ≡ some y =
            subst (λ n. get_elem? m.buckets n ≡ some y) (==→eq k i eq) e in
          let same : b ≡ y = bucket_unique (sym is ∙ at_i) in
          let ne : l ≢ j = λ q. other (==→eq k i eq, q) in
          (
            nb,
            ap (λ n. get_elem? now.buckets n) (==→eq k i eq) ∙ bucket_here,
            h,
            keys_else l ne ∙ (ap (λ (z : Bucket). z.keys l) same ∙ kx),
            values_else l ne ∙ (ap (λ (z : Bucket). z.values l) same ∙ wx),
          )
    ];
  }

-- A write of a key to a bucket of its own keeps the invariant, if no other slot has the key.
pub Writes-IsValid :
    (m now : CuckooHashMap) (i j key value : ℕ)
    → IsValid m
    → Writes m i j key value now
    → IsBucketOf m key i
    → ((k l w : ℕ) → Entry m k l key w → (k ≡ i) × (l ≡ j))
    → ((k : ℕ) (x : Bucket) → get_elem? now.buckets k ≡ some x → Packed x.keys)
    → IsValid now
Writes-IsValid m now i j key value v writes own only packed = record {
  sized = writes.same_length ∙ (v.sized ∙ sym writes.same_num);
  not_empty = rw writes.same_num v.not_empty;
  small = rw writes.same_num v.small;
  located = λ k l x w entry valid. rw writes.same_num (elim (writes.from k l x w entry) [
    | inl (p, q, r) ↦ rw (p, sym r) own
    | inr (other, old) ↦ v.located k l x w old valid
  ]);
  unique = λ k l k1 l1 x w w1 entry entry1 valid. elim (writes.from k l x w entry) [
    | inl (p, q, r) ↦ elim (writes.from k1 l1 x w1 entry1) [
      | inl (p1, q1, r1) ↦ (p ∙ sym p1, q ∙ sym q1)
      | inr (other, old) ↦
          absurd (other (only k1 l1 w1 (subst (λ y. Entry m k1 l1 y w1) (sym r) old)))
    ]
    | inr (other, old) ↦ elim (writes.from k1 l1 x w1 entry1) [
      | inl (p1, q1, r1) ↦ absurd (other (only k l w (subst (λ y. Entry m k l y w) (sym r1) old)))
      | inr (other1, old1) ↦ v.unique k l k1 l1 x w w1 old old1 valid
    ]
  ];
  packed = packed;
}

-- What get finds after a write, for a key that did not stand in the slot that is written.
pub get-Writes :
    (m now : CuckooHashMap) (i j key value k : ℕ)
    → IsValid m
    → IsValid now
    → Writes m i j key value now
    → key ≢ invalid_key
    → k ≢ invalid_key
    → ((w : ℕ) → k ≢ key → ¬ Entry m i j k w)
    → get now k ≡ (if k == key then ok (some value) else get m k)
get-Writes m now i j key value k v v_now writes valid valid_k free = elim (Bool-cases (k == key)) [
  | inl eq ↦ rw (eq, ==→eq k key eq) (get-at now i j key value v_now writes.new valid)
  | inr ne ↦
      let differ = ==→ne k key ne in
      rw ne (elim (get-cases m k v valid_k) [
        | inl (a, l, w, entry, e) ↦
            let other : ¬ ((a ≡ i) × (l ≡ j)) = λ (p, q).
              free w differ
                (subst (λ y. Entry m i y k w) q (subst (λ y. Entry m y l k w) p entry)) in
            get-at now a l k w v_now (writes.keeps a l k w other entry) valid_k ∙ sym e
        | inr (absent, e) ↦ elim (get-cases now k v_now valid_k) [
          | inr (absent1, e1) ↦ e1 ∙ sym e
          | inl (a, l, w, entry, e1) ↦ elim (writes.from a l k w entry) [
            | inl (p, q, r) ↦ absurd (differ (sym r))
            | inr (other, old) ↦ absurd (absent a l w old)
          ]
        ]
      ])
]

module _ (m : CuckooHashMap) (i : ℕ) (b : Bucket) (j value : ℕ)
    (is : get_elem? m.buckets i ≡ some b) (lt : j < bucket_size) where
  update-else : (f : ℕ → ℕ) (v l : ℕ) → l ≢ j → update f j v l ≡ f l
  update-else f v l ne = rw (ne→== l j ne) refl

  update-here : (f : ℕ → ℕ) (v : ℕ) → update f j v j ≡ v
  update-here f v = rw (eq→== j j refl) refl

  pub put_slot-Writes : (key : ℕ) → Writes m i j key value (put_slot m i b j key value)
  unfolding put_slot
  put_slot-Writes key =
      bucket-Writes m (put_slot m i b j key value) i j key value b
        (record { keys = update b.keys j key; values = update b.values j value }) is lt refl refl
        (update-here b.keys key) (update-here b.values value) (update-else b.keys key)
        (update-else b.values value)

  pub put_slot-Packed :
      (key : ℕ)
      → Packed (update b.keys j key)
      → ((k : ℕ) (x : Bucket) → get_elem? m.buckets k ≡ some x → Packed x.keys)
      → (k : ℕ) (x : Bucket) → get_elem? (put_slot m i b j key value).buckets k ≡ some x
      → Packed x.keys
  unfolding put_slot
  put_slot-Packed key here old =
      bucket-Packed m (put_slot m i b j key value) i j key value b
        (record { keys = update b.keys j key; values = update b.values j value }) is lt refl refl
        (update-here b.keys key) (update-here b.values value) (update-else b.keys key)
        (update-else b.values value) here old

  pub set_value-Writes : Writes m i j (b.keys j) value (set_value m i b j value)
  unfolding set_value
  set_value-Writes =
      bucket-Writes m (set_value m i b j value) i j (b.keys j) value b
        (record { keys = b.keys; values = update b.values j value }) is lt refl refl refl
        (update-here b.values value) (λ l ne. refl) (update-else b.values value)

  pub set_value-Packed :
      ((k : ℕ) (x : Bucket) → get_elem? m.buckets k ≡ some x → Packed x.keys)
      → (k : ℕ) (x : Bucket) → get_elem? (set_value m i b j value).buckets k ≡ some x
      → Packed x.keys
  unfolding set_value
  set_value-Packed old =
      bucket-Packed m (set_value m i b j value) i j (b.keys j) value b
        (record { keys = b.keys; values = update b.values j value }) is lt refl refl refl
        (update-here b.values value) (λ l ne. refl) (update-else b.values value) (old i b is) old

-- The counts of a bucket's keys.
pub count_used-eq :
    (keys : ℕ → ℕ) (n : ℕ) (p : Packed keys)
    → n ≤ bucket_size
    → (n ≤ p.used → count_used keys n ≡ n) × (p.used ≤ n → count_used keys n ≡ p.used)
unfolding count_used
count_used-eq keys zero p h = (λ le. refl, λ le. omega arith)
count_used-eq keys (suc n) p h =
    let (full, part) = count_used-eq keys n p (omega arith) in
    (
      λ le.
          rw (full (omega arith), ne→== (keys n) invalid_key (p.before n (omega arith)))
            (omega arith),
      λ le. elim (Bool-cases (p.used == suc n)) [
        | inl eq ↦
            rw
              (
                full (ground (arith, eq)),
                ne→== (keys n) invalid_key (p.before n (ground (arith, eq))),
              )
              (ground (arith, eq))
        | inr ne ↦
            rw
              (
                part (ground (arith, ne)),
                eq→== (keys n) invalid_key (p.behind n (ground (arith, ne)) (omega arith)),
              )
              (omega arith)
      ],
    )

-- A packed bucket stays packed when its first free slot is taken, or a taken one gets another key.
pub update-Packed :
    (keys : ℕ → ℕ) (p : Packed keys) (j key : ℕ)
    → key ≢ invalid_key
    → j ≤ p.used
    → j < bucket_size
    → Packed (update keys j key)
update-Packed keys p j key valid le lt = elim (Bool-cases (j == p.used)) [
  | inl eq ↦ record {
    used = p.used + 1;
    fits = ground (arith, eq);
    before = λ l h. ground (arith, eq, p.before l);
    behind = λ l h hi. ground (arith, eq, p.behind l);
  }
  | inr ne ↦ record {
    used = p.used;
    fits = p.fits;
    before = λ l h. ground (arith, p.before l);
    behind = λ l h hi. ground (arith, ne, p.behind l);
  }
]
