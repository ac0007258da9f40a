-- ===== src/Competitors/RadixBinarySearch/Lookup.antt =====
-- competitors/radix_binary_search.h: EqualityLookup in a built index.
use sosd.Prelude.{
  ℕ, ◌+◌, ◌-◌, ◌^◌, ◌==◌, ◌≤◌, ◌<◌, ◌≡◌, List, [], ◌∷◌, map, ok, ltb, arith, length, All, le→ltb,
  Bool-cases, inl, inr, false, if◌then◌else◌, length-map, All-intro, lt_of_get_elem?, get_elem?-lt,
  ltb→lt, ◌≢◌, refl, sym, subst, ap, some, ◌∙◌,
}
use sosd.Prelude.Words.{u32_mod}
use sosd.Prelude.Arith.{div_mono}
use sosd.Data.{KeyValue, SearchBound, entry_keys}
use sosd.Sorted.{
  IsSorted, lower_index, lower_index-le, lower_index-le_at, lt-lower_index_at, sorted_le,
}
use sosd.Competitors.Bounds.{Brackets}
use sosd.Competitors.RadixBinarySearch.{
  RadixBinarySearch, build, prefix, hinted_bound, equality_lookup,
}
use sosd.Competitors.RadixBinarySearch.Hints.{prefixes}
use sosd.Competitors.RadixBinarySearch.Built.{
  IsBuilt, KeysFit, build_total, build-undefined, prefix-eq, prefix_mono,
}

-- Keys with a smaller prefix are smaller, and smaller keys have no larger prefix; so the position
-- of the key lies between the first positions of its prefix and of the next one.
module _ (key_bits least shift key : ℕ) (low : least ≤ key) (fit : key < 2 ^ key_bits) where
  abbrev own : ℕ
  own = prefix key_bits least shift key

  abbrev all_prefixes : List KeyValue → List ℕ
  all_prefixes entries = map (λ e. prefix key_bits least shift e.key) entries

  prefix_lower :
      (entries : List KeyValue)
      → All (λ k. least ≤ k) (entry_keys entries)
      → All (λ k. k < 2 ^ key_bits) (entry_keys entries)
      → lower_index own (all_prefixes entries) ≤ lower_index key (entry_keys entries)
  unfolding lower_index
  prefix_lower [] above fits = omega arith
  prefix_lower (e ∷ entries) above fits =
      ground
        (arith, prefix_mono key_bits least shift key e.key, prefix_lower entries above.1 fits.1)

  prefix_upper :
      (entries : List KeyValue)
      → All (λ k. least ≤ k) (entry_keys entries)
      → lower_index key (entry_keys entries) ≤ lower_index (own + 1) (all_prefixes entries)
  unfolding lower_index
  prefix_upper [] above = omega arith
  prefix_upper (e ∷ entries) above =
      ground (arith, prefix_mono key_bits least shift e.key key, prefix_upper entries above.1)

module _ (key_bits num_radix_bits : ℕ) (entries : List KeyValue) (index : RadixBinarySearch)
    (sorted : IsSorted (entry_keys entries)) (fits : KeysFit key_bits entries)
    (built : IsBuilt key_bits num_radix_bits entries index) (key : ℕ)
    (fit : key < 2 ^ key_bits) where
  above : All (λ k. index.min ≤ k) (entry_keys entries)
  above =
      All-intro (λ k. index.min ≤ k) (entry_keys entries)
        (λ i k q. sorted_le (entry_keys entries) 0 i sorted (omega arith) built.least q)

  count_keys : length (entry_keys entries) ≡ length entries
  count_keys = length-map (λ (e : KeyValue). e.key) entries

  -- The bound is the two hints, widened where they are not at the data's ends.
  hinted_bound-eq :
      (q : ℕ)
      → q < 2 ^ num_radix_bits
      → let first = λ (j : ℕ).
        lower_index j (prefixes key_bits num_radix_bits index.min index.shift_bits entries) in
        hinted_bound index q
        ≡ ok (record {
          start = if first q == 0 then first q else first q - 1;
          stop = if first (q + 1) == index.n then first (q + 1) else first (q + 1) + 1;
        })
  unfolding hinted_bound
  hinted_bound-eq q h =
      let width = built.width in
      let narrow : ltb (length index.radix_hint - 2) q ≡ false =
        le→ltb (length index.radix_hint - 2) q (omega arith) in
      rw (narrow, built.exact q (omega arith), built.exact (q + 1) (omega arith))

  inside_Brackets :
      index.min ≤ key
      → key ≤ index.max
      → (b : SearchBound) × (hinted_bound index (prefix key_bits index.min index.shift_bits key)
          ≡ ok b)
        × Brackets (entry_keys entries) key b
  inside_Brackets ge le =
      let q = prefix key_bits index.min index.shift_bits key in
      let ps = prefixes key_bits num_radix_bits index.min index.shift_bits entries in
      let small : q < 2 ^ num_radix_bits = omega (
        arith,
        prefix-eq key_bits index.min index.shift_bits key ge fit,
        div_mono (key - index.min) (index.max - index.min) (2 ^ index.shift_bits) (omega arith),
        built.narrow,
      ) in
      let from = prefix_lower key_bits index.min index.shift_bits key ge fit entries above fits in
      let upto = prefix_upper key_bits index.min index.shift_bits key ge fit entries above in
      let length_ps =
        length-map (λ (e : KeyValue). prefix key_bits index.min index.shift_bits e.key) entries in
      (
        _,
        hinted_bound-eq q small,
        record {
          lo = ground (arith, from);
          hi = ground (arith, upto);
          inside = ground (arith, count_keys, built.count, lower_index-le (q + 1) ps, length_ps);
        },
      )

  -- The bound of a lookup in an index with the build's hints.
  lookup_in-Brackets :
      (b : SearchBound) × (equality_lookup key_bits index key ≡ ok b)
      × Brackets (entry_keys entries) key b
  unfolding equality_lookup
  lookup_in-Brackets =
      let some_key = lt_of_get_elem? (entry_keys entries) 0 built.least in
      elim (Bool-cases (ltb key index.min)) [
        | inl under ↦
            let first = lower_index-le_at key (entry_keys entries) 0 built.least (ground arith) in
            (
              record { start = 0; stop = 1 },
              rw under,
              record { lo = omega arith; hi = omega arith; inside = omega arith },
            )
        | inr over ↦ rw over (elim (Bool-cases (ltb index.max key)) [
          | inl beyond ↦
              let last =
                lt-lower_index_at key (entry_keys entries) (length entries - 1) sorted built.most
                  (ground arith) in
              (
                record { start = index.n - 1; stop = index.n },
                rw beyond,
                record {
                  lo = omega (arith, built.count);
                  hi =
                      omega
                        (arith, lower_index-le key (entry_keys entries), built.count, count_keys);
                  inside = omega (arith, built.count, count_keys);
                },
              )
          | inr within ↦ rw within (inside_Brackets (ground arith) (ground arith))
        ])
      ]

build_none :
    (key_bits num_radix_bits : ℕ) (index : RadixBinarySearch)
    → build key_bits num_radix_bits [] ≢ ok index
unfolding build
build_none key_bits num_radix_bits index h = cc

-- An index that the build has left has the build's hints: the first and the last key differ.
build-IsBuilt_of_ok :
    (key_bits num_radix_bits : ℕ) (entries : List KeyValue) (index : RadixBinarySearch)
    → IsSorted (entry_keys entries)
    → KeysFit key_bits entries
    → length entries < u32_mod
    → build key_bits num_radix_bits entries ≡ ok index
    → IsBuilt key_bits num_radix_bits entries index
build-IsBuilt_of_ok key_bits num_radix_bits [] index sorted fits small builds =
    absurd (build_none key_bits num_radix_bits index builds)
build-IsBuilt_of_ok key_bits num_radix_bits (e ∷ entries) index sorted fits small builds =
    let keys = entry_keys (e ∷ entries) in
    let count = length-map (λ (x : KeyValue). x.key) (e ∷ entries) in
    let (most, last) = get_elem?-lt keys (length (e ∷ entries) - 1) (omega (arith, count)) in
    elim (Bool-cases (ltb e.key most)) [
      | inl differ ↦
          let (index', builds', built) =
            build_total key_bits num_radix_bits (e ∷ entries) e.key most sorted fits small refl last
              (ltb→lt e.key most differ) in
          let same : index' ≡ index = cc (sym builds' ∙ builds) in
          subst (λ i. IsBuilt key_bits num_radix_bits (e ∷ entries) i) same built
      | inr over ↦
          let le = sorted_le keys 0 (length (e ∷ entries) - 1) sorted (omega arith) refl last in
          let equal : most ≡ e.key = ground (arith, over, le) in
          absurd (
            cc (
              sym builds
              ∙ build-undefined key_bits num_radix_bits (e ∷ entries) e.key fits.0 refl
                  (last ∙ ap some equal)))
    ]

-- For fewer than 2 ^ 32 sorted entries, all with keys of the key type, and the index with which their
-- build has ended normally: a lookup of a key of the key type ends normally, and its bound brackets the
-- position of the key and ends inside the data.
pub equality_lookup-Brackets :
    (key_bits num_radix_bits : ℕ) (entries : List KeyValue) (index : RadixBinarySearch)
    → IsSorted (entry_keys entries)
    → KeysFit key_bits entries
    → length entries < u32_mod
    → build key_bits num_radix_bits entries ≡ ok index
    → (key : ℕ) → key < 2 ^ key_bits
    → (b : SearchBound) × (equality_lookup key_bits index key ≡ ok b)
      × Brackets (entry_keys entries) key b
equality_lookup-Brackets key_bits num_radix_bits entries index sorted fits small builds key fit =
    lookup_in-Brackets key_bits num_radix_bits entries index sorted fits
      (build-IsBuilt_of_ok key_bits num_radix_bits entries index sorted fits small builds) key fit
