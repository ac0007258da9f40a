-- ===== src/Competitors/RadixBinarySearch/Built.antt =====
-- competitors/radix_binary_search.h: the state that Build leaves.
use sosd.Prelude.{
  ℕ, suc, ◌+◌, ◌-◌, ◌/◌, ◌%◌, ◌^◌, ◌≤◌, ◌<◌, ◌≡◌, refl, List, [], ◌∷◌, map, ok, arith, length,
  get_elem?, some, All, All_at, ◌∙◌, get_elem?-lt, replicate, ap, get_elem?-map, length-map, fault,
  undefined, All-intro, lt_of_get_elem?,
}
use sosd.Prelude.Words.{u32_mod}
use sosd.Prelude.Arith.{div_mono, pow_pos}
use sosd.Data.{KeyValue, entry_keys}
use sosd.Sorted.{IsSorted, lower_index, sorted_le, lower_index-le}
use native.Mathlib.Nat.{mod-eq_of_lt}
use sosd.Competitors.RadixBinarySearch.{
  RadixBinarySearch, store, fill, prefix, build_loop, shift_bits, build,
}
use sosd.Competitors.RadixBinarySearch.Shift.{shift_bits-fits}
use sosd.Competitors.RadixBinarySearch.Hints.{
  Hinted, zeroed-Hinted, fill-Hinted, build_loop-Hinted, prefixes,
}

wrap_sub : (a b m : ℕ) → b ≤ a → a < m → (a + m - b) % m ≡ a - b
wrap_sub a b m h l = grind arith

-- From the least key on the difference does not wrap.
pub prefix-eq :
    (key_bits least shift key : ℕ)
    → least ≤ key
    → key < 2 ^ key_bits
    → prefix key_bits least shift key ≡ (key - least) / 2 ^ shift
unfolding prefix
prefix-eq key_bits least shift key h l = rw (wrap_sub key least (2 ^ key_bits) h l)

pub prefix_mono :
    (key_bits least shift a b : ℕ)
    → least ≤ a
    → a ≤ b
    → b < 2 ^ key_bits
    → prefix key_bits least shift a ≤ prefix key_bits least shift b
prefix_mono key_bits least shift a b h le fits =
    rw
      (
        prefix-eq key_bits least shift a h (omega arith),
        prefix-eq key_bits least shift b (omega arith) fits,
      )
      (div_mono (a - least) (b - least) (2 ^ shift) (omega arith))

All-prefixes :
    (key_bits least shift a : ℕ) (entries : List KeyValue)
    → least ≤ a
    → All (λ k. a ≤ k) (entry_keys entries)
    → All (λ k. k < 2 ^ key_bits) (entry_keys entries)
    → All
        (λ q. prefix key_bits least shift a ≤ q)
        (map (λ (e : KeyValue). prefix key_bits least shift e.key) entries)
All-prefixes key_bits least shift a [] h above fits = tt
All-prefixes key_bits least shift a (e ∷ entries) h above fits = (
  prefix_mono key_bits least shift a e.key h above.0 fits.0,
  All-prefixes key_bits least shift a entries h above.1 fits.1,
)

prefixes-IsSorted :
    (key_bits least shift : ℕ) (entries : List KeyValue)
    → IsSorted (entry_keys entries)
    → All (λ k. least ≤ k) (entry_keys entries)
    → All (λ k. k < 2 ^ key_bits) (entry_keys entries)
    → IsSorted (map (λ (e : KeyValue). prefix key_bits least shift e.key) entries)
prefixes-IsSorted key_bits least shift [] sorted above fits = tt
prefixes-IsSorted key_bits least shift (e ∷ entries) sorted above fits = (
  All-prefixes key_bits least shift e.key entries above.0 sorted.0 fits.1,
  prefixes-IsSorted key_bits least shift entries sorted.1 above.1 fits.1,
)

-- No prefix of the data needs more than `num_radix_bits` bits.
All-prefixes-lt :
    (key_bits places least shift most : ℕ) (entries : List KeyValue)
    → All (λ k. least ≤ k) (entry_keys entries)
    → All (λ k. k ≤ most) (entry_keys entries)
    → most < 2 ^ key_bits
    → (most - least) / 2 ^ shift < places
    → All (λ q. q < places) (map (λ (e : KeyValue). prefix key_bits least shift e.key) entries)
All-prefixes-lt key_bits places least shift most [] above below fits small = tt
All-prefixes-lt key_bits places least shift most (e ∷ entries) above below fits small = (
  omega (
    arith,
    prefix-eq key_bits least shift e.key above.0 (omega arith),
    div_mono (e.key - least) (most - least) (2 ^ shift) (omega arith),
  ),
  All-prefixes-lt key_bits places least shift most entries above.1 below.1 fits small,
)

All-le_last :
    (ks : List ℕ) (most : ℕ)
    → IsSorted ks
    → get_elem? ks (length ks - 1) ≡ some most
    → All (λ k. k ≤ most) ks
All-le_last ks most s e =
    All-intro (λ k. k ≤ most) ks
      (λ i k q. sorted_le ks i (length ks - 1) s (omega (arith, lt_of_get_elem? ks i q)) q e)

-- What the build establishes, for lookups to use.
pub record IsBuilt (key_bits num_radix_bits : ℕ) (entries : List KeyValue)
    (index : RadixBinarySearch) : Type 0 where
  pub count : index.n ≡ length entries
  pub least : get_elem? (entry_keys entries) 0 ≡ some index.min
  pub most : get_elem? (entry_keys entries) (length entries - 1) ≡ some index.max
  pub width : length index.radix_hint ≡ 2 ^ num_radix_bits + 1
  pub exact :
      (j : ℕ)
      → j ≤ 2 ^ num_radix_bits
      → get_elem? index.radix_hint j
        ≡ some (lower_index j (prefixes key_bits num_radix_bits index.min index.shift_bits entries))
  pub narrow : (index.max - index.min) / 2 ^ index.shift_bits < 2 ^ num_radix_bits

abbrev pub KeysFit : ℕ → List KeyValue → Type 0
KeysFit key_bits entries = All (λ k. k < 2 ^ key_bits) (entry_keys entries)

-- The build on sorted entries whose first and last keys differ; fewer than 2 ^ 32 entries keep the
-- positions within uint32_t.
module _ (key_bits num_radix_bits : ℕ) (e : KeyValue) (entries : List KeyValue)
    (sorted : IsSorted (entry_keys (e ∷ entries))) (fits : KeysFit key_bits (e ∷ entries))
    (small : length (e ∷ entries) < u32_mod) (b : KeyValue)
    (back : get_elem? (e ∷ entries) (length entries) ≡ some b) (differ : e.key < b.key) where
  back_key : get_elem? (entry_keys (e ∷ entries)) (length entries) ≡ some b.key
  back_key = get_elem?-map (λ (x : KeyValue). x.key) (e ∷ entries) (length entries) back

  back_fits : b.key < 2 ^ key_bits
  back_fits =
      All_at (λ k. k < 2 ^ key_bits) (entry_keys (e ∷ entries)) (length entries) fits back_key

  -- The hints, once the shift is known.
  hints_at :
      (shift : ℕ)
      → (b.key - e.key) / 2 ^ shift < 2 ^ num_radix_bits
      → (zeroed : List ℕ) × (last : ℕ) × (new : List ℕ) × (filled : List ℕ) × (store
            (replicate (2 ^ num_radix_bits + 1) 0)
            0
            0
          ≡ ok zeroed)
        × (build_loop key_bits num_radix_bits e.key shift (e ∷ entries) 0 0 zeroed ≡ ok (last, new))
        × (fill (2 ^ num_radix_bits - last) (last + 1) (length (e ∷ entries)) new ≡ ok filled)
        × Hinted
            (2 ^ num_radix_bits)
            (2 ^ num_radix_bits)
            (prefixes key_bits num_radix_bits e.key shift (e ∷ entries))
            filled
  hints_at shift narrow =
      let places = 2 ^ num_radix_bits in
      let ps = prefixes key_bits num_radix_bits e.key shift (e ∷ entries) in
      let above : All (λ k. e.key ≤ k) (entry_keys (e ∷ entries)) = (omega arith, sorted.0) in
      let below =
        All-le_last (entry_keys (e ∷ entries)) b.key sorted
          (rw (length-map (λ (x : KeyValue). x.key) entries, one_less (length entries)) back_key) in
      let (zeroed, stores, h) = zeroed-Hinted places ps in
      let (last, new, run, g, p, end) =
        build_loop-Hinted key_bits num_radix_bits e.key shift ps (e ∷ entries) 0 0 zeroed h
          (pow_pos num_radix_bits)
          (prefixes-IsSorted key_bits e.key shift (e ∷ entries) sorted above fits)
          (All-intro (λ q. 0 ≤ q) ps (λ i x q. omega arith))
          (All-prefixes-lt key_bits places e.key shift b.key (e ∷ entries) above below back_fits
            narrow)
          (λ j a. omega arith) in
      let (filled, fills, f) =
        fill-Hinted places last places (length (e ∷ entries)) ps new g (omega arith) (omega arith)
          (λ j a c. omega (arith, end j a)) in
      (zeroed, last, new, filled, stores, run, fills, f)
    where
      one_less : (n : ℕ) → suc n - 1 ≡ n
      one_less n = omega arith

  build_at :
      (shift : ℕ)
      → shift_bits key_bits num_radix_bits (b.key - e.key) ≡ ok shift
      → (b.key - e.key) / 2 ^ shift < 2 ^ num_radix_bits
      → (index : RadixBinarySearch) × (build key_bits num_radix_bits (e ∷ entries) ≡ ok index)
        × IsBuilt key_bits num_radix_bits (e ∷ entries) index
  unfolding build
  build_at shift shifts narrow =
      let (zeroed, last, new, filled, stores, run, fills, f) = hints_at shift narrow in
      let ps = prefixes key_bits num_radix_bits e.key shift (e ∷ entries) in
      let less : suc (length entries) - 1 ≡ length entries = omega arith in
      (
        record {
          n = length (e ∷ entries);
          min = e.key;
          max = b.key;
          shift_bits = shift;
          radix_hint = filled;
        },
        rw (
          less,
          back,
          wrap_sub b.key e.key (2 ^ key_bits) (omega arith) back_fits,
          shifts,
          stores,
          run,
          fills,
        ),
        record {
          count = refl;
          least = refl;
          most = rw less back_key;
          width = f.width;
          exact = λ j a.
              f.exact j a
              ∙ ap some (
                  mod-eq_of_lt (
                    omega (
                      arith,
                      lower_index-le j ps,
                      length-map (λ (x : KeyValue). prefix key_bits e.key shift x.key) entries,
                    )));
          narrow = narrow;
        },
      )

  pub build-IsBuilt :
      (index : RadixBinarySearch) × (build key_bits num_radix_bits (e ∷ entries) ≡ ok index)
      × IsBuilt key_bits num_radix_bits (e ∷ entries) index
  build-IsBuilt =
      let (shift, shifts, narrow) =
        shift_bits-fits key_bits num_radix_bits (b.key - e.key) (omega arith)
          (omega (arith, back_fits)) in
      build_at shift shifts narrow

-- On sorted entries with two different keys of the key type, fewer than 2 ^ 32, the build ends
-- normally and leaves for each prefix the position of the first key with that prefix or a larger
-- one, with all prefixes below 2 ^ num_radix_bits.
pub build_total :
    (key_bits num_radix_bits : ℕ) (entries : List KeyValue) (least most : ℕ)
    → IsSorted (entry_keys entries)
    → KeysFit key_bits entries
    → length entries < u32_mod
    → get_elem? (entry_keys entries) 0 ≡ some least
    → get_elem? (entry_keys entries) (length entries - 1) ≡ some most
    → least < most
    → (index : RadixBinarySearch) × (build key_bits num_radix_bits entries ≡ ok index)
      × IsBuilt key_bits num_radix_bits entries index
build_total key_bits num_radix_bits [] least most sorted fits small first last differ =
    absurd (ground arith)
build_total key_bits num_radix_bits (e ∷ entries) least most sorted fits small first last differ =
    let less : suc (length entries) - 1 ≡ length entries = omega arith in
    let (b, back) = get_elem?-lt (e ∷ entries) (length entries) (omega arith) in
    let same = get_elem?-map (λ (x : KeyValue). x.key) (e ∷ entries) (length entries) back in
    build-IsBuilt key_bits num_radix_bits e entries sorted fits small b back
      (ground (arith, rw less at last))

-- If the first and the last key are the same key of the key type, the build counts the leading zeros
-- of 0, which is undefined.
pub build-undefined :
    (key_bits num_radix_bits : ℕ) (entries : List KeyValue) (k : ℕ)
    → k < 2 ^ key_bits
    → get_elem? (entry_keys entries) 0 ≡ some k
    → get_elem? (entry_keys entries) (length entries - 1) ≡ some k
    → build key_bits num_radix_bits entries ≡ fault undefined
unfolding build shift_bits
build-undefined key_bits num_radix_bits [] k fit first last = absurd (ground arith)
build-undefined key_bits num_radix_bits (e ∷ entries) k fit first last =
    let less : suc (length entries) - 1 ≡ length entries = omega arith in
    let (b, back) = get_elem?-lt (e ∷ entries) (length entries) (omega arith) in
    let same = get_elem?-map (λ (x : KeyValue). x.key) (e ∷ entries) (length entries) back in
    let equal : b.key ≡ e.key = ground (arith, rw less at last) in
    let fits : e.key < 2 ^ key_bits = ground arith in
    let nothing : e.key - e.key ≡ 0 = omega arith in
    rw (less, back, equal, wrap_sub e.key e.key (2 ^ key_bits) (omega arith) fits, nothing)
