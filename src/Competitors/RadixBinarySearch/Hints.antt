-- ===== src/Competitors/RadixBinarySearch/Hints.antt =====
-- competitors/radix_binary_search.h: the hints that Build stores.
use sosd.Prelude.Arrays.{get_elem?-set}
use sosd.Prelude.{
  ℕ, zero, suc, ◌+◌, ◌-◌, ◌%◌, ◌^◌, ◌==◌, ◌≤◌, ◌<◌, ◌≡◌, refl, List, [], ◌∷◌, map, ok, leb, arith,
  Bool-cases, inl, inr, length, set, get_elem?, some, All, length-set, length-replicate, replicate,
  lt→ltb, ◌∙◌,
}
use sosd.Prelude.Words.{u32_mod}
use sosd.Data.{KeyValue}
use sosd.Sorted.{IsSorted, lower_index, lower_index_below, lower_index_above}
use sosd.Competitors.RadixBinarySearch.{store, fill, prefix, build_loop}

-- What `fill` leaves: `v` in `rounds` places from `j` on.
pub record Filled (rounds j v : ℕ) (old new : List ℕ) : Type 0 where
  pub same_length : length new ≡ length old
  pub before : (i : ℕ) → i < j → get_elem? new i ≡ get_elem? old i
  pub within : (i : ℕ) → j ≤ i → i < j + rounds → get_elem? new i ≡ some (v % u32_mod)

pub fill-Filled :
    (rounds j v : ℕ) (hints : List ℕ)
    → j + rounds ≤ length hints
    → (new : List ℕ) × (fill rounds j v hints ≡ ok new) × Filled rounds j v hints new
unfolding fill
fill-Filled zero j v hints h = (
  hints,
  refl,
  record { same_length = refl; before = λ i a. refl; within = λ i a b. absurd (omega arith) },
)
fill-Filled (suc rounds) j v hints h =
    let w = v % u32_mod in
    let (new, run, f) =
      fill-Filled rounds (j + 1) v (set hints j w) (omega (arith, length-set hints j w)) in
    (
      new,
      rw (lt→ltb j (length hints) (omega arith)) run,
      record {
        same_length = omega (arith, f.same_length, length-set hints j w);
        before = λ i a. ground (arith, f.before i, get_elem?-set hints i j w);
        within = λ i a b. ground (arith, f.before i, f.within i, get_elem?-set hints i j w);
      },
    )

-- The hints up to `prev` hold the first positions of their prefixes in `ps`.
pub record Hinted (places prev : ℕ) (ps hints : List ℕ) : Type 0 where
  pub width : length hints ≡ places + 1
  pub exact : (j : ℕ) → j ≤ prev → get_elem? hints j ≡ some (lower_index j ps % u32_mod)

-- Where the prefixes from `prev + 1` to `next` first occur at `i`, filling in `i` is right.
pub fill-Hinted :
    (places prev next i : ℕ) (ps hints : List ℕ)
    → Hinted places prev ps hints
    → prev ≤ next
    → next ≤ places
    → ((j : ℕ) → prev < j → j ≤ next → lower_index j ps ≡ i)
    → (new : List ℕ) × (fill (next - prev) (prev + 1) i hints ≡ ok new) × Hinted places next ps new
fill-Hinted places prev next i ps hints h le fits first =
    let width = h.width in
    let (new, run, f) = fill-Filled (next - prev) (prev + 1) i hints (omega arith) in
    (
      new,
      run,
      record {
        width = omega (arith, f.same_length);
        exact = λ j a. elim (Bool-cases (leb j prev)) [
          | inl old ↦ f.before j (ground arith) ∙ h.exact j (ground arith)
          | inr fresh ↦
              f.within j (ground arith) (ground arith) ∙ rw (first j (ground arith) a) refl
        ];
      },
    )

lower_index_zero : (ks : List ℕ) → lower_index 0 ks ≡ 0
unfolding lower_index
lower_index_zero [] = refl
lower_index_zero (k ∷ ks) = ground arith

-- The resized vector, with a zero in its first place.
pub zeroed-Hinted :
    (places : ℕ) (ps : List ℕ)
    → (zeroed : List ℕ) × (store (replicate (places + 1) 0) 0 0 ≡ ok zeroed)
      × Hinted places 0 ps zeroed
unfolding store
zeroed-Hinted places ps =
    let fresh : List ℕ = replicate (places + 1) 0 in
    let long = length-replicate {A = ℕ} (places + 1) 0 in
    (
      set fresh 0 0,
      rw (lt→ltb 0 (length fresh) (omega arith)),
      record {
        width = omega (arith, length-set fresh 0 0);
        exact = λ j a. ground (arith, lower_index_zero ps, get_elem?-set fresh j 0 0);
      },
    )

module _ (key_bits num_radix_bits least shift : ℕ) where
  abbrev pub prefixes : List KeyValue → List ℕ
  prefixes entries = map (λ e. prefix key_bits least shift e.key) entries

  -- One loop over sorted entries leaves the hints up to the last prefix right, and behind it the
  -- positions are the end.
  pub build_loop-Hinted :
      (ps : List ℕ) (entries : List KeyValue) (i prev : ℕ) (hints : List ℕ)
      → Hinted (2 ^ num_radix_bits) prev ps hints
      → prev < 2 ^ num_radix_bits
      → IsSorted (prefixes entries)
      → All (λ q. prev ≤ q) (prefixes entries)
      → All (λ q. q < 2 ^ num_radix_bits) (prefixes entries)
      → ((j : ℕ) → prev < j → lower_index j ps ≡ i + lower_index j (prefixes entries))
      → (last : ℕ) × (new : List ℕ) × (build_loop key_bits num_radix_bits least shift entries i prev
            hints
          ≡ ok (last, new))
        × Hinted (2 ^ num_radix_bits) last ps new
        × (last < 2 ^ num_radix_bits)
        × ((j : ℕ) → last < j → lower_index j ps ≡ i + length entries)
  unfolding build_loop lower_index
  build_loop-Hinted ps [] i prev hints h p sorted above below rest = (prev, hints, refl, h, p, rest)
  build_loop-Hinted ps (e ∷ entries) i prev hints h p sorted above below rest =
      let curr = prefix key_bits least shift e.key in
      let rest' : (j : ℕ)
          → curr < j
          → prev < j
          → lower_index j ps ≡ i + 1 + lower_index j (prefixes entries) =
        λ j a b. omega (arith, rest j b, lower_index_below j curr (prefixes entries) a) in
      elim (Bool-cases (curr == prev)) [
        | inl same ↦
            let (last, new, run, h', p', end) =
              build_loop-Hinted ps entries (i + 1) prev hints h p sorted.1 above.1 below.1
                (λ j a. rest' j (ground arith) a) in
            (last, new, rw same run, h', p', λ j a. omega (arith, end j a))
        | inr other ↦
            let (filled, stores, g) =
              fill-Hinted (2 ^ num_radix_bits) prev curr i ps hints h above.0 (omega arith)
                (λ j a b. omega (arith, rest j a, lower_index_above j curr (prefixes entries) b)) in
            let (last, new, run, h', p', end) =
              build_loop-Hinted ps entries (i + 1) curr filled g below.0 sorted.1 sorted.0 below.1
                (λ j a. rest' j a (omega arith)) in
            (last, new, rw (other, stores) run, h', p', λ j a. omega (arith, end j a))
      ]
