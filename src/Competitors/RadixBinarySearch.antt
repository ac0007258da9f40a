-- ===== src/Competitors/RadixBinarySearch.antt =====
-- competitors/radix_binary_search.h. `key_bits` is the width of KeyType, 32 or 64.
pub mod Shift
pub mod Hints
pub mod Built
pub mod Lookup
use sosd.Prelude.{
  ℕ, zero, suc, ◌+◌, ◌-◌, ◌/◌, ◌%◌, ◌^◌, ◌==◌, List, [], ◌∷◌, Run, ok, fault, out_of_bounds,
  undefined, at, ◌>>=◌, length, set, replicate, leb, ltb, if◌then◌else◌,
}
use sosd.Prelude.Words.{u32_mod}
use sosd.Data.{KeyValue, SearchBound}

pub record RadixBinarySearch : Type 0 where
  pub n : ℕ
  pub min : ℕ
  pub max : ℕ
  pub shift_bits : ℕ
  pub radix_hint : List ℕ

-- The number of binary digits, for a number of at most `fuel` of them.
unfoldable pub bit_length : ℕ → ℕ → ℕ
bit_length zero val = 0
bit_length (suc fuel) val = if val == 0 then 0 else suc (bit_length fuel (val / 2))

-- __builtin_clz and __builtin_clzl, which are undefined at 0.
unfoldable pub clz : ℕ → ℕ → Run ℕ
unfolding bit_length
clz key_bits val = if val == 0 then fault undefined else ok (key_bits - bit_length key_bits val)

-- radix_hint_[j] = v
unfoldable pub store : List ℕ → ℕ → ℕ → Run (List ℕ)
store hints j v = if ltb j (length hints) then ok (set hints j v) else fault out_of_bounds

-- `rounds` rounds of a loop that stores `v` from `j` on. The hints are of type uint32_t.
unfoldable pub fill : ℕ → ℕ → ℕ → List ℕ → Run (List ℕ)
unfolding store
fill zero j v hints = ok hints
fill (suc rounds) j v hints = do stored ← store hints j (v % u32_mod); fill rounds (j + 1) v stored

-- (key - min_) >> shift_bits_, where the difference wraps.
unfoldable pub prefix : ℕ → ℕ → ℕ → ℕ → ℕ
prefix key_bits least shift key = (key + 2 ^ key_bits - least) % 2 ^ key_bits / 2 ^ shift

module _ (key_bits num_radix_bits : ℕ) where
  unfoldable pub shift_bits : ℕ → Run ℕ
  unfolding clz
  shift_bits val = do
    zeros ← clz key_bits val
    ok (if ltb (key_bits - zeros) num_radix_bits then 0 else key_bits - num_radix_bits - zeros)

  -- for (uint64_t i = 0; i < n_; ++i); the result has the last `prev_prefix`.
  unfoldable pub build_loop : ℕ → ℕ → List KeyValue → ℕ → ℕ → List ℕ → Run (ℕ × List ℕ)
  unfolding fill prefix
  build_loop least shift [] i prev hints = ok (prev, hints)
  build_loop least shift (e ∷ rest) i prev hints =
      let curr = prefix key_bits least shift e.key in
      let same = build_loop least shift rest (i + 1) prev hints in
      let other = do
        filled ← fill (curr - prev) (prev + 1) i hints
        build_loop least shift rest (i + 1) curr filled
      in if curr == prev then same else other

  unfoldable pub build : List KeyValue → Run RadixBinarySearch
  unfolding shift_bits build_loop
  build entries = do
    let n = length entries
    front ← at entries 0
    back ← at entries (n - 1)
    shift ← shift_bits ((back.key + 2 ^ key_bits - front.key) % 2 ^ key_bits)
    zeroed ← store (replicate (2 ^ num_radix_bits + 1) 0) 0 0
    (prev, hints) ← build_loop front.key shift entries 0 0 zeroed
    filled ← fill (2 ^ num_radix_bits - prev) (prev + 1) n hints
    ok (record { n = n; min = front.key; max = back.key; shift_bits = shift; radix_hint = filled })

-- The hints around the prefix `q`, widened by one position on either side.
unfoldable pub hinted_bound : RadixBinarySearch → ℕ → Run SearchBound
hinted_bound index q =
    let last = length index.radix_hint - 2 in
    let p = if ltb last q then last else q in
    do
      begin ← at index.radix_hint p
      end ← at index.radix_hint (p + 1)
      ok (record {
        start = if begin == 0 then begin else begin - 1;
        stop = if end == index.n then end else end + 1;
      })

unfoldable pub equality_lookup : ℕ → RadixBinarySearch → ℕ → Run SearchBound
equality_lookup key_bits index lookup_key =
    if ltb lookup_key index.min
    then ok (record { start = 0; stop = 1 })
    else if ltb index.max lookup_key
    then ok (record { start = index.n - 1; stop = index.n })
    else hinted_bound index (prefix key_bits index.min index.shift_bits lookup_key)
