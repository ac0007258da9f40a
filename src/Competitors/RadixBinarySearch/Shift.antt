-- ===== src/Competitors/RadixBinarySearch/Shift.antt =====
-- competitors/radix_binary_search.h: the number of bits that a prefix leaves out.
use sosd.Prelude.{
  ℕ, zero, suc, ◌+◌, ◌-◌, ◌/◌, ◌^◌, ◌==◌, ◌≤◌, ◌<◌, ◌≡◌, ok, ltb, arith, Bool-cases, inl, inr,
  false, ap,
}
use sosd.Prelude.Arith.{pow-add, pow_pos, div-lt_of_lt_mul}
use native.Mathlib.Nat.{pow-suc, pow-le-pow_right}
use sosd.Competitors.RadixBinarySearch.{bit_length, shift_bits}

bit_length-le : (fuel val : ℕ) → bit_length fuel val ≤ fuel
unfolding bit_length
bit_length-le zero val = omega arith
bit_length-le (suc fuel) val = ground (arith, bit_length-le fuel (val / 2))

lt-pow-bit_length : (fuel val : ℕ) → val < 2 ^ fuel → val < 2 ^ bit_length fuel val
unfolding bit_length
lt-pow-bit_length zero val h = h
lt-pow-bit_length (suc fuel) val h = elim (Bool-cases (val == 0)) [
  | inl nothing ↦ rw nothing (ground arith)
  | inr more ↦
      let half = lt-pow-bit_length fuel (val / 2) (omega (arith, pow-suc 2 fuel)) in
      rw more (omega (arith, pow-suc 2 (bit_length fuel (val / 2))))
]

pub shift_bits-fits :
    (key_bits num_radix_bits val : ℕ)
    → 0 < val
    → val < 2 ^ key_bits
    → (shift : ℕ) × (shift_bits key_bits num_radix_bits val ≡ ok shift)
      × (val / 2 ^ shift < 2 ^ num_radix_bits)
unfolding shift_bits
shift_bits-fits key_bits num_radix_bits val pos fits =
    let l = bit_length key_bits val in
    let few = bit_length-le key_bits val in
    let bound = lt-pow-bit_length key_bits val fits in
    let some_bit : (val == 0) ≡ false = ground arith in
    let zeros : key_bits - (key_bits - l) ≡ l = omega arith in
    elim (Bool-cases (ltb l num_radix_bits)) [
      | inl short ↦ (
        0,
        rw (some_bit, zeros, short),
        let wide =
              pow-le-pow_right {n = 2} (omega arith) {i = l} {j = num_radix_bits} (ground arith) in
            omega arith,
      )
      | inr long ↦ (
        l - num_radix_bits,
        rw (some_bit, zeros, long) (ap ok (omega arith)),
        div-lt_of_lt_mul val (2 ^ num_radix_bits) (2 ^ (l - num_radix_bits))
            (pow_pos (l - num_radix_bits))
            (let parts : num_radix_bits + (l - num_radix_bits) ≡ l = ground arith in
              rw (← pow-add num_radix_bits (l - num_radix_bits), parts) bound),
      )
    ]
