-- ===== src/Util/Random.antt =====
-- util.h: FastRandom, an Xorshift generator with 64 bits of state.
use Prim.Native.Nat.{bit_xor}
use native.Mathlib.Nat.{mod-lt, mod-eq_of_lt}
use sosd.Prelude.{
  refl, ℕ, ◌+◌, ◌-◌, ◌*◌, ◌/◌, ◌%◌, ◌^◌, ◌≤◌, ◌<◌, ◌≡◌, Run, ok, fault, undefined, if◌then◌else◌,
  ◌==◌, arith, Bool, false,
}
use sosd.Prelude.Words.{u32_mod, u64_mod}

pub record FastRandom : Type 0 where
  pub seed : ℕ

abbrev pub default_seed : ℕ
default_seed = 2305843008139952128

-- RandUint32(): the three shifts are of the 64-bit seed, and the result is its low half.
unfoldable pub rand_uint32 : FastRandom → FastRandom × ℕ
rand_uint32 ranny =
    let s1 = bit_xor ranny.seed (ranny.seed * 2 ^ 13 % u64_mod) in
    let s2 = bit_xor s1 (s1 / 2 ^ 15) in
    let s3 = bit_xor s2 (s2 * 2 ^ 5 % u64_mod) in (record { seed = s3 }, s3 % u32_mod)

-- RandUint32(inclusive_min, inclusive_max), in 32-bit arithmetic; the remainder by 0 is undefined.
unfoldable pub rand_uint32_between : FastRandom → ℕ → ℕ → Run (FastRandom × ℕ)
rand_uint32_between ranny inclusive_min inclusive_max =
    let (next, r) = rand_uint32 ranny in
    let width = (inclusive_max + u32_mod - inclusive_min + 1) % u32_mod in
    if width == 0 then fault undefined else ok (next, (inclusive_min + r % width) % u32_mod)

-- RandBool().
unfoldable pub rand_bool : FastRandom → FastRandom × Bool
unfolding rand_uint32
rand_bool ranny = let (next, r) = rand_uint32 ranny in (next, r % 2 == 0)

-- A draw between two 32-bit bounds that do not span all 2 ^ 32 numbers lies between them, and
-- advances the generator once.
pub rand_uint32_between_bounds :
    (ranny : FastRandom) (lo hi : ℕ)
    → lo ≤ hi
    → hi < u32_mod
    → hi - lo + 1 < u32_mod
    → (x : ℕ) × (rand_uint32_between ranny lo hi ≡ ok ((rand_uint32 ranny).0, x))
      × (lo ≤ x)
      × (x ≤ hi)
unfolding rand_uint32_between
rand_uint32_between_bounds ranny lo hi le fits narrow =
    let r = (rand_uint32 ranny).1 in
    let width : (hi + u32_mod - lo + 1) % u32_mod ≡ hi - lo + 1 = omega arith in
    let some_width : (hi - lo + 1 == 0) ≡ false = ground arith in
    let short : r % (hi - lo + 1) < hi - lo + 1 = mod-lt r (omega arith) in
    let fit : (lo + r % (hi - lo + 1)) % u32_mod ≡ lo + r % (hi - lo + 1) =
      mod-eq_of_lt (omega arith) in
    (lo + r % (hi - lo + 1), rw (width, some_width, fit), omega arith, omega arith)

-- Over all 2 ^ 32 numbers the width wraps to 0 and the remainder by it is undefined.
pub rand_uint32_between-undefined :
    (ranny : FastRandom) → rand_uint32_between ranny 0 (u32_mod - 1) ≡ fault undefined
unfolding rand_uint32_between
rand_uint32_between-undefined ranny = refl
