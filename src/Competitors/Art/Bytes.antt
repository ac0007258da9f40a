-- ===== src/Competitors/Art/Bytes.antt =====
-- competitors/art_primary_lb.h: a key as the bytes of its big-endian form, and the loops that
-- compare bytes.
use sosd.Prelude.{
  ℕ, zero, suc, ◌+◌, ◌*◌, ◌/◌, ◌%◌, ◌^◌, ◌==◌, ◌≤◌, ◌<◌, ◌≡◌, ◌≢◌, ◌⊎◌, inl, inr, refl, ap, sym,
  ◌∙◌, List, [], ◌∷◌, ◌++◌, length, length-append, drop, All, Run, ok, fault, out_of_bounds, at,
  ◌>>=◌, if◌then◌else◌, true, Bool-cases, ==→eq, ==→ne, ne→==, arith,
}
use mathlib.Core.List.{append_assoc, append_cancel_left, head-eq_of_cons-eq, tail-eq_of_cons-eq}
use native.Mathlib.Nat.{zero-add, pow-suc, mod-lt, div-add-mod}
use sosd.Prelude.Arith.{div-lt_of_lt_mul}

-- The `n` bytes of a number, the most significant one first.
unfoldable pub bytes : ℕ → ℕ → List ℕ
bytes zero key = []
bytes (suc n) key = (key / 256 ^ n % 256) ∷ bytes n (key % 256 ^ n)

-- __builtin_bswap64 of the key, stored on a little-endian machine.
unfoldable pub swap_bytes : ℕ → List ℕ
unfolding bytes
swap_bytes key = bytes 8 key

-- The rounds of a loop that compares two byte arrays from where the two pointers stand, up to the
-- first difference: the number of equal bytes.
unfoldable pub mismatch : List ℕ → List ℕ → ℕ → Run ℕ
mismatch xs ys zero = ok 0
mismatch [] ys (suc n) = fault out_of_bounds
mismatch (x ∷ xs) [] (suc n) = fault out_of_bounds
mismatch (x ∷ xs) (y ∷ ys) (suc n) =
    let rest = mismatch xs ys n in if x == y then (rest >>= λ m. ok (suc m)) else ok 0

abbrev pub IsBytes : List ℕ → Type 0
IsBytes xs = All (λ b. b < 256) xs

-- Two arrays that differ behind a common part.
pub record Differ (xs ys : List ℕ) : Type 0 where
  pub common : List ℕ
  pub left : ℕ
  pub right : ℕ
  pub left_rest : List ℕ
  pub right_rest : List ℕ
  pub xs_is : xs ≡ common ++ (left ∷ left_rest)
  pub ys_is : ys ≡ common ++ (right ∷ right_rest)
  pub differ : left ≢ right

-- Two arrays with a common part of length `n`.
pub record Agree (xs ys : List ℕ) (n : ℕ) : Type 0 where
  pub common : List ℕ
  pub left_rest : List ℕ
  pub right_rest : List ℕ
  pub xs_is : xs ≡ common ++ left_rest
  pub ys_is : ys ≡ common ++ right_rest
  pub size : length common ≡ n

pub mismatch-at :
    (q : List ℕ) (x y : ℕ) (xs ys : List ℕ) (n : ℕ)
    → x ≢ y
    → length q < n
    → mismatch (q ++ (x ∷ xs)) (q ++ (y ∷ ys)) n ≡ ok (length q)
unfolding mismatch
mismatch-at [] x y xs ys zero ne h = absurd (omega arith)
mismatch-at [] x y xs ys (suc n) ne h = rw (ne→== x y ne) refl
mismatch-at (b ∷ q) x y xs ys zero ne h = absurd (omega arith)
mismatch-at (b ∷ q) x y xs ys (suc n) ne h =
    let same : (b == b) ≡ true = ground arith in
    rw (same, mismatch-at q x y xs ys n ne (omega arith)) refl

-- The comparison of `n` bytes finds them equal, or stops at a difference.
pub mismatch-cases :
    (xs ys : List ℕ) (n : ℕ)
    → n ≤ length xs
    → n ≤ length ys
    → ((mismatch xs ys n ≡ ok n) × Agree xs ys n)
      ⊎ ((d : Differ xs ys) × (mismatch xs ys n ≡ ok (length d.common)) × (length d.common < n))
unfolding mismatch
mismatch-cases xs ys zero h i = inl (
  refl,
  record { common = []; left_rest = xs; right_rest = ys; xs_is = refl; ys_is = refl; size = refl },
)
mismatch-cases [] ys (suc n) h i = absurd (omega arith)
mismatch-cases (x ∷ xs) [] (suc n) h i = absurd (omega arith)
mismatch-cases (x ∷ xs) (y ∷ ys) (suc n) h i = elim (Bool-cases (x == y)) [
  | inr ne ↦ inr (
    record {
      common = [];
      left = x;
      right = y;
      left_rest = xs;
      right_rest = ys;
      xs_is = refl;
      ys_is = refl;
      differ = ==→ne x y ne;
    },
    rw ne refl,
    omega arith,
  )
  | inl eq ↦ elim (mismatch-cases xs ys n (omega arith) (omega arith)) [
    | inl (e, a) ↦ inl (
      rw (eq, e) refl,
      record {
        common = x ∷ a.common;
        left_rest = a.left_rest;
        right_rest = a.right_rest;
        xs_is = ap (λ (l : List ℕ). x ∷ l) a.xs_is;
        ys_is = rw (==→eq x y eq) (ap (λ (l : List ℕ). y ∷ l) a.ys_is);
        size = ap suc a.size;
      },
    )
    | inr (d, e, lt) ↦ inr (
      record {
        common = x ∷ d.common;
        left = d.left;
        right = d.right;
        left_rest = d.left_rest;
        right_rest = d.right_rest;
        xs_is = ap (λ (l : List ℕ). x ∷ l) d.xs_is;
        ys_is = rw (==→eq x y eq) (ap (λ (l : List ℕ). y ∷ l) d.ys_is);
        differ = d.differ;
      },
      rw (eq, e) refl,
      omega arith,
    )
  ]
]

pub drop-append : (p s : List ℕ) → drop (length p) (p ++ s) ≡ s
drop-append [] s = refl
drop-append (b ∷ p) s = drop-append p s

pub at-append : (p s : List ℕ) (i : ℕ) → at (p ++ s) (length p + i) ≡ at s i
at-append [] s i = rw zero-add refl
at-append (b ∷ p) s i =
    let e : suc (length p) + i ≡ suc (length p + i) = omega arith in rw (e, at-append p s i) refl

pub length-bytes : (n key : ℕ) → length (bytes n key) ≡ n
unfolding bytes
length-bytes zero key = refl
length-bytes (suc n) key = ap suc (length-bytes n (key % 256 ^ n))

pub bytes-IsBytes : (n key : ℕ) → IsBytes (bytes n key)
unfolding bytes
bytes-IsBytes zero key = tt
bytes-IsBytes (suc n) key = (omega arith, bytes-IsBytes n (key % 256 ^ n))

pow_pos8 : (n : ℕ) → 0 < 256 ^ n
pow_pos8 zero = omega arith
pow_pos8 (suc n) = omega (arith, pow-suc 256 n, pow_pos8 n)

-- Keys that fit into n bytes are told apart by them.
pub bytes_injective : (n a b : ℕ) → a < 256 ^ n → b < 256 ^ n → bytes n a ≡ bytes n b → a ≡ b
unfolding bytes
bytes_injective zero a b ha hb e = omega arith
bytes_injective (suc n) a b ha hb e =
    let p = pow_pos8 n in
    let ia : a / 256 ^ n < 256 =
      div-lt_of_lt_mul a 256 (256 ^ n) p (omega (arith, pow-suc 256 n)) in
    let ib : b / 256 ^ n < 256 =
      div-lt_of_lt_mul b 256 (256 ^ n) p (omega (arith, pow-suc 256 n)) in
    let first : a / 256 ^ n ≡ b / 256 ^ n = omega (arith, head-eq_of_cons-eq e) in
    let rest : a % 256 ^ n ≡ b % 256 ^ n =
      bytes_injective n (a % 256 ^ n) (b % 256 ^ n) (mod-lt a p) (mod-lt b p)
        (tail-eq_of_cons-eq e) in
    sym (div-add-mod a (256 ^ n))
    ∙ (ap (λ (q : ℕ). 256 ^ n * q + a % 256 ^ n) first
        ∙ (ap (λ (r : ℕ). 256 ^ n * (b / 256 ^ n) + r) rest ∙ div-add-mod b (256 ^ n)))

pub Differ-ne : {xs ys : List ℕ} → Differ xs ys → xs ≢ ys
Differ-ne d e = d.differ (
    head-eq_of_cons-eq (
      append_cancel_left d.common (d.left ∷ d.left_rest) (d.right ∷ d.right_rest)
        (sym d.xs_is ∙ (e ∙ d.ys_is))))

pub length_zero {ℓ} : {A : Type ℓ} (xs : List A) → length xs ≡ 0 → xs ≡ []
length_zero [] e = refl
length_zero (x ∷ xs) e = absurd (omega arith)

pub Agree-whole : {xs ys : List ℕ} {n : ℕ} → Agree xs ys n → length xs ≡ n → length ys ≡ n → xs ≡ ys
Agree-whole a ex ey =
    let l = ap length a.xs_is in
    let r = ap length a.ys_is in
    let left : a.left_rest ≡ [] =
      length_zero a.left_rest (omega (arith, length-append {0} a.common a.left_rest, a.size)) in
    let right : a.right_rest ≡ [] =
      length_zero a.right_rest (omega (arith, length-append {0} a.common a.right_rest, a.size)) in
    a.xs_is ∙ (ap (λ (t : List ℕ). a.common ++ t) (left ∙ sym right) ∙ sym a.ys_is)

-- A list that goes on from another does not differ from it.
pub Differ-append : {xs q : List ℕ} (t : List ℕ) → Differ xs q → xs ≡ q ++ t → ⊥
Differ-append {xs} {q} t d e =
    let tail : d.left ∷ d.left_rest ≡ d.right ∷ (d.right_rest ++ t) =
      append_cancel_left d.common (d.left ∷ d.left_rest) (d.right ∷ (d.right_rest ++ t)) (
        sym d.xs_is
        ∙ (e
            ∙ (ap (λ (z : List ℕ). z ++ t) d.ys_is
                ∙ append_assoc d.common (d.right ∷ d.right_rest) t))) in
    d.differ (head-eq_of_cons-eq tail)

pub All-append_right {ℓ κ} :
    {A : Type ℓ} (P : A → Type κ) (xs ys : List A) → All P (xs ++ ys) → All P ys
All-append_right P [] ys a = a
All-append_right P (x ∷ xs) ys a = All-append_right P xs ys a.1

pub All-append_left {ℓ κ} :
    {A : Type ℓ} (P : A → Type κ) (xs ys : List A) → All P (xs ++ ys) → All P xs
All-append_left P [] ys a = tt
All-append_left P (x ∷ xs) ys a = (a.0, All-append_left P xs ys a.1)

pub cons_of_pos {ℓ} :
    {A : Type ℓ} (xs : List A) → 0 < length xs → (y : A) × (ys : List A) × (xs ≡ y ∷ ys)
cons_of_pos [] h = absurd (omega arith)
cons_of_pos (x ∷ xs) h = (x, xs, refl)
