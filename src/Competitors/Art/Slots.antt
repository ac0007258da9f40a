-- ===== src/Competitors/Art/Slots.antt =====
-- competitors/art_primary_lb.h: what holds of an inner node's arrays, and what the insertion of a
-- child changes.
use sosd.Prelude.{
  ℕ, zero, suc, ◌+◌, ◌-◌, ◌==◌, ◌≤◌, ◌<◌, ◌≡◌, ◌≢◌, inl, inr, refl, ap, ◌∙◌, some, true, false, ltb,
  Bool-cases, ==→eq, arith,
}
pub use sosd.Prelude.Arrays.{find_key-cases}
use sosd.Competitors.Art.Nodes.{
  Header, Body, node4, node16, node48, node256, Node, is_null, empty_marker, find_key, find_child,
  deref, insert_pos, shift_in,
}

-- The keys of a Node4 or a Node16 increase, and each has a child.
pub record Sorted (count : ℕ) (key : ℕ → ℕ) (child : ℕ → Node) : Type 0 where
  pub increasing : (i j : ℕ) → i < j → j < count → key i < key j
  pub are_bytes : (i : ℕ) → i < count → key i < 256
  pub full : (i : ℕ) → i < count → is_null (child i) ≡ false

-- The slots of a Node48 are taken from the first on, each by one byte.
pub record Indexed (count : ℕ) (child_index : ℕ → ℕ) (child : ℕ → Node) : Type 0 where
  pub used : (b : ℕ) → child_index b ≢ empty_marker → child_index b < count
  pub distinct : (a b : ℕ) → child_index a ≢ empty_marker → child_index a ≡ child_index b → a ≡ b
  pub full : (b : ℕ) → child_index b ≢ empty_marker → is_null (child (child_index b)) ≡ false
  pub free : (j : ℕ) → count ≤ j → is_null (child j) ≡ true

abbrev pub IsNode : Header → Body → (ℕ → Node) → Type 0
IsNode h (node4 key) child = (h.count ≤ 4) × Sorted h.count key child
IsNode h (node16 key) child = (h.count ≤ 16) × Sorted h.count key child
IsNode h (node48 child_index) child = (h.count ≤ 48) × Indexed h.count child_index child
IsNode h node256 child = Unit

-- The child of a byte, or null.
abbrev pub child_at : Header → Body → (ℕ → Node) → ℕ → Node
child_at h body child b = deref child (find_child h body b)

pub Sorted-injective :
    (count : ℕ) (key : ℕ → ℕ) (child : ℕ → Node) (i j : ℕ)
    → Sorted count key child
    → i < count
    → j < count
    → key i ≡ key j
    → i ≡ j
Sorted-injective count key child i j s hi hj e = elim (Bool-cases (ltb i j)) [
  | inl lt ↦ absurd (ground (arith, s.increasing i j))
  | inr ge ↦ elim (Bool-cases (ltb j i)) [
    | inl gt ↦ absurd (ground (arith, s.increasing j i))
    | inr le ↦ ground arith
  ]
]

pub find_key-at :
    (count : ℕ) (key : ℕ → ℕ) (child : ℕ → Node) (j : ℕ)
    → Sorted count key child
    → j < count
    → find_key key (key j) 0 count ≡ some j
find_key-at count key child j s h = elim (find_key-cases key (key j) 0 count) [
  | inl (e, none_of) ↦ absurd (none_of j (omega arith) (omega arith) refl)
  | inr (i, e, lo, hi, k) ↦ e ∙ ap some (Sorted-injective count key child i j s (omega arith) h k)
]

pub insert_pos-bounds :
    (key : ℕ → ℕ) (b i n : ℕ)
    → (i ≤ insert_pos key b i n)
      × (insert_pos key b i n ≤ i + n)
      × ((j : ℕ) → i ≤ j → j < insert_pos key b i n → key j < b)
      × (insert_pos key b i n < i + n → b ≤ key (insert_pos key b i n))
unfolding insert_pos
insert_pos-bounds key b i zero =
    (omega arith, omega arith, λ j lo hi. absurd (omega arith), λ h. absurd (omega arith))
insert_pos-bounds key b i (suc n) =
    let (lo, hi, below, above) = insert_pos-bounds key b (suc i) n in
    elim (Bool-cases (ltb (key i) b)) [
      | inr ge ↦
          rw ge (omega arith, omega arith, λ j lo hi. absurd (omega arith), λ h. ground arith)
      | inl lt ↦ rw lt (
        omega arith,
        omega arith,
        λ j l h. elim (Bool-cases (j == i)) [
          | inl same ↦ rw (==→eq j i same) (ground arith)
          | inr other ↦ below j (ground arith) h
        ],
        λ h. above (omega arith),
      )
    ]

-- The new key stands where the keys stay sorted.
pub shift_in-Sorted :
    (count : ℕ) (key : ℕ → ℕ) (child : ℕ → Node) (b pos : ℕ) (c : Node)
    → Sorted count key child
    → pos ≤ count
    → ((j : ℕ) → j < pos → key j < b)
    → ((j : ℕ) → pos ≤ j → j < count → b < key j)
    → is_null c ≡ false
    → b < 256
    → Sorted (count + 1) (shift_in key pos b) (shift_in child pos c)
unfolding shift_in
shift_in-Sorted count key child b pos c s le below above child_is small = record {
  are_bytes = λ i hi. ground (arith, s.are_bytes i, s.are_bytes (i - 1));
  increasing = λ i j lt hi. ground (
    arith,
    s.increasing i j,
    s.increasing i (j - 1),
    s.increasing (i - 1) (j - 1),
    below i,
    above (j - 1),
    below j,
    above (i - 1),
  );
  full = λ i hi. ground (arith, s.full i, s.full (i - 1));
}
