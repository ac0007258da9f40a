-- ===== src/Competitors/Art/Traverse.antt =====
-- competitors/art_primary_lb.h: the leaves of a tree in the iterator's order.
use sosd.Prelude.{
  ℕ, zero, suc, ◌+◌, ◌-◌, ◌==◌, ◌≤◌, ◌<◌, ◌≡◌, ◌≢◌, ◌⊎◌, inl, inr, refl, List, [], ◌∷◌, ◌++◌,
  Option, none, some, Bool, Bool-cases, true, false, not, ltb, ==→eq, ==→ne, if◌then◌else◌, arith,
}
use sosd.Competitors.Art.Nodes.{
  Header, Body, node4, node16, node48, node256, Node, null, leaf, inner, is_null, empty_marker,
  deref,
}
use sosd.Competitors.Art.Slots.{IsNode}
use sosd.Competitors.Art.Cursor.{scan_child, next_child}

-- The positions of a node, and the slot and the byte of each.
abbrev pub limit : Header → Body → ℕ
limit h (node4 key) = h.count
limit h (node16 key) = h.count
limit h (node48 child_index) = 256
limit h node256 = 256

abbrev pub pos_slot : Body → ℕ → Option ℕ
pos_slot (node4 key) p = some p
pos_slot (node16 key) p = some p
pos_slot (node48 child_index) p =
    if child_index p == empty_marker then none else some (child_index p)
pos_slot node256 p = some p

abbrev pub byte_of : Body → ℕ → ℕ
byte_of (node4 key) p = key p
byte_of (node16 key) p = key p
byte_of (node48 child_index) p = p
byte_of node256 p = p

abbrev pub slot_list : (ℕ → List ℕ) → Option ℕ → List ℕ
slot_list f none = []
slot_list f (some i) = f i

-- f p ++ f (p + 1) ++ ..., of so many lists.
abbrev pub gather : (ℕ → List ℕ) → ℕ → ℕ → List ℕ
gather f p zero = []
gather f p (suc n) = f p ++ gather f (suc p) n

-- The leaves of a tree, child after child.
unfoldable pub in_order : Node → List ℕ
in_order null = []
in_order (leaf tid) = tid ∷ []
in_order (inner h body child) =
    gather (λ p. slot_list (λ i. in_order (child i)) (pos_slot body p)) 0 (limit h body)

pub in_order-null : (t : Node) → is_null t ≡ true → in_order t ≡ []
unfolding in_order
in_order-null null e = refl
in_order-null (leaf tid) e = absurd (ground arith)
in_order-null (inner h body child) e = absurd (ground arith)

-- The leaves at a position of a node.
abbrev pub leaves_at : Body → (ℕ → Node) → ℕ → List ℕ
leaves_at body child p = slot_list (λ i. in_order (child i)) (pos_slot body p)

pub null_slot :
    (child : ℕ → Node) (o : Option ℕ)
    → is_null (deref child o) ≡ true
    → slot_list (λ i. in_order (child i)) o ≡ []
null_slot child none e = refl
null_slot child (some i) e = in_order-null (child i) e

pub gather_none :
    (f : ℕ → List ℕ) (p n : ℕ) → ((q : ℕ) → p ≤ q → q < p + n → f q ≡ []) → gather f p n ≡ []
gather_none f p zero h = refl
gather_none f p (suc n) h =
    rw (h p (omega arith) (omega arith))
      (gather_none f (suc p) n (λ q lo hi. h q (omega arith) (omega arith)))

-- The first position that may have leaves.
pub gather_at :
    (f : ℕ → List ℕ) (pos n p rest : ℕ)
    → pos ≤ p
    → suc p + rest ≡ pos + n
    → ((q : ℕ) → pos ≤ q → q < p → f q ≡ [])
    → gather f pos n ≡ f p ++ gather f (suc p) rest
gather_at f pos zero p rest le e h = absurd (omega arith)
gather_at f pos (suc n) p rest le e h = elim (Bool-cases (pos == p)) [
  | inl eq ↦ let same : n ≡ rest = ground (arith, eq) in rw (==→eq pos p eq, same) refl
  | inr ne ↦ rw (h pos (omega arith) (ground (arith, ne))) (
      gather_at f (suc pos) n p rest (ground (arith, ne)) (omega arith)
        (λ q lo hi. h q (omega arith) hi))
]

scan_child-cases :
    (has : ℕ → Bool) (child : ℕ → Node) (pos n : ℕ)
    → ((q : ℕ) × (scan_child has child pos n ≡ (null, q))
        × ((p : ℕ) → pos ≤ p → p < pos + n → has p ≡ false))
      ⊎ ((p : ℕ) × (scan_child has child pos n ≡ (child p, p + 1))
          × (has p ≡ true)
          × (pos ≤ p)
          × (p < pos + n)
          × ((q : ℕ) → pos ≤ q → q < p → has q ≡ false))
unfolding scan_child
scan_child-cases has child pos zero = inl (pos, refl, λ p lo hi. absurd (omega arith))
scan_child-cases has child pos (suc n) = elim (Bool-cases (has pos)) [
  | inl found ↦
      inr (pos, rw found refl, found, omega arith, omega arith, λ q lo hi. absurd (omega arith))
  | inr missing ↦
      let skip = λ (q : ℕ) (f : q ≢ pos → has q ≡ false).
        elim (Bool-cases (q == pos)) as (λ _. has q ≡ false) [
          | inl eq ↦ rw (==→eq q pos eq) missing
          | inr ne ↦ f (==→ne q pos ne)
        ] in
      elim (scan_child-cases has child (suc pos) n) [
        | inl (q, e, none_of) ↦
            inl (q, rw missing e, λ p lo hi. skip p (λ ne. none_of p (omega arith) (omega arith)))
        | inr (p, e, found, lo, hi, before) ↦ inr (
          p,
          rw missing e,
          found,
          omega arith,
          omega arith,
          λ q l h. skip q (λ ne. before q (omega arith) h),
        )
      ]
]

-- What next_child returns: null, if no position that is left has a child, or the first one's child.
abbrev pub IsNext : Header → Body → (ℕ → Node) → ℕ → Node × ℕ → Type 0
IsNext h body child pos found =
    ((q : ℕ) × (found ≡ (null, q))
      × ((p : ℕ) → pos ≤ p → p < limit h body → is_null (deref child (pos_slot body p)) ≡ true))
    ⊎ ((p : ℕ) × (i : ℕ) × (found ≡ (child i, p + 1))
        × (is_null (child i) ≡ false)
        × (pos ≤ p)
        × (p < limit h body)
        × (pos_slot body p ≡ some i)
        × ((q : ℕ) → pos ≤ q → q < p → is_null (deref child (pos_slot body q)) ≡ true))

not-true : (b : Bool) → not b ≡ false → b ≡ true
not-true true e = refl
not-true false e = absurd (ground arith)

not-false : (b : Bool) → not b ≡ true → b ≡ false
not-false true e = absurd (ground arith)
not-false false e = refl

-- A Node4 and a Node16 have a child at each position below the count.
abbrev counted_child : ℕ → (ℕ → Node) → ℕ → Node × ℕ
counted_child count child pos = if ltb pos count then (child pos, pos + 1) else (null, pos)

sorted_next :
    (count : ℕ) (child : ℕ → Node) (pos : ℕ)
    → ((i : ℕ) → i < count → is_null (child i) ≡ false)
    → ((counted_child count child pos ≡ (null, pos)) × (count ≤ pos))
      ⊎ ((counted_child count child pos ≡ (child pos, pos + 1))
          × (pos < count)
          × (is_null (child pos) ≡ false))
sorted_next count child pos full = elim (Bool-cases (ltb pos count)) [
  | inl lt ↦ inr (rw lt refl, ground (arith, lt), full pos (ground (arith, lt)))
  | inr ge ↦ inl (rw ge refl, ground (arith, ge))
]

pub next_child-IsNext :
    (h : Header) (body : Body) (child : ℕ → Node) (pos : ℕ)
    → IsNode h body child
    → IsNext h body child pos (next_child h body child pos)
unfolding next_child
next_child-IsNext h (node4 key) child pos (le, s) = elim (sorted_next h.count child pos s.full) [
  | inl (e, over) ↦ inl (pos, e, λ p lo hi. absurd (omega arith))
  | inr (e, lt, is) ↦ inr (pos, pos, e, is, omega arith, lt, refl, λ q l h1. absurd (omega arith))
]
next_child-IsNext h (node16 key) child pos (le, s) = elim (sorted_next h.count child pos s.full) [
  | inl (e, over) ↦ inl (pos, e, λ p lo hi. absurd (omega arith))
  | inr (e, lt, is) ↦ inr (pos, pos, e, is, omega arith, lt, refl, λ q l h1. absurd (omega arith))
]
next_child-IsNext h (node48 child_index) child pos (le, s) =
    elim (scan_child-cases (λ b. not (child_index b == empty_marker)) (λ b. child (child_index b))
      pos (256 - pos)) [
        | inl (q, e, none_of) ↦ inl (
          q,
          e,
          λ p lo hi.
              let free = not-true (child_index p == empty_marker) (none_of p lo (omega arith)) in
              rw free refl,
        )
        | inr (p, e, found, lo, hi, before) ↦
            let taken = not-false (child_index p == empty_marker) found in
            inr (
              p,
              child_index p,
              e,
              s.full p (==→ne (child_index p) empty_marker taken),
              lo,
              omega arith,
              rw taken refl,
              λ q l h1.
                  let free = not-true (child_index q == empty_marker) (before q l h1) in
                  rw free refl,
            )
      ]
next_child-IsNext h node256 child pos valid =
    elim (scan_child-cases (λ b. not (is_null (child b))) child pos (256 - pos)) [
      | inl (q, e, none_of) ↦
          inl (q, e, λ p lo hi. not-true (is_null (child p)) (none_of p lo (omega arith)))
      | inr (p, e, found, lo, hi, before) ↦ inr (
        p,
        p,
        e,
        not-false (is_null (child p)) found,
        lo,
        omega arith,
        refl,
        λ q l h1. not-true (is_null (child q)) (before q l h1),
      )
    ]
