-- ===== src/Competitors/Art/Children.antt =====
-- competitors/art_primary_lb.h: trees whose nodes take a child, lose part of their prefix, or
-- change a child.
use sosd.Prelude.{
  ℕ, ◌==◌, ◌<◌, ◌≡◌, ◌≢◌, ◌⊎◌, inl, inr, refl, sym, ap, subst, ◌∙◌, List, [], ◌∷◌, ◌++◌, none, some,
  true, false, Bool-cases, eq→==, ==→eq, ==→ne, if◌then◌else◌, arith,
}
use sosd.Data.{KeyValue}
use sosd.Competitors.Art.Nodes.{
  Header, Body, node4, node16, node48, node256, Node, null, leaf, inner, is_null, empty_marker,
  update, find_key, find_child,
}
use sosd.Competitors.Art.Slots.{Sorted, IsNode, child_at, find_key-cases}
use sosd.Competitors.Art.Places.{Adds}
use sosd.Competitors.Art.Found.{some_injective}
use sosd.Competitors.Art.Shape.{
  Contains, IsTree, IsTree-children, IsTree-child_at, Contains-child_at, child_at-Contains,
}

Contains-null : (t : Node) (tid : ℕ) → is_null t ≡ true → ¬ Contains t tid
Contains-null null tid e c = c
Contains-null (leaf other) tid e c = ground arith
Contains-null (inner h body child) tid e c = ground arith

key_of :
    (count : ℕ) (key : ℕ → ℕ) (a b i : ℕ)
    → find_key key a 0 count ≡ some i
    → find_key key b 0 count ≡ some i
    → a ≡ b
key_of count key a b i ea eb = elim (find_key-cases key a 0 count) [
  | inl (e, none_of) ↦ absurd (cc)
  | inr (j, e, lo, hi, k) ↦ elim (find_key-cases key b 0 count) [
    | inl (q, none_of) ↦ absurd (cc)
    | inr (l, q, lo1, hi1, m) ↦
        let ja : j ≡ i = some_injective (sym e ∙ ea) in
        let lb : l ≡ i = some_injective (sym q ∙ eb) in sym k ∙ (ap key (ja ∙ sym lb) ∙ m)
  ]
]

index_of :
    (child_index : ℕ → ℕ) (b i : ℕ)
    → (if child_index b == empty_marker then none else some (child_index b)) ≡ some i
    → (child_index b ≢ empty_marker) × (child_index b ≡ i)
index_of child_index b i e = elim (Bool-cases (child_index b == empty_marker)) [
  | inl eq ↦ absurd (ground (arith, rw eq at e))
  | inr ne ↦ (==→ne (child_index b) empty_marker ne, some_injective (rw ne at e))
]

update-Sorted :
    (count : ℕ) (key : ℕ → ℕ) (child : ℕ → Node) (i : ℕ) (t : Node)
    → Sorted count key child
    → is_null t ≡ false
    → Sorted count key (update child i t)
update-Sorted count key child i t s is = record {
  increasing = s.increasing;
  are_bytes = s.are_bytes;
  full = λ j lt. ground (arith, s.full j lt);
}

module _ (entries : List KeyValue) (path : List ℕ) (h : Header) (body : Body) (child : ℕ → Node)
    (b : ℕ) (c t : Node) (small : b < 256) (adds : Adds h body child b c t) where
  pub Adds-IsTree :
      IsTree entries path (inner h body child)
      → IsTree entries (path ++ (h.prefix ++ (b ∷ []))) c
      → IsTree entries path t
  Adds-IsTree tree below =
      subst (λ x. IsTree entries path x) (sym adds.is)
        (IsTree-children entries path adds.header adds.now adds.children
          (rw (adds.same_prefix, adds.same_length) tree.0) (rw adds.same_length tree.1)
          (adds.valid, rw adds.same_prefix tree.2.1)
          (λ a lt.
            rw (adds.reads a lt, adds.same_prefix)
              (elim (Bool-cases (a == b)) [
                | inl eq ↦ rw (eq, ==→eq a b eq) below
                | inr ne ↦ rw ne (IsTree-child_at entries path h body child a tree lt)
              ])))

  pub Adds-is_null : is_null t ≡ false
  Adds-is_null = rw adds.is refl

  pub Contains-Adds :
      (tid : ℕ) → Contains t tid → Contains c tid ⊎ Contains (inner h body child) tid
  Contains-Adds tid k =
      let (a, lt, k1) =
        child_at-Contains adds.header adds.now adds.children tid
          (subst (λ x. Contains x tid) adds.is k) in
      let k2 = subst (λ x. Contains x tid) (adds.reads a lt) k1 in
      elim (Bool-cases (a == b)) [
        | inl eq ↦ inl (rw eq at k2)
        | inr ne ↦ inr (Contains-child_at h body child a tid lt (rw ne at k2))
      ]

  pub Adds-Contains_new : (tid : ℕ) → Contains c tid → Contains t tid
  Adds-Contains_new tid k =
      let eq : (b == b) ≡ true = eq→== b b refl in
      let k1 : Contains (child_at adds.header adds.now adds.children b) tid =
        subst (λ x. Contains x tid) (sym (adds.reads b small)) (rw eq k) in
      subst (λ x. Contains x tid) (sym adds.is)
        (Contains-child_at adds.header adds.now adds.children b tid small k1)

  pub Adds-Contains_old :
      is_null (child_at h body child b) ≡ true
      → (tid : ℕ) → Contains (inner h body child) tid
      → Contains t tid
  Adds-Contains_old absent tid k =
      let (a, lt, k1) = child_at-Contains h body child tid k in
      elim (Bool-cases (a == b)) [
        | inl eq ↦ absurd (
            Contains-null (child_at h body child b) tid absent
              (subst (λ x. Contains (child_at h body child x) tid) (==→eq a b eq) k1))
        | inr ne ↦
            let k2 : Contains (child_at adds.header adds.now adds.children a) tid =
              subst (λ x. Contains x tid) (sym (adds.reads a lt)) (rw ne k1) in
            subst (λ x. Contains x tid) (sym adds.is)
              (Contains-child_at adds.header adds.now adds.children a tid lt k2)
      ]

-- Two bytes of a node have different slots.
pub slot_injective :
    (h : Header) (body : Body) (child : ℕ → Node) (a b i : ℕ)
    → IsNode h body child
    → find_child h body a ≡ some i
    → find_child h body b ≡ some i
    → a ≡ b
unfolding find_child
slot_injective h (node4 key) child a b i valid ea eb = key_of h.count key a b i ea eb
slot_injective h (node16 key) child a b i valid ea eb = key_of h.count key a b i ea eb
slot_injective h (node48 child_index) child a b i (le, s) ea eb =
    let (ta, ia) = index_of child_index a i ea in
    let (tb, ib) = index_of child_index b i eb in s.distinct a b ta (ia ∙ sym ib)
slot_injective h node256 child a b i valid ea eb = some_injective (ea ∙ sym eb)

-- A child that is replaced by another.
pub update-IsNode :
    (h : Header) (body : Body) (child : ℕ → Node) (b i : ℕ) (t : Node)
    → IsNode h body child
    → find_child h body b ≡ some i
    → is_null t ≡ false
    → IsNode h body (update child i t)
unfolding find_child
update-IsNode h (node4 key) child b i t (le, s) e is =
    (le, update-Sorted h.count key child i t s is)
update-IsNode h (node16 key) child b i t (le, s) e is =
    (le, update-Sorted h.count key child i t s is)
update-IsNode h (node48 child_index) child b i t (le, s) e is =
    let (taken, at_i) = index_of child_index b i e in
    (
      le,
      record {
        used = s.used;
        distinct = s.distinct;
        full = λ a k. ground (arith, s.full a);
        free = λ j lt. ground (arith, s.free j, s.used b taken, at_i);
      },
    )
update-IsNode h node256 child b i t valid e is = tt

-- A node with another prefix finds the same children.
pub find_child-count :
    (g h : Header) (body : Body) (b : ℕ)
    → g.count ≡ h.count
    → find_child g body b ≡ find_child h body b
unfolding find_child
find_child-count g h (node4 key) b e = rw e refl
find_child-count g h (node16 key) b e = rw e refl
find_child-count g h (node48 child_index) b e = refl
find_child-count g h node256 b e = refl

pub IsNode-count :
    (g h : Header) (body : Body) (child : ℕ → Node)
    → g.count ≡ h.count
    → IsNode h body child
    → IsNode g body child
IsNode-count g h (node4 key) child e valid = rw e valid
IsNode-count g h (node16 key) child e valid = rw e valid
IsNode-count g h (node48 child_index) child e valid = rw e valid
IsNode-count g h node256 child e valid = tt
