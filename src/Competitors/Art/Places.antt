-- ===== src/Competitors/Art/Places.antt =====
-- competitors/art_primary_lb.h: the insertion of a key among the sorted keys of a Node4 or a
-- Node16.
use sosd.Prelude.{
  ℕ, suc, ◌+◌, ◌-◌, ◌==◌, ◌≤◌, ◌<◌, ◌≡◌, ◌≢◌, inl, inr, refl, sym, subst, ◌∙◌, some, true, false,
  ltb, if◌then◌else◌, Bool-cases, ==→eq, ne→==, eq→==, ltb→lt, ltb→le, lt→ltb, le→ltb, arith,
}
use sosd.Competitors.Art.Nodes.{
  Header, Body, Node, inner, is_null, find_key, find_child, deref, insert_pos, shift_in,
  insert_sorted,
}
use sosd.Competitors.Art.Slots.{
  Sorted, IsNode, child_at, find_key-cases, find_key-at, insert_pos-bounds, shift_in-Sorted,
}

pub shift_in-lt {ℓ} :
    {A : Type ℓ} (f : ℕ → A) (pos : ℕ) (v : A) (j : ℕ) → j < pos → shift_in f pos v j ≡ f j
unfolding shift_in
shift_in-lt f pos v j h = rw (lt→ltb j pos h) refl

pub shift_in-at {ℓ} : {A : Type ℓ} (f : ℕ → A) (pos : ℕ) (v : A) → shift_in f pos v pos ≡ v
unfolding shift_in
shift_in-at f pos v = rw (le→ltb pos pos (omega arith), eq→== pos pos refl) refl

pub shift_in-gt {ℓ} :
    {A : Type ℓ} (f : ℕ → A) (pos : ℕ) (v : A) (j : ℕ) → pos ≤ j → shift_in f pos v (suc j) ≡ f j
unfolding shift_in
shift_in-gt f pos v j h =
    let e : suc j - 1 ≡ j = omega arith in
    rw (le→ltb (suc j) pos (omega arith), ne→== (suc j) pos (omega arith), e) refl

-- What the insertion of the child `c` for the byte `b` makes of a node.
pub record Adds (h : Header) (body : Body) (child : ℕ → Node) (b : ℕ) (c : Node) (t : Node)
    : Type 0 where
  pub header : Header
  pub now : Body
  pub children : ℕ → Node
  pub is : t ≡ inner header now children
  pub valid : IsNode header now children
  pub same_length : header.prefix_length ≡ h.prefix_length
  pub same_prefix : header.prefix ≡ h.prefix
  pub reads :
      (a : ℕ)
      → a < 256
      → child_at header now children a ≡ (if a == b then c else child_at h body child a)

-- A byte without a child is none of the keys.
pub absent_key :
    (count : ℕ) (key : ℕ → ℕ) (child : ℕ → Node) (b : ℕ)
    → Sorted count key child
    → is_null (deref child (find_key key b 0 count)) ≡ true
    → (j : ℕ) → j < count
    → key j ≢ b
absent_key count key child b s absent j h = elim (find_key-cases key b 0 count) [
  | inl (e, none_of) ↦ none_of j (omega arith) (omega arith)
  | inr (i, e, lo, hi, k) ↦
      let taken : is_null (child i) ≡ false = s.full i (omega arith) in
      let open_at : is_null (deref child (some i)) ≡ true =
        subst (λ o. is_null (deref child o) ≡ true) e absent in
      absurd (cc)
]

module _ (count : ℕ) (key : ℕ → ℕ) (child : ℕ → Node) (b pos : ℕ) (c : Node)
    (s : Sorted count key child) (le : pos ≤ count) (below : (j : ℕ) → j < pos → key j < b)
    (above : (j : ℕ) → pos ≤ j → j < count → b < key j) (child_is : is_null c ≡ false)
    (small : b < 256) where
  shifted : Sorted (count + 1) (shift_in key pos b) (shift_in child pos c)
  shifted = shift_in-Sorted count key child b pos c s le below above child_is small

  shift_in-reads :
      (a : ℕ)
      → deref (shift_in child pos c) (find_key (shift_in key pos b) a 0 (count + 1))
        ≡ (if a == b then c else deref child (find_key key a 0 count))
  shift_in-reads a =
      let at_key = find_key-at (count + 1) (shift_in key pos b) (shift_in child pos c) in
      elim (Bool-cases (a == b)) [
        | inl eq ↦
            let found : find_key (shift_in key pos b) b 0 (count + 1) ≡ some pos =
              subst (λ k. find_key (shift_in key pos b) k 0 (count + 1) ≡ some pos)
                (shift_in-at key pos b) (at_key pos shifted (omega arith)) in
            rw (eq, ==→eq a b eq, found) (shift_in-at child pos c)
        | inr ne ↦ elim (find_key-cases key a 0 count) [
          | inl (e, none_of) ↦ elim (find_key-cases (shift_in key pos b) a 0 (count + 1)) [
            | inl (e1, none_of1) ↦ rw (ne, e, e1) refl
            | inr (j, e1, lo, hi, k) ↦ elim (Bool-cases (ltb j pos)) [
              | inl lt ↦ absurd (
                  none_of j (omega arith) (ground (arith, lt))
                    (sym (shift_in-lt key pos b j (ltb→lt j pos lt)) ∙ k))
              | inr ge ↦ elim (Bool-cases (j == pos)) [
                | inl same ↦ absurd (ground (arith, shift_in-at key pos b, ==→eq j pos same))
                | inr other ↦
                    let (i, is) : (i : ℕ) × (j ≡ suc i) = (j - 1, ground arith) in
                    absurd (
                      none_of i (omega arith) (omega arith)
                        (sym (shift_in-gt key pos b i (ground arith)) ∙ (rw is at k)))
              ]
            ]
          ]
          | inr (j, e, lo, hi, k) ↦ elim (Bool-cases (ltb j pos)) [
            | inl lt ↦
                let found : find_key (shift_in key pos b) a 0 (count + 1) ≡ some j =
                  subst (λ x. find_key (shift_in key pos b) x 0 (count + 1) ≡ some j)
                    (shift_in-lt key pos b j (ltb→lt j pos lt) ∙ k)
                    (at_key j shifted (omega arith)) in
                rw (ne, e, found) (shift_in-lt child pos c j (ltb→lt j pos lt))
            | inr ge ↦
                let found : find_key (shift_in key pos b) a 0 (count + 1) ≡ some (suc j) =
                  subst (λ x. find_key (shift_in key pos b) x 0 (count + 1) ≡ some (suc j))
                    (shift_in-gt key pos b j (ltb→le j pos ge) ∙ k)
                    (at_key (suc j) shifted (omega arith)) in
                rw (ne, e, found) (shift_in-gt child pos c j (ltb→le j pos ge))
          ]
        ]
      ]

-- Where the place of a byte that is none of the keys is found.
place :
    (count : ℕ) (key : ℕ → ℕ) (b : ℕ)
    → ((j : ℕ) → j < count → key j ≢ b)
    → (pos : ℕ) × (insert_pos key b 0 count ≡ pos)
      × (pos ≤ count)
      × ((j : ℕ) → j < pos → key j < b)
      × ((k : ℕ → ℕ) (child : ℕ → Node)
          → Sorted count key child
          → (j : ℕ) → pos ≤ j
          → j < count
          → b < key j)
place count key b absent =
    let (lo, hi, below, above) = insert_pos-bounds key b 0 count in
    (
      insert_pos key b 0 count,
      refl,
      omega arith,
      λ j h. below j (omega arith) h,
      λ k child s j l h. elim (Bool-cases (j == insert_pos key b 0 count)) [
        | inl same ↦
            ground (arith, above (omega arith), absent j h, ==→eq j (insert_pos key b 0 count) same)
        | inr other ↦ ground (arith, above (omega arith), s.increasing (insert_pos key b 0 count) j)
      ],
    )

module _ (h : Header) (key : ℕ → ℕ) (child : ℕ → Node) (b : ℕ) (c : Node)
    (s : Sorted h.count key child)
    (absent : is_null (deref child (find_key key b 0 h.count)) ≡ true)
    (child_is : is_null c ≡ false) (small : b < 256) where
  pub insert_sorted-Adds :
      (body : (ℕ → ℕ) → Body)
      → ((g : Header) (k : ℕ → ℕ) (a : ℕ) → find_child g (body k) a ≡ find_key k a 0 g.count)
      → ((k : ℕ → ℕ) (ch : ℕ → Node)
          → Sorted (h.count + 1) k ch
          → IsNode
              (record { prefix_length = h.prefix_length; count = h.count + 1; prefix = h.prefix })
              (body k)
              ch)
      → Adds h (body key) child b c (insert_sorted body h key child b c)
  unfolding insert_sorted
  insert_sorted-Adds body finds valid_if =
      let (pos, e, le, below, above) =
        place h.count key b (absent_key h.count key child b s absent) in
      let g : Header = record {
        prefix_length = h.prefix_length;
        count = h.count + 1;
        prefix = h.prefix;
      } in
      record {
        header = g;
        now = body (shift_in key pos b);
        children = shift_in child pos c;
        is = rw e refl;
        valid = valid_if (shift_in key pos b) (shift_in child pos c) (
            shift_in-Sorted h.count key child b pos c s le below (above key child s) child_is
              small);
        same_length = refl;
        same_prefix = refl;
        reads = λ a lt.
            rw (finds g (shift_in key pos b) a, finds h key a)
              (shift_in-reads h.count key child b pos c s le below (above key child s) child_is
                small a);
      }
