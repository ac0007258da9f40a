-- ===== src/Competitors/Art/Wide.antt =====
-- competitors/art_primary_lb.h: insertNode48, with the growth to a Node256, and insertNode256.
use sosd.Prelude.{
  ℕ, ◌+◌, ◌==◌, ◌≤◌, ◌<◌, ◌≡◌, inl, inr, refl, ap, ◌∙◌, true, false, ltb, if◌then◌else◌, Run, ok,
  Bool-cases, ==→eq, ==→ne, ne→==, eq→==, arith,
}
use sosd.Competitors.Art.Nodes.{
  Header, Body, node48, node256, Node, null, inner, is_null, empty_marker, update, find_child,
  insert_node48, insert_node256, grown_header,
}
use sosd.Competitors.Art.Slots.{Indexed, child_at}
use sosd.Competitors.Art.Places.{Adds}

-- A node with the same prefix and the same children takes a child as the first does.
pub Adds-from :
    (h g : Header) (body body1 : Body) (child child1 : ℕ → Node) (b : ℕ) (c t : Node)
    → g.prefix_length ≡ h.prefix_length
    → g.prefix ≡ h.prefix
    → ((a : ℕ) → a < 256 → child_at g body1 child1 a ≡ child_at h body child a)
    → Adds g body1 child1 b c t
    → Adds h body child b c t
Adds-from h g body body1 child child1 b c t lengths prefixes same adds = record {
  header = adds.header;
  now = adds.now;
  children = adds.children;
  is = adds.is;
  valid = adds.valid;
  same_length = adds.same_length ∙ lengths;
  same_prefix = adds.same_prefix ∙ prefixes;
  reads = λ a small. adds.reads a small ∙ ap (λ (t : Node). if a == b then c else t) (same a small);
}

pub insert_node256-Adds :
    (h : Header) (child : ℕ → Node) (b : ℕ) (c : Node)
    → Adds h node256 child b c (insert_node256 h child b c)
unfolding insert_node256 find_child
insert_node256-Adds h child b c = record {
  header = record { prefix_length = h.prefix_length; count = h.count + 1; prefix = h.prefix };
  now = node256;
  children = update child b c;
  is = refl;
  valid = tt;
  same_length = refl;
  same_prefix = refl;
  reads = λ a small. refl;
}

-- What an insertion returns.
abbrev pub Returns : Run Node → (Node → Type 0) → Type 0
Returns r P = (t : Node) × (r ≡ ok t) × P t

unindexed :
    (h : Header) (child_index : ℕ → ℕ) (child : ℕ → Node) (b : ℕ)
    → Indexed h.count child_index child
    → is_null (child_at h (node48 child_index) child b) ≡ true
    → child_index b ≡ empty_marker
unfolding find_child
unindexed h child_index child b s absent = elim (Bool-cases (child_index b == empty_marker)) [
  | inl eq ↦ ==→eq (child_index b) empty_marker eq
  | inr ne ↦
      let full : is_null (child (child_index b)) ≡ false =
        s.full b (==→ne (child_index b) empty_marker ne) in
      let free : is_null (child (child_index b)) ≡ true = rw ne at absent in absurd (cc)
]

update-Indexed :
    (count : ℕ) (child_index : ℕ → ℕ) (child : ℕ → Node) (b : ℕ) (c : Node)
    → Indexed count child_index child
    → child_index b ≡ empty_marker
    → is_null c ≡ false
    → Indexed (count + 1) (update child_index b count) (update child count c)
update-Indexed count child_index child b c s free_b child_is = record {
  used = λ a is. ground (arith, s.used a);
  distinct = λ x y is e. ground (arith, s.used x, s.used y, s.distinct x y);
  full = λ a is. ground (arith, s.used a, s.full a);
  free = λ j le. ground (arith, s.free j);
}

update-reads :
    (h g : Header) (child_index : ℕ → ℕ) (child : ℕ → Node) (b : ℕ) (c : Node)
    → Indexed h.count child_index child
    → child_index b ≡ empty_marker
    → h.count < 48
    → (a : ℕ)
    → child_at g (node48 (update child_index b h.count)) (update child h.count c) a
      ≡ (if a == b then c else child_at h (node48 child_index) child a)
unfolding find_child
update-reads h g child_index child b c s free_b room a = elim (Bool-cases (a == b)) [
  | inl eq ↦ rw (eq, ne→== h.count empty_marker (omega arith), eq→== h.count h.count refl) refl
  | inr ne ↦ elim (Bool-cases (child_index a == empty_marker)) [
    | inl free ↦ rw (ne, free) refl
    | inr taken ↦
        let used = s.used a (==→ne (child_index a) empty_marker taken) in
        rw (ne, taken, ne→== (child_index a) h.count (omega arith)) refl
  ]
]

grown-reads :
    (h g : Header) (child_index : ℕ → ℕ) (child : ℕ → Node) (a : ℕ)
    → child_at g node256
        (λ i. if child_index i == empty_marker then null else child (child_index i))
        a
      ≡ child_at h (node48 child_index) child a
unfolding find_child
grown-reads h g child_index child a = elim (Bool-cases (child_index a == empty_marker)) [
  | inl free ↦ rw free refl
  | inr taken ↦ rw taken refl
]

pub insert_node48-Adds :
    (h : Header) (child_index : ℕ → ℕ) (child : ℕ → Node) (b : ℕ) (c : Node)
    → h.count ≤ 48
    → Indexed h.count child_index child
    → is_null (child_at h (node48 child_index) child b) ≡ true
    → is_null c ≡ false
    → Returns (insert_node48 h child_index child b c) (Adds h (node48 child_index) child b c)
unfolding insert_node48 find_child
insert_node48-Adds h child_index child b c le s absent child_is =
    let free_b = unindexed h child_index child b s absent in
    elim (Bool-cases (ltb h.count 48)) [
      | inl room ↦
          let g : Header = record {
            prefix_length = h.prefix_length;
            count = h.count + 1;
            prefix = h.prefix;
          } in
          let t : Node = inner g (node48 (update child_index b h.count)) (update child h.count c) in
          (
            t,
            rw (room, s.free h.count (omega arith)) refl,
            record {
              header = g;
              now = node48 (update child_index b h.count);
              children = update child h.count c;
              is = refl;
              valid = (
                ground (arith, room),
                update-Indexed h.count child_index child b c s free_b child_is,
              );
              same_length = refl;
              same_prefix = refl;
              reads = λ a small.
                  update-reads h g child_index child b c s free_b (ground (arith, room)) a;
            },
          )
      | inr full ↦
          let grown : ℕ → Node =
            λ i. if child_index i == empty_marker then null else child (child_index i) in
          (
            insert_node256 (grown_header h) grown b c,
            rw full refl,
            Adds-from h (grown_header h) (node48 child_index) node256 child grown b c
                (insert_node256 (grown_header h) grown b c) refl refl
                (λ a small. grown-reads h (grown_header h) child_index child a)
                (insert_node256-Adds (grown_header h) grown b c),
          )
    ]
