-- ===== src/Competitors/Art/Growth.antt =====
-- competitors/art_primary_lb.h: insertNode4 to insertNode256, with the growth to the next type of
-- node.
use sosd.Prelude.{
  ℕ, zero, suc, ◌+◌, ◌==◌, ◌≤◌, ◌<◌, ◌≡◌, ◌≢◌, ◌⊎◌, inl, inr, refl, ap, sym, subst, ◌∙◌, Option,
  none, some, true, false, ltb, if◌then◌else◌, Bool-cases, ==→eq, ne→==, lt→ltb, le→ltb, arith,
}
use sosd.Competitors.Art.Nodes.{
  Header, Body, node4, node16, node48, node256, Node, null, inner, is_null, empty_marker, update,
  find_key, find_child, deref, insert_sorted, insert_node4, insert_node16, insert_node256,
  insert_child, index_loop, grown_header,
}
use sosd.Competitors.Art.Slots.{Sorted, Indexed, IsNode, child_at, find_key-cases, find_key-at}
use sosd.Competitors.Art.Places.{Adds, insert_sorted-Adds}
use sosd.Competitors.Art.Wide.{Adds-from, Returns, insert_node48-Adds, insert_node256-Adds}

-- The index that is read off sorted keys finds the slots of the keys.
abbrev slot_or : Option ℕ → ℕ → ℕ
slot_or none d = d
slot_or (some i) d = i

index_loop-reads :
    (key : ℕ → ℕ) (child : ℕ → Node) (count b i n : ℕ) (child_index : ℕ → ℕ)
    → Sorted count key child
    → i + n ≡ count
    → index_loop key child_index i n b ≡ slot_or (find_key key b i n) (child_index b)
unfolding index_loop find_key
index_loop-reads key child count b i zero child_index s e = refl
index_loop-reads key child count b i (suc n) child_index s e =
    let ih =
      index_loop-reads key child count b (suc i) n (update child_index (key i) i) s (omega arith) in
    elim (Bool-cases (key i == b)) [
      | inl eq ↦ elim (find_key-cases key b (suc i) n) [
        | inl (q, none_of) ↦
            let back : (b == key i) ≡ true = ground (arith, eq) in rw (eq, ih, q, back) refl
        | inr (j, q, lo, hi, k) ↦ absurd (ground (arith, s.increasing i j, ==→eq (key i) b eq))
      ]
      | inr ne ↦ let back : (b == key i) ≡ false = ground (arith, ne) in rw (ne, ih, back) refl
    ]

module _ (h : Header) (key : ℕ → ℕ) (child : ℕ → Node) (s : Sorted h.count key child) where
  abbrev indexed : ℕ → ℕ
  indexed = index_loop key (λ b. empty_marker) 0 h.count

  abbrev copied : ℕ → Node
  copied i = if ltb i h.count then child i else null

  -- The slot of a byte in the new index.
  indexed-cases :
      h.count < 48
      → (b : ℕ)
      → ((indexed b ≡ empty_marker) × (find_key key b 0 h.count ≡ none))
        ⊎ ((j : ℕ) × (indexed b ≡ j)
            × (find_key key b 0 h.count ≡ some j)
            × (j < h.count)
            × (key j ≡ b))
  indexed-cases room b =
      let reads =
        index_loop-reads key child h.count b 0 h.count (λ b. empty_marker) s (omega arith) in
      elim (find_key-cases key b 0 h.count) [
        | inl (q, none_of) ↦ inl (rw q at reads, q)
        | inr (j, q, lo, hi, k) ↦ inr (j, rw q at reads, q, omega arith, k)
      ]

  indexed-at :
      h.count < 48
      → (b : ℕ) → indexed b ≢ empty_marker
      → (j : ℕ) × (indexed b ≡ j) × (j < h.count) × (key j ≡ b)
  indexed-at room b is = elim (indexed-cases room b) [
    | inl (e, q) ↦ absurd (is e)
    | inr (j, e, q, lt, k) ↦ (j, e, lt, k)
  ]

  indexed-Indexed : h.count < 48 → Indexed h.count indexed copied
  indexed-Indexed room = record {
    used = λ b is. let (j, e, lt, k) = indexed-at room b is in omega (arith, e);
    distinct = λ x y is e.
        let (i, ei, lti, ki) = indexed-at room x is in
        let (j, ej, ltj, kj) = indexed-at room y (λ z. is (e ∙ z)) in
        let same : i ≡ j = omega (arith, e, ei, ej) in sym ki ∙ (ap key same ∙ kj);
    full = λ b is.
        let (j, e, lt, k) = indexed-at room b is in rw (e, lt→ltb j h.count lt) (s.full j lt);
    free = λ j le. rw (le→ltb j h.count le) refl;
  }

  indexed-reads :
      (g : Header)
      → h.count < 48
      → (a : ℕ) → child_at g (node48 indexed) copied a ≡ deref child (find_key key a 0 h.count)
  unfolding find_child
  indexed-reads g room a = elim (indexed-cases room a) [
    | inl (e, q) ↦ rw (e, q) refl
    | inr (j, e, q, lt, k) ↦ rw (e, q, ne→== j empty_marker (omega arith), lt→ltb j h.count lt) refl
  ]

insert_node16-Adds :
    (h : Header) (key : ℕ → ℕ) (child : ℕ → Node) (b : ℕ) (c : Node)
    → h.count ≤ 16
    → Sorted h.count key child
    → b < 256
    → is_null (child_at h (node16 key) child b) ≡ true
    → is_null c ≡ false
    → Returns (insert_node16 h key child b c) (Adds h (node16 key) child b c)
unfolding insert_node16 find_child
insert_node16-Adds h key child b c le s small absent child_is = elim (Bool-cases (ltb h.count 16)) [
  | inl room ↦ (
    insert_sorted node16 h key child b c,
    rw room refl,
    insert_sorted-Adds h key child b c s absent child_is small node16 (λ g k a. refl)
        (λ k ch sorted. (ground (arith, room), sorted)),
  )
  | inr full ↦
      let reads = indexed-reads h key child s (grown_header h) (omega arith) in
      let (t, e, adds) =
        insert_node48-Adds (grown_header h) (indexed h key child s) (copied h key child s) b c
          (omega arith) (indexed-Indexed h key child s (omega arith))
          (ap is_null (reads b) ∙ absent) child_is in
      (
        t,
        rw full e,
        Adds-from h (grown_header h) (node16 key) (node48 (indexed h key child s)) child
            (copied h key child s) b c t refl refl (λ a lt. reads a) adds,
      )
]

-- The copies of a full Node4's arrays.
copies-Sorted :
    (count : ℕ) (key : ℕ → ℕ) (child : ℕ → Node)
    → count ≡ 4
    → Sorted count key child
    → Sorted 4 (λ i. if ltb i 4 then key i else 0) (λ i. if ltb i count then child i else null)
copies-Sorted count key child four s = record {
  increasing =
      λ i j lt hi. rw (lt→ltb i 4 (omega arith), lt→ltb j 4 hi) (s.increasing i j lt (omega arith));
  full = λ i hi. rw (lt→ltb i count (omega arith)) (s.full i (omega arith));
  are_bytes = λ i hi. rw (lt→ltb i 4 hi) (s.are_bytes i (omega arith));
}

copies-reads :
    (count : ℕ) (key : ℕ → ℕ) (child : ℕ → Node) (a : ℕ)
    → count ≡ 4
    → Sorted count key child
    → deref
        (λ i. if ltb i count then child i else null)
        (find_key (λ i. if ltb i 4 then key i else 0) a 0 4)
      ≡ deref child (find_key key a 0 count)
copies-reads count key child a four s =
    elim (find_key-cases (λ i. if ltb i 4 then key i else 0) a 0 4) [
      | inl (e, none_of) ↦ elim (find_key-cases key a 0 count) [
        | inl (q, none_of2) ↦ rw (e, q) refl
        | inr (j, q, lo, hi, k) ↦
            absurd (none_of j lo (omega arith) (rw (lt→ltb j 4 (omega arith)) k))
      ]
      | inr (j, e, lo, hi, k) ↦
          let key_is : key j ≡ a = rw (lt→ltb j 4 hi) at k in
          let found : find_key key a 0 count ≡ some j =
            subst (λ x. find_key key x 0 count ≡ some j) key_is
              (find_key-at count key child j s (omega arith)) in
          rw (e, found, lt→ltb j count (omega arith)) refl
    ]

insert_node4-Adds :
    (h : Header) (key : ℕ → ℕ) (child : ℕ → Node) (b : ℕ) (c : Node)
    → h.count ≤ 4
    → Sorted h.count key child
    → b < 256
    → is_null (child_at h (node4 key) child b) ≡ true
    → is_null c ≡ false
    → Returns (insert_node4 h key child b c) (Adds h (node4 key) child b c)
unfolding insert_node4 find_child
insert_node4-Adds h key child b c le s small absent child_is = elim (Bool-cases (ltb h.count 4)) [
  | inl room ↦ (
    insert_sorted node4 h key child b c,
    rw room refl,
    insert_sorted-Adds h key child b c s absent child_is small node4 (λ g k a. refl)
        (λ k ch sorted. (ground (arith, room), sorted)),
  )
  | inr full ↦
      let four : h.count ≡ 4 = ground arith in
      let key1 : ℕ → ℕ = λ i. if ltb i 4 then key i else 0 in
      let child1 : ℕ → Node = λ i. if ltb i h.count then child i else null in
      let g : Header = record { prefix_length = h.prefix_length; count = 4; prefix = h.prefix } in
      let reads = λ (a : ℕ). copies-reads h.count key child a four s in
      let (t, e, adds) =
        insert_node16-Adds g key1 child1 b c (omega arith) (copies-Sorted h.count key child four s)
          small (ap is_null (reads b) ∙ absent) child_is in
      (
        t,
        rw full e,
        Adds-from h g (node4 key) (node16 key1) child child1 b c t refl refl (λ a lt. reads a) adds,
      )
]

-- In a valid inner node of any of the four types, the insertion of a child for a byte that has none
-- ends normally with a valid node, which may be of the next type, in which the byte has the child,
-- every other byte has the child that it had, and the prefix is the same.
pub insert_child-Adds :
    (h : Header) (body : Body) (child : ℕ → Node) (b : ℕ) (c : Node)
    → IsNode h body child
    → b < 256
    → is_null (child_at h body child b) ≡ true
    → is_null c ≡ false
    → Returns (insert_child (inner h body child) b c) (Adds h body child b c)
unfolding insert_child
insert_child-Adds h (node4 key) child b c (le, s) small absent child_is =
    insert_node4-Adds h key child b c le s small absent child_is
insert_child-Adds h (node16 key) child b c (le, s) small absent child_is =
    insert_node16-Adds h key child b c le s small absent child_is
insert_child-Adds h (node48 child_index) child b c (le, s) small absent child_is =
    insert_node48-Adds h child_index child b c le s absent child_is
insert_child-Adds h node256 child b c valid small absent child_is =
    (insert_node256 h child b c, refl, insert_node256-Adds h child b c)
