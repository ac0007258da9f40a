-- ===== src/Competitors/Art/Inserted.antt =====
-- competitors/art_primary_lb.h: the insertion into a tree.
use sosd.Prelude.{
  ℕ, ◌+◌, ◌^◌, ◌==◌, ◌<◌, ◌≡◌, ◌⊎◌, inl, inr, refl, sym, ap, subst, ◌∙◌, List, [], ◌∷◌, ◌++◌,
  length, length-append, some, Option-cases, true, false, ltb, le→ltb, Bool-cases, eq→==, ne→==,
  ==→eq, Run, ok, at, arith,
}
use sosd.Data.{KeyValue}
use sosd.Competitors.Art.Bytes.{IsBytes, drop-append, All-append_right}
use sosd.Competitors.Art.Nodes.{
  Header, Body, Node, null, leaf, inner, is_null, make_leaf, update, find_child, insert_child,
}
use sosd.Competitors.Art.Slots.{child_at}
use sosd.Competitors.Art.Growth.{insert_child-Adds}
use sosd.Competitors.Art.Tree.{key_length, prefix_mismatch, insert_below, insert}
use sosd.Competitors.Art.Shape.{Contains, HasKey, IsTree}
use sosd.Competitors.Art.Found.{prefix-cases, at_below, path_below, length_below}
use sosd.Competitors.Art.Splits.{Joins, split_leaf-Joins, split_prefix-Joins, make_leaf-small}
use sosd.Competitors.Art.Children.{
  Adds-IsTree, Adds-is_null, Contains-Adds, Adds-Contains_new, Adds-Contains_old, slot_injective,
  update-IsNode, find_child-count,
}

-- The tree `now` has the leaves of `before` and the leaf `tid`.
pub record Inserted (entries : List KeyValue) (path : List ℕ) (before : Node) (tid : ℕ) (now : Node)
    : Type 0 where
  pub tree : IsTree entries path now
  pub is_node : is_null now ≡ false
  pub from : (other : ℕ) → Contains now other → (tid ≡ other) ⊎ Contains before other
  pub keeps : (other : ℕ) → Contains before other → Contains now other
  pub has : Contains now tid

abbrev pub Inserts : List KeyValue → List ℕ → Node → ℕ → Run Node → Type 0
Inserts entries path before tid r = (t : Node) × (r ≡ ok t) × Inserted entries path before tid t

Joins-Inserted :
    (entries : List KeyValue) (path : List ℕ) (before : Node) (tid : ℕ) (t : Node)
    → Joins entries path before (leaf tid) t
    → Inserted entries path before tid t
Joins-Inserted entries path before tid t j = record {
  tree = j.tree;
  is_node = j.is_node;
  from = λ other c. elim (j.from other c) [ inl l ↦ inr l | inr r ↦ inl r ];
  keeps = j.has_left;
  has = j.has_right tid refl;
}

module _ (entries : List KeyValue) (path s : List ℕ) (value : ℕ) (fits : value < 2 ^ 63)
    (key : HasKey entries value (path ++ s)) where
  -- The new leaf as a child of its own.
  new_child :
      (h : Header) (body : Body) (child : ℕ → Node) (b : ℕ) (r : List ℕ)
      → IsTree entries path (inner h body child)
      → s ≡ h.prefix ++ (b ∷ r)
      → b < 256
      → is_null (child_at h body child b) ≡ true
      → Inserts entries path
          (inner h body child)
          value
          (insert_child (inner h body child) b (make_leaf value))
  new_child h body child b r tree q small absent =
      let (t, e, adds) = insert_child-Adds h body child b (leaf value) tree.2.0 small absent refl in
      let below : IsTree entries (path ++ (h.prefix ++ (b ∷ []))) (leaf value) = record {
        rest = r;
        key_is = rw (path_below path h.prefix r b, sym q) key;
      } in
      (
        t,
        rw (make_leaf-small value fits) e,
        record {
          tree = Adds-IsTree entries path h body child b (leaf value) t small adds tree below;
          is_node = Adds-is_null entries path h body child b (leaf value) t small adds;
          from = Contains-Adds entries path h body child b (leaf value) t small adds;
          keeps = Adds-Contains_old entries path h body child b (leaf value) t small adds absent;
          has = Adds-Contains_new entries path h body child b (leaf value) t small adds value refl;
        },
      )

-- A child that took the leaf, in its place.
update-Inserted :
    (entries : List KeyValue) (path : List ℕ) (h : Header) (body : Body) (child : ℕ → Node)
    (b i tid : ℕ) (t : Node)
    → IsTree entries path (inner h body child)
    → b < 256
    → find_child h body b ≡ some i
    → Inserted entries (path ++ (h.prefix ++ (b ∷ []))) (child i) tid t
    → Inserted entries path (inner h body child) tid (inner h body (update child i t))
update-Inserted entries path h body child b i tid t (lengths, short, valid, below) small f ins =
    let own : (i == i) ≡ true = eq→== i i refl in
    record {
      tree = (
        lengths,
        short,
        (update-IsNode h body child b i t valid.0 f ins.is_node, valid.1),
        λ a j lt e. elim (Bool-cases (j == i)) [
          | inl eq ↦
              let slot : find_child h body a ≡ some i = e ∙ ap some (==→eq j i eq) in
              let same : a ≡ b = slot_injective h body child a b i valid.0 slot f in
              rw (eq, same) ins.tree
          | inr ne ↦ rw ne (below a j lt e)
        ],
      );
      is_node = refl;
      from = λ other (a, j, lt, e, c). elim (Bool-cases (j == i)) [
        | inl eq ↦ elim (ins.from other (rw eq at c)) [
          | inl is ↦ inl is
          | inr c1 ↦ inr (b, i, small, f, c1)
        ]
        | inr ne ↦ inr (a, j, lt, e, rw ne at c)
      ];
      keeps = λ other (a, j, lt, e, c). elim (Bool-cases (j == i)) [
        | inl eq ↦
            let c1 : Contains (child i) other =
              subst (λ x. Contains (child x) other) (==→eq j i eq) c in
            (b, i, small, f, rw own (ins.keeps other c1))
        | inr ne ↦ (a, j, lt, e, rw ne c)
      ];
      has = (b, i, small, f, rw own ins.has);
    }

-- The node that keeps the rest of its prefix has the same leaves.
Contains-count :
    (g h : Header) (body : Body) (child : ℕ → Node) (tid : ℕ)
    → g.count ≡ h.count
    → Contains (inner g body child) tid
    → Contains (inner h body child) tid
Contains-count g h body child tid e (b, i, lt, f, c) =
    (b, i, lt, sym (find_child-count g h body b e) ∙ f, c)

Joins-kept :
    (entries : List KeyValue) (path : List ℕ) (g h : Header) (body : Body) (child : ℕ → Node)
    (tid : ℕ) (t : Node)
    → g.count ≡ h.count
    → Joins entries path (inner g body child) (leaf tid) t
    → Inserted entries path (inner h body child) tid t
Joins-kept entries path g h body child tid t e j = record {
  tree = j.tree;
  is_node = j.is_node;
  from = λ other c. elim (j.from other c) [
    | inl l ↦ inr (Contains-count g h body child other e l)
    | inr r ↦ inl r
  ];
  keeps = λ other c. j.has_left other (Contains-count h g body child other (sym e) c);
  has = j.has_right tid refl;
}

module _ (entries : List KeyValue) (value : ℕ) (fits : value < 2 ^ 63) where
  -- The insertion below a node whose prefix fits, given the one into the byte's child.
  below-Inserted :
      (path s r : List ℕ) (h : Header) (body : Body) (child : ℕ → Node) (b : ℕ)
      (next : ℕ → Run Node)
      → IsTree entries path (inner h body child)
      → s ≡ h.prefix ++ (b ∷ r)
      → b < 256
      → HasKey entries value (path ++ s)
      → ((i : ℕ)
          → find_child h body b ≡ some i
          → Inserts entries (path ++ (h.prefix ++ (b ∷ []))) (child i) value (next i))
      → Inserts entries path
          (inner h body child)
          value
          (insert_below entries h body child next b value (find_child h body b))
  below-Inserted path s r h body child b next tree q small key ih =
      elim (Option-cases (find_child h body b)) [
        | inl f ↦
            rw f (new_child entries path s value fits key h body child b r tree q small (rw f refl))
        | inr (i, f) ↦ elim (Bool-cases (is_null (child i))) [
          | inl free ↦
              rw (f, free)
                (new_child entries path s value fits key h body child b r tree q small (rw f free))
          | inr taken ↦
              let (t, e, ins) = ih i f in
              (
                inner h body (update child i t),
                rw (f, taken, e) refl,
                update-Inserted entries path h body child b i value t tree small f ins,
              )
        ]
      ]

  -- The insertion of a position below 2 ^ 63 whose entry's key no leaf has ends normally, keeps the
  -- invariant of a tree, and adds exactly one leaf.
  pub insert-Inserted :
      (t : Node) (path s : List ℕ)
      → IsTree entries path t
      → length path + length s ≡ key_length
      → IsBytes s
      → HasKey entries value (path ++ s)
      → ((other : ℕ) → Contains t other → ¬ HasKey entries other (path ++ s))
      → Inserts entries path t value (insert entries t (path ++ s) (length path) value)
  unfolding insert prefix_mismatch
  insert-Inserted null path s tree size small key absent = (
    leaf value,
    rw (make_leaf-small value fits) refl,
    record {
      tree = record { rest = s; key_is = key };
      is_node = refl;
      from = λ other c. inl c;
      keeps = λ other c. absurd c;
      has = refl;
    },
  )
  insert-Inserted (leaf tid) path s tree size small key absent =
      let (t, e, joins) =
        split_leaf-Joins entries path s value fits size small key tid tree (absent tid refl) in
      (t, e, Joins-Inserted entries path (leaf tid) value t joins)
  insert-Inserted (inner h body child) path s (lengths, short, valid, below) size small key absent =
      let near : ltb 9 h.prefix_length ≡ false = le→ltb 9 h.prefix_length (omega arith) in
      elim (prefix-cases s h lengths (omega arith)) [
        | inr (d, e, lt) ↦
            let (t, run, joins) =
              split_prefix-Joins entries path s value fits size small key h body child d
                (lengths, short, valid, below) lt in
            let g : Header = record {
              prefix_length = length d.right_rest;
              count = h.count;
              prefix = d.right_rest;
            } in
            (
              t,
              rw
                  (
                    near,
                    drop-append path s,
                    e,
                    ne→== (length d.common) h.prefix_length (omega arith),
                  )
                  run,
              Joins-kept entries path g h body child value t refl joins,
            )
        | inl (b, r, e, q) ↦
            let read : at (path ++ s) (length path + h.prefix_length) ≡ ok b =
              rw (q, sym lengths) (at_below path h.prefix r b) in
            let bytes = All-append_right (λ x. x < 256) h.prefix (b ∷ r) (subst IsBytes q small) in
            let eqs : (h.prefix_length == h.prefix_length) ≡ true = ground arith in
            let key_is = path_below path h.prefix r b ∙ ap (λ (z : List ℕ). path ++ z) (sym q) in
            let depth_is : length (path ++ (h.prefix ++ (b ∷ [])))
                ≡ length path + h.prefix_length + 1 =
              omega (arith, length_below path h.prefix b) in
            rw (near, drop-append path s, e, eqs, read)
              (below-Inserted path s r h body child b
                (λ i.
                  insert entries (child i) (path ++ s) (length path + h.prefix_length + 1) value)
                (lengths, short, valid, below) q bytes.0 key
                (λ i f.
                  let path1 = path ++ (h.prefix ++ (b ∷ [])) in
                  let ih =
                    insert-Inserted (child i) path1 r (below b i bytes.0 f)
                      (omega (arith, ap length q, length-append {0} h.prefix (b ∷ r))) bytes.1
                      (subst (λ k. HasKey entries value k) (sym key_is) key)
                      (λ other c k.
                        absent other (b, i, bytes.0, f, c)
                          (subst (λ x. HasKey entries other x) key_is k)) in
                  subst
                    (λ k.
                      Inserts entries path1 (child i) value
                        (insert entries (child i) k (length path + h.prefix_length + 1) value))
                    key_is
                    (subst
                      (λ n.
                        Inserts entries path1 (child i) value
                          (insert entries (child i) (path1 ++ r) n value))
                      depth_is ih)))
      ]
