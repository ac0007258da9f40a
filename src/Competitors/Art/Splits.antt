-- ===== src/Competitors/Art/Splits.antt =====
-- competitors/art_primary_lb.h: a new Node4 above two trees, for a leaf or a node whose bytes
-- differ from the key's.
use sosd.Prelude.{
  ℕ, suc, ◌+◌, ◌-◌, ◌%◌, ◌^◌, ◌≤◌, ◌<◌, ◌≡◌, ◌≢◌, ◌⊎◌, inl, inr, refl, sym, ap, subst, ◌∙◌, List,
  [], ◌∷◌, ◌++◌, length, length-append, take, drop, min, none, true, false, ltb, lt→ltb, ne→==, ok,
  at, arith,
}
use mathlib.Core.List.{append_assoc}
use native.Mathlib.Nat.{min-eq_left}
use sosd.Data.{KeyValue}
use sosd.Competitors.Art.Bytes.{
  IsBytes, mismatch, mismatch-cases, mismatch-at, Differ, Agree-whole, drop-append, All-append_left,
  All-append_right,
}
use sosd.Competitors.Art.Nodes.{
  Header, Body, node4, Node, leaf, inner, is_null, make_leaf, no_child, find_key, find_child,
  insert_child,
}
use sosd.Competitors.Art.Slots.{IsNode, child_at}
use sosd.Competitors.Art.Growth.{insert_child-Adds}
use sosd.Competitors.Art.Tree.{key_length, split_leaf, split_prefix}
use sosd.Competitors.Art.Shape.{Contains, HasKey, Continues, IsTree}
use sosd.Competitors.Art.Found.{load_key-IsBytes, at_below, at_end, path_below, length_below}
use sosd.Competitors.Art.Children.{
  Adds-IsTree, Adds-is_null, Contains-Adds, Adds-Contains_new, Adds-Contains_old, find_child-count,
  IsNode-count,
}

-- A tree with the leaves of two others.
pub record Joins (entries : List KeyValue) (path : List ℕ) (left right t : Node) : Type 0 where
  pub tree : IsTree entries path t
  pub is_node : is_null t ≡ false
  pub from : (tid : ℕ) → Contains t tid → Contains left tid ⊎ Contains right tid
  pub has_left : (tid : ℕ) → Contains left tid → Contains t tid
  pub has_right : (tid : ℕ) → Contains right tid → Contains t tid

abbrev pub fresh : ℕ → List ℕ → Node
fresh n prefix =
    inner (record { prefix_length = n; count = 0; prefix = prefix }) (node4 (λ i. 0)) no_child

module _ (entries : List KeyValue) (path q : List ℕ) (x y : ℕ) (left right : Node) (differ : x ≢ y)
    (small_x : x < 256) (small_y : y < 256) (small_q : IsBytes q)
    (short : length path + length q < key_length) where
  fresh-none : (a : ℕ) → find_key (λ i. 0) a 0 0 ≡ none
  unfolding find_key
  fresh-none a = refl

  -- The two insertions into a new Node4.
  pub fresh-Joins :
      IsTree entries (path ++ (q ++ (x ∷ []))) left
      → IsTree entries (path ++ (q ++ (y ∷ []))) right
      → is_null left ≡ false
      → is_null right ≡ false
      → (first : Node) × (t : Node) × (insert_child (fresh (length q) q) x left ≡ ok first)
        × (insert_child first y right ≡ ok t)
        × Joins entries path left right t
  unfolding find_child
  fresh-Joins tree_x tree_y is_x is_y =
      let h : Header = record { prefix_length = length q; count = 0; prefix = q } in
      let valid : IsNode h (node4 (λ i. 0)) no_child = (
        omega arith,
        record {
          increasing = λ i j l r. absurd (omega arith);
          full = λ i r. absurd (omega arith);
          are_bytes = λ i r. absurd (omega arith);
        },
      ) in
      let base : IsTree entries path (fresh (length q) q) =
        (refl, short, (valid, small_q), λ b i lt e. absurd (ground (arith, e, fresh-none b))) in
      let none_at : (a : ℕ) → is_null (child_at h (node4 (λ i. 0)) no_child a) ≡ true =
        λ a. rw (fresh-none a) refl in
      let (first, e1, adds1) =
        insert_child-Adds h (node4 (λ i. 0)) no_child x left valid small_x (none_at x) is_x in
      let tree1 =
        Adds-IsTree entries path h (node4 (λ i. 0)) no_child x left first small_x adds1 base
          tree_x in
      let now = inner adds1.header adds1.now adds1.children in
      let free : is_null (child_at adds1.header adds1.now adds1.children y) ≡ true =
        rw (adds1.reads y small_y, ne→== y x (λ e. differ (sym e)), fresh-none y) refl in
      let (t, e2, adds2) =
        insert_child-Adds adds1.header adds1.now adds1.children y right adds1.valid small_y free
          is_y in
      let tree_now = subst (λ n. IsTree entries path n) adds1.is tree1 in
      let below : IsTree entries (path ++ (adds1.header.prefix ++ (y ∷ []))) right =
        rw adds1.same_prefix tree_y in
      (
        first,
        t,
        e1,
        subst (λ n. insert_child n y right ≡ ok t) (sym adds1.is) e2,
        record {
          tree =
              Adds-IsTree entries path adds1.header adds1.now adds1.children y right t small_y adds2
                tree_now below;
          is_node =
              Adds-is_null entries path adds1.header adds1.now adds1.children y right t small_y
                adds2;
          from = λ tid c.
              elim (Contains-Adds entries path adds1.header adds1.now adds1.children y right t
                small_y adds2 tid c) [
                  | inl r ↦ inr r
                  | inr r ↦
                      elim (Contains-Adds entries path h (node4 (λ i. 0)) no_child x left first
                        small_x adds1 tid (subst (λ n. Contains n tid) (sym adds1.is) r)) [
                          | inl l ↦ inl l
                          | inr (b, i, lt, e, k) ↦ absurd (ground (arith, e, fresh-none b))
                        ]
                ];
          has_left = λ tid c.
              Adds-Contains_old entries path adds1.header adds1.now adds1.children y right t small_y
                adds2 free tid
                (subst (λ n. Contains n tid) adds1.is
                  (Adds-Contains_new entries path h (node4 (λ i. 0)) no_child x left first small_x
                    adds1 tid c));
          has_right = λ tid c.
              Adds-Contains_new entries path adds1.header adds1.now adds1.children y right t small_y
                adds2 tid c;
        },
      )

take-append : (q s : List ℕ) → take (length q) (q ++ s) ≡ q
take-append [] s = refl
take-append (b ∷ q) s = ap (λ (l : List ℕ). b ∷ l) (take-append q s)

take_whole : (q : List ℕ) → take (length q) q ≡ q
take_whole [] = refl
take_whole (b ∷ q) = ap (λ (l : List ℕ). b ∷ l) (take_whole q)

drop_behind : (q s : List ℕ) (b : ℕ) → drop (length q + 1) (q ++ (b ∷ s)) ≡ s
drop_behind [] s b = refl
drop_behind (a ∷ q) s b =
    let e : suc (length q) + 1 ≡ suc (length q + 1) = omega arith in rw e (drop_behind q s b)

pub make_leaf-small : (tid : ℕ) → tid < 2 ^ 63 → make_leaf tid ≡ leaf tid
unfolding make_leaf
make_leaf-small tid h = let e : tid % 2 ^ 63 ≡ tid = omega arith in rw e refl

module _ (entries : List KeyValue) (path s : List ℕ) (value : ℕ) (fits : value < 2 ^ 63)
    (size : length path + length s ≡ key_length) (small : IsBytes s)
    (key : HasKey entries value (path ++ s)) where
  -- The new leaf below the byte at which its key differs.
  leaf_below :
      (q r : List ℕ) (b : ℕ)
      → s ≡ q ++ (b ∷ r)
      → IsTree entries (path ++ (q ++ (b ∷ []))) (leaf value)
  leaf_below q r b e = record { rest = r; key_is = rw (path_below path q r b, sym e) key }

  pub split_leaf-Joins :
      (tid : ℕ)
      → Continues entries path tid
      → ¬ HasKey entries tid (path ++ s)
      → (t : Node) × (split_leaf entries tid (path ++ s) (length path) value ≡ ok t)
        × Joins entries path (leaf tid) (leaf value) t
  unfolding split_leaf
  split_leaf-Joins tid k other =
      let (total, are_bytes) = load_key-IsBytes entries tid (path ++ k.rest) k.key_is in
      let rest_size : length k.rest ≡ length s = omega (arith, length-append {0} path k.rest) in
      elim (mismatch-cases k.rest s (length s) (omega arith) (omega arith)) [
        | inl (e, agree) ↦ absurd (
            other (
              subst (λ x. HasKey entries tid (path ++ x)) (Agree-whole agree rest_size refl)
                k.key_is))
        | inr (d, e, lt) ↦
            let run : mismatch k.rest s 9 ≡ ok (length d.common) =
              rw (d.xs_is, d.ys_is)
                (mismatch-at d.common d.left d.right d.left_rest d.right_rest 9 d.differ
                  (omega arith)) in
            let x_small =
              (All-append_right (λ b. b < 256) d.common (d.left ∷ d.left_rest)
                (subst IsBytes d.xs_is
                  (All-append_right (λ b. b < 256) path k.rest are_bytes))).0 in
            let y_small =
              (All-append_right (λ b. b < 256) d.common (d.right ∷ d.right_rest)
                (subst IsBytes d.ys_is small)).0 in
            let q_small =
              All-append_left (λ b. b < 256) d.common (d.right ∷ d.right_rest)
                (subst IsBytes d.ys_is small) in
            let old : IsTree entries (path ++ (d.common ++ (d.left ∷ []))) (leaf tid) = record {
              rest = d.left_rest;
              key_is = rw (path_below path d.common d.left_rest d.left, sym d.xs_is) k.key_is;
            } in
            let (first, t, e1, e2, joins) =
              fresh-Joins entries path d.common d.left d.right (leaf tid) (leaf value) d.differ
                x_small y_small q_small (omega arith) old
                (leaf_below d.common d.right_rest d.right d.ys_is) refl refl in
            let prefix : take (min (length d.common) 9) s ≡ d.common =
              let le : length d.common ≤ 9 = omega arith in
              rw (min-eq_left le, d.ys_is) (take-append d.common (d.right ∷ d.right_rest)) in
            let byte_x : at (path ++ k.rest) (length path + length d.common) ≡ ok d.left =
              rw d.xs_is (at_below path d.common d.left_rest d.left) in
            let byte_y : at (path ++ s) (length path + length d.common) ≡ ok d.right =
              rw d.ys_is (at_below path d.common d.right_rest d.right) in
            (
              t,
              rw
                  (
                    k.key_is,
                    drop-append path k.rest,
                    drop-append path s,
                    run,
                    prefix,
                    byte_x,
                    e1,
                    byte_y,
                    make_leaf-small value fits,
                  )
                  e2,
              joins,
            )
      ]

  -- The node that keeps the bytes behind the difference, below the byte at which it differs.
  kept_below :
      (h : Header) (body : Body) (child : ℕ → Node) (q r : List ℕ) (b : ℕ)
      → IsTree entries path (inner h body child)
      → h.prefix ≡ q ++ (b ∷ r)
      → IsTree entries
          (path ++ (q ++ (b ∷ [])))
          (inner (record { prefix_length = length r; count = h.count; prefix = r }) body child)
  kept_below h body child q r b (lengths, short, valid, below) e =
      let g : Header = record { prefix_length = length r; count = h.count; prefix = r } in
      let whole = length-append {0} q (b ∷ r) in
      (
        refl,
        omega (arith, length_below path q b, ap length e, whole),
        (
          IsNode-count g h body child refl valid.0,
          (All-append_right (λ x. x < 256) q (b ∷ r) (subst IsBytes e valid.1)).1,
        ),
        λ a i lt f.
            subst (λ p. IsTree entries p (child i))
              (ap (λ (z : List ℕ). path ++ (z ++ (a ∷ []))) e
                ∙ (ap (λ (z : List ℕ). path ++ z) (append_assoc q (b ∷ r) (a ∷ []))
                    ∙ sym (path_below path q (r ++ (a ∷ [])) b)))
              (below a i lt (sym (find_child-count g h body a refl) ∙ f)),
      )

  split_prefix-run :
      (h : Header) (body : Body) (child : ℕ → Node) (q rest left_rest : List ℕ) (x y : ℕ)
      (first t : Node)
      → h.prefix ≡ q ++ (y ∷ rest)
      → s ≡ q ++ (x ∷ left_rest)
      → h.prefix_length < 8
      → length h.prefix ≡ h.prefix_length
      → insert_child (fresh (length q) q) y (
          inner (record { prefix_length = length rest; count = h.count; prefix = rest }) body child)
        ≡ ok first
      → insert_child first x (leaf value) ≡ ok t
      → split_prefix entries h body child (path ++ s) (length path) (length q) value ≡ ok t
  unfolding split_prefix
  split_prefix-run h body child q rest left_rest x y first t is at_s short lengths e1 e2 =
      let sizes = length-append {0} q (y ∷ rest) in
      let total = ap length is in
      let near : ltb h.prefix_length 9 ≡ true = lt→ltb h.prefix_length 9 (omega arith) in
      let rest_size : h.prefix_length - (length q + 1) ≡ length rest = omega arith in
      let q_near : length q ≤ 9 = omega arith in
      let rest_near : length rest ≤ 9 = omega arith in
      let taken : take (min (length q) 9) h.prefix ≡ q =
        rw (min-eq_left q_near, is) (take-append q (y ∷ rest)) in
      let byte : at h.prefix (length q) ≡ ok y = rw is (at_end q rest y) in
      let behind : drop (length q + 1) h.prefix ≡ rest = rw is (drop_behind q rest y) in
      let kept : take (min (length rest) 9) rest ≡ rest =
        rw (min-eq_left rest_near) (take_whole rest) in
      let byte_y : at (path ++ s) (length path + length q) ≡ ok x =
        rw at_s (at_below path q left_rest x) in
      rw (near, taken, byte, behind, rest_size, kept, e1, byte_y, make_leaf-small value fits) e2

  pub split_prefix-Joins :
      (h : Header) (body : Body) (child : ℕ → Node) (d : Differ s h.prefix)
      → IsTree entries path (inner h body child)
      → length d.common < h.prefix_length
      → (t : Node) × (split_prefix entries h body child
            (path ++ s)
            (length path)
            (length d.common)
            value
          ≡ ok t)
        × Joins entries path
            (inner
              (record {
                prefix_length = length d.right_rest;
                count = h.count;
                prefix = d.right_rest;
              })
              body
              child)
            (leaf value)
            t
  split_prefix-Joins h body child d tree lt =
      let q = d.common in
      let prefix_bytes = subst IsBytes d.ys_is tree.2.1 in
      let key_bytes = subst IsBytes d.xs_is small in
      let rest = d.right_rest in
      let total = ap length d.ys_is in
      let sizes = length-append {0} q (d.right ∷ rest) in
      let (first, t, e1, e2, joins) =
        fresh-Joins entries path q d.right d.left
          (inner (record { prefix_length = length rest; count = h.count; prefix = rest }) body
            child)
          (leaf value) (λ e. d.differ (sym e))
          (All-append_right (λ b. b < 256) q (d.right ∷ rest) prefix_bytes).0
          (All-append_right (λ b. b < 256) q (d.left ∷ d.left_rest) key_bytes).0
          (All-append_left (λ b. b < 256) q (d.right ∷ rest) prefix_bytes) (omega (arith, tree.1))
          (kept_below h body child q rest d.right tree d.ys_is)
          (leaf_below q d.left_rest d.left d.xs_is) refl refl in
      (
        t,
        split_prefix-run h body child q rest d.left_rest d.left d.right first t d.ys_is d.xs_is
            (omega (arith, tree.1)) tree.0 e1 e2,
        joins,
      )
