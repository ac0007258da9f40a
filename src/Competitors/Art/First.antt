-- ===== src/Competitors/Art/First.antt =====
-- competitors/art_primary_lb.h: bound, for a lower bound.
use sosd.Prelude.{
  ℕ, ◌+◌, ◌≤◌, ◌<◌, ◌≡◌, inl, inr, refl, sym, ap, subst, ◌∙◌, List, [], ◌∷◌, ◌++◌, length,
  length-append, none, some, Bool-cases, true, false, ltb, lt→ltb, eq→==, ok, at, arith,
}
use mathlib.Core.List.{append-nil}
use sosd.Data.{KeyValue}
use sosd.Competitors.Art.Bytes.{IsBytes, mismatch, All-append_right}
use sosd.Competitors.Art.Nodes.{Header, Body, Node, null, leaf, inner, is_null}
use sosd.Competitors.Art.Tree.{key_length}
use sosd.Competitors.Art.Shape.{IsTree}
use sosd.Competitors.Art.Found.{prefix-cases, at_below, path_below, length_below}
use sosd.Competitors.Art.Cursor.{
  Stack, stack_size, iterator_loop, iterator_next, seek_child, bound_loop, bound,
}
use sosd.Competitors.Art.Traverse.{limit, pos_slot, byte_of, in_order, in_order-null}
use sosd.Competitors.Art.Iterated.{
  Yields, Eventually, empty-Eventually, path_at, IsTree-pos, from_pos-Eventually,
}
use sosd.Competitors.Art.Ordered.{keep, reaches}
use sosd.Competitors.Art.Seek.{seek_child-Sought}
use sosd.Competitors.Art.Bounded.{IsOpen, bound_leaf-Eventually}
use sosd.Competitors.Art.Descent.{
  inner-IsOpen, whole_prefix, below-Eventually, differs-Eventually, left_at,
}

empty-IsOpen : IsOpen []
unfolding iterator_next
empty-IsOpen fuel = refl

module _ (entries : List KeyValue) where
  -- What the loop of bound does with a tree, for a key and a depth.
  abbrev pub Finds : Node → List ℕ → ℕ → Stack → List ℕ → Type 0
  Finds t key depth rest leaves =
      Eventually (λ fuel. bound_loop entries true key fuel t rest depth)
        (keep (reaches entries key) (in_order t) ++ leaves)

  Finds-equal :
      (t : Node) (key other : List ℕ) (depth level : ℕ) (rest : Stack) (leaves : List ℕ)
      → key ≡ other
      → depth ≡ level
      → Finds t key depth rest leaves
      → Finds t other level rest leaves
  Finds-equal t key other depth level rest leaves e q f =
      subst (λ n. Finds t other n rest leaves) q (subst (λ k. Finds t k depth rest leaves) e f)

  -- The step of the loop at a node whose prefix fits, given what it does below the children.
  fits-Finds :
      (path r : List ℕ) (h : Header) (body : Body) (child : ℕ → Node) (b : ℕ)
      (tree : IsTree entries path (inner h body child)) (rest : Stack)
      (fits : length rest ≤ length path) (leaves : List ℕ)
      (below : Eventually (λ fuel. iterator_loop fuel rest) leaves)
      → b < 256
      → mismatch (h.prefix ++ (b ∷ r)) h.prefix h.prefix_length ≡ ok h.prefix_length
      → ((p i : ℕ)
          → p < limit h body
          → pos_slot body p ≡ some i
          → is_null (child i) ≡ false
          → (s : Stack) (l : List ℕ) → length s ≤ length (path_at entries path h body p)
          → IsOpen s
          → Eventually (λ fuel. iterator_loop fuel s) l
          → Finds
              (child i)
              (path_at entries path h body p ++ r)
              (length (path_at entries path h body p))
              s
              l)
      → Finds (inner h body child) (path ++ (h.prefix ++ (b ∷ r))) (length path) rest leaves
  unfolding bound_loop
  fits-Finds path r h body child b tree rest fits leaves below small e ih =
      let key = path ++ (h.prefix ++ (b ∷ r)) in
      let room : ltb (length rest) stack_size ≡ true =
        lt→ltb (length rest) stack_size (omega (arith, tree.1)) in
      let compared = whole_prefix entries path (h.prefix ++ (b ∷ r)) h body child tree.1 ∙ e in
      let read : at key (length path + h.prefix_length) ≡ ok b =
        rw (sym tree.0) (at_below path h.prefix r b) in
      let found = seek_child h body b in
      let run =
        below-Eventually entries path r h body child b tree rest fits leaves below key
          (λ fuel i s.
            bound_loop entries true key fuel (child i) s (length path + h.prefix_length + 1))
          found.0 found.1 (seek_child-Sought h body child b tree.2.0 small)
          (λ i lt slot byte full.
            Finds-equal (child i) (path_at entries path h body found.0 ++ r) key
              (length (path_at entries path h body found.0)) (length path + h.prefix_length + 1)
              ((inner h body child, found.0 + 1) ∷ rest)
              (left_at entries path r h body child b tree rest fits leaves below (found.0 + 1)
                ++ leaves)
              (path_below path h.prefix r (byte_of body found.0)
                ∙ ap (λ (x : ℕ). path ++ (h.prefix ++ (x ∷ r))) byte)
              (omega (arith, length_below path h.prefix (byte_of body found.0), tree.0))
              (ih found.0 i lt slot full ((inner h body child, found.0 + 1) ∷ rest)
                (left_at entries path r h body child b tree rest fits leaves below (found.0 + 1)
                  ++ leaves)
                (omega (arith, length_below path h.prefix (byte_of body found.0), fits))
                (inner-IsOpen h body child (found.0 + 1) rest)
                (from_pos-Eventually entries path h body child rest leaves tree fits below
                  (found.0 + 1)))) in
      (
        run.0,
        λ fuel le.
            rw (room, compared, eq→== h.prefix_length h.prefix_length refl, read) (run.1 fuel le),
      )

  bound_loop-Finds :
      (t : Node) (path s : List ℕ) (rest : Stack) (leaves : List ℕ)
      → IsTree entries path t
      → is_null t ≡ false
      → length path + length s ≡ key_length
      → IsBytes s
      → length rest ≤ length path
      → IsOpen rest
      → Eventually (λ fuel. iterator_loop fuel rest) leaves
      → Finds t (path ++ s) (length path) rest leaves
  unfolding bound_loop in_order
  bound_loop-Finds null path s rest leaves tree is size small fits is_open below =
      absurd (ground arith)
  bound_loop-Finds (leaf tid) path s rest leaves tree is size small fits is_open below =
      let room : ltb (length rest) stack_size ≡ true =
        lt→ltb (length rest) stack_size (omega arith) in
      let run = bound_leaf-Eventually entries tid path s rest leaves tree size is_open below in
      (run.0, λ fuel le. rw room (run.1 fuel le))
  bound_loop-Finds (inner h body child) path s rest leaves tree is size small fits is_open below =
      elim (prefix-cases s h tree.0 (omega (arith, tree.1))) [
        | inr (d, e, lt) ↦
            differs-Eventually entries path s h body child rest leaves d tree fits is_open below e
              lt
        | inl (b, r, e, q) ↦
            let bytes = All-append_right (λ x. x < 256) h.prefix (b ∷ r) (subst IsBytes q small) in
            subst (λ z. Finds (inner h body child) (path ++ z) (length path) rest leaves) (sym q)
              (fits-Finds path r h body child b tree rest fits leaves below bytes.0
                (subst (λ z. mismatch z h.prefix h.prefix_length ≡ ok h.prefix_length) q e)
                (λ p i lt slot full st l few open_st after.
                  bound_loop-Finds (child i) (path_at entries path h body p) r st l
                    (IsTree-pos entries path h body child p i tree lt slot) full
                    (omega (
                      arith,
                      ap length q,
                      length-append {0} h.prefix (b ∷ r),
                      length_below path h.prefix (byte_of body p),
                    ))
                    bytes.1 few open_st after))
      ]

  -- Of a tree whose leaves stand at the bytes of their keys, and for a key of eight bytes, bound
  -- (for a lower bound) ends normally with every number of rounds from some number on: at the first
  -- leaf, in the order of the bytes, whose entry has a key that is not less, and if no leaf's has,
  -- without a leaf.
  pub bound-first :
      (t : Node) (key : List ℕ)
      → IsTree entries [] t
      → length key ≡ key_length
      → IsBytes key
      → (n : ℕ) × ((more : ℕ)
          → Yields (bound entries true key (n + more) t) (keep (reaches entries key) (in_order t)))
  unfolding bound keep
  bound-first t key tree size small = elim (Bool-cases (is_null t)) [
    | inl empty ↦ (0, λ more. rw (empty, in_order-null t empty) (none, refl, refl))
    | inr full ↦
        let run =
          subst (λ l. Eventually (λ fuel. bound_loop entries true key fuel t [] 0) l)
            (append-nil (keep (reaches entries key) (in_order t)))
            (bound_loop-Finds t [] key [] [] tree full (omega arith) small (omega arith)
              empty-IsOpen empty-Eventually) in
        (run.0, λ more. rw full (run.1 (run.0 + more) (omega arith)))
  ]
