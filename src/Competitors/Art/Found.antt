-- ===== src/Competitors/Art/Found.antt =====
-- competitors/art_primary_lb.h: the lookup in a tree.
use sosd.Prelude.{
  ℕ, ◌+◌, ◌-◌, ◌==◌, ◌<◌, ◌≡◌, ◌⊎◌, inl, inr, refl, sym, ap, subst, ◌∙◌, List, [], ◌∷◌, ◌++◌,
  length, length-append, get_elem?, some, Option-cases, true, false, Bool-cases, ltb, leb, lt→ltb,
  eq→==, ne→==, Run, ok, at, arith,
}
use mathlib.Core.List.{
  append_assoc, append-nil, append_cancel_left, head-eq_of_cons-eq, tail-eq_of_cons-eq,
}
use native.Mathlib.Nat.{add-zero}
use sosd.Data.{KeyValue}
use sosd.Competitors.Art.Bytes.{
  swap_bytes, bytes, length-bytes, bytes-IsBytes, IsBytes, mismatch, mismatch-cases, Differ,
  Differ-ne, Agree-whole, drop-append, at-append, length_zero, Differ-append, All-append_right,
  cons_of_pos,
}
use sosd.Competitors.Art.Nodes.{Header, Body, Node, null, leaf, inner, find_child}
use sosd.Competitors.Art.Tree.{load_key, key_length, lookup_leaf, prefix_fits, lookup}
use sosd.Competitors.Art.Shape.{Contains, HasKey, Continues, IsTree, Contains-Continues}

pub append_cancel_size :
    (xs ys s t : List ℕ) → length xs ≡ length ys → xs ++ s ≡ ys ++ t → (xs ≡ ys) × (s ≡ t)
append_cancel_size [] [] s t e q = (refl, q)
append_cancel_size [] (y ∷ ys) s t e q = absurd (omega arith)
append_cancel_size (x ∷ xs) [] s t e q = absurd (omega arith)
append_cancel_size (x ∷ xs) (y ∷ ys) s t e q =
    let (xs_is, s_is) = append_cancel_size xs ys s t (omega arith) (tail-eq_of_cons-eq q) in
    (rw (head-eq_of_cons-eq q, xs_is) refl, s_is)

module _ (entries : List KeyValue) where
  pub load_key-IsBytes :
      (tid : ℕ) (key : List ℕ) → HasKey entries tid key → (length key ≡ key_length) × IsBytes key
  unfolding load_key swap_bytes
  load_key-IsBytes tid key e = elim (Option-cases (get_elem? entries tid)) [
    | inl q ↦ absurd (ground (arith, rw q at e))
    | inr (x, q) ↦
        let is : key ≡ bytes 8 x.key = ground (arith, rw q at e) in
        rw is (length-bytes 8 x.key, bytes-IsBytes 8 x.key)
  ]

  pub HasKey-unique :
      (tid : ℕ) (key other : List ℕ)
      → HasKey entries tid key
      → HasKey entries tid other
      → key ≡ other
  HasKey-unique tid key other e q = cc

  -- A leaf below a node whose key goes on with these bytes: they begin with the node's prefix and
  -- the byte of its child.
  pub Contains-starts :
      (path s : List ℕ) (h : Header) (body : Body) (child : ℕ → Node) (tid : ℕ)
      → IsTree entries path (inner h body child)
      → Contains (inner h body child) tid
      → HasKey entries tid (path ++ s)
      → (b : ℕ) × (i : ℕ) × (r : List ℕ) × (s ≡ h.prefix ++ (b ∷ r))
        × (b < 256)
        × (find_child h body b ≡ some i)
        × Contains (child i) tid
  Contains-starts path s h body child tid (lengths, short, valid, below) (b, i, lt, e, c) key =
      let path1 = path ++ (h.prefix ++ (b ∷ [])) in
      let k = Contains-Continues entries path1 (child i) tid (below b i lt e) c in
      let whole : path ++ s ≡ path ++ ((h.prefix ++ (b ∷ [])) ++ k.rest) =
        HasKey-unique tid (path ++ s) (path1 ++ k.rest) key k.key_is
        ∙ append_assoc path (h.prefix ++ (b ∷ [])) k.rest in
      (
        b,
        i,
        k.rest,
        append_cancel_left path s ((h.prefix ++ (b ∷ [])) ++ k.rest) whole
            ∙ append_assoc h.prefix (b ∷ []) k.rest,
        lt,
        e,
        c,
      )

  -- The leaf whose entry has the key, or null if no leaf's entry has it.
  abbrev pub LookedUp : Node → List ℕ → Run Node → Type 0
  LookedUp t key r =
      ((tid : ℕ) × (r ≡ ok (leaf tid)) × Contains t tid × HasKey entries tid key)
      ⊎ ((r ≡ ok null) × ((tid : ℕ) → Contains t tid → ¬ HasKey entries tid key))

  lookup_leaf-LookedUp :
      (path s : List ℕ) (tid : ℕ)
      → Continues entries path tid
      → length path + length s ≡ key_length
      → LookedUp (leaf tid) (path ++ s) (lookup_leaf entries tid (path ++ s) (length path) false)
  unfolding lookup_leaf
  lookup_leaf-LookedUp path s tid k size =
      let n = key_length - length path in
      let total = (load_key-IsBytes tid (path ++ k.rest) k.key_is).0 in
      let rest_size : length k.rest ≡ n = omega (arith, length-append {0} path k.rest) in
      let same : k.rest ≡ s → HasKey entries tid (path ++ s) =
        λ e. subst (λ x. HasKey entries tid (path ++ x)) e k.key_is in
      elim (Bool-cases (length path == key_length)) [
        | inl whole ↦
            let end : s ≡ [] = length_zero s (ground arith) in
            let end1 : k.rest ≡ [] = length_zero k.rest (ground arith) in
            inl (tid, rw whole refl, refl, same (end1 ∙ sym end))
        | inr some_left ↦ elim (mismatch-cases k.rest s n (omega arith) (omega arith)) [
          | inl (e, agree) ↦
              let is = Agree-whole agree rest_size (omega arith) in
              inl (
                tid,
                rw
                    (
                      some_left,
                      k.key_is,
                      drop-append path k.rest,
                      drop-append path s,
                      e,
                      eq→== n n refl,
                    )
                    refl,
                refl,
                same is,
              )
          | inr (d, e, lt) ↦ inr (
            rw
                (
                  some_left,
                  k.key_is,
                  drop-append path k.rest,
                  drop-append path s,
                  e,
                  ne→== (length d.common) n (omega arith),
                )
                refl,
            λ other is key. Differ-ne d (
                append_cancel_left path k.rest s
                  (HasKey-unique tid (path ++ k.rest) (path ++ s) k.key_is (rw is key))),
          )
        ]
      ]

-- What the comparison of a key with a node's prefix finds.
pub prefix-cases :
    (s : List ℕ) (h : Header)
    → length h.prefix ≡ h.prefix_length
    → h.prefix_length < length s
    → ((b : ℕ) × (r : List ℕ) × (mismatch s h.prefix h.prefix_length ≡ ok h.prefix_length)
        × (s ≡ h.prefix ++ (b ∷ r)))
      ⊎ ((d : Differ s h.prefix) × (mismatch s h.prefix h.prefix_length ≡ ok (length d.common))
          × (length d.common < h.prefix_length))
prefix-cases s h lengths short =
    elim (mismatch-cases s h.prefix h.prefix_length (omega arith) (omega arith)) [
      | inr different ↦ inr different
      | inl (e, a) ↦
          let sizes = ap length a.ys_is in
          let end : a.right_rest ≡ [] =
            length_zero a.right_rest
              (omega (arith, length-append {0} a.common a.right_rest, a.size)) in
          let whole : a.common ≡ h.prefix =
            sym (append-nil a.common)
            ∙ (ap (λ (t : List ℕ). a.common ++ t) (sym end) ∙ sym a.ys_is) in
          let (b, r, q) =
            cons_of_pos a.left_rest
              (omega (arith, ap length a.xs_is, length-append {0} a.common a.left_rest, a.size)) in
          inl (
            b,
            r,
            e,
            a.xs_is
                ∙ (ap (λ (t : List ℕ). t ++ a.left_rest) whole
                    ∙ ap (λ (t : List ℕ). h.prefix ++ t) q),
          )
    ]

pub some_injective : {a b : ℕ} → some a ≡ some b → a ≡ b
some_injective e = cc

pub byte_unique : (q r s : List ℕ) (a b : ℕ) → q ++ (a ∷ r) ≡ q ++ (b ∷ s) → a ≡ b
byte_unique q r s a b e = head-eq_of_cons-eq (append_cancel_left q (a ∷ r) (b ∷ s) e)

pub at_end : (q s : List ℕ) (b : ℕ) → at (q ++ (b ∷ s)) (length q) ≡ ok b
at_end q s b =
    ap (λ (i : ℕ). at (q ++ (b ∷ s)) i) (sym (add-zero (length q))) ∙ at-append q (b ∷ s) 0

-- The byte behind a path and a prefix, and the path to its child.
pub at_below :
    (path q s : List ℕ) (b : ℕ) → at (path ++ (q ++ (b ∷ s))) (length path + length q) ≡ ok b
at_below path q s b = at-append path (q ++ (b ∷ s)) (length q) ∙ at_end q s b

pub path_below :
    (path q s : List ℕ) (b : ℕ) → (path ++ (q ++ (b ∷ []))) ++ s ≡ path ++ (q ++ (b ∷ s))
path_below path q s b =
    append_assoc path (q ++ (b ∷ [])) s ∙ ap (λ (t : List ℕ). path ++ t) (append_assoc q (b ∷ []) s)

pub length_below :
    (path q : List ℕ) (b : ℕ) → length (path ++ (q ++ (b ∷ []))) ≡ length path + length q + 1
length_below path q b =
    omega (arith, length-append {0} path (q ++ (b ∷ [])), length-append {0} q (b ∷ []))

-- The lookup below a node whose prefix fits.
module _ (entries : List KeyValue) (path s r : List ℕ) (h : Header) (body : Body) (child : ℕ → Node)
    (b i : ℕ) (tree : IsTree entries path (inner h body child)) (q : s ≡ h.prefix ++ (b ∷ r))
    (small : b < 256) (f : find_child h body b ≡ some i) where
  pub key_below : (path ++ (h.prefix ++ (b ∷ []))) ++ r ≡ path ++ s
  key_below = path_below path h.prefix r b ∙ ap (λ (t : List ℕ). path ++ t) (sym q)

  pub depth_below : length (path ++ (h.prefix ++ (b ∷ []))) ≡ length path + h.prefix_length + 1
  depth_below = omega (arith, length_below path h.prefix b, tree.0)

  -- The leaves of a node with this key stand below the byte's child.
  Contains-child :
      (tid : ℕ)
      → Contains (inner h body child) tid
      → HasKey entries tid (path ++ s)
      → Contains (child i) tid
  Contains-child tid c key =
      let (b1, j, r1, q1, small1, f1, c1) =
        Contains-starts entries path s h body child tid tree c key in
      let same : b ≡ b1 = byte_unique h.prefix r r1 b b1 (sym q ∙ q1) in
      let slot : j ≡ i =
        some_injective (sym f1 ∙ (ap (λ (x : ℕ). find_child h body x) (sym same) ∙ f)) in
      subst (λ x. Contains (child x) tid) slot c1

  below-LookedUp :
      (found : Run Node)
      → found ≡ lookup entries (child i) (path ++ s) (length path + h.prefix_length + 1) false
      → LookedUp entries (child i) ((path ++ (h.prefix ++ (b ∷ []))) ++ r) (
          lookup entries
            (child i)
            ((path ++ (h.prefix ++ (b ∷ []))) ++ r)
            (length (path ++ (h.prefix ++ (b ∷ []))))
            false)
      → LookedUp entries (inner h body child) (path ++ s) found
  below-LookedUp found step ih =
      let at_depth =
        subst
          (λ n.
            LookedUp entries (child i) ((path ++ (h.prefix ++ (b ∷ []))) ++ r)
              (lookup entries (child i) ((path ++ (h.prefix ++ (b ∷ []))) ++ r) n false))
          depth_below ih in
      let at_key : LookedUp entries (child i) (path ++ s)
          (lookup entries (child i) (path ++ s) (length path + h.prefix_length + 1) false) =
        subst
          (λ k.
            LookedUp entries (child i) k
              (lookup entries (child i) k (length path + h.prefix_length + 1) false))
          key_below at_depth in
      elim at_key [
        | inl (tid, e, c, key) ↦ inl (tid, step ∙ e, (b, i, small, f, c), key)
        | inr (e, none_of) ↦ inr (step ∙ e, λ tid c key. none_of tid (Contains-child tid c key) key)
      ]

module _ (entries : List KeyValue) where
  -- In a tree below a path, the lookup of a key that goes on from the path ends normally: with a leaf
  -- of the tree whose entry has the key, or with null, and then no leaf's entry has it.
  pub lookup-LookedUp :
      (t : Node) (path s : List ℕ)
      → IsTree entries path t
      → length path + length s ≡ key_length
      → IsBytes s
      → LookedUp entries t (path ++ s) (lookup entries t (path ++ s) (length path) false)
  unfolding lookup prefix_fits
  lookup-LookedUp null path s tree size small = inr (refl, λ tid c key. c)
  lookup-LookedUp (leaf tid) path s tree size small =
      lookup_leaf-LookedUp entries path s tid tree size
  lookup-LookedUp (inner h body child) path s (lengths, short, valid, below) size small =
      let near : ltb h.prefix_length 9 ≡ true = lt→ltb h.prefix_length 9 (omega arith) in
      let near1 : leb 9 h.prefix_length ≡ false = ground arith in
      elim (prefix-cases s h lengths (omega arith)) [
        | inr (d, e, lt) ↦ inr (
          rw (near, drop-append path s, e, ne→== (length d.common) h.prefix_length (omega arith))
              refl,
          λ tid c key.
              let (b, i, r, q, small_b, f, c1) =
                Contains-starts entries path s h body child tid (lengths, short, valid, below) c
                  key in
              Differ-append (b ∷ r) d q,
        )
        | inl (b, r, e, q) ↦
            let read : at (path ++ s) (length path + h.prefix_length) ≡ ok b =
              rw (q, sym lengths) (at_below path h.prefix r b) in
            let small_b : b < 256 =
              (All-append_right (λ x. x < 256) h.prefix (b ∷ r) (subst IsBytes q small)).0 in
            let eqs : (h.prefix_length == h.prefix_length) ≡ true = ground arith in
            elim (Option-cases (find_child h body b)) [
              | inl f ↦ inr (
                rw (near, near1, drop-append path s, e, eqs, read, f) refl,
                λ tid c key.
                    let (b1, i, r1, q1, small_b1, f1, c1) =
                      Contains-starts entries path s h body child tid (lengths, short, valid, below)
                        c key in
                    absurd (ground (arith, f, f1, byte_unique h.prefix r r1 b b1 (sym q ∙ q1))),
              )
              | inr (i, f) ↦
                  let ih =
                    lookup-LookedUp (child i) (path ++ (h.prefix ++ (b ∷ []))) r
                      (below b i small_b f)
                      (omega (
                        arith,
                        ap length q,
                        length-append {0} h.prefix (b ∷ r),
                        length_below path h.prefix b,
                      ))
                      (All-append_right (λ x. x < 256) h.prefix (b ∷ r)
                        (subst IsBytes q small)).1 in
                  below-LookedUp entries path s r h body child b i (lengths, short, valid, below) q
                    small_b f (lookup entries (inner h body child) (path ++ s) (length path) false)
                    (rw (near, near1, drop-append path s, e, eqs, read, f) refl) ih
            ]
      ]
