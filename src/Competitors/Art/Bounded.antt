-- ===== src/Competitors/Art/Bounded.antt =====
-- competitors/art_primary_lb.h: the last step of bound, at a leaf.
use sosd.Prelude.{
  ℕ, ◌+◌, ◌-◌, ◌==◌, ◌≡◌, inl, inr, refl, sym, ap, subst, ◌∙◌, List, [], ◌∷◌, ◌++◌, length,
  length-append, All, All-map, some, Bool, Bool-cases, true, ltb, eq→==, ne→==, ok, at, arith,
}
use mathlib.Core.List.{append_assoc}
use sosd.Data.{KeyValue}
use sosd.Competitors.Art.Bytes.{mismatch-cases, Differ, Agree-whole, drop-append, length_zero}
use sosd.Competitors.Art.Nodes.{Header, Body, Node, leaf, inner}
use sosd.Competitors.Art.Tree.{key_length}
use sosd.Competitors.Art.Shape.{HasKey, Continues, IsTree}
use sosd.Competitors.Art.Found.{load_key-IsBytes, at_below}
use sosd.Competitors.Art.Cursor.{Stack, iterator_loop, iterator_next, bound_leaf}
use sosd.Competitors.Art.Traverse.{limit, byte_of, in_order, leaves_at}
use sosd.Competitors.Art.Iterated.{Eventually}
use sosd.Competitors.Art.Ordered.{
  keep, keep-none, keep-All, reaches, reaches-before, reaches-behind, reaches_self, All-gather,
  leaves_at-Behind,
}

-- iteratorNext on a stack whose top is no leaf.
abbrev pub IsOpen : Stack → Type 0
IsOpen s = (fuel : ℕ) → iterator_next fuel s ≡ iterator_loop fuel s

module _ (entries : List KeyValue) where
  keep_one : (p : ℕ → Bool) (tid : ℕ) → p tid ≡ true → keep p (tid ∷ []) ≡ tid ∷ []
  keep_one p tid e = keep-All p (tid ∷ []) (e, tt)

  pub bound_leaf-Eventually :
      (tid : ℕ) (path s : List ℕ) (rest : Stack) (leaves : List ℕ)
      → Continues entries path tid
      → length path + length s ≡ key_length
      → IsOpen rest
      → Eventually (λ fuel. iterator_loop fuel rest) leaves
      → Eventually
          (λ fuel. bound_leaf entries true (path ++ s) fuel tid rest (length path))
          (keep (reaches entries (path ++ s)) (tid ∷ []) ++ leaves)
  unfolding bound_leaf
  bound_leaf-Eventually tid path s rest leaves k size is_open below =
      let n = key_length - length path in
      let total = (load_key-IsBytes entries tid (path ++ k.rest) k.key_is).0 in
      let rest_size : length k.rest ≡ n = omega (arith, length-append {0} path k.rest) in
      let kept = λ (e : k.rest ≡ s). keep_one (reaches entries (path ++ s)) tid (
        reaches_self entries (path ++ s) tid
          (subst (λ x. HasKey entries tid (path ++ x)) e k.key_is)) in
      elim (Bool-cases (length path == key_length)) [
        | inl whole ↦
            let end : s ≡ [] = length_zero s (ground arith) in
            let end1 : k.rest ≡ [] = length_zero k.rest (ground arith) in
            (
              0,
              λ fuel le.
                  rw (whole, kept (end1 ∙ sym end)) (some (tid, (leaf tid, 0) ∷ rest), refl, refl),
            )
        | inr part ↦ elim (mismatch-cases k.rest s n (omega arith) (omega arith)) [
          | inl (e, agree) ↦
              let is = Agree-whole agree rest_size (omega arith) in
              (
                0,
                λ fuel le.
                    rw
                      (
                        part,
                        k.key_is,
                        drop-append path k.rest,
                        drop-append path s,
                        e,
                        eq→== n n refl,
                        kept is,
                      )
                      (some (tid, (leaf tid, 0) ∷ rest), refl, refl),
              )
          | inr (d, e, lt) ↦
              let stop = ne→== (length d.common) n (omega arith) in
              let leaf_byte : at (path ++ k.rest) (length path + length d.common) ≡ ok d.left =
                rw d.xs_is (at_below path d.common d.left_rest d.left) in
              let key_byte : at (path ++ s) (length path + length d.common) ≡ ok d.right =
                rw d.ys_is (at_below path d.common d.right_rest d.right) in
              let key_is : HasKey entries tid (path ++ (d.common ++ (d.left ∷ d.left_rest))) =
                subst (λ x. HasKey entries tid (path ++ x)) d.xs_is k.key_is in
              elim (Bool-cases (ltb d.left d.right)) [
                | inl less ↦
                    let dropped : keep (reaches entries (path ++ s)) (tid ∷ []) ≡ [] =
                      keep-none (reaches entries (path ++ s)) (tid ∷ []) (
                        rw d.ys_is (
                          reaches-before entries path d.common d.left_rest d.right_rest d.left
                              d.right tid key_is (ground (arith, less)),
                          tt,
                        )) in
                    (
                      below.0,
                      λ fuel le.
                          rw
                            (
                              part,
                              k.key_is,
                              drop-append path k.rest,
                              drop-append path s,
                              e,
                              stop,
                              leaf_byte,
                              key_byte,
                              less,
                              dropped,
                              is_open fuel,
                            )
                            (below.1 fuel le),
                    )
                | inr greater ↦
                    let one : keep (reaches entries (path ++ s)) (tid ∷ []) ≡ tid ∷ [] =
                      keep_one (reaches entries (path ++ s)) tid (
                        rw d.ys_is (
                          reaches-behind entries path d.common d.left_rest d.right_rest d.left
                            d.right tid key_is (ground (arith, greater, d.differ)))) in
                    (
                      0,
                      λ fuel le.
                          rw
                            (
                              part,
                              k.key_is,
                              drop-append path k.rest,
                              drop-append path s,
                              e,
                              stop,
                              leaf_byte,
                              key_byte,
                              greater,
                              one,
                            )
                            (some (tid, (leaf tid, 0) ∷ rest), refl, refl),
                    )
              ]
        ]
      ]

  -- The leaves of a node whose prefix differs from the key are all before it, or all behind.
  pub prefix_differs :
      (path s : List ℕ) (h : Header) (body : Body) (child : ℕ → Node) (d : Differ s h.prefix)
      (value : Bool)
      → IsTree entries path (inner h body child)
      → ((tid : ℕ) (x : List ℕ)
          → HasKey entries tid (path ++ (d.common ++ (d.right ∷ x)))
          → reaches entries (path ++ s) tid ≡ value)
      → All (λ tid. reaches entries (path ++ s) tid ≡ value) (in_order (inner h body child))
  unfolding in_order
  prefix_differs path s h body child d value tree f =
      All-gather (λ tid. reaches entries (path ++ s) tid ≡ value) (leaves_at body child) 0
        (limit h body)
        (λ p lo hi.
          All-map
            (λ tid (x, key). f tid (d.right_rest ++ (byte_of body p ∷ x)) (
              subst (λ y. HasKey entries tid y)
                (ap (λ (z : List ℕ). path ++ (z ++ (byte_of body p ∷ x))) d.ys_is
                  ∙ ap (λ (z : List ℕ). path ++ z)
                      (append_assoc d.common (d.right ∷ d.right_rest) (byte_of body p ∷ x)))
                key))
            (leaves_at body child p)
            (leaves_at-Behind entries path h body child p tree (omega arith)))
