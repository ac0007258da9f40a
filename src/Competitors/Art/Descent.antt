-- ===== src/Competitors/Art/Descent.antt =====
-- competitors/art_primary_lb.h: the loop of bound, from a node on.
use sosd.Prelude.{
  ℕ, suc, ◌+◌, ◌-◌, ◌==◌, ◌≤◌, ◌<◌, ◌≡◌, ◌⊎◌, inl, inr, refl, sym, ap, subst, ◌∙◌, List, [], ◌∷◌,
  ◌++◌, length, min, Option, some, Bool-cases, true, false, ltb, lt→ltb, le→ltb, ne→==, ==→eq, Run,
  ok, at, arith,
}
use mathlib.Core.List.{append_assoc}
use native.Mathlib.Nat.{min-eq_right}
use sosd.Data.{KeyValue}
use sosd.Competitors.Art.Bytes.{mismatch, Differ, drop-append}
use sosd.Competitors.Art.Nodes.{Header, Body, Node, inner, is_null}
use sosd.Competitors.Art.Tree.{key_length}
use sosd.Competitors.Art.Shape.{IsTree}
use sosd.Competitors.Art.Found.{at_below, at_end}
use sosd.Competitors.Art.Cursor.{
  Stack, Position, stack_size, iterator_loop, iterator_next, bounded_mismatch, bound_below,
  bound_loop,
}
use sosd.Competitors.Art.Traverse.{
  limit, pos_slot, byte_of, gather, gather_at, in_order, in_order-null, leaves_at,
}
use sosd.Competitors.Art.Iterated.{Eventually, iterator_loop-Eventually, from_pos-Eventually}
use sosd.Competitors.Art.Ordered.{
  keep, keep-append, keep-none, keep-All, reaches, reaches-before, reaches-behind,
}
use sosd.Competitors.Art.Seek.{Sought, keep-behind, larger_kept, keep-from, wanted}
use sosd.Competitors.Art.Bounded.{IsOpen, prefix_differs}

in_order-inner :
    (h : Header) (body : Body) (child : ℕ → Node)
    → in_order (inner h body child) ≡ gather (leaves_at body child) 0 (limit h body)
unfolding in_order
in_order-inner h body child = refl

pub inner-IsOpen :
    (h : Header) (body : Body) (child : ℕ → Node) (pos : ℕ) (rest : Stack)
    → IsOpen ((inner h body child, pos) ∷ rest)
unfolding iterator_next
inner-IsOpen h body child pos rest fuel = refl

module _ (entries : List KeyValue) where
  -- The comparison of a node's prefix that the key has room for.
  pub whole_prefix :
      (path s : List ℕ) (h : Header) (body : Body) (child : ℕ → Node)
      → length path + h.prefix_length < key_length
      → bounded_mismatch entries h body child (path ++ s) (length path)
        ≡ mismatch s h.prefix h.prefix_length
  unfolding bounded_mismatch
  whole_prefix path s h body child short =
      let size : min (key_length - length path) h.prefix_length ≡ h.prefix_length =
        min-eq_right (omega arith) in
      rw (size, le→ltb 9 h.prefix_length (omega arith), drop-append path s) refl

  -- A node's position that was sought, given what the loop does with a child.
  module _ (path r : List ℕ) (h : Header) (body : Body) (child : ℕ → Node) (b : ℕ)
      (tree : IsTree entries path (inner h body child)) (rest : Stack)
      (fits : length rest ≤ length path) (leaves : List ℕ)
      (below : Eventually (λ fuel. iterator_loop fuel rest) leaves) where
    abbrev pub kept : List ℕ → List ℕ
    kept l = keep (wanted entries path r h body child b tree) l

    abbrev pub left_at : ℕ → List ℕ
    left_at pos = gather (leaves_at body child) pos (limit h body - pos)

    rest_kept :
        (pos : ℕ) (o : Option ℕ)
        → Sought h body b (pos, o)
        → (pos < limit h body → (leaves_at body child pos ≡ []) ⊎ (b < byte_of body pos))
        → kept (in_order (inner h body child)) ≡ left_at pos
    rest_kept pos o sought here =
        ap kept (in_order-inner h body child)
        ∙ (keep-from entries path r h body child b tree pos sought.inside sought.before
            ∙ keep-behind entries path r h body child b tree pos (limit h body - pos)
                (let i : pos ≤ limit h body = sought.inside in omega arith)
                (λ p lo hi. elim (Bool-cases (p == pos)) [
                  | inl eq ↦
                      let same = ==→eq p pos eq in
                      elim (here (omega arith)) [
                        | inl nothing ↦
                            let e : leaves_at body child p ≡ [] =
                              ap (leaves_at body child) same ∙ nothing in
                            rw e tt
                        | inr gt ↦
                            larger_kept entries path r h body child b tree p (omega arith)
                              (subst (λ x. b < byte_of body x) (sym same) gt)
                      ]
                  | inr ne ↦
                      larger_kept entries path r h body child b tree p (omega arith)
                        (sought.behind p (ground (arith, ne)) (omega arith))
                ]))

    child_kept :
        (pos i : ℕ) (o : Option ℕ)
        → Sought h body b (pos, o)
        → pos < limit h body
        → pos_slot body pos ≡ some i
        → kept (in_order (inner h body child)) ≡ kept (in_order (child i)) ++ left_at (pos + 1)
    child_kept pos i o sought lt slot =
        let here : leaves_at body child pos ≡ in_order (child i) = rw slot refl in
        let moved : suc pos ≡ pos + 1 = omega arith in
        let split : left_at pos ≡ in_order (child i) ++ left_at (pos + 1) =
          gather_at (leaves_at body child) pos (limit h body - pos) pos (limit h body - (pos + 1))
            (omega arith) (omega arith) (λ q l r. absurd (omega arith))
          ∙ (ap
                (λ (l : List ℕ).
                  l ++ gather (leaves_at body child) (suc pos) (limit h body - (pos + 1)))
                here
              ∙ ap
                  (λ (k : ℕ).
                    in_order (child i)
                    ++ gather (leaves_at body child) k (limit h body - (pos + 1)))
                  moved) in
        ap kept (in_order-inner h body child)
        ∙ (keep-from entries path r h body child b tree pos sought.inside sought.before
            ∙ (ap kept split
                ∙ (keep-append (wanted entries path r h body child b tree) (in_order (child i))
                      (left_at (pos + 1))
                    ∙ ap (λ (l : List ℕ). kept (in_order (child i)) ++ l)
                        (keep-behind entries path r h body child b tree (pos + 1)
                          (limit h body - (pos + 1)) (omega arith)
                          (λ p lo hi.
                            larger_kept entries path r h body child b tree p (omega arith)
                              (sought.behind p (omega arith) (omega arith)))))))

    abbrev pub Next : Type 0
    Next = ℕ → ℕ → Stack → Run (Option Position)

    -- The loop goes on below a child, or from the position on.
    pub below-Eventually :
        (key : List ℕ) (next : Next) (pos : ℕ) (o : Option ℕ)
        → Sought h body b (pos, o)
        → ((i : ℕ)
            → pos < limit h body
            → pos_slot body pos ≡ some i
            → byte_of body pos ≡ b
            → is_null (child i) ≡ false
            → Eventually
                (λ fuel. next fuel i ((inner h body child, pos + 1) ∷ rest))
                (kept (in_order (child i)) ++ (left_at (pos + 1) ++ leaves)))
        → Eventually
            (λ fuel.
              bound_below entries true key fuel
                (inner h body child)
                child
                (next fuel)
                (pos, o)
                rest)
            (kept (in_order (inner h body child)) ++ leaves)
    unfolding iterator_next
    below-Eventually key next pos o sought ih =
        let onward =
          from_pos-Eventually entries path h body child rest leaves tree fits below pos in
        elim sought.here [
          | inl (i, is, lt, slot, byte) ↦ elim (Bool-cases (is_null (child i))) [
            | inl empty ↦
                let nothing : leaves_at body child pos ≡ [] =
                  rw slot (in_order-null (child i) empty) in
                let all = rest_kept pos o sought (λ l. inl nothing) in
                (onward.0, λ fuel le. rw (is, all, empty) (onward.1 fuel le))
            | inr full ↦
                let part = child_kept pos i o sought lt slot in
                let whole : kept (in_order (inner h body child)) ++ leaves
                    ≡ kept (in_order (child i)) ++ (left_at (pos + 1) ++ leaves) =
                  ap (λ (l : List ℕ). l ++ leaves) part
                  ∙ append_assoc (kept (in_order (child i))) (left_at (pos + 1)) leaves in
                let run = ih i lt slot byte full in
                (run.0, λ fuel le. rw (is, whole, full) (run.1 fuel le))
          ]
          | inr (is, above) ↦
              let all =
                rest_kept pos o sought
                  (λ lt. elim (above lt) [ inl free ↦ inl (rw free refl) | inr gt ↦ inr gt ]) in
              (onward.0, λ fuel le. rw (is, all) (onward.1 fuel le))
        ]

  -- A node whose prefix differs from the key.
  pub differs-Eventually :
      (path s : List ℕ) (h : Header) (body : Body) (child : ℕ → Node) (rest : Stack)
      (leaves : List ℕ) (d : Differ s h.prefix)
      → IsTree entries path (inner h body child)
      → length rest ≤ length path
      → IsOpen rest
      → Eventually (λ fuel. iterator_loop fuel rest) leaves
      → mismatch s h.prefix h.prefix_length ≡ ok (length d.common)
      → length d.common < h.prefix_length
      → Eventually
          (λ fuel. bound_loop entries true (path ++ s) fuel (inner h body child) rest (length path))
          (keep (reaches entries (path ++ s)) (in_order (inner h body child)) ++ leaves)
  unfolding bound_loop
  differs-Eventually path s h body child rest leaves d tree fits is_open below e lt =
      let room : ltb (length rest) stack_size ≡ true =
        lt→ltb (length rest) stack_size (omega (arith, tree.1)) in
      let compared = whole_prefix path s h body child tree.1 ∙ e in
      let stop = ne→== (length d.common) h.prefix_length (omega arith) in
      let prefix_byte : at h.prefix (length d.common) ≡ ok d.right =
        rw d.ys_is (at_end d.common d.right_rest d.right) in
      let key_byte : at (path ++ s) (length path + length d.common) ≡ ok d.left =
        rw d.xs_is (at_below path d.common d.left_rest d.left) in
      elim (Bool-cases (ltb d.right d.left)) [
        | inl less ↦
            let dropped = keep-none (reaches entries (path ++ s)) (in_order (inner h body child)) (
              prefix_differs entries path s h body child d false tree (λ tid x key.
                subst (λ z. reaches entries (path ++ z) tid ≡ false) (sym d.xs_is)
                  (reaches-before entries path d.common x d.left_rest d.right d.left tid key
                    (ground (arith, less))))) in
            (
              below.0,
              λ fuel le.
                  rw (room, compared, stop, prefix_byte, key_byte, less, dropped, is_open fuel)
                    (below.1 fuel le),
            )
        | inr greater ↦
            let all = keep-All (reaches entries (path ++ s)) (in_order (inner h body child)) (
              prefix_differs entries path s h body child d true tree (λ tid x key.
                subst (λ z. reaches entries (path ++ z) tid ≡ true) (sym d.xs_is)
                  (reaches-behind entries path d.common x d.left_rest d.right d.left tid key
                    (ground (arith, greater, d.differ))))) in
            let onward =
              iterator_loop-Eventually entries (inner h body child) path rest leaves tree refl fits
                below in
            (
              onward.0,
              λ fuel le.
                  rw
                    (
                      room,
                      compared,
                      stop,
                      prefix_byte,
                      key_byte,
                      greater,
                      all,
                      inner-IsOpen h body child 0 rest fuel,
                    )
                    (onward.1 fuel le),
            )
      ]
