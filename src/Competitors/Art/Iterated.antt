-- ===== src/Competitors/Art/Iterated.antt =====
-- competitors/art_primary_lb.h: iteratorNext, and the leaves that are left on the iterator's stack.
use sosd.Prelude.{
  ℕ, zero, suc, ◌+◌, ◌-◌, ◌≤◌, ◌<◌, ◌≡◌, inl, inr, refl, ap, subst, ◌∙◌, List, [], ◌∷◌, ◌++◌,
  length, Option, none, some, true, false, ltb, lt→ltb, Run, ok, arith,
}
use mathlib.Core.List.{append_assoc}
use sosd.Data.{KeyValue}
use sosd.Competitors.Art.Nodes.{
  Header, Body, node4, node16, node48, node256, Node, null, leaf, inner, is_null, find_child, deref,
}
use sosd.Competitors.Art.Slots.{IsNode, find_key-at}
use sosd.Competitors.Art.Shape.{IsTree}
use sosd.Competitors.Art.Found.{length_below}
use sosd.Competitors.Art.Tree.{key_length}
use sosd.Competitors.Art.Cursor.{Stack, Position, stack_size, next_child, iterator_loop}
use sosd.Competitors.Art.Traverse.{
  limit, pos_slot, byte_of, gather, in_order, leaves_at, gather_none, gather_at, null_slot,
  next_child-IsNext,
}

abbrev pub first : List ℕ → Option ℕ
first [] = none
first (x ∷ xs) = some x

abbrev pub value_of : Option Position → Option ℕ
value_of none = none
value_of (some (value, stack)) = some value

-- The run ends normally, at the first of the leaves or, if there is none, with false.
abbrev pub Yields : Run (Option Position) → List ℕ → Type 0
Yields r leaves = (o : Option Position) × (r ≡ ok o) × (value_of o ≡ first leaves)

-- So it does with every number of rounds from some number on.
abbrev pub Eventually : (ℕ → Run (Option Position)) → List ℕ → Type 0
Eventually run leaves = (n : ℕ) × ((fuel : ℕ) → n ≤ fuel → Yields (run fuel) leaves)

next_round :
    (run : ℕ → Run (Option Position)) (leaves : List ℕ) (n : ℕ)
    → ((fuel : ℕ) → n ≤ fuel → Yields (run (suc fuel)) leaves)
    → (fuel : ℕ) → suc n ≤ fuel
    → Yields (run fuel) leaves
next_round run leaves n f zero le = absurd (omega arith)
next_round run leaves n f (suc fuel) le = f fuel (omega arith)

pub Eventually-suc :
    (run : ℕ → Run (Option Position)) (leaves : List ℕ) (n : ℕ)
    → ((fuel : ℕ) → n ≤ fuel → Yields (run (suc fuel)) leaves)
    → Eventually run leaves
Eventually-suc run leaves n f = (suc n, next_round run leaves n f)

pub empty-Eventually : Eventually (λ fuel. iterator_loop fuel []) []
unfolding iterator_loop
empty-Eventually =
    Eventually-suc (λ fuel. iterator_loop fuel []) [] 0 (λ fuel le. (none, refl, refl))

-- An entry of the stack, given what the iterator does with the children on top of any stack.
module _ (depth : ℕ) (h : Header) (body : Body) (child : ℕ → Node) (valid : IsNode h body child)
    (short : depth < key_length) (s : Stack) (fits : length s ≤ depth) (leaves : List ℕ)
    (below : Eventually (λ fuel. iterator_loop fuel s) leaves)
    (ih : (p i : ℕ)
      → p < limit h body
      → pos_slot body p ≡ some i
      → is_null (child i) ≡ false
      → (r : Stack) (l : List ℕ) → length r ≤ suc depth
      → Eventually (λ fuel. iterator_loop fuel r) l
      → Eventually (λ fuel. iterator_loop fuel ((child i, 0) ∷ r)) (in_order (child i) ++ l)) where
  abbrev left_at : ℕ → List ℕ
  left_at pos = gather (leaves_at body child) pos (limit h body - pos)

  -- An entry without a child that is left.
  last-Eventually :
      (pos q : ℕ)
      → next_child h body child pos ≡ (null, q)
      → ((p : ℕ) → pos ≤ p → p < limit h body → is_null (deref child (pos_slot body p)) ≡ true)
      → Eventually
          (λ fuel. iterator_loop fuel ((inner h body child, pos) ∷ s))
          (left_at pos ++ leaves)
  unfolding iterator_loop
  last-Eventually pos q e none_of =
      let nothing : left_at pos ≡ [] =
        gather_none (leaves_at body child) pos (limit h body - pos)
          (λ p lo hi. null_slot child (pos_slot body p) (none_of p lo (omega arith))) in
      Eventually-suc (λ fuel. iterator_loop fuel ((inner h body child, pos) ∷ s))
        (left_at pos ++ leaves) below.0 (λ fuel le. rw (nothing, e) (below.1 fuel le))

  pub entry-Eventually :
      (rounds pos : ℕ)
      → limit h body ≤ pos + rounds
      → Eventually
          (λ fuel. iterator_loop fuel ((inner h body child, pos) ∷ s))
          (left_at pos ++ leaves)
  unfolding iterator_loop
  entry-Eventually zero pos over = elim (next_child-IsNext h body child pos valid) [
    | inl (q, e, none_of) ↦ last-Eventually pos q e none_of
    | inr (p, i, e, is, lo, hi, slot, before) ↦ absurd (omega arith)
  ]
  entry-Eventually (suc rounds) pos over = elim (next_child-IsNext h body child pos valid) [
    | inl (q, e, none_of) ↦ last-Eventually pos q e none_of
    | inr (p, i, e, is, lo, hi, slot, before) ↦
        let after = entry-Eventually rounds (p + 1) (omega arith) in
        let (n, run) =
          ih p i hi slot is ((inner h body child, p + 1) ∷ s) (left_at (p + 1) ++ leaves)
            (omega arith) after in
        let here : leaves_at body child p ≡ in_order (child i) = rw slot refl in
        let moved : suc p ≡ p + 1 = omega arith in
        let split : left_at pos ≡ in_order (child i) ++ left_at (p + 1) =
          gather_at (leaves_at body child) pos (limit h body - pos) p (limit h body - (p + 1)) lo
            (omega arith) (λ q l r. null_slot child (pos_slot body q) (before q l r))
          ∙ (ap
                (λ (l : List ℕ).
                  l ++ gather (leaves_at body child) (suc p) (limit h body - (p + 1)))
                here
              ∙ ap
                  (λ (k : ℕ).
                    in_order (child i) ++ gather (leaves_at body child) k (limit h body - (p + 1)))
                  moved) in
        let whole : left_at pos ++ leaves ≡ in_order (child i) ++ (left_at (p + 1) ++ leaves) =
          ap (λ (l : List ℕ). l ++ leaves) split
          ∙ append_assoc (in_order (child i)) (left_at (p + 1)) leaves in
        let room : ltb (length s + 1) stack_size ≡ true =
          lt→ltb (length s + 1) stack_size (omega arith) in
        Eventually-suc (λ fuel. iterator_loop fuel ((inner h body child, pos) ∷ s))
          (left_at pos ++ leaves) n (λ fuel le. rw (whole, e, is, room) (run fuel le))
  ]

-- The byte of a position finds the position's slot.
pub pos-child :
    (h : Header) (body : Body) (child : ℕ → Node) (p i : ℕ)
    → IsNode h body child
    → p < limit h body
    → pos_slot body p ≡ some i
    → (byte_of body p < 256) × (find_child h body (byte_of body p) ≡ some i)
unfolding find_child
pos-child h (node4 key) child p i (le, s) lt e =
    (s.are_bytes p lt, find_key-at h.count key child p s lt ∙ e)
pos-child h (node16 key) child p i (le, s) lt e =
    (s.are_bytes p lt, find_key-at h.count key child p s lt ∙ e)
pos-child h (node48 child_index) child p i valid lt e = (lt, e)
pos-child h node256 child p i valid lt e = (lt, e)

module _ (entries : List KeyValue) where
  -- The path to the child at a position.
  abbrev pub path_at : List ℕ → Header → Body → ℕ → List ℕ
  path_at path h body p = path ++ (h.prefix ++ (byte_of body p ∷ []))

  pub IsTree-pos :
      (path : List ℕ) (h : Header) (body : Body) (child : ℕ → Node) (p i : ℕ)
      → IsTree entries path (inner h body child)
      → p < limit h body
      → pos_slot body p ≡ some i
      → IsTree entries (path_at path h body p) (child i)
  IsTree-pos path h body child p i (lengths, short, valid, below) lt e =
      let (small, f) = pos-child h body child p i valid.0 lt e in below (byte_of body p) i small f

  inner-Eventually :
      (path : List ℕ) (h : Header) (body : Body) (child : ℕ → Node) (s : Stack) (leaves : List ℕ)
      → IsTree entries path (inner h body child)
      → length s ≤ length path
      → Eventually (λ fuel. iterator_loop fuel s) leaves
      → ((p i : ℕ)
          → p < limit h body
          → pos_slot body p ≡ some i
          → is_null (child i) ≡ false
          → (r : Stack) (l : List ℕ) → length r ≤ suc (length path + h.prefix_length)
          → Eventually (λ fuel. iterator_loop fuel r) l
          → Eventually (λ fuel. iterator_loop fuel ((child i, 0) ∷ r)) (in_order (child i) ++ l))
      → (pos : ℕ)
      → Eventually
          (λ fuel. iterator_loop fuel ((inner h body child, pos) ∷ s))
          (gather (leaves_at body child) pos (limit h body - pos) ++ leaves)
  inner-Eventually path h body child s leaves tree fits below ih pos =
      entry-Eventually (length path + h.prefix_length) h body child tree.2.0 tree.1 s (omega arith)
        leaves below ih (limit h body) pos (omega arith)

  -- With a tree on the top of its stack, the iterator finds the leaves of the tree and then what it
  -- finds without it.
  pub iterator_loop-Eventually :
      (t : Node) (path : List ℕ) (s : Stack) (leaves : List ℕ)
      → IsTree entries path t
      → is_null t ≡ false
      → length s ≤ length path
      → Eventually (λ fuel. iterator_loop fuel s) leaves
      → Eventually (λ fuel. iterator_loop fuel ((t, 0) ∷ s)) (in_order t ++ leaves)
  unfolding iterator_loop in_order
  iterator_loop-Eventually null path s leaves tree is fits below = absurd (ground arith)
  iterator_loop-Eventually (leaf tid) path s leaves tree is fits below =
      Eventually-suc (λ fuel. iterator_loop fuel ((leaf tid, 0) ∷ s)) (tid ∷ leaves) 0
        (λ fuel le. (some (tid, (leaf tid, 0) ∷ s), refl, refl))
  iterator_loop-Eventually (inner h body child) path s leaves tree is fits below =
      let whole : limit h body - 0 ≡ limit h body = omega arith in
      subst
        (λ n.
          Eventually (λ fuel. iterator_loop fuel ((inner h body child, 0) ∷ s))
            (gather (leaves_at body child) 0 n ++ leaves))
        whole
        (inner-Eventually path h body child s leaves tree fits below
          (λ p i lt slot not_null r l small after.
            iterator_loop-Eventually (child i) (path_at path h body p) r l
              (IsTree-pos path h body child p i tree lt slot) not_null
              (omega (arith, length_below path h.prefix (byte_of body p), tree.0)) after)
          0)

  -- The same from a later position of a node on.
  pub from_pos-Eventually :
      (path : List ℕ) (h : Header) (body : Body) (child : ℕ → Node) (s : Stack) (leaves : List ℕ)
      → IsTree entries path (inner h body child)
      → length s ≤ length path
      → Eventually (λ fuel. iterator_loop fuel s) leaves
      → (pos : ℕ)
      → Eventually
          (λ fuel. iterator_loop fuel ((inner h body child, pos) ∷ s))
          (gather (leaves_at body child) pos (limit h body - pos) ++ leaves)
  from_pos-Eventually path h body child s leaves tree fits below pos =
      inner-Eventually path h body child s leaves tree fits below
        (λ p i lt slot not_null r l small after.
          iterator_loop-Eventually (child i) (path_at path h body p) r l
            (IsTree-pos path h body child p i tree lt slot) not_null
            (omega (arith, length_below path h.prefix (byte_of body p), tree.0)) after)
        pos
