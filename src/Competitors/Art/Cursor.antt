-- ===== src/Competitors/Art/Cursor.antt =====
-- competitors/art_primary_lb.h: the iterator, the search for a lower or upper bound, and
-- EqualityLookup. The iterator's stack has its top first, each entry a node and the position of its
-- next child; the rounds of the loop that looks for the next leaf are an argument.
use sosd.Prelude.{
  ℕ, zero, suc, ◌+◌, ◌-◌, ◌%◌, ◌==◌, min, List, [], ◌∷◌, drop, length, Option, none, some, Bool,
  true, not, ltb, if◌then◌else◌, Run, ok, fault, undefined, out_of_fuel, out_of_bounds, at, ◌>>=◌,
}
use sosd.Prelude.Words.{u64_mod, sub64}
use sosd.Data.{KeyValue, SearchBound}
use sosd.Competitors.Art.Bytes.{swap_bytes, mismatch}
use sosd.Competitors.Art.Nodes.{
  Header, Body, node4, node16, node48, node256, Node, null, leaf, inner, is_null, max_prefix_length,
  empty_marker,
}
use sosd.Competitors.Art.Tree.{key_length, minimum, get_leaf_value, load_key}

abbrev pub stack_size : ℕ
stack_size = 9

abbrev pub Stack : Type 0
Stack = List (Node × ℕ)

-- The iterator where a leaf was found, and its value.
abbrev pub Position : Type 0
Position = ℕ × Stack

-- for (; pos < 256; pos++): the first position that has a child, for so many positions.
unfoldable pub scan_child : (ℕ → Bool) → (ℕ → Node) → ℕ → ℕ → Node × ℕ
scan_child has child pos zero = (null, pos)
scan_child has child pos (suc n) =
    if has pos then (child pos, pos + 1) else scan_child has child (suc pos) n

-- `next`, or null, and the entry's position afterwards.
unfoldable pub next_child : Header → Body → (ℕ → Node) → ℕ → Node × ℕ
next_child h (node4 key) child pos = if ltb pos h.count then (child pos, pos + 1) else (null, pos)
next_child h (node16 key) child pos = if ltb pos h.count then (child pos, pos + 1) else (null, pos)
next_child h (node48 child_index) child pos =
    scan_child (λ b. not (child_index b == empty_marker)) (λ b. child (child_index b)) pos
      (256 - pos)
next_child h node256 child pos = scan_child (λ b. not (is_null (child b))) child pos (256 - pos)

-- The stack with `next` on the entry, or without the entry.
abbrev pub advance : Node → Node × ℕ → Stack → Run Stack
advance node (next, pos) rest =
    if is_null next
    then ok rest
    else if ltb (length rest + 1) stack_size
    then ok ((next, 0) ∷ (node, pos) ∷ rest)
    else fault out_of_bounds

-- while (iter.depth)
unfoldable pub iterator_loop : ℕ → Stack → Run (Option Position)
iterator_loop zero stack = fault out_of_fuel
iterator_loop (suc fuel) [] = ok none
iterator_loop (suc fuel) ((null, pos) ∷ rest) = fault undefined
iterator_loop (suc fuel) ((leaf tid, pos) ∷ rest) = ok (some (tid, (leaf tid, pos) ∷ rest))
iterator_loop (suc fuel) ((inner h body child, pos) ∷ rest) =
    advance (inner h body child) (next_child h body child pos) rest >>= iterator_loop fuel

-- iteratorNext: a leaf on the top is skipped.
unfoldable pub iterator_next : ℕ → Stack → Run (Option Position)
iterator_next fuel [] = iterator_loop fuel []
iterator_next fuel ((null, pos) ∷ rest) = iterator_loop fuel ((null, pos) ∷ rest)
iterator_next fuel ((leaf tid, pos) ∷ rest) = iterator_loop fuel rest
iterator_next fuel ((inner h body child, pos) ∷ rest) =
    iterator_loop fuel ((inner h body child, pos) ∷ rest)

-- The position that bound takes in a node, and the slot of the byte's child.
unfoldable pub seek_key : (ℕ → ℕ) → ℕ → ℕ → ℕ → ℕ × Option ℕ
seek_key key key_byte pos zero = (pos, none)
seek_key key key_byte pos (suc n) =
    if key pos == key_byte
    then (pos, some pos)
    else if ltb key_byte (key pos)
    then (pos, none)
    else seek_key key key_byte (suc pos) n

unfoldable pub seek_child : Header → Body → ℕ → ℕ × Option ℕ
seek_child h (node4 key) key_byte = seek_key key key_byte 0 h.count
seek_child h (node16 key) key_byte = seek_key key key_byte 0 h.count
seek_child h (node48 child_index) key_byte =
    (key_byte, if child_index key_byte == empty_marker then none else some (child_index key_byte))
seek_child h node256 key_byte = (key_byte, some key_byte)

module _ (entries : List KeyValue) where
  -- prefixMismatch with a length.
  unfoldable pub bounded_mismatch : Header → Body → (ℕ → Node) → List ℕ → ℕ → Run ℕ
  bounded_mismatch h body child key depth =
      let comp_bytes = min (key_length - depth) h.prefix_length in
      if ltb max_prefix_length comp_bytes
      then (do
        m ← mismatch (drop depth key) h.prefix max_prefix_length
        if ltb m max_prefix_length then ok m else (do
          least ← minimum (inner h body child)
          tid ← get_leaf_value least
          min_key ← load_key entries tid
          more ←
              mismatch (drop (depth + max_prefix_length) key)
                (drop (depth + max_prefix_length) min_key) (comp_bytes - max_prefix_length)
          ok (max_prefix_length + more)))
      else mismatch (drop depth key) h.prefix comp_bytes

  module _ (lower : Bool) (key : List ℕ) (fuel : ℕ) where
    -- The leaf at which bound ends; `rest` is the stack below it.
    unfoldable pub bound_leaf : ℕ → Stack → ℕ → Run (Option Position)
    bound_leaf tid rest depth =
        let stack = (leaf tid, 0) ∷ rest in
        let here : Run (Option Position) = ok (some (tid, stack)) in
        let equal = if lower then here else iterator_next fuel stack in
        if depth == key_length then equal else (do
          leaf_key ← load_key entries tid
          m ← mismatch (drop depth leaf_key) (drop depth key) (key_length - depth)
          if m == key_length - depth then equal else (do
            leaf_byte ← at leaf_key (depth + m)
            key_byte ← at key (depth + m)
            if ltb leaf_byte key_byte then iterator_next fuel rest else here))

    -- What follows at the position and the slot that were found in a node.
    abbrev pub bound_below :
        Node
        → (ℕ → Node)
        → (ℕ → Stack → Run (Option Position))
        → ℕ × Option ℕ
        → Stack
        → Run (Option Position)
    bound_below node child next (pos, none) rest = iterator_next fuel ((node, pos) ∷ rest)
    bound_below node child next (pos, some i) rest =
        if is_null (child i)
        then iterator_next fuel ((node, pos) ∷ rest)
        else next i ((node, pos + 1) ∷ rest)

    -- The loop of bound from a node on.
    unfoldable pub bound_loop : Node → Stack → ℕ → Run (Option Position)
    bound_loop null rest depth = fault undefined
    bound_loop (leaf tid) rest depth =
        if ltb (length rest) stack_size then bound_leaf tid rest depth else fault out_of_bounds
    bound_loop (inner h body child) rest depth =
        let below = depth + h.prefix_length in
        let next = λ (i : ℕ) (s : Stack). bound_loop (child i) s (below + 1) in
        let search = do
          m ← bounded_mismatch h body child key depth
          if m == h.prefix_length
              then (at key below >>= λ key_byte.
                  bound_below (inner h body child) child next (seek_child h body key_byte) rest)
              else (do
                prefix_byte ← at h.prefix m
                key_byte ← at key (depth + m)
                if ltb prefix_byte key_byte
                    then iterator_next fuel rest
                    else iterator_next fuel ((inner h body child, 0) ∷ rest))
        in if ltb (length rest) stack_size then search else fault out_of_bounds

    unfoldable pub bound : Node → Run (Option Position)
    bound tree = if is_null tree then ok none else bound_loop tree [] 0

  -- EqualityLookup, of a tree that Build left.
  abbrev pub guess_of : Option Position → ℕ
  guess_of none = sub64 (length entries) 1
  guess_of (some (value, stack)) = value

  unfoldable pub art_lookup : ℕ → ℕ → Node → ℕ → Run SearchBound
  art_lookup fuel size_scale tree lookup_key = do
    it ← bound true (swap_bytes lookup_key) fuel tree
    let guess = guess_of it
    let error = size_scale - 1
    ok record { start = if ltb guess error then 0 else guess - error; stop = (guess + 1) % u64_mod }
