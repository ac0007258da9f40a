-- ===== src/Competitors/Art/Tree.antt =====
-- competitors/art_primary_lb.h: the lookups and the insertion of a tree whose leaves hold positions
-- in the data.
use sosd.Prelude.{
  ℕ, zero, suc, ◌+◌, ◌-◌, ◌%◌, ◌==◌, min, List, [], ◌∷◌, drop, take, Option, none, some, Bool, true,
  not, ◌&&◌, ◌||◌, ltb, leb, if◌then◌else◌, Run, ok, fault, undefined, at, ◌>>=◌,
}
use sosd.Prelude.Words.{u64_mod}
use sosd.Data.{KeyValue}
use sosd.Competitors.Art.Bytes.{swap_bytes, mismatch}
use sosd.Competitors.Art.Nodes.{
  Header, Body, node4, node16, node48, node256, Node, null, leaf, inner, is_null, make_leaf,
  max_prefix_length, empty_marker, no_child, update, find_child, insert_child,
}

-- keyLength and maxKeyLength: the wrapper passes 8 for both.
abbrev pub key_length : ℕ
key_length = 8

-- while (n->childIndex[pos] == emptyMarker) pos++, for so many positions, and the same downwards.
unfoldable pub scan_up : (ℕ → Bool) → ℕ → ℕ → Run ℕ
scan_up skips pos zero = fault undefined
scan_up skips pos (suc n) = if skips pos then scan_up skips (suc pos) n else ok pos

unfoldable pub scan_down : (ℕ → Bool) → ℕ → Run ℕ
scan_down skips zero = fault undefined
scan_down skips (suc n) = if skips n then scan_down skips n else ok n

unfoldable pub minimum : Node → Run Node
minimum null = ok null
minimum (leaf tid) = ok (leaf tid)
minimum (inner h (node4 key) child) = minimum (child 0)
minimum (inner h (node16 key) child) = minimum (child 0)
minimum (inner h (node48 child_index) child) =
    scan_up (λ b. child_index b == empty_marker) 0 256 >>= λ pos. minimum (child (child_index pos))
minimum (inner h node256 child) =
    scan_up (λ b. is_null (child b)) 0 256 >>= λ pos. minimum (child pos)

unfoldable pub maximum : Node → Run Node
maximum null = ok null
maximum (leaf tid) = ok (leaf tid)
maximum (inner h (node4 key) child) = maximum (child (h.count - 1))
maximum (inner h (node16 key) child) = maximum (child (h.count - 1))
maximum (inner h (node48 child_index) child) =
    scan_down (λ b. child_index b == empty_marker) 256 >>= λ pos. maximum (child (child_index pos))
maximum (inner h node256 child) =
    scan_down (λ b. is_null (child b)) 256 >>= λ pos. maximum (child pos)

-- getLeafValue: the bits of the pointer without the lowest one, which mean nothing at an inner node.
abbrev pub get_leaf_value : Node → Run ℕ
get_leaf_value null = ok 0
get_leaf_value (leaf tid) = ok tid
get_leaf_value (inner h body child) = fault undefined

module _ (entries : List KeyValue) where
  unfoldable pub load_key : ℕ → Run (List ℕ)
  load_key tid = do e ← at entries tid; ok (swap_bytes e.key)

  unfoldable pub leaf_matches : ℕ → List ℕ → ℕ → Run Bool
  leaf_matches tid key depth = if depth == key_length then ok true else (do
    leaf_key ← load_key tid
    m ← mismatch (drop depth leaf_key) (drop depth key) (key_length - depth)
    ok (m == key_length - depth))

  -- prefixMismatch without a length: a longer prefix continues in the key of the least leaf.
  unfoldable pub prefix_mismatch : Header → Body → (ℕ → Node) → List ℕ → ℕ → Run ℕ
  prefix_mismatch h body child key depth =
      if ltb max_prefix_length h.prefix_length
      then (do
        m ← mismatch (drop depth key) h.prefix max_prefix_length
        if ltb m max_prefix_length then ok m else (do
          least ← minimum (inner h body child)
          tid ← get_leaf_value least
          min_key ← load_key tid
          more ←
              mismatch (drop (depth + max_prefix_length) key)
                (drop (depth + max_prefix_length) min_key) (h.prefix_length - max_prefix_length)
          ok (max_prefix_length + more)))
      else mismatch (drop depth key) h.prefix h.prefix_length

  -- The leaf at which a lookup ends: the key is checked only if some of it is left.
  unfoldable pub lookup_leaf : ℕ → List ℕ → ℕ → Bool → Run Node
  lookup_leaf tid key depth skipped_prefix = if depth == key_length then ok (leaf tid) else (do
    leaf_key ← load_key tid
    let from = if skipped_prefix then 0 else depth
    m ← mismatch (drop from leaf_key) (drop from key) (key_length - from)
    ok (if m == key_length - from then leaf tid else null))

  -- Whether the lookup goes on below a node: a long prefix is not compared.
  unfoldable pub prefix_fits : Header → List ℕ → ℕ → Run Bool
  prefix_fits h key depth =
      if ltb h.prefix_length max_prefix_length
      then (mismatch (drop depth key) h.prefix h.prefix_length >>= λ m. ok (m == h.prefix_length))
      else ok true

  -- What follows at the slot that findChild returns.
  abbrev pub at_slot {ℓ} : {A : Type ℓ} → A → (ℕ → A) → Option ℕ → A
  at_slot missing found none = missing
  at_slot missing found (some i) = found i

  unfoldable pub lookup : Node → List ℕ → ℕ → Bool → Run Node
  lookup null key depth skipped_prefix = ok null
  lookup (leaf tid) key depth skipped_prefix = lookup_leaf tid key depth skipped_prefix
  lookup (inner h body child) key depth skipped_prefix =
      let skips = skipped_prefix || leb max_prefix_length h.prefix_length in
      let below = depth + h.prefix_length in
      let next = λ (i : ℕ). lookup (child i) key (below + 1) skips in
      do
        fits ← prefix_fits h key depth
        if fits
            then (at key below >>= λ key_byte. at_slot (ok null) next (find_child h body key_byte))
            else ok null

  unfoldable pub lookup_pessimistic : Node → List ℕ → ℕ → Run Node
  lookup_pessimistic null key depth = ok null
  lookup_pessimistic (leaf tid) key depth = do
    matches ← leaf_matches tid key depth
    ok (if matches then leaf tid else null)
  lookup_pessimistic (inner h body child) key depth =
      let below = depth + h.prefix_length in
      let next = λ (i : ℕ). lookup_pessimistic (child i) key (below + 1) in
      do
        m ← prefix_mismatch h body child key depth
        if m == h.prefix_length
            then (at key below >>= λ key_byte. at_slot (ok null) next (find_child h body key_byte))
            else ok null

  -- A leaf becomes a Node4 with the common bytes as its prefix and both leaves below it.
  unfoldable pub split_leaf : ℕ → List ℕ → ℕ → ℕ → Run Node
  split_leaf tid key depth value = do
    existing_key ← load_key tid
    n ← mismatch (drop depth existing_key) (drop depth key) (key_length + 1)
    let header : Header = record {
      prefix_length = n;
      count = 0;
      prefix = take (min n max_prefix_length) (drop depth key);
    }
    existing_byte ← at existing_key (depth + n)
    first ← insert_child (inner header (node4 (λ i. 0)) no_child) existing_byte (leaf tid)
    key_byte ← at key (depth + n)
    insert_child first key_byte (make_leaf value)

  -- A prefix that differs at `m` is broken up: a Node4 has the bytes before, the node those behind.
  unfoldable pub split_prefix : Header → Body → (ℕ → Node) → List ℕ → ℕ → ℕ → ℕ → Run Node
  split_prefix h body child key depth m value =
      let header : Header = record {
        prefix_length = m;
        count = 0;
        prefix = take (min m max_prefix_length) h.prefix;
      } in
      let rest_length = h.prefix_length - (m + 1) in
      let kept = λ (prefix : List ℕ).
        inner
          (record {
            prefix_length = rest_length;
            count = h.count;
            prefix = take (min rest_length max_prefix_length) prefix;
          })
          body child in
      do
        (byte, rest) ←
            if ltb h.prefix_length max_prefix_length
            then (at h.prefix m >>= λ b. ok (b, drop (m + 1) h.prefix))
            else (do
              least ← minimum (inner h body child)
              tid ← get_leaf_value least
              min_key ← load_key tid
              b ← at min_key (depth + m)
              ok (b, drop (depth + m + 1) min_key))
        first ← insert_child (inner header (node4 (λ i. 0)) no_child) byte (kept rest)
        key_byte ← at key (depth + m)
        insert_child first key_byte (make_leaf value)

  -- The new `*nodeRef` below a node whose prefix fits: the slot's child takes the key, or gets it.
  abbrev pub insert_below :
      Header → Body → (ℕ → Node) → (ℕ → Run Node) → ℕ → ℕ → Option ℕ → Run Node
  insert_below h body child next key_byte value none =
      insert_child (inner h body child) key_byte (make_leaf value)
  insert_below h body child next key_byte value (some i) =
      if is_null (child i)
      then insert_child (inner h body child) key_byte (make_leaf value)
      else (next i >>= λ t. ok (inner h body (update child i t)))

  -- insert: the node that `*nodeRef` points to afterwards.
  unfoldable pub insert : Node → List ℕ → ℕ → ℕ → Run Node
  insert null key depth value = ok (make_leaf value)
  insert (leaf tid) key depth value = split_leaf tid key depth value
  insert (inner h body child) key depth value =
      let below = depth + h.prefix_length in
      let next = λ (i : ℕ). insert (child i) key (below + 1) value in
      do
        m ← prefix_mismatch h body child key depth
        if m == h.prefix_length
            then (at key below >>= λ key_byte.
                insert_below h body child next key_byte value (find_child h body key_byte))
            else split_prefix h body child key depth m value

-- The loop of Build from position `i` on, over the entries that are left.
module _ (size_scale : ℕ) (entries : List KeyValue) where
  unfoldable pub art_build_loop : List KeyValue → ℕ → ℕ → Node → Run Node
  art_build_loop [] i last_key tree = ok tree
  art_build_loop (e ∷ rest) i last_key tree =
      let skips = (ltb 1 size_scale && not (i % size_scale == 0)) || (e.key == last_key) in
      do
        next ← if skips then ok tree else insert entries tree (swap_bytes e.key) 0 i
        art_build_loop rest (suc i) (if skips then last_key else e.key) next

  unfoldable pub art_build : Run Node
  art_build = art_build_loop entries 0 (u64_mod - 1) null
