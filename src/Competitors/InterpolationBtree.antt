-- ===== src/Competitors/InterpolationBtree.antt =====
-- competitors/interpolation_btree.h: a B-tree that is loaded layer by layer, whose nodes are
-- searched by interpolation. The guess, slope * (key - keys[0]) in double arithmetic, is an
-- argument: any function of a node's keys and the lookup key.
pub mod Search
pub mod Cover
pub mod Fill
pub mod Split
pub mod Layers
pub mod Lookup
pub mod Generator
pub mod Bound
use sosd.Prelude.{
  ℕ, zero, suc, ◌+◌, ◌-◌, ◌*◌, ◌/◌, ◌%◌, ◌==◌, ltb, leb, if◌then◌else◌, List, [], ◌∷◌, map, length,
  Option, none, some, Bool, true, false, ◌&&◌, not, Run, ok, fault, out_of_bounds, undefined,
  out_of_fuel, at, ◌>>=◌, drop,
}
use sosd.Data.{KeyValue, SearchBound, entry_keys}

-- MAX_ENTRIES of both node types.
abbrev pub max_entries : ℕ
max_entries = 256

-- while (idx > 0 && keys[idx] >= key) idx--;
unfoldable pub scroll_down : List ℕ → ℕ → ℕ → Run ℕ
scroll_down keys key zero = ok zero
scroll_down keys key (suc idx) = do
  k ← at keys (suc idx)
  let down = scroll_down keys key idx
  if leb key k then down else ok (suc idx)

-- while (idx < count && keys[idx] < key) idx++; with `rounds` entries left before `count`.
unfoldable pub scroll_up : List ℕ → ℕ → ℕ → ℕ → Run ℕ
scroll_up keys key zero idx = ok idx
scroll_up keys key (suc rounds) idx = do
  k ← at keys idx
  let up = scroll_up keys key rounds (idx + 1)
  if ltb k key then up else ok idx

module _ (guess : List ℕ → ℕ → ℕ) where
  -- The part of both LowerBounds behind the tests of the first and the last key.
  unfoldable pub interpolate : List ℕ → ℕ → Run ℕ
  unfolding scroll_down scroll_up
  interpolate keys key = do
    let idx = guess keys key
    low ← scroll_down keys key (if leb (length keys) idx then length keys - 1 else idx)
    scroll_up keys key (length keys - low) low

  unfoldable pub inner_lower_bound : List ℕ → ℕ → Run ℕ
  unfolding interpolate
  inner_lower_bound keys key = do
    first ← at keys 0
    last ← at keys (length keys - 1)
    let inside = interpolate keys key
    if leb key first then ok 0 else if ltb last key then ok (length keys) else inside

  unfoldable pub leaf_lower_bound : List ℕ → ℕ → Run ℕ
  unfolding interpolate
  leaf_lower_bound keys key = do
    first ← at keys 0
    last ← at keys (length keys - 1)
    let inside = do
      idx ← interpolate keys key
      if idx == length keys then ok (length keys - 1) else ok idx
    if leb key first then ok 0 else if ltb last key then ok (length keys) else inside

pub record Inner (Child : Type 0) : Type 0 where
  pub keys : List ℕ
  pub children : List Child

-- A leaf is the list of its entries; above it, a node of height `suc h` has children of height `h`.
abbrev pub Node : ℕ → Type 0
Node zero = List KeyValue
Node (suc h) = Inner (Node h)

-- A layer: each node with its largest key.
abbrev pub Layer : ℕ → Type 0
Layer h = List (ℕ × Node h)

-- BTree::Lookup. A leaf's LowerBound may be the number of its entries, behind which the array
-- holds no value.
unfoldable pub btree_lookup : (List ℕ → ℕ → ℕ) → (h : ℕ) → Node h → ℕ → Run ℕ
unfolding inner_lower_bound leaf_lower_bound
btree_lookup guess zero leaf key = do
  pos ← leaf_lower_bound guess (entry_keys leaf) key
  e ← at leaf pos
  ok e.value
btree_lookup guess (suc h) node key = do
  pos ← inner_lower_bound guess node.keys key
  child ← at node.children pos
  btree_lookup guess h child key

-- The generator that FastLoadGenerate is called with: a position goes in, and an entry with the
-- next position comes out, or nothing at the end.
abbrev pub Generator : Type 0
Generator = ℕ → Run (Option (KeyValue × ℕ))

-- while (pos < MAX_ENTRIES && input_good): the entries, the generator's position, and input_good.
unfoldable pub fill_leaf : Generator → ℕ → ℕ → Run (List KeyValue × ℕ × Bool)
fill_leaf generator zero pos = ok ([], pos, true)
fill_leaf generator (suc rounds) pos = generator pos >>= λ next. elim next [
  | none ↦ ok ([], pos, false)
  | some (e, behind) ↦ fill_leaf generator rounds behind >>= λ rest. ok (e ∷ rest.0, rest.1, rest.2)
]

-- The leaf is dropped if it is empty, and the loop goes on while the input is good.
unfoldable pub end_leaf : List KeyValue → Bool → Run (Layer 0) → Run (Layer 0)
end_leaf [] input_good rest = ok []
end_leaf (e ∷ entries) false rest = do
  last ← at (e ∷ entries) (length entries)
  ok ((last.key, e ∷ entries) ∷ [])
end_leaf (e ∷ entries) true rest = do
  last ← at (e ∷ entries) (length entries)
  layer ← rest
  ok ((last.key, e ∷ entries) ∷ layer)

-- while (input_good): the leaf layer.
unfoldable pub leaf_layer : Generator → ℕ → ℕ → Run (Layer 0)
unfolding fill_leaf end_leaf
leaf_layer generator zero pos = fault out_of_fuel
leaf_layer generator (suc fuel) pos = do
  (entries, behind, input_good) ← fill_leaf generator max_entries pos
  end_leaf entries input_good (leaf_layer generator fuel behind)

-- The next `n` elements from `pos` on, and what follows them.
unfoldable pub chunk {ℓ} : {A : Type ℓ} → ℕ → List A → Run (List A × List A)
chunk zero xs = ok ([], xs)
chunk (suc n) [] = fault out_of_bounds
chunk (suc n) (x ∷ xs) = chunk n xs >>= λ rest. ok (x ∷ rest.0, rest.1)

abbrev pub drop_last {ℓ} : {A : Type ℓ} → List A → List A
drop_last [] = []
drop_last (x ∷ []) = []
drop_last (x ∷ y ∷ xs) = x ∷ drop_last (y ∷ xs)

-- One inner node over the entries of a chunk: each but the last gives its key, and each its child.
unfoldable pub inner_node : (h : ℕ) → Layer h → Run (ℕ × Node (suc h))
inner_node h entries = do
  last ← at entries (length entries - 1)
  ok (
    last.0,
    record {
      keys = map (λ (e : ℕ × Node h). e.0) (drop_last entries);
      children = map (λ (e : ℕ × Node h). e.1) entries;
    },
  )

-- for (innerNode = 0; innerNode < requiredInnerNodes; innerNode++), with `rounds` nodes left, the
-- entriesPerInnerNode so far, and the entries from `pos` on.
unfoldable pub inner_loop : (h size required rounds inner per : ℕ) → Layer h → Run (Layer (suc h))
unfolding inner_node chunk
inner_loop h size required zero inner per rest = ok []
inner_loop h size required (suc rounds) inner per rest = do
  let entries = if inner * per + (required - inner) * (per - 1) == size then per - 1 else per
  (now, later) ← chunk entries rest
  node ← inner_node h now
  nodes ← inner_loop h size required rounds (inner + 1) entries later
  ok (node ∷ nodes)

unfoldable pub required_inner_nodes : ℕ → ℕ
required_inner_nodes size = size / max_entries + (if size % max_entries == 0 then 0 else 1)

unfoldable pub entries_per_inner_node : ℕ → ℕ
unfolding required_inner_nodes
entries_per_inner_node size =
    size / required_inner_nodes size + (if size % max_entries == 0 then 0 else 1)

unfoldable pub inner_layer : (h : ℕ) → Layer h → Run (Layer (suc h))
unfolding inner_loop
inner_layer h layer =
    let size = length layer in
    inner_loop h size (required_inner_nodes size) (required_inner_nodes size) 0
      (entries_per_inner_node size) layer

-- A height and a root of that height.
abbrev pub Tree : Type 0
Tree = (h : ℕ) × Node h

-- while (nextLayerKeys.size() > 1), and the root.
unfoldable pub layers_loop : ℕ → (h : ℕ) → Layer h → Run Tree
unfolding inner_layer
layers_loop zero h layer = fault out_of_fuel
layers_loop (suc fuel) h [] = fault out_of_bounds
layers_loop (suc fuel) h (root ∷ []) = ok (h, root.1)
layers_loop (suc fuel) h (first ∷ second ∷ layer) =
    inner_layer h (first ∷ second ∷ layer) >>= λ next. layers_loop fuel (suc h) next

-- The tree of a layer of leaves, or none if there is no leaf.
unfoldable pub grow : ℕ → Layer 0 → Run (Option Tree)
unfolding layers_loop
grow fuel [] = ok none
grow fuel (leaf ∷ leaves) = layers_loop fuel 0 (leaf ∷ leaves) >>= λ tree. ok (some tree)

unfoldable pub fast_load_generate : Generator → ℕ → Run (Option Tree)
unfolding leaf_layer grow
fast_load_generate generator fuel = leaf_layer generator fuel 0 >>= λ leaves. grow fuel leaves

-- while (pos < data.size() && pos % size_scale != 0) pos++; over the `rounds` positions left.
unfoldable pub skip : ℕ → ℕ → ℕ → ℕ
skip size_scale zero pos = pos
skip size_scale (suc rounds) pos =
    if pos % size_scale == 0 then pos else skip size_scale rounds (pos + 1)

-- The generator of InterpolationBTree::Build: every size_scale-th entry, and always the last.
unfoldable pub next_entry : ℕ → List KeyValue → Generator
unfolding skip
next_entry size_scale entries pos =
    let skipped = skip size_scale (length entries - pos) pos in
    let here = if skipped == length entries then skipped - 1 else skipped in
    let entry = (at entries here >>= λ e. ok (some (e, here + 1))) in
    if leb (length entries) pos then ok none else entry

-- InterpolationBTree::Build; each leaf takes at least one entry, and each layer has fewer nodes
-- than the one below, so that the number of entries and one is enough fuel.
unfoldable pub ibtree_build : ℕ → List KeyValue → Run (Option Tree)
unfolding fast_load_generate next_entry
ibtree_build size_scale entries =
    fast_load_generate (next_entry size_scale entries) (length entries + 2)

-- InterpolationBTree::EqualityLookup. Without a root the lookup reads through a null pointer.
unfoldable pub ibtree_lookup : (List ℕ → ℕ → ℕ) → ℕ → Option Tree → ℕ → Run SearchBound
unfolding btree_lookup
ibtree_lookup guess size_scale none lookup_key = fault undefined
ibtree_lookup guess size_scale (some (h, root)) lookup_key = do
  ub ← btree_lookup guess h root lookup_key
  ok (record { start = if ltb ub size_scale then 0 else ub - size_scale; stop = ub })

unfoldable pub total {ℓ} : {A : Type ℓ} → (A → ℕ) → List A → ℕ
total f [] = 0
total f (x ∷ xs) = f x + total f xs

-- BTree::GetSizeRec, over the sizes of the two node types in bytes.
unfoldable pub get_size_rec : (leaf_size inner_size h : ℕ) → Node h → ℕ
unfolding total
get_size_rec leaf_size inner_size zero leaf = leaf_size
get_size_rec leaf_size inner_size (suc h) node =
    inner_size + total (get_size_rec leaf_size inner_size h) node.children

-- BTree::GetSize.
unfoldable pub get_size : (leaf_size inner_size : ℕ) → Option Tree → ℕ
unfolding get_size_rec
get_size leaf_size inner_size none = 0
get_size leaf_size inner_size (some (h, root)) = get_size_rec leaf_size inner_size h root
