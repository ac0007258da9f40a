-- ===== src/Competitors/Art/Nodes.antt =====
-- competitors/art_primary_lb.h: the nodes, the search for a child, and the insertion of a child
-- into a node. A node's arrays are functions of the index; what was not written yet is 0 or null.
use sosd.Prelude.{
  ℕ, zero, suc, ◌+◌, ◌-◌, ◌%◌, ◌^◌, ◌==◌, List, [], Option, none, some, Bool, true, false, ltb,
  if◌then◌else◌, Run, ok, fault, undefined, ◌>>=◌,
}
unfoldable pub use sosd.Prelude.Arrays.{update, find_key}

abbrev pub max_prefix_length : ℕ
max_prefix_length = 9

abbrev pub empty_marker : ℕ
empty_marker = 48

-- The fields of `Node`, without the type: `prefix` has the bytes that were written to it.
pub record Header : Type 0 where
  pub prefix_length : ℕ
  pub count : ℕ
  pub prefix : List ℕ

-- The type of an inner node, with the array that finds the slot of a byte's child.
pub data Body : Type 0 where
  node4 node16 node48 : (ℕ → ℕ) → Body
  node256 : Body

-- A `Node*`: the null pointer, a pseudo-leaf, or an inner node with its array `child`.
pub data Node : Type 0 where
  null : Node
  leaf : ℕ → Node
  inner : Header → Body → (ℕ → Node) → Node

-- The value is shifted by one bit to make place for the mark of a leaf.
unfoldable pub make_leaf : ℕ → Node
make_leaf tid = leaf (tid % 2 ^ 63)

abbrev pub is_null : Node → Bool
is_null null = true
is_null (leaf tid) = false
is_null (inner h body child) = false

abbrev pub no_child : ℕ → Node
no_child i = null

-- The constructors of Node4, Node16, Node48 and Node256.
abbrev pub new_header : Header
new_header = record { prefix_length = 0; count = 0; prefix = [] }

-- findChild: the slot whose address it returns, or none for the address of nullNode. In a Node16
-- the lowest bit of the comparison's mask is the first key that is equal.
unfoldable pub find_child : Header → Body → ℕ → Option ℕ
find_child h (node4 key) key_byte = find_key key key_byte 0 h.count
find_child h (node16 key) key_byte = find_key key key_byte 0 h.count
find_child h (node48 child_index) key_byte =
    if child_index key_byte == empty_marker then none else some (child_index key_byte)
find_child h node256 key_byte = some key_byte

-- *findChild(...).
abbrev pub deref : (ℕ → Node) → Option ℕ → Node
deref child none = null
deref child (some i) = child i

-- for (pos = 0; (pos < node->count) && (node->key[pos] < keyByte); pos++)
unfoldable pub insert_pos : (ℕ → ℕ) → ℕ → ℕ → ℕ → ℕ
insert_pos key key_byte pos zero = pos
insert_pos key key_byte pos (suc n) =
    if ltb (key pos) key_byte then insert_pos key key_byte (suc pos) n else pos

-- memmove from pos to pos + 1, and the write at pos.
unfoldable pub shift_in {ℓ} : {A : Type ℓ} → (ℕ → A) → ℕ → A → ℕ → A
shift_in f pos v j = if ltb j pos then f j else if j == pos then v else f (j - 1)

-- The place of a new key among the sorted ones, in a Node4 or a Node16.
unfoldable pub insert_sorted : ((ℕ → ℕ) → Body) → Header → (ℕ → ℕ) → (ℕ → Node) → ℕ → Node → Node
insert_sorted body h key child key_byte c =
    let pos = insert_pos key key_byte 0 h.count in
    inner (record { prefix_length = h.prefix_length; count = h.count + 1; prefix = h.prefix })
      (body (shift_in key pos key_byte)) (shift_in child pos c)

-- copyPrefix into a new node that has the count of the old one.
abbrev pub grown_header : Header → Header
grown_header h = record { prefix_length = h.prefix_length; count = h.count; prefix = h.prefix }

unfoldable pub insert_node256 : Header → (ℕ → Node) → ℕ → Node → Node
insert_node256 h child key_byte c =
    inner (record { prefix_length = h.prefix_length; count = h.count + 1; prefix = h.prefix })
      node256 (update child key_byte c)

-- for (pos = 0; node->child[pos] != NULL; pos++), in the array of 48.
unfoldable pub free_slot : (ℕ → Node) → ℕ → ℕ → Run ℕ
free_slot child pos zero = fault undefined
free_slot child pos (suc n) = if is_null (child pos) then ok pos else free_slot child (suc pos) n

unfoldable pub insert_node48 : Header → (ℕ → ℕ) → (ℕ → Node) → ℕ → Node → Run Node
insert_node48 h child_index child key_byte c =
    if ltb h.count 48
    then (do
      pos ← if is_null (child h.count) then ok h.count else free_slot child 0 48
      ok (
          inner (record { prefix_length = h.prefix_length; count = h.count + 1; prefix = h.prefix })
            (node48 (update child_index key_byte pos)) (update child pos c)))
    else ok (
        insert_node256 (grown_header h)
          (λ i. if child_index i == empty_marker then null else child (child_index i)) key_byte c)

-- for (i = 0; i < node->count; i++) newNode->childIndex[node->key[i]] = i
unfoldable pub index_loop : (ℕ → ℕ) → (ℕ → ℕ) → ℕ → ℕ → ℕ → ℕ
index_loop key child_index i zero = child_index
index_loop key child_index i (suc n) = index_loop key (update child_index (key i) i) (suc i) n

unfoldable pub insert_node16 : Header → (ℕ → ℕ) → (ℕ → Node) → ℕ → Node → Run Node
insert_node16 h key child key_byte c =
    if ltb h.count 16
    then ok (insert_sorted node16 h key child key_byte c)
    else insert_node48 (grown_header h) (index_loop key (λ b. empty_marker) 0 h.count)
        (λ i. if ltb i h.count then child i else null) key_byte c

unfoldable pub insert_node4 : Header → (ℕ → ℕ) → (ℕ → Node) → ℕ → Node → Run Node
insert_node4 h key child key_byte c =
    if ltb h.count 4
    then ok (insert_sorted node4 h key child key_byte c)
    else insert_node16 (record { prefix_length = h.prefix_length; count = 4; prefix = h.prefix })
        (λ i. if ltb i 4 then key i else 0) (λ i. if ltb i h.count then child i else null) key_byte
        c

-- The insertion of a child, by the type of the node.
unfoldable pub insert_child : Node → ℕ → Node → Run Node
insert_child null key_byte c = fault undefined
insert_child (leaf tid) key_byte c = fault undefined
insert_child (inner h (node4 key) child) key_byte c = insert_node4 h key child key_byte c
insert_child (inner h (node16 key) child) key_byte c = insert_node16 h key child key_byte c
insert_child (inner h (node48 child_index) child) key_byte c =
    insert_node48 h child_index child key_byte c
insert_child (inner h node256 child) key_byte c = ok (insert_node256 h child key_byte c)
