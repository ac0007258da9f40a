-- ===== src/Competitors/InterpolationBtree/Layers.antt =====
-- competitors/interpolation_btree.h: the layers above the leaves.
use sosd.Prelude.{
  ℕ, zero, suc, ◌+◌, ◌-◌, ◌*◌, ◌/◌, ◌%◌, ◌==◌, ◌≤◌, ◌<◌, ◌≡◌, ◌≢◌, refl, ap, sym, subst, ◌∙◌, List,
  [], ◌∷◌, length, arith, true, false, Bool-cases, ok, length-append, inl, inr, ◌⊎◌, if◌then◌else◌,
  ==→ne,
}
use native.Mathlib.Nat.{mul-div_cancel_left, div-add-mod, mod-lt}
use mathlib.Core.List.{append-nil}
use sosd.Data.{KeyValue, entry_keys}
use sosd.Sorted.{IsSorted}
use sosd.Competitors.InterpolationBtree.{
  Layer, Node, inner_loop, inner_layer, layers_loop, max_entries, required_inner_nodes,
  entries_per_inner_node,
}
use sosd.Competitors.InterpolationBtree.Cover.{Covers, Holds, IsSorted-right}
use sosd.Competitors.InterpolationBtree.Split.{chunk-append, Covers-split, inner_node-Holds}

-- `rounds` nodes are left for `len` entries: the next ones take `q + 1`, until `m` nodes have, and
-- the others take `q`.
abbrev Shares : (q m rounds inner per len : ℕ) → Type 0
Shares q m rounds inner per len =
    ((per ≡ q + 1) × (inner ≤ m) × (m < inner + rounds) × (len ≡ rounds * q + (m - inner)))
    ⊎ ((per ≡ q) × (len ≡ rounds * q))

abbrev next_share : (size required inner per : ℕ) → ℕ
next_share size required inner per =
    if inner * per + (required - inner) * (per - 1) == size then per - 1 else per

whole_rounds : (inner rounds q : ℕ) → (inner + suc rounds) * q ≡ inner * q + rounds * q + q
whole_rounds inner rounds q = grind arith

one_less : (rounds q : ℕ) → 0 < q → rounds * (q - 1) + rounds ≡ rounds * q
one_less rounds zero h = absurd (omega arith)
one_less rounds (suc q) h = let e : suc q - 1 ≡ q = omega arith in rw e (grind arith)

split_round : (rounds q : ℕ) → suc rounds * q ≡ rounds * q + q
split_round rounds q = grind arith

Shares-step :
    (size required q m rounds inner per len : ℕ)
    → inner + suc rounds ≡ required
    → size ≡ required * q + m
    → 1 < q
    → Shares q m (suc rounds) inner per len
    → (1 < next_share size required inner per)
      × (next_share size required inner per ≤ len)
      × Shares q m rounds
          (inner + 1)
          (next_share size required inner per)
          (len - next_share size required inner per)
Shares-step size required q m rounds inner per len e n h (inl (p, le, lt, l)) =
    let left : required - inner ≡ suc rounds = omega arith in
    let all : size ≡ inner * q + rounds * q + q + m =
      n ∙ ap (λ r. r * q + m) (sym e) ∙ omega (arith, whole_rounds inner rounds q) in
    let now : inner * (q + 1) + suc rounds * (q + 1 - 1) ≡ inner * q + inner + rounds * q + q =
      grind arith in
    let round = split_round rounds q in
    elim (Bool-cases (inner == m)) [
      | inl last ↦
          let test : (inner * (q + 1) + suc rounds * (q + 1 - 1) == size) ≡ true = ground arith in
          rw (p, left, test) (omega arith, omega arith, inr (omega arith, ground arith))
      | inr more ↦
          let before : inner < m = ground arith in
          let test : (inner * (q + 1) + suc rounds * (q + 1 - 1) == size) ≡ false = ground arith in
          rw (p, left, test)
            (omega arith, omega arith, inl (refl, ground arith, omega arith, ground arith))
    ]
Shares-step size required q m rounds inner per len e n h (inr (p, l)) =
    let left : required - inner ≡ suc rounds = omega arith in
    let all : size ≡ inner * q + rounds * q + q + m =
      n ∙ ap (λ r. r * q + m) (sym e) ∙ omega (arith, whole_rounds inner rounds q) in
    let round = split_round rounds q in
    let less = one_less (suc rounds) q (omega arith) in
    let test : (inner * q + suc rounds * (q - 1) == size) ≡ false = ground arith in
    rw (p, left, test) (omega arith, omega arith, inr (refl, omega arith))

module _ (size required q m : ℕ) (n : size ≡ required * q + m) (some_each : 1 < q) where
  -- The loop ends normally, uses every entry up, and leaves one node for each round.
  inner_loop-Covers :
      (h rounds inner per : ℕ) (rest : Layer h) (entries : List KeyValue)
      → inner + rounds ≡ required
      → Shares q m rounds inner per (length rest)
      → Covers (Holds h) rest entries
      → IsSorted (entry_keys entries)
      → (layer : Layer (suc h)) × (inner_loop h size required rounds inner per rest ≡ ok layer)
        × Covers (Holds (suc h)) layer entries
        × (length layer ≡ rounds)
  unfolding inner_loop
  inner_loop-Covers h zero inner per (x ∷ rest) entries e shares c s = absurd (ground arith)
  inner_loop-Covers h zero inner per [] entries e shares c s = ([], refl, c, refl)
  inner_loop-Covers h (suc rounds) inner per rest entries e shares c s =
      let share = next_share size required inner per in
      let (two, fits, shares') =
        Shares-step size required q m rounds inner per (length rest) e n some_each shares in
      let (now, later, chunked, split, len) = chunk-append share rest fits in
      let (first, more, whole, cn, cl, last_max) =
        Covers-split (Holds h) now later entries (subst (λ l. Covers (Holds h) l entries) split c)
          s in
      let (k, node, makes, holds, max_key) =
        inner_node-Holds h now first (omega arith) cn last_max in
      let s' = IsSorted-right first more (subst (λ l. IsSorted (entry_keys l)) whole s) in
      let count : length rest ≡ length now + length later =
        ap length split ∙ length-append now later in
      let left : length rest - share ≡ length later = omega arith in
      let (layer, loops, cl', n') =
        inner_loop-Covers h rounds (inner + 1) share later more (omega arith)
          (subst (λ l. Shares q m rounds (inner + 1) share l) left shares') cl s' in
      (
        (k, node) ∷ layer,
        rw (chunked, makes, loops) refl,
        (first, more, whole, holds, max_key, cl'),
        ap suc n',
      )

two_each : (a b : ℕ) → 0 < b → 2 * b ≤ a → 1 < a / b
two_each a b h le = grind arith

required_full :
    (size : ℕ) → (size % max_entries == 0) ≡ true → required_inner_nodes size ≡ size / max_entries
unfolding required_inner_nodes
required_full size h = rw h (omega arith)

required_over :
    (size : ℕ)
    → (size % max_entries == 0) ≡ false
    → required_inner_nodes size ≡ size / max_entries + 1
unfolding required_inner_nodes
required_over size h = rw h refl

per_full :
    (size : ℕ)
    → (size % max_entries == 0) ≡ true
    → entries_per_inner_node size ≡ size / required_inner_nodes size
unfolding entries_per_inner_node
per_full size h = rw h (omega arith)

per_over :
    (size : ℕ)
    → (size % max_entries == 0) ≡ false
    → entries_per_inner_node size ≡ size / required_inner_nodes size + 1
unfolding entries_per_inner_node
per_over size h = rw h refl

-- How many nodes the next layer has, and how they share the entries out.
layer-Shares :
    (size : ℕ)
    → 1 < size
    → (q : ℕ) × (m : ℕ) × (size ≡ required_inner_nodes size * q + m)
      × (1 < q)
      × (required_inner_nodes size < size)
      × (0 < required_inner_nodes size)
      × Shares q m (required_inner_nodes size) 0 (entries_per_inner_node size) size
layer-Shares size h = elim (Bool-cases (size % max_entries == 0)) [
  | inl full ↦
      let r = size / max_entries in
      let whole : size ≡ r * 256 = ground arith in
      let some_node : 0 < r = omega arith in
      let each : size / r ≡ 256 = ap (λ s. s / r) whole ∙ mul-div_cancel_left 256 some_node in
      rw (per_full size full, required_full size full)
        (256, 0, omega arith, omega arith, omega arith, some_node, inr (each, whole))
  | inr over ↦
      let r = size / max_entries + 1 in
      let split : size ≡ r * (size / r) + size % r = sym (div-add-mod size r) in
      let short : size % r < r = mod-lt size (omega arith) in
      let some_over : (size % max_entries ≢ 0) = ==→ne (size % max_entries) 0 over in
      rw (per_over size over, required_over size over)
        (
          size / r,
          size % r,
          split,
          two_each size r (omega arith) (omega arith),
          omega arith,
          omega arith,
          inl (refl, omega arith, omega arith, omega arith),
        )
]

-- The next layer ends normally and covers the same entries.
inner_layer-Covers :
    (h : ℕ) (layer : Layer h) (entries : List KeyValue)
    → 1 < length layer
    → Covers (Holds h) layer entries
    → IsSorted (entry_keys entries)
    → (next : Layer (suc h)) × (inner_layer h layer ≡ ok next)
      × Covers (Holds (suc h)) next entries
      × (length next < length layer)
      × (0 < length next)
unfolding inner_layer
inner_layer-Covers h layer entries two c s =
    let (q, m, n, some_each, fewer, some_node, shares) = layer-Shares (length layer) two in
    let (next, loops, c', count) =
      inner_loop-Covers (length layer) (required_inner_nodes (length layer)) q m n some_each h
        (required_inner_nodes (length layer)) 0 (entries_per_inner_node (length layer)) layer
        entries (omega arith) shares c s in
    (next, loops, c', omega arith, omega arith)

-- A layer that is not empty grows to a tree over the same entries, with as much fuel as nodes.
pub layers_loop-Holds :
    (fuel h : ℕ) (layer : Layer h) (entries : List KeyValue)
    → 0 < length layer
    → length layer ≤ fuel
    → Covers (Holds h) layer entries
    → IsSorted (entry_keys entries)
    → (height : ℕ) × (root : Node height) × (layers_loop fuel h layer ≡ ok (height, root))
      × Holds height root entries
unfolding layers_loop
layers_loop-Holds zero h layer entries some_node f c s = absurd (omega arith)
layers_loop-Holds (suc fuel) h [] entries some_node f c s = absurd (omega arith)
layers_loop-Holds (suc fuel) h ((k, root) ∷ []) entries some_node f
      (first, more, whole, holds, m, none_left) s =
    let same : first ≡ entries = sym (whole ∙ (rw none_left (append-nil first))) in
    (h, root, refl, subst (λ l. Holds h root l) same holds)
layers_loop-Holds (suc fuel) h (first ∷ second ∷ layer) entries some_node f c s =
    let (next, grows, c', fewer, some_next) =
      inner_layer-Covers h (first ∷ second ∷ layer) entries (omega arith) c s in
    let (height, root, loops, holds) =
      layers_loop-Holds fuel (suc h) next entries some_next (omega arith) c' s in
    (height, root, rw grows loops, holds)
