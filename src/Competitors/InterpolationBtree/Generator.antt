-- ===== src/Competitors/InterpolationBtree/Generator.antt =====
-- competitors/interpolation_btree.h: the entries that the generator of Build passes on.
use native.Mathlib.Numerals.{add-one}
use sosd.Prelude.{
  ℕ, zero, suc, ◌+◌, ◌-◌, ◌%◌, ◌==◌, ◌≤◌, ◌<◌, ◌≡◌, refl, ap, List, [], ◌∷◌, length, arith, some,
  none, get_elem?, true, false, Bool-cases, inl, inr, ok, drop, All, if◌then◌else◌, leb, ◌∙◌,
  length-drop,
}
use sosd.Data.{KeyValue, entry_keys}
use sosd.Sorted.{IsSorted}
use sosd.Competitors.InterpolationBtree.{
  Generator, Layer, Node, next_entry, skip, ibtree_build, fast_load_generate, grow,
}
use sosd.Competitors.InterpolationBtree.Cover.{Covers, Holds}
use sosd.Competitors.InterpolationBtree.Fill.{Generates, leaf_layer-Covers}
use sosd.Competitors.InterpolationBtree.Layers.{layers_loop-Holds}

-- The entries from position `pos` on that the tree is loaded with.
unfoldable pub kept : ℕ → ℕ → List KeyValue → List KeyValue
kept size_scale pos [] = []
kept size_scale pos (e ∷ []) = e ∷ []
kept size_scale pos (e ∷ f ∷ entries) =
    if pos % size_scale == 0
    then e ∷ kept size_scale (pos + 1) (f ∷ entries)
    else kept size_scale (pos + 1) (f ∷ entries)

kept-All :
    (P : ℕ → Type 0) (size_scale pos : ℕ) (entries : List KeyValue)
    → All P (entry_keys entries)
    → All P (entry_keys (kept size_scale pos entries))
unfolding kept
kept-All P size_scale pos [] a = tt
kept-All P size_scale pos (e ∷ []) a = a
kept-All P size_scale pos (e ∷ f ∷ entries) a =
    let rest = kept-All P size_scale (pos + 1) (f ∷ entries) a.1 in
    elim (Bool-cases (pos % size_scale == 0)) [
      | inl keep ↦ rw keep (a.0, rest)
      | inr leave ↦ rw leave rest
    ]

kept-IsSorted :
    (size_scale pos : ℕ) (entries : List KeyValue)
    → IsSorted (entry_keys entries)
    → IsSorted (entry_keys (kept size_scale pos entries))
unfolding kept
kept-IsSorted size_scale pos [] s = tt
kept-IsSorted size_scale pos (e ∷ []) s = s
kept-IsSorted size_scale pos (e ∷ f ∷ entries) s =
    let rest = kept-IsSorted size_scale (pos + 1) (f ∷ entries) s.1 in
    elim (Bool-cases (pos % size_scale == 0)) [
      | inl keep ↦ rw keep (kept-All (λ j. e.key ≤ j) size_scale (pos + 1) (f ∷ entries) s.0, rest)
      | inr leave ↦ rw leave rest
    ]

length-kept :
    (size_scale pos : ℕ) (e : KeyValue) (entries : List KeyValue)
    → (0 < length (kept size_scale pos (e ∷ entries)))
      × (length (kept size_scale pos (e ∷ entries)) ≤ suc (length entries))
unfolding kept
length-kept size_scale pos e [] = omega arith
length-kept size_scale pos e (f ∷ entries) =
    let (lo, hi) = length-kept size_scale (pos + 1) f entries in
    elim (Bool-cases (pos % size_scale == 0)) [
      | inl keep ↦ rw keep (omega arith)
      | inr leave ↦ rw leave (omega arith)
    ]

-- The suffix at a position, its first element and the next suffix.
drop-cons :
    {A : Type 0} (xs : List A) (pos : ℕ) (e : A) (rest : List A)
    → drop pos xs ≡ e ∷ rest
    → (get_elem? xs pos ≡ some e) × (drop (suc pos) xs ≡ rest)
drop-cons [] zero e rest h = ground arith
drop-cons [] (suc pos) e rest h = ground arith
drop-cons (x ∷ xs) zero e rest h = ground arith
drop-cons (x ∷ xs) (suc pos) e rest h = drop-cons xs pos e rest h

Generates-same :
    (generator : Generator) (pos next : ℕ) (entries : List KeyValue)
    → generator pos ≡ generator next
    → Generates generator next entries
    → Generates generator pos entries
Generates-same generator pos next [] same g = same ∙ g
Generates-same generator pos next (e ∷ entries) same (behind, q, g) = (behind, same ∙ q, g)

module _ (size_scale : ℕ) (entries : List KeyValue) where
  next_entry_multiple :
      (pos : ℕ) (e : KeyValue)
      → get_elem? entries pos ≡ some e
      → pos < length entries
      → (pos % size_scale == 0) ≡ true
      → next_entry size_scale entries pos ≡ ok (some (e, pos + 1))
  unfolding next_entry skip
  next_entry_multiple pos e q lt h =
      let left : length entries - pos ≡ suc (length entries - pos - 1) = omega arith in
      let a : leb (length entries) pos ≡ false = ground arith in
      let b : (pos == length entries) ≡ false = ground arith in rw (left, h, a, b, q) refl

  next_entry_last :
      (pos : ℕ) (e : KeyValue)
      → get_elem? entries pos ≡ some e
      → pos + 1 ≡ length entries
      → (pos % size_scale == 0) ≡ false
      → next_entry size_scale entries pos ≡ ok (some (e, pos + 1))
  unfolding next_entry skip
  next_entry_last pos e q last h =
      let left : length entries - pos ≡ suc zero = omega arith in
      let a : leb (length entries) pos ≡ false = ground arith in
      let b : (pos + 1 == length entries) ≡ true = ground arith in
      let back : pos + 1 - 1 ≡ pos = omega arith in rw (left, h, a, b, back, q) refl

  next_entry-skip :
      (pos : ℕ)
      → pos + 1 < length entries
      → (pos % size_scale == 0) ≡ false
      → next_entry size_scale entries pos ≡ next_entry size_scale entries (pos + 1)
  unfolding next_entry skip
  next_entry-skip pos lt h =
      let left : length entries - pos ≡ suc (length entries - (pos + 1)) = omega arith in
      let a : leb (length entries) pos ≡ false = ground arith in
      let b : leb (length entries) (pos + 1) ≡ false = ground arith in rw (left, h, a, b) refl

  next_entry_end : (pos : ℕ) → length entries ≤ pos → next_entry size_scale entries pos ≡ ok none
  unfolding next_entry
  next_entry_end pos h = let a : leb (length entries) pos ≡ true = ground arith in rw a refl

  next_entry-Generates :
      (pos : ℕ) (suffix : List KeyValue)
      → drop pos entries ≡ suffix
      → Generates (next_entry size_scale entries) pos (kept size_scale pos suffix)
  unfolding kept
  next_entry-Generates pos [] h =
      next_entry_end pos (omega (arith, ap length h, length-drop pos entries))
  next_entry-Generates pos (e ∷ []) h =
      let (q, rest) = drop-cons entries pos e [] h in
      let n : pos + 1 ≡ length entries = omega (arith, ap length h, length-drop pos entries) in
      let end = next_entry_end (pos + 1) (omega arith) in
      elim (Bool-cases (pos % size_scale == 0)) [
        | inl here ↦ (pos + 1, next_entry_multiple pos e q (omega arith) here, end)
        | inr other ↦ (pos + 1, next_entry_last pos e q n other, end)
      ]
  next_entry-Generates pos (e ∷ f ∷ suffix) h =
      let (q, rest) = drop-cons entries pos e (f ∷ suffix) h in
      let n : pos + 1 < length entries = omega (arith, ap length h, length-drop pos entries) in
      let more = next_entry-Generates (pos + 1) (f ∷ suffix) (rw add-one rest) in
      elim (Bool-cases (pos % size_scale == 0)) [
        | inl here ↦ rw here (pos + 1, next_entry_multiple pos e q (omega arith) here, more)
        | inr other ↦ rw other (
            Generates-same (next_entry size_scale entries) pos (pos + 1)
              (kept size_scale (pos + 1) (f ∷ suffix)) (next_entry-skip pos n other) more)
      ]

grow-Holds :
    (fuel : ℕ) (layer : Layer 0) (entries : List KeyValue)
    → Covers (Holds 0) layer entries
    → length layer ≤ fuel
    → 0 < length entries
    → IsSorted (entry_keys entries)
    → (h : ℕ) × (root : Node h) × (grow fuel layer ≡ ok (some (h, root))) × Holds h root entries
unfolding grow
grow-Holds fuel [] entries c f some_entry s = absurd (omega (arith, ap length c))
grow-Holds fuel (leaf ∷ leaves) entries c f some_entry s =
    let (h, root, grows, holds) =
      layers_loop-Holds fuel 0 (leaf ∷ leaves) entries (omega arith) f c s in
    (h, root, rw grows refl, holds)

-- On sorted entries that are not empty the build ends normally with a tree over the kept entries.
pub ibtree_build-Holds :
    (size_scale : ℕ) (e : KeyValue) (entries : List KeyValue)
    → IsSorted (entry_keys (e ∷ entries))
    → (h : ℕ) × (root : Node h) × (ibtree_build size_scale (e ∷ entries) ≡ ok (some (h, root)))
      × Holds h root (kept size_scale 0 (e ∷ entries))
      × (0 < length (kept size_scale 0 (e ∷ entries)))
      × IsSorted (entry_keys (kept size_scale 0 (e ∷ entries)))
unfolding ibtree_build fast_load_generate grow
ibtree_build-Holds size_scale e entries s =
    let some_kept = length-kept size_scale 0 e entries in
    let s' = kept-IsSorted size_scale 0 (e ∷ entries) s in
    let (layer, leaves, c, n) =
      leaf_layer-Covers (next_entry size_scale (e ∷ entries)) (length (e ∷ entries) + 2) 0
        (kept size_scale 0 (e ∷ entries))
        (next_entry-Generates size_scale (e ∷ entries) 0 (e ∷ entries) refl) (omega arith) s' in
    let (h, root, grows, holds) =
      grow-Holds (length (e ∷ entries) + 2) layer (kept size_scale 0 (e ∷ entries)) c (omega arith)
        some_kept.0 s' in
    (h, root, rw (leaves, grows) refl, holds, some_kept.0, s')
