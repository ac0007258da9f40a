-- ===== src/Competitors/InterpolationBtree/Fill.antt =====
-- competitors/interpolation_btree.h: the leaf layer.
use sosd.Prelude.{
  ℕ, zero, suc, ◌+◌, ◌≤◌, ◌<◌, ◌≡◌, refl, ap, List, [], ◌∷◌, ◌++◌, length, arith, some, none,
  get_elem?, true, false, Bool, Run, ok, length-append, get_elem?-lt, inl, inr, ◌⊎◌,
}
use sosd.Data.{KeyValue, entry_keys}
use sosd.Sorted.{IsSorted}
use sosd.Competitors.InterpolationBtree.{
  Generator, Layer, fill_leaf, end_leaf, leaf_layer, max_entries,
}
use sosd.Competitors.InterpolationBtree.Cover.{IsMax, Covers, Holds, IsSorted-left, IsSorted-right}

-- Called from `pos` on, the generator gives these entries and then nothing.
abbrev pub Generates : Generator → ℕ → List KeyValue → Type 0
Generates generator pos [] = generator pos ≡ ok none
Generates generator pos (e ∷ entries) =
    (behind : ℕ) × (generator pos ≡ ok (some (e, behind))) × Generates generator behind entries

IsMax-last :
    (e : KeyValue) (entries : List KeyValue) (last : KeyValue)
    → IsSorted (entry_keys (e ∷ entries))
    → get_elem? (e ∷ entries) (length entries) ≡ some last
    → (e.key ≤ last.key) × IsMax last.key (e ∷ entries)
IsMax-last e [] last s q = (ground arith, ground arith)
IsMax-last e (f ∷ entries) last s q =
    let (le, m) = IsMax-last f entries last s.1 q in
    let first : e.key ≤ last.key = omega arith in (first, (first, m))

end_leaf-Covers :
    (first more entries : List KeyValue) (good : Bool) (rest : Run (Layer 0))
    → entries ≡ first ++ more
    → IsSorted (entry_keys entries)
    → ((good ≡ true)
        × (length first ≡ max_entries)
        × ((layer : Layer 0) × (rest ≡ ok layer)
            × Covers (Holds 0) layer more
            × (length layer ≤ length more)))
      ⊎ ((good ≡ false) × (more ≡ []))
    → (layer : Layer 0) × (end_leaf first good rest ≡ ok layer)
      × Covers (Holds 0) layer entries
      × (length layer ≤ length entries)
unfolding end_leaf
end_leaf-Covers [] more entries good rest split s (inl (full, n, filled)) = absurd (omega arith)
end_leaf-Covers [] more entries good rest split s (inr (ended, none_left)) =
    ([], refl, rw split none_left, omega arith)
end_leaf-Covers (e ∷ first) more entries true rest split s (inr (ended, none_left)) = absurd (cc)
end_leaf-Covers (e ∷ first) more entries false rest split s (inl (full, n, filled)) = absurd (cc)
end_leaf-Covers (e ∷ first) more entries true rest split s (inl (full, n, (layer, q, c, le))) =
    let s' = IsSorted-left (e ∷ first) more (rw split at s) in
    let (last, at_end) = get_elem?-lt (e ∷ first) (length first) (omega arith) in
    (
      (last.key, e ∷ first) ∷ layer,
      rw (at_end, q) refl,
      (e ∷ first, more, split, refl, (IsMax-last e first last s' at_end).1, c),
      rw split (omega (arith, length-append first more)),
    )
end_leaf-Covers (e ∷ first) more entries false rest split s (inr (ended, none_left)) =
    let s' = IsSorted-left (e ∷ first) more (rw split at s) in
    let (last, at_end) = get_elem?-lt (e ∷ first) (length first) (omega arith) in
    (
      (last.key, e ∷ first) ∷ [],
      rw at_end refl,
      (e ∷ first, more, split, refl, (IsMax-last e first last s' at_end).1, none_left),
      rw split (omega (arith, length-append first more)),
    )

module _ (generator : Generator) where
  -- A leaf takes the first entries. It is not full only if none are left.
  fill_leaf-Generates :
      (rounds pos : ℕ) (entries : List KeyValue)
      → Generates generator pos entries
      → (first : List KeyValue) × (more : List KeyValue) × (behind : ℕ) × (good : Bool) × (fill_leaf
            generator rounds pos
          ≡ ok (first, behind, good))
        × (entries ≡ first ++ more)
        × (((good ≡ true) × (length first ≡ rounds) × Generates generator behind more)
            ⊎ ((good ≡ false) × (more ≡ [])))
  unfolding fill_leaf
  fill_leaf-Generates zero pos entries g = ([], entries, pos, true, refl, refl, inl (refl, refl, g))
  fill_leaf-Generates (suc rounds) pos [] g =
      ([], [], pos, false, rw g refl, refl, inr (refl, refl))
  fill_leaf-Generates (suc rounds) pos (e ∷ entries) (next, q, g) =
      let (first, more, behind, good, fills, split, ends) =
        fill_leaf-Generates rounds next entries g in
      (
        e ∷ first,
        more,
        behind,
        good,
        rw (q, fills) refl,
        rw split refl,
        elim ends [
          | inl (full, n, g') ↦ inl (full, ap suc n, g')
          | inr (last, none_left) ↦ inr (last, none_left)
        ],
      )

  -- With more fuel than entries, the leaf layer stands for all of them.
  pub leaf_layer-Covers :
      (fuel pos : ℕ) (entries : List KeyValue)
      → Generates generator pos entries
      → length entries < fuel
      → IsSorted (entry_keys entries)
      → (layer : Layer 0) × (leaf_layer generator fuel pos ≡ ok layer)
        × Covers (Holds 0) layer entries
        × (length layer ≤ length entries)
  unfolding leaf_layer
  leaf_layer-Covers zero pos entries g f s = absurd (omega arith)
  leaf_layer-Covers (suc fuel) pos entries g f s =
      let (first, more, behind, good, fills, split, ends) =
        fill_leaf-Generates max_entries pos entries g in
      let n : length entries ≡ length first + length more = rw split (length-append first more) in
      let s' = IsSorted-right first more (rw split at s) in
      rw fills (
        end_leaf-Covers first more entries good (leaf_layer generator fuel behind) split s
          (elim ends [
            | inl (full, count, g') ↦
                inl (full, count, leaf_layer-Covers fuel behind more g' (omega arith) s')
            | inr ended ↦ inr ended
          ]))
