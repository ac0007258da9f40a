-- ===== src/Competitors/InterpolationBtree/Search.antt =====
-- competitors/interpolation_btree.h: the search in a node.
use sosd.Prelude.{
  ℕ, zero, suc, ◌+◌, ◌-◌, ◌≤◌, ◌<◌, ◌==◌, ◌≡◌, refl, List, Bool-cases, inl, inr, ltb, leb, arith,
  ok, length, get_elem?-lt, if◌then◌else◌, false,
}
use sosd.Sorted.{IsSorted, lower_index, lower_index-le, lower_index-le_at, lt-lower_index_at}
use sosd.Competitors.InterpolationBtree.{
  scroll_down, scroll_up, interpolate, inner_lower_bound, leaf_lower_bound,
}

scroll_down-le :
    (keys : List ℕ) (key idx : ℕ)
    → IsSorted keys
    → idx < length keys
    → (p : ℕ) × (scroll_down keys key idx ≡ ok p) × (p ≤ lower_index key keys)
unfolding scroll_down
scroll_down-le keys key zero s h = (0, refl, omega arith)
scroll_down-le keys key (suc idx) s h =
    let (k, e) = get_elem?-lt keys (suc idx) h in
    elim (Bool-cases (leb key k)) [
      | inl above ↦
          let (p, q, le) = scroll_down-le keys key idx s (omega arith) in
          (p, rw (e, above, q) refl, le)
      | inr below ↦
          let before = lt-lower_index_at key keys (suc idx) s e (ground arith) in
          (suc idx, rw (e, below) refl, omega arith)
    ]

scroll_up-eq :
    (keys : List ℕ) (key rounds idx : ℕ)
    → IsSorted keys
    → idx ≤ lower_index key keys
    → idx + rounds ≡ length keys
    → scroll_up keys key rounds idx ≡ ok (lower_index key keys)
unfolding scroll_up
scroll_up-eq keys key zero idx s le e =
    let here : idx ≡ lower_index key keys = omega (arith, lower_index-le key keys) in rw here refl
scroll_up-eq keys key (suc rounds) idx s le e =
    let (k, q) = get_elem?-lt keys idx (omega arith) in
    elim (Bool-cases (ltb k key)) [
      | inl below ↦
          let before = lt-lower_index_at key keys idx s q (ground arith) in
          rw (q, below) (scroll_up-eq keys key rounds (idx + 1) s (omega arith) (omega arith))
      | inr above ↦
          let behind = lower_index-le_at key keys idx q (ground arith) in
          let here : idx ≡ lower_index key keys = omega arith in rw (q, above) (rw here refl)
    ]

module _ (guess : List ℕ → ℕ → ℕ) (keys : List ℕ) (key : ℕ) (s : IsSorted keys)
    (some_key : 0 < length keys) where
  interpolate-eq : interpolate guess keys key ≡ ok (lower_index key keys)
  unfolding interpolate
  interpolate-eq =
      let idx = if leb (length keys) (guess keys key) then length keys - 1 else guess keys key in
      let inside : idx < length keys = ground arith in
      let (p, q, le) = scroll_down-le keys key idx s inside in
      let fits = lower_index-le key keys in
      rw q (scroll_up-eq keys key (length keys - p) p s le (omega arith))

  -- An inner node's LowerBound is the position at which the key belongs among the node's keys.
  pub inner_lower_bound-eq : inner_lower_bound guess keys key ≡ ok (lower_index key keys)
  unfolding inner_lower_bound
  inner_lower_bound-eq =
      let (first, e) = get_elem?-lt keys 0 some_key in
      let (last, q) = get_elem?-lt keys (length keys - 1) (omega arith) in
      let fits = lower_index-le key keys in
      rw (e, q)
        (elim (Bool-cases (leb key first)) [
          | inl least ↦
              let here : lower_index key keys ≡ 0 =
                omega (arith, lower_index-le_at key keys 0 e (ground arith)) in
              rw (least, here) refl
          | inr more ↦ rw more (elim (Bool-cases (ltb last key)) [
            | inl beyond ↦
                let behind = lt-lower_index_at key keys (length keys - 1) s q (ground arith) in
                let here : lower_index key keys ≡ length keys = omega arith in
                rw (beyond, here) refl
            | inr inside ↦ rw (inside, interpolate-eq) refl
          ])
        ])

  -- So is a leaf's.
  pub leaf_lower_bound-eq : leaf_lower_bound guess keys key ≡ ok (lower_index key keys)
  unfolding leaf_lower_bound
  leaf_lower_bound-eq =
      let (first, e) = get_elem?-lt keys 0 some_key in
      let (last, q) = get_elem?-lt keys (length keys - 1) (omega arith) in
      let fits = lower_index-le key keys in
      rw (e, q)
        (elim (Bool-cases (leb key first)) [
          | inl least ↦
              let here : lower_index key keys ≡ 0 =
                omega (arith, lower_index-le_at key keys 0 e (ground arith)) in
              rw (least, here) refl
          | inr more ↦ rw more (elim (Bool-cases (ltb last key)) [
            | inl beyond ↦
                let behind = lt-lower_index_at key keys (length keys - 1) s q (ground arith) in
                let here : lower_index key keys ≡ length keys = omega arith in
                rw (beyond, here) refl
            | inr inside ↦
                let before = lower_index-le_at key keys (length keys - 1) q (ground arith) in
                let other : (lower_index key keys == length keys) ≡ false = ground arith in
                rw (inside, interpolate-eq, other) refl
          ])
        ])
