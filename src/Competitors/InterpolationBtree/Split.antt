-- ===== src/Competitors/InterpolationBtree/Split.antt =====
-- competitors/interpolation_btree.h: one inner node over a part of a layer.
use sosd.Prelude.{
  ℕ, zero, suc, ◌-◌, ◌≤◌, ◌<◌, ◌≡◌, refl, ap, sym, subst, ◌∙◌, List, [], ◌∷◌, ◌++◌, length, arith,
  some, get_elem?, ok, get_elem?-lt,
}
use mathlib.Core.List.{append-nil, append_assoc}
use sosd.Data.{KeyValue, entry_keys}
use sosd.Sorted.{IsSorted}
use sosd.Competitors.InterpolationBtree.{Layer, Node, chunk, inner_node}
use sosd.Competitors.InterpolationBtree.Cover.{
  IsMax, IsMax-All, Covers, Holds, IsSorted-left, IsSorted-right,
}

pub chunk-append :
    {A : Type 0} (n : ℕ) (xs : List A)
    → n ≤ length xs
    → (now : List A) × (later : List A) × (chunk n xs ≡ ok (now, later))
      × (xs ≡ now ++ later)
      × (length now ≡ n)
unfolding chunk
chunk-append zero xs h = ([], xs, refl, refl, refl)
chunk-append (suc n) [] h = absurd (omega arith)
chunk-append (suc n) (x ∷ xs) h =
    let (now, later, q, split, len) = chunk-append n xs (omega arith) in
    (x ∷ now, later, rw q refl, rw split refl, ap suc len)

IsMax-append :
    (k : ℕ) (first second : List KeyValue)
    → IsMax k second
    → IsSorted (entry_keys (first ++ second))
    → IsMax k (first ++ second)
IsMax-append k [] second m s = m
IsMax-append k (e ∷ []) [] m s = absurd m
IsMax-append k (e ∷ []) (f ∷ second) m s = (IsMax-All (λ j. e.key ≤ j) k (f ∷ second) m s.0, m)
IsMax-append k (e ∷ f ∷ first) second m s =
    let rest = IsMax-append k (f ∷ first) second m s.1 in
    (IsMax-All (λ j. e.key ≤ j) k (f ∷ (first ++ second)) rest s.0, rest)

module _ {N : Type 0} (P : N → List KeyValue → Type 0) where
  -- A cover of two parts of a layer, and the largest key of the first part.
  pub Covers-split :
      (now later : List (ℕ × N)) (entries : List KeyValue)
      → Covers P (now ++ later) entries
      → IsSorted (entry_keys entries)
      → (first : List KeyValue) × (more : List KeyValue) × (entries ≡ first ++ more)
        × Covers P now first
        × Covers P later more
        × ((last : ℕ × N) → get_elem? now (length now - 1) ≡ some last → IsMax last.0 first)
  Covers-split [] later entries c s = ([], entries, refl, refl, c, λ last q. cc)
  Covers-split ((k, n) ∷ []) later entries (first, more, e, p, m, c) s = (
    first,
    more,
    e,
    (first, [], sym (append-nil first), p, m, refl),
    c,
    λ last q. let same : k ≡ last.0 = ground arith in subst (λ l. IsMax l first) same m,
  )
  Covers-split ((k, n) ∷ next ∷ now) later entries (first, more, e, p, m, c) s =
      let s' = subst (λ l. IsSorted (entry_keys l)) e s in
      let (a, b, split, ca, cb, last_max) =
        Covers-split (next ∷ now) later more c (IsSorted-right first more s') in
      let whole : entries ≡ (first ++ a) ++ b =
        e ∙ ap (λ l. first ++ l) split ∙ sym (append_assoc first a b) in
      let sorted = IsSorted-left (first ++ a) b (subst (λ l. IsSorted (entry_keys l)) whole s) in
      (
        first ++ a,
        b,
        whole,
        (first, a, refl, p, m, ca),
        cb,
        λ last q.
            let i : suc (suc (length now)) - 1 ≡ suc (length now) = omega arith in
            let j : suc (length now) - 1 ≡ length now = omega arith in
            IsMax-append last.0 first a (last_max last (rw j (rw i at q))) sorted,
      )

-- The inner node over a part of at least two entries holds what they stand for.
pub inner_node-Holds :
    (h : ℕ) (now : Layer h) (first : List KeyValue)
    → 1 < length now
    → Covers (Holds h) now first
    → ((last : ℕ × Node h) → get_elem? now (length now - 1) ≡ some last → IsMax last.0 first)
    → (k : ℕ) × (node : Node (suc h)) × (inner_node h now ≡ ok (k, node))
      × Holds (suc h) node first
      × IsMax k first
unfolding inner_node
inner_node-Holds h now first two c last_max =
    let (last, q) = get_elem?-lt now (length now - 1) (omega arith) in
    (last.0, _, rw q refl, (now, refl, refl, two, c), last_max last q)
