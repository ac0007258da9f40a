-- ===== src/Competitors/InterpolationBtree/Cover.antt =====
-- competitors/interpolation_btree.h: which entries a layer and a node stand for.
use mathlib.Core.List.{append-nil}
use sosd.Prelude.{
  ℕ, zero, suc, ◌≤◌, ◌<◌, ◌≡◌, refl, ◌∙◌, subst, List, [], ◌∷◌, ◌++◌, map, All, All-map, length,
  ltb, Bool-cases, inl, inr, arith, some, get_elem?,
}
use sosd.Data.{KeyValue, entry_keys}
use sosd.Sorted.{IsSorted, lower_index}
use sosd.Competitors.Windows.Sampled.{first_at_least}
use sosd.Competitors.InterpolationBtree.{Node, Layer, drop_last}

-- `k` is the key of the last entry, and no entry has a larger one.
abbrev pub IsMax : ℕ → List KeyValue → Type 0
IsMax k [] = ⊥
IsMax k (e ∷ []) = e.key ≡ k
IsMax k (e ∷ f ∷ entries) = (e.key ≤ k) × IsMax k (f ∷ entries)

-- The nodes of a layer stand for consecutive parts of the entries, each with its largest key.
abbrev pub Covers :
    {N : Type 0} → (N → List KeyValue → Type 0) → List (ℕ × N) → List KeyValue → Type 0
Covers P [] entries = entries ≡ []
Covers P ((k, n) ∷ layer) entries =
    (first : List KeyValue) × (more : List KeyValue) × (entries ≡ first ++ more)
    × P n first
    × IsMax k first
    × Covers P layer more

-- A leaf holds its entries, and an inner node holds those of its children; its keys are the largest
-- of all children but the last.
abbrev pub Holds : (h : ℕ) → Node h → List KeyValue → Type 0
Holds zero leaf entries = leaf ≡ entries
Holds (suc h) node entries =
    (layer : Layer h) × (node.keys ≡ map (λ (e : ℕ × Node h). e.0) (drop_last layer))
    × (node.children ≡ map (λ (e : ℕ × Node h). e.1) layer)
    × (1 < length layer)
    × Covers (Holds h) layer entries

pub IsMax-nonempty : (k : ℕ) (entries : List KeyValue) → IsMax k entries → 0 < length entries
IsMax-nonempty k [] m = absurd m
IsMax-nonempty k (e ∷ entries) m = omega arith

-- Behind smaller keys the search goes on in the rest,
first_at_least-append_below :
    (k key : ℕ) (first more : List KeyValue)
    → IsMax k first
    → k < key
    → first_at_least key (first ++ more) ≡ first_at_least key more
unfolding first_at_least
first_at_least-append_below k key [] more m h = absurd m
first_at_least-append_below k key (e ∷ []) more m h = ground arith
first_at_least-append_below k key (e ∷ f ∷ first) more m h =
    ground (arith, first_at_least-append_below k key (f ∷ first) more m.1 h)

-- and otherwise it ends in the first part.
first_at_least-append_above :
    (k key : ℕ) (first more : List KeyValue)
    → IsMax k first
    → key ≤ k
    → first_at_least key (first ++ more) ≡ first_at_least key first
unfolding first_at_least
first_at_least-append_above k key [] more m h = absurd m
first_at_least-append_above k key (e ∷ []) more m h = ground arith
first_at_least-append_above k key (e ∷ f ∷ first) more m h =
    ground (arith, first_at_least-append_above k key (f ∷ first) more m.1 h)

All-left :
    (P : ℕ → Type 0) (first more : List KeyValue)
    → All P (entry_keys (first ++ more))
    → All P (entry_keys first)
All-left P [] more a = tt
All-left P (e ∷ first) more a = (a.0, All-left P first more a.1)

All-right :
    (P : ℕ → Type 0) (first more : List KeyValue)
    → All P (entry_keys (first ++ more))
    → All P (entry_keys more)
All-right P [] more a = a
All-right P (e ∷ first) more a = All-right P first more a.1

pub IsSorted-left :
    (first more : List KeyValue)
    → IsSorted (entry_keys (first ++ more))
    → IsSorted (entry_keys first)
IsSorted-left [] more s = tt
IsSorted-left (e ∷ first) more s =
    (All-left (λ j. e.key ≤ j) first more s.0, IsSorted-left first more s.1)

pub IsSorted-right :
    (first more : List KeyValue)
    → IsSorted (entry_keys (first ++ more))
    → IsSorted (entry_keys more)
IsSorted-right [] more s = s
IsSorted-right (e ∷ first) more s = IsSorted-right first more s.1

-- The largest key of a part is one of its keys,
pub IsMax-All :
    (P : ℕ → Type 0) (k : ℕ) (entries : List KeyValue)
    → IsMax k entries
    → All P (entry_keys entries)
    → P k
IsMax-All P k [] m a = absurd m
IsMax-All P k (e ∷ []) m a = subst P m a.0
IsMax-All P k (e ∷ f ∷ entries) m a = IsMax-All P k (f ∷ entries) m.1 a.1

-- and in sorted entries none behind it is smaller.
IsMax-le :
    (k : ℕ) (first more : List KeyValue)
    → IsMax k first
    → IsSorted (entry_keys (first ++ more))
    → All (λ j. k ≤ j) (entry_keys more)
IsMax-le k [] more m s = absurd m
IsMax-le k (e ∷ []) more m s = All-map (λ j h. omega arith) (entry_keys more) s.0
IsMax-le k (e ∷ f ∷ first) more m s = IsMax-le k (f ∷ first) more m.1 s.1

module _ {N : Type 0} (P : N → List KeyValue → Type 0) where
  Covers-All :
      (Q : ℕ → Type 0) (layer : List (ℕ × N)) (entries : List KeyValue)
      → Covers P layer entries
      → All Q (entry_keys entries)
      → All Q (map (λ (e : ℕ × N). e.0) layer)
  Covers-All Q [] entries c a = tt
  Covers-All Q ((k, n) ∷ layer) entries (first, more, e, p, m, c) a =
      let a' = subst (λ l. All Q (entry_keys l)) e a in
      (
        IsMax-All Q k first m (All-left Q first more a'),
        Covers-All Q layer more c (All-right Q first more a'),
      )

  -- The keys of a layer over sorted entries are sorted.
  pub Covers-IsSorted :
      (layer : List (ℕ × N)) (entries : List KeyValue)
      → Covers P layer entries
      → IsSorted (entry_keys entries)
      → IsSorted (map (λ (e : ℕ × N). e.0) layer)
  Covers-IsSorted [] entries c s = tt
  Covers-IsSorted ((k, n) ∷ layer) entries (first, more, e, p, m, c) s =
      let s' = subst (λ l. IsSorted (entry_keys l)) e s in
      (
        Covers-All (λ j. k ≤ j) layer more c (IsMax-le k first more m s'),
        Covers-IsSorted layer more c (IsSorted-right first more s'),
      )

  -- The child at the key's position among the keys has what the whole layer has at or above the
  -- key.
  pub Covers-select :
      (key : ℕ) (layer : List (ℕ × N)) (entries : List KeyValue)
      → 0 < length layer
      → Covers P layer entries
      → IsSorted (entry_keys entries)
      → (n : N) × (part : List KeyValue) × (get_elem?
            (map (λ (e : ℕ × N). e.1) layer)
            (lower_index key (map (λ (e : ℕ × N). e.0) (drop_last layer)))
          ≡ some n)
        × P n part
        × (0 < length part)
        × IsSorted (entry_keys part)
        × (first_at_least key entries ≡ first_at_least key part)
  unfolding lower_index
  Covers-select key [] entries h c s = absurd (omega arith)
  Covers-select key ((k, n) ∷ []) entries h (first, more, e, p, m, c) s =
      let whole : entries ≡ first = e ∙ (rw c (append-nil first)) in
      (
        n,
        first,
        refl,
        p,
        IsMax-nonempty k first m,
        subst (λ l. IsSorted (entry_keys l)) whole s,
        rw whole refl,
      )
  Covers-select key ((k, n) ∷ next ∷ layer) entries h (first, more, e, p, m, c) s =
      let s' = subst (λ l. IsSorted (entry_keys l)) e s in
      elim (Bool-cases (ltb k key)) [
        | inl below ↦
            let (n', part, at_child, p', some_entry, sorted, same) =
              Covers-select key (next ∷ layer) more (omega arith) c
                (IsSorted-right first more s') in
            (
              n',
              part,
              rw below at_child,
              p',
              some_entry,
              sorted,
              rw e (first_at_least-append_below k key first more m (ground arith) ∙ same),
            )
        | inr above ↦ (
          n,
          first,
          rw above refl,
          p,
          IsMax-nonempty k first m,
          IsSorted-left first more s',
          rw e (first_at_least-append_above k key first more m (ground arith)),
        )
      ]
