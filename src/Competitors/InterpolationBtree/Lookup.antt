-- ===== src/Competitors/InterpolationBtree/Lookup.antt =====
-- competitors/interpolation_btree.h: the descent from the root.
use sosd.Prelude.{
  ℕ, zero, suc, ◌≤◌, ◌<◌, ◌≡◌, refl, List, [], ◌∷◌, map, All, length, ltb, Bool-cases, inl, inr,
  arith, ok, of_option, at, ◌>>=◌, length-map,
}
use sosd.Data.{KeyValue, entry_keys}
use sosd.Sorted.{IsSorted, lower_index}
use sosd.Competitors.Windows.Sampled.{first_at_least}
use sosd.Competitors.InterpolationBtree.{Node, btree_lookup, drop_last}
use sosd.Competitors.InterpolationBtree.Cover.{Holds, Covers-select, Covers-IsSorted}
use sosd.Competitors.InterpolationBtree.Search.{inner_lower_bound-eq, leaf_lower_bound-eq}

-- What stands at the key's position in a leaf.
at-lower_index :
    (key : ℕ) (entries : List KeyValue)
    → (at entries (lower_index key (entry_keys entries)) >>= λ e. ok e.value)
      ≡ of_option (first_at_least key entries)
unfolding lower_index first_at_least
at-lower_index key [] = refl
at-lower_index key (e ∷ entries) = elim (Bool-cases (ltb e.key key)) [
  | inl below ↦ rw below (at-lower_index key entries)
  | inr above ↦ rw above refl
]

module _ {A : Type 0} (f : A → ℕ) where
  All-drop_last : (P : ℕ → Type 0) (xs : List A) → All P (map f xs) → All P (map f (drop_last xs))
  All-drop_last P [] a = tt
  All-drop_last P (x ∷ []) a = tt
  All-drop_last P (x ∷ y ∷ xs) a = (a.0, All-drop_last P (y ∷ xs) a.1)

  IsSorted-drop_last : (xs : List A) → IsSorted (map f xs) → IsSorted (map f (drop_last xs))
  IsSorted-drop_last [] s = tt
  IsSorted-drop_last (x ∷ []) s = tt
  IsSorted-drop_last (x ∷ y ∷ xs) s =
      (All-drop_last (λ j. f x ≤ j) (y ∷ xs) s.0, IsSorted-drop_last (y ∷ xs) s.1)

length-drop_last : {A : Type 0} (x y : A) (xs : List A) → 0 < length (drop_last (x ∷ y ∷ xs))
length-drop_last x y xs = omega arith

drop_last-nonempty : {A : Type 0} (xs : List A) → 1 < length xs → 0 < length (drop_last xs)
drop_last-nonempty [] h = absurd (omega arith)
drop_last-nonempty (x ∷ []) h = absurd (omega arith)
drop_last-nonempty (x ∷ y ∷ xs) h = omega arith

-- In a tree over sorted entries that are not empty the lookup returns the value of the first entry
-- whose key is not below the lookup key, and reads behind a leaf's entries if there is none.
pub btree_lookup-first :
    (guess : List ℕ → ℕ → ℕ) (h : ℕ) (node : Node h) (key : ℕ) (entries : List KeyValue)
    → Holds h node entries
    → 0 < length entries
    → IsSorted (entry_keys entries)
    → btree_lookup guess h node key ≡ of_option (first_at_least key entries)
unfolding btree_lookup
btree_lookup-first guess zero leaf key entries same some_entry s =
    rw
      (
        same,
        leaf_lower_bound-eq guess (entry_keys entries) key s
            (omega (arith, length-map (λ (e : KeyValue). e.key) entries)),
      )
      (at-lower_index key entries)
btree_lookup-first guess (suc h) node key entries (layer, keys, children, two, c) some_entry s =
    let f = λ (e : ℕ × Node h). e.0 in
    let sorted = IsSorted-drop_last f layer (Covers-IsSorted (Holds h) layer entries c s) in
    let (n, part, here, holds, some_part, sorted', same) =
      Covers-select (Holds h) key layer entries (omega arith) c s in
    rw
      (
        keys,
        inner_lower_bound-eq guess (map f (drop_last layer)) key sorted
            (omega (arith, length-map f (drop_last layer), drop_last-nonempty layer two)),
        children,
        here,
        same,
      )
      (btree_lookup-first guess h n key part holds some_part sorted')
