-- ===== src/Tests/Radix.antt =====
-- The adaptive radix tree over three keys, two of which share seven bytes.
use sosd.Prelude.{
  ℕ, zero, suc, ◌+◌, ◌<◌, ◌≡◌, sym, subst, refl, some, true, List, [], ◌∷◌, ok, false, arith,
}
use sosd.Data.{KeyValue}
use sosd.Competitors.Art.Bytes.{swap_bytes, bytes}
use sosd.Competitors.Art.Nodes.{
  Header, Node, node4, leaf, inner, find_key, find_child, insert_child,
}
use sosd.Competitors.Art.Places.{Adds}
use sosd.Competitors.Art.Growth.{insert_child-Adds}
use sosd.Competitors.Art.Tree.{load_key, lookup, insert, art_build}
use sosd.Competitors.Art.Shape.{HasKey, IsTree}
use sosd.Competitors.Art.Cursor.{bound}
use sosd.Competitors.Art.Traverse.{in_order}
use sosd.Competitors.Art.Iterated.{Yields}
use sosd.Competitors.Art.Ordered.{keep, reaches}
use sosd.Competitors.Art.First.{bound-first}
use sosd.Competitors.Art.Found.{LookedUp, lookup-LookedUp}
use sosd.Competitors.Art.Inserted.{Inserts, insert-Inserted}
use sosd.Competitors.Art.Built.{build_lookup, IsAnswer}

abbrev three_entries : List KeyValue
three_entries =
    record { key = 1; value = 0 }
    ∷ record { key = 256; value = 1 }
    ∷ record { key = 257; value = 2 }
    ∷ []

build_lookup_example :
    (t : Node) × (art_build 1 three_entries ≡ ok t)
    × IsAnswer 1 three_entries 257 (lookup three_entries t (swap_bytes 257) 0 false)
build_lookup_example = build_lookup three_entries (omega arith) 1 257 (omega arith) (omega arith)

first_key : HasKey three_entries 0 (swap_bytes 1)
unfolding load_key
first_key = refl

second_key : HasKey three_entries 1 (swap_bytes 256)
unfolding load_key
second_key = refl

abbrev eight_bytes : List ℕ
eight_bytes = 0 ∷ 0 ∷ 0 ∷ 0 ∷ 0 ∷ 0 ∷ 1 ∷ 0 ∷ []

second_bytes : swap_bytes 256 ≡ eight_bytes
unfolding swap_bytes bytes
second_bytes = refl

first_other : ¬ HasKey three_entries 0 (swap_bytes 256)
unfolding load_key swap_bytes bytes
first_other h = ground arith

insert-Inserted_example :
    Inserts three_entries [] (leaf 0) 1 (insert three_entries (leaf 0) (swap_bytes 256) 0 1)
unfolding swap_bytes bytes
insert-Inserted_example =
    insert-Inserted three_entries 1 (omega arith) (leaf 0) [] (swap_bytes 256)
      (record { rest = swap_bytes 1; key_is = first_key }) (omega arith) (omega arith) second_key
      (λ other is key.
        first_other (subst (λ x. HasKey three_entries x (swap_bytes 256)) (sym is) key))

lookup-LookedUp_example :
    LookedUp three_entries
      (leaf 0)
      (swap_bytes 256)
      (lookup three_entries (leaf 0) (swap_bytes 256) 0 false)
unfolding swap_bytes bytes
lookup-LookedUp_example =
    lookup-LookedUp three_entries (leaf 0) [] (swap_bytes 256)
      (record { rest = swap_bytes 1; key_is = first_key }) (omega arith) (omega arith)

-- A Node4 with the keys 1 to 4 grows.
abbrev full_header : Header
full_header = record { prefix_length = 0; count = 4; prefix = [] }

insert_child-Adds_example :
    (t : Node) × (insert_child (inner full_header (node4 suc) leaf) 9 (leaf 7) ≡ ok t)
    × Adds full_header (node4 suc) leaf 9 (leaf 7) t
unfolding find_child find_key
insert_child-Adds_example =
    insert_child-Adds full_header (node4 suc) leaf 9 (leaf 7)
      (
        omega arith,
        record {
          increasing = λ i j lt hi. omega arith;
          full = λ i lt. refl;
          are_bytes = λ i lt. omega arith;
        },
      )
      (omega arith) refl refl

-- A node over the keys 1 and 256, whose first six bytes are 0.
abbrev pair_header : Header
pair_header = record { prefix_length = 6; count = 2; prefix = 0 ∷ 0 ∷ 0 ∷ 0 ∷ 0 ∷ 0 ∷ [] }

abbrev pair_tree : Node
pair_tree = inner pair_header (node4 (λ b. b)) leaf

pair_slot : (b i : ℕ) → find_child pair_header (node4 (λ x. x)) b ≡ some i → (i ≡ b) × (b < 2)
unfolding find_child find_key
pair_slot b i e = ground (arith, e)

pair_leaf : (b : ℕ) → b < 2 → IsTree three_entries (0 ∷ 0 ∷ 0 ∷ 0 ∷ 0 ∷ 0 ∷ b ∷ []) (leaf b)
unfolding load_key swap_bytes bytes
pair_leaf zero lt = record { rest = 1 ∷ []; key_is = refl }
pair_leaf (suc zero) lt = record { rest = 0 ∷ []; key_is = refl }
pair_leaf (suc (suc b)) lt = absurd (omega arith)

pair_tree-IsTree : IsTree three_entries [] pair_tree
pair_tree-IsTree = (
  refl,
  omega arith,
  (
    (
      omega arith,
      record { increasing = λ i j lt hi. lt; full = λ i lt. refl; are_bytes = λ i lt. omega arith },
    ),
    omega arith,
  ),
  λ b i lt e.
      let (same, small) = pair_slot b i e in
      subst (λ x. IsTree three_entries (0 ∷ 0 ∷ 0 ∷ 0 ∷ 0 ∷ 0 ∷ b ∷ []) (leaf x)) (sym same)
        (pair_leaf b small),
)

bound-first_example :
    (n : ℕ) × ((more : ℕ)
      → Yields
          (bound three_entries true (swap_bytes 2) (n + more) pair_tree)
          (keep (reaches three_entries (swap_bytes 2)) (in_order pair_tree)))
unfolding swap_bytes bytes
bound-first_example =
    bound-first three_entries pair_tree (swap_bytes 2) pair_tree-IsTree refl (omega arith)
