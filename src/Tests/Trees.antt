-- ===== src/Tests/Trees.antt =====
-- The interpolation B-tree over four rows.
use sosd.Prelude.{ℕ, ◌≡◌, refl, List, [], ◌∷◌, ok, fault, out_of_bounds, some, arith, of_option}
use sosd.Data.{Row, KeyValue, SearchBound, row_keys}
use sosd.Sorted.{lower_index}
use sosd.Benchmark.Load.{index_data_from}
use sosd.Competitors.Bounds.{Brackets}
use sosd.Competitors.Windows.Sampled.{first_at_least}
use sosd.Competitors.InterpolationBtree.{
  Node, Tree, btree_lookup, ibtree_build, ibtree_lookup, inner_lower_bound, layers_loop, get_size,
}
use sosd.Competitors.InterpolationBtree.Cover.{Holds}
use sosd.Competitors.InterpolationBtree.Search.{inner_lower_bound-eq}
use sosd.Competitors.InterpolationBtree.Layers.{layers_loop-Holds}
use sosd.Competitors.InterpolationBtree.Lookup.{btree_lookup-first}
use sosd.Competitors.InterpolationBtree.Bound.{ibtree_lookup-Brackets, ibtree_lookup-overruns}

abbrev first_row : Row
first_row = record { key = 2; data0 = 10 }

abbrev later_rows : List Row
later_rows =
    record { key = 5; data0 = 20 }
    ∷ record { key = 5; data0 = 30 }
    ∷ record { key = 9; data0 = 40 }
    ∷ []

-- A guess that is far outside the node.
abbrev wild : List ℕ → ℕ → ℕ
wild keys key = 1000

inner_lower_bound-eq_example : inner_lower_bound wild (2 ∷ 5 ∷ 5 ∷ 9 ∷ []) 5 ≡ ok 1
unfolding lower_index
inner_lower_bound-eq_example =
    inner_lower_bound-eq wild (2 ∷ 5 ∷ 5 ∷ 9 ∷ []) 5 (omega arith) (omega arith)

abbrev low_leaf : List KeyValue
low_leaf = record { key = 2; value = 0 } ∷ record { key = 5; value = 2 } ∷ []

abbrev high_leaf : List KeyValue
high_leaf = record { key = 5; value = 4 } ∷ record { key = 9; value = 6 } ∷ []

-- Two leaves under a root.
abbrev two_leaves : Node 1
two_leaves = record { keys = 5 ∷ []; children = low_leaf ∷ high_leaf ∷ [] }

abbrev both_leaves : List KeyValue
both_leaves =
    record { key = 2; value = 0 }
    ∷ record { key = 5; value = 2 }
    ∷ record { key = 5; value = 4 }
    ∷ record { key = 9; value = 6 }
    ∷ []

two_leaves-Holds : Holds 1 two_leaves both_leaves
two_leaves-Holds = (
  (5, low_leaf) ∷ (9, high_leaf) ∷ [],
  refl,
  refl,
  omega arith,
  (
    low_leaf,
    high_leaf,
    refl,
    refl,
    (omega arith, refl),
    (high_leaf, [], refl, refl, (omega arith, refl), refl),
  ),
)

btree_lookup-first_example :
    btree_lookup wild 1 two_leaves 6 ≡ of_option (first_at_least 6 both_leaves)
btree_lookup-first_example =
    btree_lookup-first wild 1 two_leaves 6 both_leaves two_leaves-Holds (omega arith) (omega arith)

lookup_six : btree_lookup wild 1 two_leaves 6 ≡ ok 6
unfolding btree_lookup
lookup_six = refl

ibtree_lookup-Brackets_example :
    (tree : Tree) × (b : SearchBound) × (ibtree_build 2 (index_data_from 0 (first_row ∷ later_rows))
      ≡ ok (some tree))
    × (ibtree_lookup wild 2 (some tree) 6 ≡ ok b)
    × Brackets (row_keys (first_row ∷ later_rows)) 6 b
unfolding lower_index
ibtree_lookup-Brackets_example =
    ibtree_lookup-Brackets wild 2 first_row later_rows 6 (omega arith) (omega arith) (omega arith)

ibtree_lookup-overruns_example :
    (tree : Tree) × (ibtree_build 2 (index_data_from 0 (first_row ∷ later_rows)) ≡ ok (some tree))
    × (ibtree_lookup wild 2 (some tree) 12 ≡ fault out_of_bounds)
unfolding lower_index
ibtree_lookup-overruns_example =
    ibtree_lookup-overruns wild 2 first_row later_rows 12 (omega arith) refl

layers_loop-Holds_example :
    (height : ℕ) × (root : Node height) × (layers_loop 2 0 ((5, low_leaf) ∷ (9, high_leaf) ∷ [])
      ≡ ok (height, root))
    × Holds height root both_leaves
layers_loop-Holds_example =
    layers_loop-Holds 2 0 ((5, low_leaf) ∷ (9, high_leaf) ∷ []) both_leaves (omega arith)
      (omega arith)
      (
        low_leaf,
        high_leaf,
        refl,
        refl,
        (omega arith, refl),
        (high_leaf, [], refl, refl, (omega arith, refl), refl),
      )
      (omega arith)

size_of_two_leaves : get_size 8 16 (some (1, two_leaves)) ≡ 32
unfolding get_size
size_of_two_leaves = refl
