-- ===== src/Competitors/Art/Shape.antt =====
-- competitors/art_primary_lb.h: the invariant of a tree, and the leaves that it has.
use sosd.Prelude.{
  ℕ, ◌+◌, ◌<◌, ◌≡◌, subst, inl, inr, List, [], ◌∷◌, ◌++◌, length, some, Option-cases, ok,
}
use mathlib.Core.List.{append_assoc}
use sosd.Data.{KeyValue}
use sosd.Competitors.Art.Bytes.{IsBytes}
use sosd.Competitors.Art.Nodes.{Header, Body, Node, null, leaf, inner, find_child, deref}
use sosd.Competitors.Art.Slots.{IsNode, child_at}
use sosd.Competitors.Art.Tree.{load_key, key_length}

-- `tid` is the position of a leaf of the tree.
abbrev pub Contains : Node → ℕ → Type 0
Contains null tid = ⊥
Contains (leaf other) tid = other ≡ tid
Contains (inner h body child) tid =
    (b : ℕ) × (i : ℕ) × (b < 256) × (find_child h body b ≡ some i) × Contains (child i) tid

module _ (entries : List KeyValue) where
  -- The key of an entry begins with the path and goes on with these bytes.
  abbrev pub HasKey : ℕ → List ℕ → Type 0
  HasKey tid key = load_key entries tid ≡ ok key

  pub record Continues (path : List ℕ) (tid : ℕ) : Type 0 where
    pub rest : List ℕ
    pub key_is : HasKey tid (path ++ rest)

  -- Every leaf below a path has a key that begins with the path.
  abbrev pub IsTree : List ℕ → Node → Type 0
  IsTree path null = Unit
  IsTree path (leaf tid) = Continues path tid
  IsTree path (inner h body child) =
      (length h.prefix ≡ h.prefix_length)
      × (length path + h.prefix_length < key_length)
      × (IsNode h body child × IsBytes h.prefix)
      × ((b i : ℕ)
          → b < 256
          → find_child h body b ≡ some i
          → IsTree (path ++ (h.prefix ++ (b ∷ []))) (child i))

  -- A node is a tree if each byte's child is one.
  pub IsTree-children :
      (path : List ℕ) (h : Header) (body : Body) (child : ℕ → Node)
      → length h.prefix ≡ h.prefix_length
      → length path + h.prefix_length < key_length
      → (IsNode h body child × IsBytes h.prefix)
      → ((b : ℕ) → b < 256 → IsTree (path ++ (h.prefix ++ (b ∷ []))) (child_at h body child b))
      → IsTree path (inner h body child)
  IsTree-children path h body child lengths short valid below = (
    lengths,
    short,
    valid,
    λ b i lt e. subst (λ o. IsTree (path ++ (h.prefix ++ (b ∷ []))) (deref child o)) e (below b lt),
  )

  pub IsTree-child_at :
      (path : List ℕ) (h : Header) (body : Body) (child : ℕ → Node) (b : ℕ)
      → IsTree path (inner h body child)
      → b < 256
      → IsTree (path ++ (h.prefix ++ (b ∷ []))) (child_at h body child b)
  IsTree-child_at path h body child b (lengths, short, valid, below) lt =
      elim (Option-cases (find_child h body b)) [
        | inl e ↦ rw e tt
        | inr (i, e) ↦ rw e (below b i lt e)
      ]

pub Contains-child_at :
    (h : Header) (body : Body) (child : ℕ → Node) (b tid : ℕ)
    → b < 256
    → Contains (child_at h body child b) tid
    → Contains (inner h body child) tid
Contains-child_at h body child b tid lt c = elim (Option-cases (find_child h body b)) [
  | inl e ↦ absurd (subst (λ o. Contains (deref child o) tid) e c)
  | inr (i, e) ↦ (b, i, lt, e, subst (λ o. Contains (deref child o) tid) e c)
]

pub child_at-Contains :
    (h : Header) (body : Body) (child : ℕ → Node) (tid : ℕ)
    → Contains (inner h body child) tid
    → (b : ℕ) × (b < 256) × Contains (child_at h body child b) tid
child_at-Contains h body child tid (b, i, lt, e, c) = (b, lt, rw e c)

-- The key of a leaf goes on from the path.
pub Contains-Continues :
    (entries : List KeyValue) (path : List ℕ) (t : Node) (tid : ℕ)
    → IsTree entries path t
    → Contains t tid
    → Continues entries path tid
Contains-Continues entries path null tid tree c = absurd c
Contains-Continues entries path (leaf other) tid tree c =
    subst (λ x. Continues entries path x) c tree
Contains-Continues entries path (inner h body child) tid (lengths, short, valid, below)
      (b, i, lt, e, c) =
    let path1 = path ++ (h.prefix ++ (b ∷ [])) in
    let k = Contains-Continues entries path1 (child i) tid (below b i lt e) c in
    record {
      rest = (h.prefix ++ (b ∷ [])) ++ k.rest;
      key_is =
          subst (λ x. load_key entries tid ≡ ok x) (append_assoc path (h.prefix ++ (b ∷ [])) k.rest)
            k.key_is;
    }
