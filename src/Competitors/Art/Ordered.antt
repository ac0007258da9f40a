-- ===== src/Competitors/Art/Ordered.antt =====
-- competitors/art_primary_lb.h: the order of keys, the leaves that a bound passes over, and the
-- position it takes.
use sosd.Prelude.{
  ℕ, zero, suc, ◌+◌, ◌==◌, ◌≤◌, ◌<◌, ◌≡◌, inl, inr, refl, subst, List, [], ◌∷◌, ◌++◌, All,
  All-append, All-map, Option-cases, Bool, Bool-cases, true, false, not, ltb, lt→ltb, le→ltb, eq→==,
  ne→==, if◌then◌else◌, Run, ok, fault, arith,
}
use sosd.Data.{KeyValue}
use sosd.Competitors.Art.Nodes.{Header, Body, Node, null, leaf, inner}
use sosd.Competitors.Art.Shape.{HasKey, Continues, IsTree}
use sosd.Competitors.Art.Found.{path_below}
use sosd.Competitors.Art.Tree.{load_key}
use sosd.Competitors.Art.Traverse.{limit, pos_slot, byte_of, gather, in_order, leaves_at}
use sosd.Competitors.Art.Iterated.{path_at, IsTree-pos}

-- The order of keys of one length, byte by byte.
unfoldable pub bytes_less : List ℕ → List ℕ → Bool
bytes_less [] ys = false
bytes_less (x ∷ xs) [] = false
bytes_less (x ∷ xs) (y ∷ ys) = if ltb x y then true else if x == y then bytes_less xs ys else false

-- The elements with the property, in their order.
unfoldable pub keep : (ℕ → Bool) → List ℕ → List ℕ
keep p [] = []
keep p (x ∷ xs) = let rest = keep p xs in if p x then x ∷ rest else rest

pub bytes_less-append : (q xs ys : List ℕ) → bytes_less (q ++ xs) (q ++ ys) ≡ bytes_less xs ys
unfolding bytes_less
bytes_less-append [] xs ys = refl
bytes_less-append (b ∷ q) xs ys =
    rw (le→ltb b b (omega arith), eq→== b b refl) (bytes_less-append q xs ys)

pub bytes_less_self : (xs : List ℕ) → bytes_less xs xs ≡ false
unfolding bytes_less
bytes_less_self [] = refl
bytes_less_self (x ∷ xs) = rw (le→ltb x x (omega arith), eq→== x x refl) (bytes_less_self xs)

pub keep-append : (p : ℕ → Bool) (xs ys : List ℕ) → keep p (xs ++ ys) ≡ keep p xs ++ keep p ys
unfolding keep
keep-append p [] ys = refl
keep-append p (x ∷ xs) ys = elim (Bool-cases (p x)) [
  | inl e ↦ rw (e, keep-append p xs ys) refl
  | inr e ↦ rw (e, keep-append p xs ys) refl
]

pub keep-none : (p : ℕ → Bool) (xs : List ℕ) → All (λ x. p x ≡ false) xs → keep p xs ≡ []
unfolding keep
keep-none p [] a = refl
keep-none p (x ∷ xs) a = rw (a.0, keep-none p xs a.1) refl

pub keep-All : (p : ℕ → Bool) (xs : List ℕ) → All (λ x. p x ≡ true) xs → keep p xs ≡ xs
unfolding keep
keep-All p [] a = refl
keep-All p (x ∷ xs) a = rw (a.0, keep-All p xs a.1) refl

pub All-gather {κ} :
    (P : ℕ → Type κ) (f : ℕ → List ℕ) (p n : ℕ)
    → ((q : ℕ) → p ≤ q → q < p + n → All P (f q))
    → All P (gather f p n)
All-gather P f p zero h = tt
All-gather P f p (suc n) h =
    All-append P (f p) (gather f (suc p) n) (h p (omega arith) (omega arith))
      (All-gather P f (suc p) n (λ q lo hi. h q (omega arith) (omega arith)))

module _ (entries : List KeyValue) where
  abbrev pub not_before : Run (List ℕ) → List ℕ → Bool
  not_before (ok leaf_key) key = not (bytes_less leaf_key key)
  not_before (fault e) key = false

  -- Whether the entry of a leaf has a key that is not less.
  abbrev pub reaches : List ℕ → ℕ → Bool
  reaches key tid = not_before (load_key entries tid) key

  pub reaches-before :
      (path q xs ys : List ℕ) (a b tid : ℕ)
      → HasKey entries tid (path ++ (q ++ (a ∷ xs)))
      → a < b
      → reaches (path ++ (q ++ (b ∷ ys))) tid ≡ false
  unfolding bytes_less
  reaches-before path q xs ys a b tid key lt =
      rw
        (
          key,
          bytes_less-append path (q ++ (a ∷ xs)) (q ++ (b ∷ ys)),
          bytes_less-append q (a ∷ xs) (b ∷ ys),
          lt→ltb a b lt,
        )
        refl

  pub reaches-behind :
      (path q xs ys : List ℕ) (a b tid : ℕ)
      → HasKey entries tid (path ++ (q ++ (a ∷ xs)))
      → b < a
      → reaches (path ++ (q ++ (b ∷ ys))) tid ≡ true
  unfolding bytes_less
  reaches-behind path q xs ys a b tid key lt =
      rw
        (
          key,
          bytes_less-append path (q ++ (a ∷ xs)) (q ++ (b ∷ ys)),
          bytes_less-append q (a ∷ xs) (b ∷ ys),
          le→ltb a b (omega arith),
          ne→== a b (omega arith),
        )
        refl

  pub reaches_self : (key : List ℕ) (tid : ℕ) → HasKey entries tid key → reaches key tid ≡ true
  reaches_self key tid e = rw (e, bytes_less_self key) refl

  -- A leaf at a position of a node, with what its key goes on with behind the prefix.
  abbrev pub Behind : List ℕ → List ℕ → ℕ → ℕ → Type 0
  Behind path prefix b tid = (r : List ℕ) × HasKey entries tid (path ++ (prefix ++ (b ∷ r)))

  shorten :
      (path prefix : List ℕ) (b tid : ℕ)
      → Continues entries (path ++ (prefix ++ (b ∷ []))) tid
      → Continues entries path tid
  shorten path prefix b tid k = record {
    rest = prefix ++ (b ∷ k.rest);
    key_is = subst (λ x. HasKey entries tid x) (path_below path prefix k.rest b) k.key_is;
  }

  pub in_order-Continues :
      (t : Node) (path : List ℕ) → IsTree entries path t → All (Continues entries path) (in_order t)
  unfolding in_order
  in_order-Continues null path tree = tt
  in_order-Continues (leaf tid) path tree = (tree, tt)
  in_order-Continues (inner h body child) path tree =
      All-gather (Continues entries path) (leaves_at body child) 0 (limit h body) (λ p lo hi.
        elim (Option-cases (pos_slot body p)) [
          | inl e ↦ rw e tt
          | inr (i, e) ↦ rw e (
              All-map (λ tid k. shorten path h.prefix (byte_of body p) tid k) (in_order (child i))
                (in_order-Continues (child i) (path_at entries path h body p)
                  (IsTree-pos entries path h body child p i tree (omega arith) e)))
        ])

  pub leaves_at-Behind :
      (path : List ℕ) (h : Header) (body : Body) (child : ℕ → Node) (p : ℕ)
      → IsTree entries path (inner h body child)
      → p < limit h body
      → All (Behind path h.prefix (byte_of body p)) (leaves_at body child p)
  leaves_at-Behind path h body child p tree lt = elim (Option-cases (pos_slot body p)) [
    | inl e ↦ rw e tt
    | inr (i, e) ↦ rw e (
        All-map
          (λ tid (k : Continues entries (path_at entries path h body p) tid). (
            k.rest,
            subst (λ x. HasKey entries tid x) (path_below path h.prefix k.rest (byte_of body p))
                k.key_is,
          ))
          (in_order (child i))
          (in_order-Continues (child i) (path_at entries path h body p)
            (IsTree-pos entries path h body child p i tree lt e)))
  ]
