-- ===== src/Competitors/Art/Built.antt =====
-- competitors/art_primary_lb.h: Build, and lookups in the tree that it leaves.
use sosd.Prelude.{
  ℕ, zero, suc, ◌+◌, ◌-◌, ◌%◌, ◌^◌, ◌==◌, ◌≤◌, ◌<◌, ◌≡◌, ◌≢◌, ◌⊎◌, inl, inr, refl, sym, subst, List,
  [], ◌∷◌, length, get_elem?, lt_of_get_elem?, some, Option-cases, Bool, true, false, not, ◌&&◌,
  ltb, Bool-cases, Run, ok, ne→==, ==→eq, arith,
}
use native.Mathlib.Nat.{add-zero, zero-add}
use sosd.Prelude.Words.{u64_mod}
use sosd.Data.{KeyValue}
use sosd.Competitors.Art.Bytes.{swap_bytes, bytes_injective, length-bytes, bytes-IsBytes, IsBytes}
use sosd.Competitors.Art.Nodes.{Node, null, leaf}
use sosd.Competitors.Art.Tree.{load_key, lookup, insert, art_build_loop, art_build}
use sosd.Competitors.Art.Shape.{Contains, HasKey, IsTree}
use sosd.Competitors.Art.Found.{lookup-LookedUp}
use sosd.Competitors.Art.Inserted.{insert-Inserted}

-- The keys increase, from `low` on, and are below `last_key`'s initial value.
abbrev pub Rising : ℕ → List KeyValue → Type 0
Rising low [] = Unit
Rising low (e ∷ rest) = (low ≤ e.key) × (e.key < u64_mod - 1) × Rising (e.key + 1) rest

-- The positions that the loop does not pass over.
abbrev pub taken : ℕ → ℕ → Bool
taken size_scale i = not (ltb 1 size_scale && not (i % size_scale == 0))

Rising-le :
    (low : ℕ) (entries : List KeyValue) (i : ℕ) {e : KeyValue}
    → Rising low entries
    → get_elem? entries i ≡ some e
    → (low ≤ e.key) × (e.key < u64_mod - 1)
Rising-le low [] i r q = absurd (ground arith)
Rising-le low (x ∷ entries) zero {e} (lo, hi, r) q =
    let is : x ≡ e = cc in
    subst (λ (y : KeyValue). (low ≤ y.key) × (y.key < u64_mod - 1)) is (lo, hi)
Rising-le low (x ∷ entries) (suc i) (lo, hi, r) q =
    let (a, b) = Rising-le (x.key + 1) entries i r q in (omega arith, b)

Rising-lt :
    (low : ℕ) (entries : List KeyValue) (i j : ℕ) {x e : KeyValue}
    → Rising low entries
    → i < j
    → get_elem? entries i ≡ some x
    → get_elem? entries j ≡ some e
    → x.key < e.key
Rising-lt low [] i j r h p q = absurd (ground arith)
Rising-lt low (y ∷ entries) i zero r h p q = absurd (omega arith)
Rising-lt low (y ∷ entries) zero (suc j) {x} {e} (lo, hi, r) h p q =
    let is : y ≡ x = cc in
    let (a, b) = Rising-le (y.key + 1) entries j r q in
    subst (λ (z : KeyValue). z.key < e.key) is (omega arith)
Rising-lt low (y ∷ entries) (suc i) (suc j) (lo, hi, r) h p q =
    Rising-lt (y.key + 1) entries i j r (omega arith) p q

-- The position of the taken entry with the key, or null if there is none.
abbrev pub IsAnswer : ℕ → List KeyValue → ℕ → Run Node → Type 0
IsAnswer size_scale entries key found =
    ((i : ℕ) × (e : KeyValue) × (found ≡ ok (leaf i))
      × (get_elem? entries i ≡ some e)
      × (e.key ≡ key)
      × (taken size_scale i ≡ true))
    ⊎ ((found ≡ ok null)
        × ¬ (
            (i : ℕ) × (e : KeyValue) × (get_elem? entries i ≡ some e)
            × (taken size_scale i ≡ true)
            × (e.key ≡ key)))

module _ (entries : List KeyValue) (rising : Rising 0 entries) where
  at_key :
      (i : ℕ) (e : KeyValue) → get_elem? entries i ≡ some e → HasKey entries i (swap_bytes e.key)
  unfolding load_key
  at_key i e q = rw q refl

  key_at :
      (i : ℕ) (key : List ℕ)
      → HasKey entries i key
      → (e : KeyValue) × (get_elem? entries i ≡ some e) × (swap_bytes e.key ≡ key)
  unfolding load_key
  key_at i key h = elim (Option-cases (get_elem? entries i)) [
    | inl q ↦ absurd (ground (arith, rw q at h))
    | inr (e, q) ↦ (e, q, ground (arith, rw q at h))
  ]

  swap_bytes_injective : (a b : ℕ) → a < u64_mod → b < u64_mod → swap_bytes a ≡ swap_bytes b → a ≡ b
  unfolding swap_bytes
  swap_bytes_injective a b ha hb e = bytes_injective 8 a b ha hb e

  swap_bytes-IsBytes : (a : ℕ) → (length (swap_bytes a) ≡ 8) × IsBytes (swap_bytes a)
  unfolding swap_bytes
  swap_bytes-IsBytes a = (length-bytes 8 a, bytes-IsBytes 8 a)

  -- The positions of a tree's leaves, when the loop has passed `i` entries.
  record Covers (size_scale i : ℕ) (t : Node) : Type 0 where
    tree : IsTree entries [] t
    only : (tid : ℕ) → Contains t tid → (tid < i) × (taken size_scale tid ≡ true)
    every : (tid : ℕ) → tid < i → taken size_scale tid ≡ true → Contains t tid

  insert-Covers :
      (size_scale i : ℕ) (e : KeyValue) (t : Node)
      → Covers size_scale i t
      → i < 2 ^ 63
      → get_elem? entries i ≡ some e
      → taken size_scale i ≡ true
      → (next : Node) × (insert entries t (swap_bytes e.key) 0 i ≡ ok next)
        × Covers size_scale (suc i) next
  insert-Covers size_scale i e t c small q is =
      let (size, are_bytes) = swap_bytes-IsBytes e.key in
      let (next, run, ins) =
        insert-Inserted entries i small t [] (swap_bytes e.key) c.tree (omega (arith, size))
          are_bytes (at_key i e q)
          (λ other held key.
            let (x, p, same) = key_at other (swap_bytes e.key) key in
            let lt = Rising-lt 0 entries other i rising (c.only other held).0 p q in
            let hx = (Rising-le 0 entries other rising p).1 in
            let he = (Rising-le 0 entries i rising q).1 in
            let eq = swap_bytes_injective x.key e.key (omega arith) (omega arith) same in
            omega arith) in
      (
        next,
        run,
        record {
          tree = ins.tree;
          only = λ tid held. elim (ins.from tid held) [
            | inl eq ↦ subst (λ x. (x < suc i) × (taken size_scale x ≡ true)) eq (omega arith, is)
            | inr old ↦ let (lt, h) = c.only tid old in (omega arith, h)
          ];
          every = λ tid lt h. elim (Bool-cases (tid == i)) [
            | inl eq ↦ subst (λ x. Contains next x) (sym (==→eq tid i eq)) ins.has
            | inr ne ↦ ins.keeps tid (c.every tid (ground arith) h)
          ];
        },
      )

  skip-Covers :
      (size_scale i : ℕ) (t : Node)
      → Covers size_scale i t
      → taken size_scale i ≡ false
      → Covers size_scale (suc i) t
  skip-Covers size_scale i t c is = record {
    tree = c.tree;
    only = λ tid held. let (lt, h) = c.only tid held in (omega arith, h);
    every = λ tid lt h. elim (Bool-cases (tid == i)) [
      | inl eq ↦ let no : taken size_scale tid ≡ false = rw (==→eq tid i eq) is in absurd (cc)
      | inr ne ↦ c.every tid (ground arith) h
    ];
  }

  art_build_loop-Covers :
      (size_scale : ℕ) (rest : List KeyValue) (i last_key : ℕ) (t : Node)
      → Covers size_scale i t
      → length entries < 2 ^ 63
      → i + length rest ≡ length entries
      → ((j : ℕ) (e : KeyValue) → get_elem? rest j ≡ some e → get_elem? entries (i + j) ≡ some e)
      → ((j : ℕ) (e : KeyValue) → get_elem? rest j ≡ some e → e.key ≢ last_key)
      → (r : Node) × (art_build_loop size_scale entries rest i last_key t ≡ ok r)
        × Covers size_scale (length entries) r
  unfolding art_build_loop
  art_build_loop-Covers size_scale [] i last_key t c small size here fresh =
      let same : i ≡ length entries = omega arith in
      (t, refl, subst (λ n. Covers size_scale n t) same c)
  art_build_loop-Covers size_scale (e ∷ rest) i last_key t c small size here fresh =
      let q : get_elem? entries i ≡ some e =
        subst (λ n. get_elem? entries n ≡ some e) (add-zero i) (here 0 e refl) in
      let ne : (e.key == last_key) ≡ false = ne→== e.key last_key (fresh 0 e refl) in
      let after = λ (j : ℕ) (x : KeyValue) (p : get_elem? rest j ≡ some x).
        let moved : i + suc j ≡ suc i + j = omega arith in
        subst (λ n. get_elem? entries n ≡ some x) moved (here (suc j) x p) in
      elim (Bool-cases (ltb 1 size_scale && not (i % size_scale == 0))) [
        | inl passes ↦
            let (r, run, covers) =
              art_build_loop-Covers size_scale rest (suc i) last_key t
                (skip-Covers size_scale i t c (rw passes refl)) small (omega arith) after
                (λ j x p. fresh (suc j) x p) in
            (r, rw (passes) run, covers)
        | inr takes ↦
            let (next, inserted, covers) =
              insert-Covers size_scale i e t c (omega arith) q (rw takes refl) in
            let (r, run, all) =
              art_build_loop-Covers size_scale rest (suc i) e.key next covers small (omega arith)
                after
                (λ j x p same.
                  let lt = Rising-lt 0 entries i (suc i + j) rising (omega arith) q (after j x p) in
                  omega arith) in
            (r, rw (takes, ne, inserted) run, all)
      ]

  -- For fewer than 2 ^ 63 entries whose keys increase and are below 2 ^ 64 - 1, Build ends normally,
  -- and a lookup of a 64-bit key in the tree that it leaves ends normally: with the position of the
  -- entry that has the key, if Build does not pass over that position, and else with null.
  pub build_lookup :
      (size_scale key : ℕ)
      → length entries < 2 ^ 63
      → key < u64_mod
      → (t : Node) × (art_build size_scale entries ≡ ok t)
        × IsAnswer size_scale entries key (lookup entries t (swap_bytes key) 0 false)
  unfolding art_build
  build_lookup size_scale key small fits =
      let (t, run, c) =
        art_build_loop-Covers size_scale entries 0 (u64_mod - 1) null
          (record {
            tree = tt;
            only = λ tid held. absurd held;
            every = λ tid lt h. absurd (omega arith);
          })
          small (omega arith)
          (λ j e q. subst (λ n. get_elem? entries n ≡ some e) (sym (zero-add j)) q)
          (λ j e q same. let hi = (Rising-le 0 entries j rising q).1 in omega arith) in
      (
        t,
        run,
        let (size, are_bytes) = swap_bytes-IsBytes key in
            elim (lookup-LookedUp entries t [] (swap_bytes key) c.tree (omega (arith, size))
              are_bytes) [
                | inl (i, e, held, has) ↦
                    let (x, q, same) = key_at i (swap_bytes key) has in
                    let hi = (Rising-le 0 entries i rising q).1 in
                    inl (
                      i,
                      x,
                      e,
                      q,
                      swap_bytes_injective x.key key (omega arith) fits same,
                      (c.only i held).1,
                    )
                | inr (e, none_of) ↦ inr (
                  e,
                  λ (i, x, q, is, same).
                      none_of i (c.every i (lt_of_get_elem? entries i q) is)
                        (subst (λ (k : ℕ). HasKey entries i (swap_bytes k)) same (at_key i x q)),
                )
              ],
      )
