-- ===== src/Competitors/Art/Seek.antt =====
-- competitors/art_primary_lb.h: the position that bound takes in a node, and the leaves on both
-- sides of it.
use sosd.Prelude.{
  ℕ, zero, suc, ◌+◌, ◌-◌, ◌==◌, ◌≤◌, ◌<◌, ◌≡◌, ◌⊎◌, inl, inr, refl, sym, ap, ◌∙◌, List, [], ◌∷◌,
  ◌++◌, All, All-map, Option, none, some, Bool, Bool-cases, true, false, ltb, ==→eq, arith,
}
use mathlib.Core.List.{append_assoc}
use sosd.Data.{KeyValue}
use sosd.Competitors.Art.Nodes.{
  Header, Body, node4, node16, node48, node256, Node, inner, empty_marker,
}
use sosd.Competitors.Art.Slots.{IsNode, Sorted}
use sosd.Competitors.Art.Shape.{IsTree}
use sosd.Competitors.Art.Cursor.{seek_key, seek_child}
use sosd.Competitors.Art.Traverse.{limit, pos_slot, byte_of, gather, leaves_at}
use sosd.Competitors.Art.Ordered.{
  keep, keep-append, keep-none, keep-All, All-gather, reaches, reaches-before, reaches-behind,
  leaves_at-Behind,
}

-- The positions before have smaller bytes, those behind larger ones; the position itself has the
-- byte and its slot, or no slot, or a larger byte.
pub record Sought (h : Header) (body : Body) (b : ℕ) (found : ℕ × Option ℕ) : Type 0 where
  pub inside : found.0 ≤ limit h body
  pub before : (p : ℕ) → p < found.0 → byte_of body p < b
  pub behind : (p : ℕ) → found.0 < p → p < limit h body → b < byte_of body p
  pub here :
      ((i : ℕ) × (found.1 ≡ some i)
        × (found.0 < limit h body)
        × (pos_slot body found.0 ≡ some i)
        × (byte_of body found.0 ≡ b))
      ⊎ ((found.1 ≡ none)
          × (found.0 < limit h body → (pos_slot body found.0 ≡ none) ⊎ (b < byte_of body found.0)))

seek_key-cases :
    (key : ℕ → ℕ) (b pos n : ℕ)
    → (p : ℕ) × (o : Option ℕ) × (seek_key key b pos n ≡ (p, o))
      × (pos ≤ p)
      × (p ≤ pos + n)
      × ((j : ℕ) → pos ≤ j → j < p → key j < b)
      × (((o ≡ some p) × (p < pos + n) × (key p ≡ b)) ⊎ ((o ≡ none) × (p < pos + n → b < key p)))
unfolding seek_key
seek_key-cases key b pos zero = (
  pos,
  none,
  refl,
  omega arith,
  omega arith,
  λ j lo hi. absurd (omega arith),
  inr (refl, λ lt. absurd (omega arith)),
)
seek_key-cases key b pos (suc n) = elim (Bool-cases (key pos == b)) [
  | inl eq ↦ (
    pos,
    some pos,
    rw eq refl,
    omega arith,
    omega arith,
    λ j lo hi. absurd (omega arith),
    inl (refl, omega arith, ==→eq (key pos) b eq),
  )
  | inr ne ↦ elim (Bool-cases (ltb b (key pos))) [
    | inl gt ↦ (
      pos,
      none,
      rw (ne, gt) refl,
      omega arith,
      omega arith,
      λ j lo hi. absurd (omega arith),
      inr (refl, λ lt. ground (arith, gt)),
    )
    | inr le ↦
        let (p, o, e, lo, hi, below, found) = seek_key-cases key b (suc pos) n in
        (
          p,
          o,
          rw (ne, le) e,
          omega arith,
          omega arith,
          λ j l r. elim (Bool-cases (j == pos)) [
            | inl same ↦ rw (==→eq j pos same) (ground (arith, ne, le))
            | inr other ↦ below j (ground (arith, other)) r
          ],
          elim found [
            | inl (q, lt, k) ↦ inl (q, omega arith, k)
            | inr (q, above) ↦ inr (q, λ lt. above (omega arith))
          ],
        )
  ]
]

sorted_seek :
    (h : Header) (body : Body) (key : ℕ → ℕ) (child : ℕ → Node) (b : ℕ)
    → limit h body ≡ h.count
    → ((p : ℕ) → byte_of body p ≡ key p)
    → ((p : ℕ) → pos_slot body p ≡ some p)
    → Sorted h.count key child
    → Sought h body b (seek_key key b 0 h.count)
sorted_seek h body key child b size bytes slots s =
    let (p, o, e, lo, hi, below, found) = seek_key-cases key b 0 h.count in
    rw e (record {
      inside = omega (arith, size);
      before = λ j lt. omega (arith, bytes j, below j (omega arith) lt);
      behind = λ j gt lt.
          let up = s.increasing p j gt (omega (arith, size)) in
          elim found [
            | inl (q, h1, k) ↦ omega (arith, bytes j)
            | inr (q, above) ↦ omega (arith, bytes j, above (omega (arith, size)))
          ];
      here = elim found [
        | inl (q, h1, k) ↦ inl (p, q, omega (arith, size), slots p, bytes p ∙ k)
        | inr (q, above) ↦ inr (q, λ lt. inr (omega (arith, bytes p, above (omega (arith, size)))))
      ];
    })

pub seek_child-Sought :
    (h : Header) (body : Body) (child : ℕ → Node) (b : ℕ)
    → IsNode h body child
    → b < 256
    → Sought h body b (seek_child h body b)
unfolding seek_child
seek_child-Sought h (node4 key) child b (le, s) small =
    sorted_seek h (node4 key) key child b refl (λ p. refl) (λ p. refl) s
seek_child-Sought h (node16 key) child b (le, s) small =
    sorted_seek h (node16 key) key child b refl (λ p. refl) (λ p. refl) s
seek_child-Sought h (node48 child_index) child b valid small =
    elim (Bool-cases (child_index b == empty_marker)) [
      | inl free ↦ rw free (record {
        inside = omega arith;
        before = λ p lt. lt;
        behind = λ p gt lt. gt;
        here = inr (refl, λ lt. inl (rw free refl));
      })
      | inr taken ↦ rw taken (record {
        inside = omega arith;
        before = λ p lt. lt;
        behind = λ p gt lt. gt;
        here = inl (child_index b, refl, small, rw taken refl, refl);
      })
    ]
seek_child-Sought h node256 child b valid small = record {
  inside = omega arith;
  before = λ p lt. lt;
  behind = λ p gt lt. gt;
  here = inl (b, refl, small, refl, refl);
}

gather-split :
    (f : ℕ → List ℕ) (pos a b : ℕ) → gather f pos (a + b) ≡ gather f pos a ++ gather f (pos + a) b
gather-split f pos zero b =
    let e : zero + b ≡ b = omega arith in let e1 : pos + zero ≡ pos = omega arith in rw (e, e1) refl
gather-split f pos (suc a) b =
    let e : suc a + b ≡ suc (a + b) = omega arith in
    let e1 : pos + suc a ≡ suc pos + a = omega arith in
    rw (e, e1, gather-split f (suc pos) a b)
      (sym (append_assoc (f pos) (gather f (suc pos) a) (gather f (suc pos + a) b)))

module _ (entries : List KeyValue) (path r : List ℕ) (h : Header) (body : Body) (child : ℕ → Node)
    (b : ℕ) (tree : IsTree entries path (inner h body child)) where
  abbrev pub wanted : ℕ → Bool
  wanted = reaches entries (path ++ (h.prefix ++ (b ∷ r)))

  -- The leaves at positions with a smaller byte are passed over.
  keep-before :
      (pos : ℕ)
      → pos ≤ limit h body
      → ((p : ℕ) → p < pos → byte_of body p < b)
      → keep wanted (gather (leaves_at body child) 0 pos) ≡ []
  keep-before pos inside before = keep-none wanted (gather (leaves_at body child) 0 pos) (
      All-gather (λ tid. wanted tid ≡ false) (leaves_at body child) 0 pos
        (λ p lo hi.
          All-map
            (λ tid (x, key).
              reaches-before entries path h.prefix x r (byte_of body p) b tid key
                (before p (omega arith)))
            (leaves_at body child p)
            (leaves_at-Behind entries path h body child p tree (omega arith))))

  -- Those at positions with a larger one are kept.
  pub keep-behind :
      (pos n : ℕ)
      → pos + n ≤ limit h body
      → ((p : ℕ) → pos ≤ p → p < pos + n → All (λ tid. wanted tid ≡ true) (leaves_at body child p))
      → keep wanted (gather (leaves_at body child) pos n) ≡ gather (leaves_at body child) pos n
  keep-behind pos n inside all =
      keep-All wanted (gather (leaves_at body child) pos n)
        (All-gather (λ tid. wanted tid ≡ true) (leaves_at body child) pos n all)

  pub larger_kept :
      (p : ℕ)
      → p < limit h body
      → b < byte_of body p
      → All (λ tid. wanted tid ≡ true) (leaves_at body child p)
  larger_kept p lt gt =
      All-map
        (λ tid (x, key). reaches-behind entries path h.prefix x r (byte_of body p) b tid key gt)
        (leaves_at body child p) (leaves_at-Behind entries path h body child p tree lt)

  -- The kept leaves of a node are those from a position on.
  pub keep-from :
      (pos : ℕ)
      → pos ≤ limit h body
      → ((p : ℕ) → p < pos → byte_of body p < b)
      → keep wanted (gather (leaves_at body child) 0 (limit h body))
        ≡ keep wanted (gather (leaves_at body child) pos (limit h body - pos))
  keep-from pos inside before =
      let n : limit h body ≡ pos + (limit h body - pos) = omega arith in
      let start : 0 + pos ≡ pos = omega arith in
      ap (λ (k : ℕ). keep wanted (gather (leaves_at body child) 0 k)) n
      ∙ (ap (λ (l : List ℕ). keep wanted l)
            (gather-split (leaves_at body child) 0 pos (limit h body - pos))
          ∙ (keep-append wanted (gather (leaves_at body child) 0 pos)
                (gather (leaves_at body child) (0 + pos) (limit h body - pos))
              ∙ (ap
                    (λ (l : List ℕ).
                      l
                      ++ keep wanted (gather (leaves_at body child) (0 + pos) (limit h body - pos)))
                    (keep-before pos inside before)
                  ∙ ap
                      (λ (k : ℕ).
                        keep wanted (gather (leaves_at body child) k (limit h body - pos)))
                      start)))
