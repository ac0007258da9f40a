-- ===== src/Benchmark/Inserts/Taken.antt =====
-- benchmark.h: the entries that the loop over the ids takes out of the index data.
use mathlib.Core.List.{Perm, append_assoc}
use mathlib.Core.List.Perm
use sosd.Prelude.{
  ℕ, zero, suc, ◌+◌, ◌<◌, ◌≡◌, ◌≢◌, refl, sym, ap, subst, ◌∙◌, List, [], ◌∷◌, ◌++◌, length,
  length-append, get_elem?, get_elem?-lt, All, All-map, ltb, Bool-cases, inl, inr, some, ok, arith,
}
use sosd.Data.{KeyValue}
use sosd.Benchmark.Inserts.{insert_desc, sort_desc, back, popped, swap_pop, take_ids}

popped-Perm :
    (e : KeyValue) (entries : List KeyValue)
    → Perm (back e entries ∷ popped e entries) (e ∷ entries)
unfolding back popped
popped-Perm e [] = Perm.refl (e ∷ [])
popped-Perm e (f ∷ entries) =
    Perm.trans (Perm.swap e (back f entries) (popped f entries))
      (Perm.cons e (popped-Perm f entries))

-- An entry and what is left without it are all entries.
swap_pop-Perm :
    (id : ℕ) (entries : List KeyValue) (e : KeyValue)
    → get_elem? entries id ≡ some e
    → Perm (e ∷ swap_pop id entries) entries
unfolding swap_pop
swap_pop-Perm id [] e h = absurd (ground arith)
swap_pop-Perm zero (f ∷ []) e h =
    let same : f ≡ e = ground arith in subst (λ x. Perm (x ∷ []) (f ∷ [])) same (Perm.refl (f ∷ []))
swap_pop-Perm zero (f ∷ g ∷ entries) e h =
    let same : f ≡ e = ground arith in
    subst (λ x. Perm (x ∷ back g entries ∷ popped g entries) (f ∷ g ∷ entries)) same
      (Perm.cons f (popped-Perm g entries))
swap_pop-Perm (suc id) (f ∷ entries) e h =
    Perm.trans (Perm.swap f e (swap_pop id entries)) (Perm.cons f (swap_pop-Perm id entries e h))

length-popped :
    (e : KeyValue) (entries : List KeyValue) → length (popped e entries) ≡ length entries
unfolding popped
length-popped e [] = refl
length-popped e (f ∷ entries) = ap suc (length-popped f entries)

length-swap_pop :
    (id : ℕ) (entries : List KeyValue)
    → id < length entries
    → length (swap_pop id entries) + 1 ≡ length entries
unfolding swap_pop
length-swap_pop id [] h = absurd (omega arith)
length-swap_pop zero (e ∷ []) h = omega arith
length-swap_pop zero (e ∷ f ∷ entries) h = omega (arith, length-popped f entries)
length-swap_pop (suc id) (e ∷ entries) h = omega (arith, length-swap_pop id entries (omega arith))

abbrev pub IsDescending : List ℕ → Type 0
IsDescending [] = Unit
IsDescending (x ∷ xs) = All (λ j. j < x) xs × IsDescending xs

-- No id twice.
abbrev pub IsDistinct : List ℕ → Type 0
IsDistinct [] = Unit
IsDistinct (x ∷ xs) = All (λ j. j ≢ x) xs × IsDistinct xs

-- Descending ids are positions in what is left when their turn comes.
pub take_ids-Perm :
    (ids : List ℕ) (index_data insertion_data : List KeyValue)
    → IsDescending ids
    → All (λ id. id < length index_data) ids
    → (left : List KeyValue) × (taken : List KeyValue) × (take_ids ids index_data insertion_data
        ≡ ok (left, taken))
      × Perm (taken ++ left) (insertion_data ++ index_data)
      × (length taken ≡ length insertion_data + length ids)
      × (length left + length ids ≡ length index_data)
unfolding take_ids
take_ids-Perm [] index_data insertion_data d a = (
  index_data,
  insertion_data,
  refl,
  Perm.refl (insertion_data ++ index_data),
  omega arith,
  omega arith,
)
take_ids-Perm (id ∷ ids) index_data insertion_data d a =
    let (e, q) = get_elem?-lt index_data id a.0 in
    let n = length-swap_pop id index_data a.0 in
    let small : All (λ j. j < length (swap_pop id index_data)) ids =
      All-map (λ (j : ℕ) h. omega (arith, a.0)) ids d.0 in
    let (left, taken, takes, p, count, rest) =
      take_ids-Perm ids (swap_pop id index_data) (insertion_data ++ e ∷ []) d.1 small in
    (
      left,
      taken,
      rw q takes,
      Perm.trans p (
          subst (λ l. Perm l (insertion_data ++ index_data))
            (sym (append_assoc insertion_data (e ∷ []) (swap_pop id index_data)))
            (Perm.append_left insertion_data (swap_pop-Perm id index_data e q))),
      omega (arith, length-append insertion_data (e ∷ [])),
      omega arith,
    )

insert_desc-All : (P : ℕ → Type 0) (x : ℕ) (ys : List ℕ) → P x → All P ys → All P (insert_desc x ys)
unfolding insert_desc
insert_desc-All P x [] p a = (p, tt)
insert_desc-All P x (y ∷ ys) p a = elim (Bool-cases (ltb x y)) [
  | inl below ↦ rw below (a.0, insert_desc-All P x ys p a.1)
  | inr above ↦ rw above (p, a)
]

pub sort_desc-All : (P : ℕ → Type 0) (xs : List ℕ) → All P xs → All P (sort_desc xs)
unfolding sort_desc
sort_desc-All P [] a = tt
sort_desc-All P (x ∷ xs) a = insert_desc-All P x (sort_desc xs) a.0 (sort_desc-All P xs a.1)

insert_desc-IsDescending :
    (x : ℕ) (ys : List ℕ) → All (λ j. j ≢ x) ys → IsDescending ys → IsDescending (insert_desc x ys)
unfolding insert_desc
insert_desc-IsDescending x [] n d = (tt, tt)
insert_desc-IsDescending x (y ∷ ys) n d = elim (Bool-cases (ltb x y)) [
  | inl below ↦
      rw below (
        insert_desc-All (λ j. j < y) x ys (ground arith) d.0,
        insert_desc-IsDescending x ys n.1 d.1,
      )
  | inr above ↦
      let first : y < x = ground (arith, n.0) in
      rw above ((first, All-map (λ (j : ℕ) h. omega arith) ys d.0), d)
]

pub sort_desc-IsDescending : (xs : List ℕ) → IsDistinct xs → IsDescending (sort_desc xs)
unfolding sort_desc
sort_desc-IsDescending [] d = tt
sort_desc-IsDescending (x ∷ xs) d =
    insert_desc-IsDescending x (sort_desc xs) (sort_desc-All (λ j. j ≢ x) xs d.0)
      (sort_desc-IsDescending xs d.1)

length-insert_desc : (x : ℕ) (ys : List ℕ) → length (insert_desc x ys) ≡ suc (length ys)
unfolding insert_desc
length-insert_desc x [] = refl
length-insert_desc x (y ∷ ys) = ground (arith, length-insert_desc x ys)

pub length-sort_desc : (xs : List ℕ) → length (sort_desc xs) ≡ length xs
unfolding sort_desc
length-sort_desc [] = refl
length-sort_desc (x ∷ xs) = length-insert_desc x (sort_desc xs) ∙ ap suc (length-sort_desc xs)
