-- ===== src/Benchmark/Lookups/Mixed.antt =====
-- benchmark.h: the loop that mixes lookups and insertions.
use sosd.Prelude.{
  ℕ, zero, suc, ◌+◌, ◌-◌, ◌%◌, ◌≤◌, ◌<◌, ◌≡◌, refl, sym, ap, ◌∙◌, List, [], ◌∷◌, ◌++◌, some,
  Bool-cases, inl, inr, ◌⊎◌, Run, ok, fault, fail, ltb, length, length-append, get_elem?-lt, arith,
  if◌then◌else◌,
}
use mathlib.Core.Path.{fun_ext}
use mathlib.Core.List.{append_assoc, append-nil}
use sosd.Prelude.Words.{u32_mod}
use sosd.Data.{Row, KeyValue, EqualityLookup}
use sosd.Benchmark.Lookups.{
  Index, pop_back, insert_last, insert_popped, sum_lookup, mixed_loop, mixed_core_loop, rounds_of,
}

pop_back-some :
    (e : KeyValue) (rest : List KeyValue)
    → (last : KeyValue) × (kept : List KeyValue) × (pop_back (e ∷ rest) ≡ some (last, kept))
      × (kept ++ last ∷ [] ≡ e ∷ rest)
unfolding pop_back
pop_back-some e [] = (e, [], refl, refl)
pop_back-some e (f ∷ rest) =
    let (last, kept, eq, split) = pop_back-some f rest in
    (last, e ∷ kept, rw eq refl, ap (λ l. e ∷ l) split)

-- The draws from `idx` on that ask for an insertion.
abbrev pub count_writes : (ℕ → ℕ) → ℕ → ℕ → ℕ → ℕ
count_writes draw write_portion idx zero = 0
count_writes draw write_portion idx (suc rounds) =
    let rest = count_writes draw write_portion (idx + 1) rounds in
    if ltb (draw idx) write_portion then suc rest else rest

-- The index after the insertion of the entries, from the last to the first; `next` is Insert.
abbrev pub insert_from_end : {S : Type 0} → (S → KeyValue → S) → S → List KeyValue → S
insert_from_end next index [] = index
insert_from_end next index (e ∷ entries) = next (insert_from_end next index entries) e

-- The run has inserted the last `writes` entries of the insertion data, from its end, and kept the
-- others, or ended because there were fewer.
abbrev pub Writes :
    {S : Type 0} → (S → KeyValue → S) → S → List KeyValue → ℕ → Run (S × List KeyValue) → Type 0
Writes next index insertion_data writes run =
    ((length insertion_data < writes)
      × (run ≡ fault (fail "More inserts happened than was expected, ran out of data to insert")))
    ⊎ ((kept : List KeyValue) × (taken : List KeyValue) × (kept ++ taken ≡ insertion_data)
        × (length taken ≡ writes)
        × (run ≡ ok (insert_from_end next index taken, kept)))

insert_from_end-snoc :
    {S : Type 0} (next : S → KeyValue → S) (index : S) (entries : List KeyValue) (last : KeyValue)
    → insert_from_end next index (entries ++ last ∷ [])
      ≡ insert_from_end next (next index last) entries
insert_from_end-snoc next index [] last = refl
insert_from_end-snoc next index (e ∷ entries) last =
    ap (λ i. next i e) (insert_from_end-snoc next index entries last)

module _ {S : Type 0} (ix : Index S) (rows : List Row) (lookups : List EqualityLookup)
    (next : S → KeyValue → S)
    (reads : (index : S) (key : ℕ) → (r : ℕ) × (sum_lookup ix rows index key ≡ ok r))
    (inserts : (index : S) (e : KeyValue) → ix.insert index e ≡ ok (next index e)) (draw : ℕ → ℕ)
    (write_portion : ℕ) where
  Writes-insert :
      (index : S) (insertion_data kept : List KeyValue) (last : KeyValue) (writes : ℕ)
      (run : Run (S × List KeyValue))
      → kept ++ last ∷ [] ≡ insertion_data
      → Writes next (next index last) kept writes run
      → Writes next index insertion_data (suc writes) run
  Writes-insert index insertion_data kept last writes run split (inl (short, q)) =
      inl (omega (arith, ap length split, length-append {0} kept (last ∷ [])), q)
  Writes-insert index insertion_data kept last writes run split (inr (left, taken, s, m, q)) = inr (
    left,
    taken ++ last ∷ [],
    sym (append_assoc left taken (last ∷ [])) ∙ (ap (λ l. l ++ last ∷ []) s ∙ split),
    omega (arith, length-append {0} taken (last ∷ [])),
    q ∙ ap (λ i. ok (i, left)) (sym (insert_from_end-snoc next index taken last)),
  )

  insert_last-none :
      (index : S)
      → insert_last ix index []
        ≡ fault (fail "More inserts happened than was expected, ran out of data to insert")
  unfolding insert_last insert_popped pop_back
  insert_last-none index = refl

  insert_last-some :
      (index : S) (e : KeyValue) (rest : List KeyValue) (last : KeyValue) (kept : List KeyValue)
      → pop_back (e ∷ rest) ≡ some (last, kept)
      → insert_last ix index (e ∷ rest) ≡ ok (next index last, kept)
  unfolding insert_last insert_popped
  insert_last-some index e rest last kept p = rw (p, inserts index last) refl

  mixed_loop-Writes_from :
      (rounds idx : ℕ) (index : S) (insertion_data : List KeyValue)
      → idx + rounds ≤ length lookups
      → Writes next index insertion_data
          (count_writes draw write_portion idx rounds)
          (mixed_loop ix rows lookups write_portion draw rounds idx index insertion_data)
  unfolding mixed_loop
  mixed_loop-Writes_from zero idx index insertion_data h =
      inr (insertion_data, [], append-nil insertion_data, refl, refl)
  mixed_loop-Writes_from (suc rounds) idx index [] h =
      let (request, q) = get_elem?-lt lookups idx (omega arith) in
      elim (Bool-cases (ltb (draw idx) write_portion)) [
        | inl write ↦ rw (q, write) (rw (insert_last-none index) (inl (omega arith, refl)))
        | inr read ↦
            let (r, found) = reads index request.key in
            rw (q, read, found) (mixed_loop-Writes_from rounds (idx + 1) index [] (omega arith))
      ]
  mixed_loop-Writes_from (suc rounds) idx index (e ∷ rest) h =
      let (request, q) = get_elem?-lt lookups idx (omega arith) in
      elim (Bool-cases (ltb (draw idx) write_portion)) [
        | inl write ↦
            let (last, kept, popped, split) = pop_back-some e rest in
            let more =
              mixed_loop-Writes_from rounds (idx + 1) (next index last) kept (omega arith) in
            rw (q, write, insert_last-some index e rest last kept popped)
              (Writes-insert index (e ∷ rest) kept last
                (count_writes draw write_portion (idx + 1) rounds)
                (mixed_loop ix rows lookups write_portion draw rounds (idx + 1) (next index last)
                  kept)
                split more)
        | inr read ↦
            let (r, found) = reads index request.key in
            rw (q, read, found)
              (mixed_loop-Writes_from rounds (idx + 1) index (e ∷ rest) (omega arith))
      ]

  -- For fewer than 2 ^ 32 requests, if lookups and insertions end normally, the core loop from the first
  -- to the last request counts the draws below the write portion: if the insertion data has so many
  -- entries, it inserts that many from the end of the insertion data into the index, the last one first,
  -- and keeps the entries before them; if it has fewer, the loop ends with the error message.
  pub mixed_core_loop-Writes :
      (index : S) (insertion_data : List KeyValue)
      → length lookups < u32_mod
      → Writes next index insertion_data (count_writes draw write_portion 0 (length lookups)) (
          mixed_core_loop ix rows lookups write_portion draw 0
            (length lookups)
            index
            insertion_data)
  unfolding mixed_core_loop
  mixed_core_loop-Writes index insertion_data few =
      let all_rounds : rounds_of 0 (length lookups) ≡ length lookups = omega arith in
      let same_draw : (λ (idx : ℕ). draw (idx - 0 % u32_mod)) ≡ draw =
        fun_ext (λ idx. ap draw (omega arith)) in
      rw (all_rounds, same_draw)
        (mixed_loop-Writes_from (length lookups) 0 index insertion_data (omega arith))
