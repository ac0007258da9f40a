-- ===== src/Benchmark/Load/Loaded.antt =====
-- benchmark.h: when the constructor ends normally, and what it has loaded then.
use Prim.Native.Nat.{compare}
use Prim.Native.String.{String, ◌++◌ as ◌+++◌, len, slice, find}
use text.Mathlib.Text.{find?, when, is_le}
use text.Mathlib.TextFind.{Hit, find_cases}
use text.Mathlib.TextPositions.{slice-append_right, len-append}
use text.Mathlib.TextLemmas.{append_assoc}
use sosd.Prelude.{
  ℕ, zero, suc, ◌+◌, ◌%◌, ◌≤◌, ◌≡◌, ◌≢◌, refl, sym, ap, List, [], ◌∷◌, Bool, true, false, ok, fault,
  undefined, ltb, get_elem?, arith, Bool-cases, Option-cases, none, some, inl, inr, ◌↔◌, ◌∙◌,
  ltb→le, le→ltb,
}
use sosd.Prelude.Words.{u64_mod}
use sosd.Data.{Row, EqualityLookup, row_keys, entry_keys}
use sosd.Sorted.{IsSorted, IsAscending, is_sorted, is_sorted→IsSorted, IsSorted→is_sorted}
use sosd.Util.{add_values}
use sosd.Util.Values.{row_keys-add_values, get_elem?-add_values}
use sosd.Util.Unique.{is_unique-IsAscending}
use sosd.Benchmark.Load.{
  Options, Benchmark, to_nat, index_data_from, entry_keys-index_data_from, erase_to, erase_prefix,
  loaded, load,
}

get_elem?-index_data_from :
    (pos : ℕ) (rows : List Row) (i : ℕ) {r : Row}
    → get_elem? rows i ≡ some r
    → get_elem? (index_data_from pos rows) i ≡ some (record { key = r.key; value = pos + i })
unfolding index_data_from
get_elem?-index_data_from pos [] i e = absurd (ground arith)
get_elem?-index_data_from pos (q ∷ rows) zero e = ground arith
get_elem?-index_data_from pos (q ∷ rows) (suc i) e =
    let there = get_elem?-index_data_from (pos + 1) rows i e in
    let same : pos + 1 + i ≡ pos + suc i = omega arith in rw same at there

-- What the constructor accepts: `found` says that find finds the prefix in the file's name.
pub record IsAccepted (data_filename : String) (o : Options) (keys : List ℕ) : Type 0 where
  pub one_mode : to_nat o.cold_cache + to_nat o.perf + to_nat o.fence ≤ 1
  pub portion : o.write_portion ≤ 100
  pub found : find? data_filename "data/" ≢ none
  pub sorted : IsSorted keys

-- What it has loaded.
pub record IsLoaded (data_filename : String) (o : Options) (keys : List ℕ)
    (lookups : List EqualityLookup) (b : Benchmark) : Type 0 where
  pub options : b.options ≡ o
  pub dataset : (before : String) × (data_filename ≡ before +++ ("data/" +++ b.dataset_name))
  pub rows : row_keys b.rows ≡ keys
  pub payloads :
      (i k : ℕ)
      → get_elem? keys i ≡ some k
      → get_elem? b.rows i ≡ some (record { key = k; data0 = i % u64_mod })
  pub entries : entry_keys b.index_data ≡ keys
  pub positions :
      (i k : ℕ)
      → get_elem? keys i ≡ some k
      → get_elem? b.index_data i ≡ some (record { key = k; value = i })
  pub insertions : b.insertion_data ≡ []
  pub requests : b.lookups ≡ lookups
  pub unique : (b.unique_keys ≡ true) ↔ IsAscending keys

erase_prefix-none :
    (data_filename : String)
    → find? data_filename "data/" ≡ none
    → erase_prefix data_filename ≡ fault undefined
unfolding erase_prefix erase_to
erase_prefix-none data_filename e = ap (erase_to data_filename) e

erase_prefix-some :
    (data_filename : String) (position : ℕ)
    → find? data_filename "data/" ≡ some position
    → erase_prefix data_filename
      ≡ ok (slice data_filename (position + len "data/") (len data_filename))
unfolding erase_prefix erase_to
erase_prefix-some data_filename position e = ap (erase_to data_filename) e

load-IsAccepted :
    (data_filename : String) (o : Options) (keys : List ℕ) (lookups : List EqualityLookup)
    (b : Benchmark)
    → load data_filename o keys lookups ≡ ok b
    → IsAccepted data_filename o keys
unfolding load
load-IsAccepted data_filename o keys lookups b h =
    elim (Bool-cases (ltb 1 (to_nat o.cold_cache + to_nat o.perf + to_nat o.fence))) [
      | inl many ↦ absurd (ground (arith, rw (many, load) at h))
      | inr few ↦ elim (Bool-cases (ltb 100 o.write_portion)) [
        | inl much ↦ absurd (ground arith)
        | inr some_part ↦ elim (Option-cases (find? data_filename "data/")) [
          | inl missing ↦
              absurd
                (ground (arith, rw (few, some_part, erase_prefix-none data_filename missing) at h))
          | inr (position, here) ↦ elim (Bool-cases (is_sorted keys)) [
            | inl up ↦ record {
              one_mode = ltb→le _ _ few;
              portion = ltb→le _ _ some_part;
              found = λ missing. cc;
              sorted = is_sorted→IsSorted keys up;
            }
            | inr down ↦ absurd (
                ground (
                  arith,
                  rw (few, some_part, erase_prefix-some data_filename position here, down) at h,
                ))
          ]
        ]
      ]
    ]

-- What is left of a text behind an occurrence of another.
behind_Hit :
    (s t : String) (h : Hit s t) (position : ℕ)
    → position ≡ len h.0
    → slice s (position + len t) (len s) ≡ h.1
behind_Hit s t (u, v, split, at_find) position e =
    let front = u +++ t in
    let whole : s ≡ front +++ v = split ∙ sym (append_assoc u t v) in
    ap (λ k. slice s k (len s)) (ap (λ k. k + len t) e ∙ sym (len-append u t))
    ∙ (ap (λ x. slice x (len front) (len x)) whole
        ∙ (ap (λ k. slice (front +++ v) (len front) k) (len-append front v)
            ∙ slice-append_right front v))

find-eq : (b : Bool) (found position : ℕ) → when b found ≡ some position → found ≡ position
find-eq true found position e = ground arith
find-eq false found position e = absurd (cc)

not_found-ne :
    (size found position : ℕ)
    → found ≡ suc size
    → when (is_le (compare found size)) found ≢ some position
not_found-ne size found position miss e = ground arith

erased :
    (s : String) (position : ℕ)
    → find? s "data/" ≡ some position
    → (before : String) × (s ≡ before +++ ("data/" +++ slice s (position + len "data/") (len s)))
erased s position e = elim (find_cases s "data/") [
  | inl (u, v, split, at_find) ↦
      let here : position ≡ len u = sym (find-eq _ _ _ e) ∙ at_find in
      let rest = behind_Hit s "data/" (u, v, split, at_find) position here in
      (u, split ∙ ap (λ r. u +++ ("data/" +++ r)) (sym rest))
  | inr miss ↦ absurd (not_found-ne (len s) (find s "data/") position miss e)
]

loads :
    (data_filename : String) (o : Options) (keys : List ℕ) (lookups : List EqualityLookup)
    → IsAccepted data_filename o keys
    → (b : Benchmark) × (load data_filename o keys lookups ≡ ok b)
      × IsLoaded data_filename o keys lookups b
unfolding load
loads data_filename o keys lookups a = elim (Option-cases (find? data_filename "data/")) [
  | inl missing ↦ absurd (a.found missing)
  | inr (position, here) ↦
      let name = slice data_filename (position + len "data/") (len data_filename) in
      (
        loaded name o keys lookups,
        rw (
          le→ltb 1 (to_nat o.cold_cache + to_nat o.perf + to_nat o.fence) a.one_mode,
          le→ltb 100 o.write_portion a.portion,
          erase_prefix-some data_filename position here,
          IsSorted→is_sorted keys a.sorted,
        ),
        record {
          options = refl;
          dataset = erased data_filename position here;
          rows = row_keys-add_values keys;
          payloads = λ i k e. get_elem?-add_values keys i e;
          entries = entry_keys-index_data_from 0 (add_values keys) ∙ row_keys-add_values keys;
          positions = λ i k e.
              get_elem?-index_data_from 0 (add_values keys) i (get_elem?-add_values keys i e)
              ∙ ap (λ (v : ℕ). some (record { key = k; value = v })) (omega arith);
          insertions = refl;
          requests = refl;
          unique = is_unique-IsAscending keys a.sorted;
        },
      )
]

-- The constructor ends normally exactly if at most one of the three modes is on, the write portion
-- is at most 100, find finds "data/" in the data file's name and the keys are sorted. Then it keeps the
-- options and the requests, the data set's name is the rest of the file's name behind a "data/", there
-- is nothing to insert yet, the rows and the index entries have the file's keys in order, each with its
-- position as payload (modulo 2 ^ 64) and as value, and the keys count as unique exactly if they ascend
-- strictly.
pub load-IsLoaded :
    (data_filename : String) (o : Options) (keys : List ℕ) (lookups : List EqualityLookup)
    → ((b : Benchmark) × (load data_filename o keys lookups ≡ ok b)
        × IsLoaded data_filename o keys lookups b)
      ↔ IsAccepted data_filename o keys
load-IsLoaded data_filename o keys lookups =
    (λ h. load-IsAccepted data_filename o keys lookups h.0 h.1, loads data_filename o keys lookups)
