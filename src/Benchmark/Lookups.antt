-- ===== src/Benchmark/Lookups.antt =====
-- benchmark.h: DoEqualityLookups and its core loop. The index is an interface; the draws of the
-- random distribution and the measured times are arguments.
pub mod Cold
pub mod Batches
pub mod Mixed
pub mod Repeats
use sosd.Prelude.{
  ℕ, zero, suc, ◌+◌, ◌-◌, ◌%◌, ◌==◌, List, [], ◌∷◌, Option, none, some, Bool, true, false, Run, ok,
  fault, fail, out_of_bounds, at, ◌>>=◌, min, ltb, leb, if◌then◌else◌, length, set, replicate, drop,
}
use sosd.Prelude.Words.{u32_mod}
use sosd.Data.{Row, KeyValue, EqualityLookup, SearchBound}
use sosd.Algorithms.{lower_bound}
use sosd.Searches.{Outcome, row_below, sum_run}
use sosd.Searches.Branchless.{to_int}

-- What the loops call of an index: EqualityLookup and Insert.
pub record Index (S : Type 0) : Type 0 where
  pub equality_lookup : S → ℕ → Run SearchBound
  pub insert : S → KeyValue → Run S

-- CheckResults, without its messages.
unfoldable pub check_results : ℕ → ℕ → Bool
check_results actual expected = actual == expected

-- insertion_data_[insertion_data_.size() - 1] and pop_back().
unfoldable pub pop_back : List KeyValue → Option (KeyValue × List KeyValue)
pop_back [] = none
pop_back (e ∷ []) = some (e, [])
pop_back (e ∷ f ∷ rest) = elim (pop_back (f ∷ rest)) [
  | none ↦ none
  | some (last, kept) ↦ some (last, e ∷ kept)
]

module _ {S : Type 0} (ix : Index S) where
  unfoldable pub insert_popped : S → Option (KeyValue × List KeyValue) → Run (S × List KeyValue)
  insert_popped index none =
      fault (fail "More inserts happened than was expected, ran out of data to insert")
  insert_popped index (some (last, kept)) = ix.insert index last >>= λ inserted. ok (inserted, kept)

  unfoldable pub insert_last : S → List KeyValue → Run (S × List KeyValue)
  unfolding insert_popped pop_back
  insert_last index insertion_data = insert_popped index (pop_back insertion_data)

  module _ (rows : List Row) where
    -- The lookup and the search of one request.
    unfoldable pub find : (List Row → ℕ → ℕ → ℕ → Run Outcome) → S → ℕ → Run Outcome
    find searcher index key = do
      bound ← ix.equality_lookup index key
      searcher rows key bound.start bound.stop

    -- The loop over the rows from an iterator on. One behind the end of the data is never equal to
    -- data_.end(), and is read.
    unfoldable pub sum_behind : ℕ → ℕ → Run ℕ
    sum_behind key it =
        if ltb (length rows) it then fault out_of_bounds else ok (sum_run key (drop it rows) 0 0).0

    -- A lookup of the core loop without clear_cache. The end of the bound is cut off at the data's
    -- end, and its start is not.
    unfoldable pub sum_lookup : S → ℕ → Run ℕ
    unfolding sum_behind
    sum_lookup index key = do
      bound ← ix.equality_lookup index key
      stop ← to_int (if ltb (length rows) bound.stop then length rows else bound.stop)
      it ← lower_bound (row_below key) rows bound.start stop
      sum_behind key it

-- The core loop's rounds, from `start` while idx < limit. Both are unsigned int, so that a limit of
-- 2 ^ 32 requests or more loses its upper bits; idx stays below the limit and does not wrap.
abbrev pub rounds_of : ℕ → ℕ → ℕ
rounds_of start limit = limit % u32_mod - start % u32_mod

module _ {S : Type 0} (ix : Index S) (rows : List Row) (lookups : List EqualityLookup) where
  -- The loop with clear_cache, over `rounds` requests from `idx`; the result is `run_failed`.
  unfoldable pub cold_loop : (List Row → ℕ → ℕ → ℕ → Run Outcome) → S → ℕ → ℕ → Bool → Run Bool
  unfolding find check_results
  cold_loop searcher index zero idx run_failed = ok run_failed
  cold_loop searcher index (suc rounds) idx run_failed = do
    request ← at lookups idx
    o ← find ix rows searcher index request.key
    let rest = cold_loop searcher index rounds (idx + 1) run_failed
    if check_results o.result request.result then rest else ok true

  -- The loop without clear_cache: a draw below the write portion inserts, any other looks up.
  unfoldable pub mixed_loop : ℕ → (ℕ → ℕ) → ℕ → ℕ → S → List KeyValue → Run (S × List KeyValue)
  unfolding sum_lookup insert_last
  mixed_loop write_portion draw zero idx index insertion_data = ok (index, insertion_data)
  mixed_loop write_portion draw (suc rounds) idx index insertion_data = do
    request ← at lookups idx
    let write = do
      (inserted, kept) ← insert_last ix index insertion_data
      mixed_loop write_portion draw rounds (idx + 1) inserted kept
    let read = do
      result ← sum_lookup ix rows index request.key
      mixed_loop write_portion draw rounds (idx + 1) index insertion_data
    if ltb (draw idx) write_portion then write else read

  -- DoEqualityLookupsCoreLoop with clear_cache.
  unfoldable pub cold_core_loop : (List Row → ℕ → ℕ → ℕ → Run Outcome) → S → ℕ → ℕ → Bool → Run Bool
  unfolding cold_loop
  cold_core_loop searcher index start limit run_failed =
      cold_loop searcher index (rounds_of start limit) (start % u32_mod) run_failed

  -- DoEqualityLookupsCoreLoop without it. Each call draws from a generator of its own.
  unfoldable pub mixed_core_loop : ℕ → (ℕ → ℕ) → ℕ → ℕ → S → List KeyValue → Run (S × List KeyValue)
  unfolding mixed_loop
  mixed_core_loop write_portion draw start limit index insertion_data =
      let first = start % u32_mod in
      mixed_loop write_portion (λ idx. draw (idx - first)) (rounds_of start limit) first index
        insertion_data

abbrev pub batch_size : ℕ
batch_size = 65536

-- The ranges that the loop over the atomic counter hands to the core loop, from `begin` on. The
-- limit is an unsigned int.
unfoldable pub batches : ℕ → ℕ → ℕ → List (ℕ × ℕ)
batches zero begin size = []
batches (suc fuel) begin size =
    let rest = batches fuel (begin + batch_size) size in
    if leb size begin then [] else (begin, min (begin + batch_size) size % u32_mod) ∷ rest

-- The repeats: pass `i` leaves its time in runs_[i], and a pass that failed zeroes all times and ends
-- the run.
unfoldable pub run_repeats : ℕ → ℕ → (ℕ → Run (ℕ × Bool)) → List ℕ → Run (List ℕ)
run_repeats zero i pass runs = ok runs
run_repeats (suc n) i pass runs = do
  (ms, run_failed) ← pass i
  let rest = run_repeats n (i + 1) pass (set runs i ms)
  if run_failed then ok (replicate (length runs) 0) else rest

-- runs_.resize(n): new elements are zero.
unfoldable pub resize : ℕ → List ℕ → List ℕ
resize zero runs = []
resize (suc n) [] = 0 ∷ resize n []
resize (suc n) (x ∷ runs) = x ∷ resize n runs

module _ {S : Type 0} (ix : Index S) (rows : List Row) (lookups : List EqualityLookup) where
  -- DoEqualityLookups with clear_cache, which Run allows with one thread only: repeat `i` takes the time
  -- `ms i`. With the build option there are no lookups.
  unfoldable pub do_equality_lookups :
      (List Row → ℕ → ℕ → ℕ → Run Outcome) → S → (ℕ → ℕ) → Bool → ℕ → List ℕ → Run (List ℕ)
  unfolding run_repeats resize
  do_equality_lookups searcher index ms build num_repeats runs =
      let pass = λ (i : ℕ). do
        run_failed ← cold_core_loop ix rows lookups searcher index 0 (length lookups) false
        ok (ms i, run_failed)
      in if build then ok runs else run_repeats num_repeats 0 pass (resize num_repeats runs)
