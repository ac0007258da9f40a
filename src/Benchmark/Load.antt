-- ===== src/Benchmark/Load.antt =====
-- benchmark.h: what the constructor checks and loads. Reading the two files is left to the caller,
-- which passes their contents; the cache-clearing buffer is not modelled.
pub mod Loaded
use Prim.Native.String.{String, len, slice}
use text.Mathlib.Text.{find?}
use sosd.Prelude.{
  ℕ, suc, ◌+◌, ◌≡◌, refl, ap, List, [], ◌∷◌, Bool, true, false, Option, none, some, Run, ok, fault,
  fail, undefined, ◌>>◌, ◌>>=◌, if◌then◌else◌, ltb, length,
}
use sosd.Data.{Row, KeyValue, EqualityLookup, row_keys, entry_keys}
use sosd.Sorted.{is_sorted}
use sosd.Util.{add_values, is_unique}

pub record Options : Type 0 where
  pub num_repeats : ℕ
  pub num_threads : ℕ
  pub write_portion : ℕ
  pub perf : Bool
  pub build : Bool
  pub fence : Bool
  pub cold_cache : Bool
  pub track_errors : Bool
  pub csv : Bool

pub record Benchmark : Type 0 where
  pub dataset_name : String
  pub options : Options
  pub rows : List Row
  pub index_data : List KeyValue
  pub insertion_data : List KeyValue
  pub unique_keys : Bool
  pub lookups : List EqualityLookup

-- (int)b
abbrev pub to_nat : Bool → ℕ
to_nat true = 1
to_nat false = 0

-- for (pos = 0; pos < data_.size(); pos++): key -> position.
unfoldable pub index_data_from : ℕ → List Row → List KeyValue
index_data_from pos [] = []
index_data_from pos (r ∷ rows) =
    record { key = r.key; value = pos } ∷ index_data_from (pos + 1) rows

-- util::fail under a condition.
unfoldable pub fail_if : Bool → String → Run (Unit {0})
fail_if true message = fault (fail message)
fail_if false message = ok tt

-- dataset_name_.erase(begin, begin + find(prefix) + strlen(prefix)): without the prefix, find gives
-- npos, and the end of the range is no iterator of the text.
unfoldable pub erase_to : String → Option ℕ → Run String
erase_to data_filename none = fault undefined
erase_to data_filename (some position) =
    ok (slice data_filename (position + len "data/") (len data_filename))

unfoldable pub erase_prefix : String → Run String
erase_prefix data_filename = erase_to data_filename (find? data_filename "data/")

-- The members that the constructor fills.
unfoldable pub loaded : String → Options → List ℕ → List EqualityLookup → Benchmark
unfolding index_data_from
loaded dataset_name o keys lookups =
    let rows = add_values keys in
    record {
      dataset_name = dataset_name;
      options = o;
      rows = rows;
      index_data = index_data_from 0 rows;
      insertion_data = [];
      unique_keys = is_unique keys;
      lookups = lookups;
    }

-- The checks and the loading, in the constructor's order.
unfoldable pub load : String → Options → List ℕ → List EqualityLookup → Run Benchmark
unfolding loaded fail_if
load data_filename o keys lookups = do
  fail_if (ltb 1 (to_nat o.cold_cache + to_nat o.perf + to_nat o.fence))
      "Can only specify one of cold cache, perf counters, or fence."
  fail_if (ltb 100 o.write_portion) "Write portion can not exceed 100% of the dataset"
  dataset_name ← erase_prefix data_filename
  fail_if (if is_sorted keys then false else true) "keys have to be sorted"
  ok (loaded dataset_name o keys lookups)

pub entry_keys-index_data_from :
    (pos : ℕ) (rows : List Row) → entry_keys (index_data_from pos rows) ≡ row_keys rows
unfolding index_data_from
entry_keys-index_data_from pos [] = refl
entry_keys-index_data_from pos (r ∷ rows) =
    ap (λ l. r.key ∷ l) (entry_keys-index_data_from (pos + 1) rows)

pub length-index_data_from :
    (pos : ℕ) (rows : List Row) → length (index_data_from pos rows) ≡ length rows
unfolding index_data_from
length-index_data_from pos [] = refl
length-index_data_from pos (r ∷ rows) = ap suc (length-index_data_from (pos + 1) rows)
