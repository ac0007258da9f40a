-- ===== src/Data.antt =====
-- util.h: the types of the rows, of the index entries, of the lookups and of the search bounds.
-- Keys are numbers below 2 ^ 32 or 2 ^ 64, by the template argument KeyType.
use sosd.Prelude.{ℕ, List, map, ◌<◌, All}
use sosd.Prelude.Words.{u64_mod}

-- `data0` is `data[0]`: ROW_WIDTH is 1.
pub record Row : Type 0 where
  pub key : ℕ
  pub data0 : ℕ

pub record KeyValue : Type 0 where
  pub key : ℕ
  pub value : ℕ

pub record EqualityLookup : Type 0 where
  pub key : ℕ
  pub result : ℕ

pub record SearchBound : Type 0 where
  pub start : ℕ
  pub stop : ℕ

pub data DataType : Type 0 where
  uint32 uint64 : DataType

abbrev pub row_keys : List Row → List ℕ
row_keys rows = map (λ r. r.key) rows

abbrev pub entry_keys : List KeyValue → List ℕ
entry_keys entries = map (λ e. e.key) entries

-- The payloads are values of uint64_t.
abbrev pub ValuesFit : List Row → Type 0
ValuesFit rows = All (λ r. r.data0 < u64_mod) rows
