-- ===== src/Competitors/Bounds.antt =====
-- What an index promises of the bound that it returns for a key: the position at which the key
-- belongs lies between the bound's ends, and the end is not behind the data.
use sosd.Prelude.{ℕ, ◌≤◌, List, length}
use sosd.Data.{SearchBound}
use sosd.Sorted.{lower_index}

pub record Brackets (keys : List ℕ) (key : ℕ) (b : SearchBound) : Type 0 where
  pub lo : b.start ≤ lower_index key keys
  pub hi : lower_index key keys ≤ b.stop
  pub inside : b.stop ≤ length keys
