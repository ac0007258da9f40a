-- ===== src/Tests.antt =====
-- Runs of the definitions on small inputs, and each theorem at an input.
mod Searches
mod Indexes
mod Helpers
mod Loops
mod Choices
mod Trees
mod Radix
mod Maps
mod Inserts
mod Traces
use sosd.Prelude.{ℕ, List, [], ◌∷◌}
use sosd.Data.{Row}

-- Four rows, two with the key 5.
abbrev pub four_rows : List Row
four_rows =
    record { key = 2; data0 = 10 }
    ∷ record { key = 5; data0 = 20 }
    ∷ record { key = 5; data0 = 30 }
    ∷ record { key = 9; data0 = 40 }
    ∷ []

abbrev pub four_keys : List ℕ
four_keys = 2 ∷ 5 ∷ 5 ∷ 9 ∷ []
