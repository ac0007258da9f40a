-- ===== src/Competitors.antt =====
-- competitors/: the index structures that the benchmark compares. An index maps a lookup key to a
-- range of positions, in which the benchmark then searches.
pub mod Art
pub mod Bounds
pub mod Cuckoo
pub mod InterpolationBtree
pub mod Parameters
pub mod Windows
pub mod RadixBinarySearch
