-- ===== src/Benchmark.antt =====
-- benchmark.h: the class Benchmark.
pub mod Load
pub mod Inserts
pub mod Lookups
