-- ===== src/Lib.antt =====
-- A model of the Search on Sorted Data benchmark, and what is proved of it.
--
-- The benchmark loads a file of sorted keys, gives each key a payload (its position), builds an
-- index that maps a lookup key to a range of positions, and searches the rows of that range.
--
-- Prelude: lists and Boolean tests over the native numbers; `Run`, the outcome of C++ code, whose
--   faults are a read outside a vector, other undefined behaviour, util::fail, and the model's own
--   `out_of_fuel`; machine words with the wrap written out.
-- Data: the structs of util.h (Row with ROW_WIDTH 1, KeyValue, EqualityLookup, SearchBound). Keys
--   are numbers; KeyType, uint32_t or uint64_t, is their width where it matters.
-- Sorted: sortedness, std::is_sorted, and `lower_index`, the position at which a key belongs.
-- Algorithms: std::lower_bound as the halving loop of the standard library, and std::find_if. The
-- loop's fuel is the length of the range and one, and it halves the range in each round.
-- Searches: searches/. The outcome of a search has its result, *num_qualifying and the index that
--   it prints on a miss. `expected` is the specification: it sums over all rows, wherever they
--   stand. Branching, Linear and Branchless model the three classes; the halving loop of Branchless
--   has the width of its range and one as fuel. Prefetches and the rest of the messages are left
--   out.
-- Util: util.h. is_unique, remove_duplicates, add_values and the integer draws of FastRandom.
-- Benchmark: benchmark.h. Load models the constructor, given the name of the data file and the
--   contents of the two files; Load/Loaded is about when it ends normally and what it has loaded.
--   Lookups models DoEqualityLookups and its core loop, whose first and last request are unsigned
--   int: Cold is about the loop that checks each result, Repeats about the times of the repeats,
--   Batches about the ranges of the threads, Mixed about the loop with insertions. The measured
--   times and the draws of the distribution are arguments. The ranges' fuel is the number of
--   requests and one, and each range takes at least one request. Inserts models what Run takes out
--   of the index data before the build: Taken is about the entries taken, Sorting about what is
--   left. The loop that draws ids need not end, so its fuel is an argument.
-- Competitors: competitors/. Bounds says what an index promises of its bound.
-- Competitors/RadixBinarySearch models competitors/radix_binary_search.h: Shift, Hints and Built
--   are about Build, Lookup about EqualityLookup.
-- Competitors/Windows models the wrappers of indexes that the repository does not contain. What
--   such an index answers is an argument; Sampled states what lower_bound of an ordered map is
--   documented to give, and Guess uses it for competitors/pgm_index.h.
-- Competitors/InterpolationBtree models competitors/interpolation_btree.h: Search the search in a
--   node, Cover the entries that a layer and a node stand for, Fill the leaf layer, Split and
--   Layers the layers above it, Lookup the descent, Generator the entries that Build passes on,
--   Bound the whole. A node of height h is a leaf or has children of height h - 1, which the page
--   types and the height count of the source ensure; the number that the slope gives in double
--   arithmetic is an argument. Each leaf takes an entry and each layer has fewer nodes than the one
--   below, so that two more than the number of entries is enough fuel.
-- Competitors/Art models competitors/art_primary_lb.h: Bytes the bytes of keys, Nodes the four
--   types of node with findChild and insertNode4 to insertNode256, Tree the lookups, insert and
--   Build. Slots, Places, Wide and Growth are about one node, Shape states the invariant of a tree,
--   Found is about lookup, Children, Splits and Inserted about insert, Built about Build; Cursor
--   models the iterator, bound and EqualityLookup. Traverse has the leaves in the order of the
--   iterator and Iterated is about iteratorNext; Ordered has the order of keys, Seek is about the
--   position that bound takes in a node, Bounded about a leaf, Descent about a node and First about
--   bound. The rounds of the iterator's loop are its fuel, which grows with the nodes that are
--   left. A node owns its children, so that an insertion returns the node that *nodeRef points to
--   afterwards; the arrays of a node are functions of the index. A loop over positions of a node
--   has the length of the array as fuel.
-- Competitors/Cuckoo models competitors/stanford_hash.h: Slots states the invariant of a map and
--   what get finds, Writes is about the write of a slot, Fresh about the constructor, Stored about
--   insert, and Placed about an insertion with a free slot. An insertion whose random evictions do
--   not come to an end is cut off after a number of calls, and the entry that is then out of the
--   map is part of the result.
-- Competitors/Parameters models SetParameters of competitors/rs.h, ts.h and cht.h, with their
--   assertion and tables; Bounds is about what it sets.
-- Selection: benchmark.cc's execute_32_bit and execute_64_bit, with the lists of benchmarks/ in
--   Variants; Applicable is about the parameters of the selected runs.
-- Generate: generate.cc. Trace has the lookups of a trace, Names the numbers in file names. The
--   tests that a floating point draw decides are functions of the integer drawn. The loop that
--   draws lookups need not end where negative lookups are wanted, so its fuel is an argument;
--   Positive is about the lookups where none are wanted, for which 101 draws a lookup and 101 more
--   are enough fuel, and Retries about the draws of keys with too many rows.
-- EndToEnd: an index and a search joined as Run joins them, for one thread and one pass over the
--   requests.
-- Tests: runs on small inputs, and each theorem at an input.
--
-- Not modelled: reading and writing files, timing, printing of results, CPU affinity, error
-- tracking and perf counters, competitors/fast.h and competitors/art.h, which are built on SIMD
-- instructions or repeat the radix tree, and the libraries that the repository copies (stx-btree,
-- dtl, robin-map, cxxopts).
pub mod Algorithms
pub mod Benchmark
pub mod Competitors
pub mod Data
pub mod EndToEnd
pub mod Generate
pub mod Prelude
pub mod Searches
pub mod Selection
pub mod Sorted
pub mod Tests
pub mod Util
