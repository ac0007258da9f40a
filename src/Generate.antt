-- ===== src/Generate.antt =====
-- generate.cc: the lookups of a benchmark, drawn from the keys or taken from a trace. The tests and
-- keys that ScaleFactor's floating point number decides are arguments, as functions of the draw.
pub mod Names
pub mod Positive
pub mod Retries
pub mod Trace
use sosd.Prelude.{
  ℕ, zero, suc, ◌+◌, ◌-◌, ◌*◌, ◌/◌, ◌%◌, ◌==◌, ◌&&◌, List, [], ◌∷◌, Bool, Run, ok, fault, fail,
  out_of_fuel, at, ◌>>=◌, ltb, leb, if◌then◌else◌, length,
}
use sosd.Prelude.Words.{u32_mod, u64_mod, sub64}
use sosd.Data.{Row, EqualityLookup}
use sosd.Util.Random.{FastRandom, rand_uint32, rand_uint32_between}
use sosd.Searches.Branching.{branching_search}

abbrev pub max_num_qualifying : ℕ
max_num_qualifying = 100

abbrev pub max_num_retries : ℕ
max_num_retries = 100

abbrev pub not_found : ℕ
not_found = u64_mod - 1

-- `ratio_positive` is negative_lookup_ratio > 0.0, `draws_negative` is ScaleFactor() <
-- negative_lookup_ratio, and `scaled_key` is ScaleFactor() * (max_key - min_key) + min_key.
module _ (ratio_positive : Bool) (draws_negative : ℕ → Bool) (scaled_key : ℕ → ℕ → ℕ → ℕ)
    (rows : List Row) (unique_keys : List ℕ) (num_lookups : ℕ) where
  -- while (num_qualifying > 0): draws a key that no row has.
  unfoldable pub negative_loop : ℕ → ℕ → ℕ → FastRandom → Run (FastRandom × ℕ)
  negative_loop zero min_key max_key ranny = fault out_of_fuel
  negative_loop (suc fuel) min_key max_key ranny =
      let (next, draw) = rand_uint32 ranny in
      let rest = negative_loop fuel min_key max_key next in
      let key = scaled_key min_key max_key draw in
      do
        o ← branching_search rows key 0 (length rows)
        if o.num_qualifying == 0 then ok (next, key) else rest

  -- A key drawn from the unique keys, looked up in the rows, and the number of its rows.
  unfoldable pub positive_draw : FastRandom → Run (FastRandom × EqualityLookup × ℕ)
  positive_draw ranny = do
    (next, offset) ← rand_uint32_between ranny 0 (sub64 (length unique_keys) 1 % u32_mod)
    key ← at unique_keys offset
    o ← branching_search rows key 0 (length rows)
    ok (next, record { key = key; result = o.result }, o.num_qualifying)

  -- while (num_generated < num_lookups); the result has the lookups from the next one on.
  unfoldable pub generate_loop : ℕ → ℕ → ℕ → ℕ → ℕ → FastRandom → Run (List EqualityLookup)
  unfolding negative_loop positive_draw
  generate_loop zero min_key max_key num_generated num_retries ranny = fault out_of_fuel
  generate_loop (suc fuel) min_key max_key num_generated num_retries ranny =
      let (drawn, draw) = rand_uint32 ranny in
      let considers = (num_retries == 0) && ratio_positive in
      let negative = do
        (next, key) ← negative_loop fuel min_key max_key drawn
        rest ← generate_loop fuel min_key max_key (num_generated + 1) num_retries next
        ok (record { key = key; result = not_found } ∷ rest)
      in let positive = do
        (next, lookup, num_qualifying) ← positive_draw (if considers then drawn else ranny)
        let again = generate_loop fuel min_key max_key num_generated (num_retries + 1) next
        let accepted = generate_loop fuel min_key max_key (num_generated + 1) 0 next
        if ltb max_num_qualifying num_qualifying
            then (if ltb max_num_retries (num_retries + 1)
                then fault (fail "generate_equality_lookups: exceeded max number of retries")
                else again)
            else (accepted >>= λ rest. ok (lookup ∷ rest))
        in if leb num_lookups num_generated
          then ok []
          else if considers && draws_negative draw
          then negative
          else positive

  unfoldable pub generate_equality_lookups : ℕ → Run (List EqualityLookup)
  unfolding generate_loop
  generate_equality_lookups fuel = do
    front ← at rows 0
    back ← at rows (length rows - 1)
    generate_loop fuel front.key back.key 0 0 (record { seed = 42 })

-- The search of each key of the trace, in the rows below `size`.
unfoldable pub trace_loop : List Row → ℕ → List ℕ → Run (List EqualityLookup)
trace_loop rows size [] = ok []
trace_loop rows size (key ∷ keys) = do
  o ← branching_search rows key 0 size
  rest ← trace_loop rows size keys
  ok (record { key = key; result = o.result } ∷ rest)

-- The searches end at keys.size(), the length of the trace and not of the data.
unfoldable pub generate_equality_lookups_from_trace : List Row → List ℕ → Run (List EqualityLookup)
unfolding trace_loop
generate_equality_lookups_from_trace rows keys = trace_loop rows (length keys) keys

-- What to_nice_number appends to the number that it prints.
pub data Suffix : Type 0 where
  none_of_them thousands millions billions : Suffix

abbrev pub suffix_scale : Suffix → ℕ
suffix_scale Suffix.none_of_them = 1
suffix_scale Suffix.thousands = 1000
suffix_scale Suffix.millions = 1000000
suffix_scale Suffix.billions = 1000000000

unfoldable pub is_multiple : ℕ → ℕ → Bool
is_multiple num unit = leb unit num && (num / unit * unit == num)

-- to_nice_number, with the number before its decimal digits.
unfoldable pub to_nice_number : ℕ → ℕ × Suffix
unfolding is_multiple
to_nice_number num =
    if is_multiple num 1000000000
    then (num / 1000000000, Suffix.billions)
    else if is_multiple num 1000000
    then (num / 1000000, Suffix.millions)
    else if is_multiple num 1000
    then (num / 1000, Suffix.thousands)
    else (num, Suffix.none_of_them)
