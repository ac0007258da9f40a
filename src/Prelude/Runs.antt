-- ===== src/Prelude/Runs.antt =====
-- Runs of C++ code: a value, or the way in which the run went wrong.
use Prim.Native.Nat.{ℕ, ◌<◌}
use Prim.Native.String.{String}
use mathlib.Core.Path.{◌≡◌}
use mathlib.Core.List.{List}
use mathlib.Core.Option.{Option, none, some}
use sosd.Prelude.Lists.{get_elem?, get_elem?-lt, length}

-- `out_of_bounds`: a read or an iterator outside its vector, which is undefined behaviour.
-- `undefined`: other undefined or implementation-defined behaviour.
-- `fail`: util::fail, which prints the message and ends the process.
-- `out_of_fuel`: the model's bound on the rounds of a loop was too small.
pub data Fault : Type 0 where
  out_of_bounds undefined out_of_fuel : Fault
  fail : String → Fault

pub data Run {ℓ} (A : Type ℓ) : Type ℓ where
  ok : A → Run A
  fault : Fault → Run A

infixl 5 ◌>>=◌ ◌>>◌
abbrev pub ◌>>=◌ {ℓ κ} : {A : Type ℓ} {B : Type κ} → Run A → (A → Run B) → Run B
ok a >>= f = f a
fault e >>= f = fault e

abbrev pub ◌>>◌ {ℓ} : {B : Type ℓ} → Run (Unit {0}) → Run B → Run B
m >> k = m >>= λ _. k

-- `xs[i]`.
abbrev pub of_option {ℓ} : {A : Type ℓ} → Option A → Run A
of_option none = fault out_of_bounds
of_option (some x) = ok x

abbrev pub at {ℓ} : {A : Type ℓ} → List A → ℕ → Run A
at xs i = of_option (get_elem? xs i)

pub at-lt {ℓ} : {A : Type ℓ} (xs : List A) (i : ℕ) → i < length xs → (x : A) × (at xs i ≡ ok x)
at-lt xs i h = let (x, e) = get_elem?-lt xs i h in (x, rw e)
