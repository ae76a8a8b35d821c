-- ===== src/Common/Runs.antt =====
-- Runs of the program's code: a result, or the way in which the code goes wrong.
use mathlib.Core.Path.{◌≡◌, refl}

-- What the source has no defined or no useful behaviour for.
pub data Fault : Type 0 where
  division_by_zero : Fault  -- `%` by a zero capacity
  out_of_range : Fault  -- an access past the end of an array
  end_iterator : Fault  -- `*it` at the end of a list
  diverged : Fault  -- a loop that does not end within its fuel
  exited : Fault  -- `std::exit`
  blocked : Fault  -- a wait that nothing in the run ends

pub data Run {ℓ} (A : Type ℓ) : Type ℓ where
  ok : A → Run A
  fault : Fault → Run A

infixl 5 ◌>>=◌
abbrev pub ◌>>=◌ {ℓ κ} : {A : Type ℓ} {B : Type κ} → Run A → (A → Run B) → Run B
ok a >>= f = f a
fault e >>= f = fault e

-- The run ends without a fault, in a result of which `P` holds.
abbrev pub Returns {ℓ κ} : {A : Type ℓ} → Run A → (A → Type κ) → Type (ℓ ⊔ κ)
Returns {A = A} r P = (a : A) × (r ≡ ok a) × P a

-- The parts of a run in two parts that ends without a fault.
pub ok-parts {ℓ κ} :
    {A : Type ℓ} {B : Type κ} {last : B} (run : Run A) (next : A → Run B)
    → run >>= next ≡ ok last
    → (first : A) × (run ≡ ok first) × (next first ≡ ok last)
ok-parts (fault e) next h = cc
ok-parts (ok first) next h = (first, refl, h)

pub ok-injective {ℓ} : {A : Type ℓ} {a b : A} → ok a ≡ ok b → a ≡ b
ok-injective h = cc
