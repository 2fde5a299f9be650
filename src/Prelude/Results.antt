-- ===== src/Prelude/Results.antt =====
-- Results of code that can fail: a value, or the fault that stops the process.
use mathlib.Core.Bool.{Bool, true, false}

-- `bad_pointer`: a read or write through `NULL` or a deleted object. `assertion`: a failed `assert`.
-- `exited`: `exit(1)`. `div_by_zero`: an integer division by 0. `out_of_fuel`: a loop of the model was
-- given too few rounds.
pub data Fault : Type 0 where
  bad_pointer assertion exited div_by_zero out_of_fuel : Fault

pub data Result {ℓ} (A : Type ℓ) : Type ℓ where
  ok : A → Result A
  err : Fault → Result A

-- `assert(b)`; a build with `-DNDEBUG` (`ndebug`) compiles it to nothing.
abbrev pub assert : (ndebug : Bool) → Bool → Result (Unit {0})
assert true b = ok tt
assert false true = ok tt
assert false false = err assertion

-- The next step, unless a fault has stopped the process.
infixl 5 ◌>>=◌ ◌>>◌
abbrev pub ◌>>=◌ {ℓ κ} : {A : Type ℓ} {B : Type κ} → Result A → (A → Result B) → Result B
err fault >>= next = err fault
ok a >>= next = next a

abbrev pub ◌>>◌ {ℓ κ} : {A : Type ℓ} {B : Type κ} → Result A → Result B → Result B
first >> then_ = first >>= λ _. then_
