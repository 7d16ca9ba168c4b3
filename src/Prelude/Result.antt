-- ===== src/Prelude/Result.antt =====
-- How a call of C code ends: with a value, or in a fault that C leaves undefined.
use mathlib.Core.Bool.{Bool, true, false}

-- `null_deref`: a field of a NULL pointer is read. `out_of_bounds`: a struct is laid over fewer
-- bytes than it has. `dangling`: a request that was freed is used. `assertion`: an assert fails.
-- `no_stack`: calls nest deeper than the fuel that stands for the C stack. `no_rounds`: a loop of
-- the model goes on after the rounds that it was given. `overlap`: memcpy on areas that overlap.
pub data Fault : Type 0 where
  null_deref out_of_bounds dangling assertion no_stack no_rounds overlap : Fault

pub data Result {ℓ} (A : Type ℓ) : Type ℓ where
  ok : A → Result A
  fault : Fault → Result A

-- Goes on with the value, if there is one.
abbrev pub ◌>>=◌ {ℓ κ} : {V : Type ℓ} {W : Type κ} → Result V → (V → Result W) → Result W
fault e >>= next = fault e
ok v >>= next = next v

infixl 5 ◌>>=◌ ◌>>◌
-- Stops in a fault where a condition does not hold.
abbrev pub guard : Bool → Fault → Result (Unit {0})
guard false why = fault why
guard true why = ok tt

abbrev pub ◌>>◌ {κ} : {W : Type κ} → Result (Unit {0}) → Result W → Result W
first >> second = first >>= λ done. second
