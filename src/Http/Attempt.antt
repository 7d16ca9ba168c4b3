-- ===== src/Http/Attempt.antt =====
-- How the parser ends: with a value, with -1, or in a fault.
use computer_network.Prelude.{Bool, true, false, Option, none, some}
use computer_network.Prelude.Result.{Fault}

pub data Attempt {ℓ} (A : Type ℓ) : Type ℓ where
  done : A → Attempt A
  refused : Attempt A
  broken : Fault → Attempt A

infixl 5 ◌>>=◌ ◌>>◌
abbrev pub ◌>>=◌ {ℓ κ} : {A : Type ℓ} {B : Type κ} → Attempt A → (A → Attempt B) → Attempt B
refused >>= next = refused
broken why >>= next = broken why
done a >>= next = next a

-- Goes on where a condition holds, and is refused, or breaks, where it does not.
abbrev pub require : Bool → Attempt (Unit {0})
require false = refused
require true = done tt

abbrev pub guard : Bool → Fault → Attempt (Unit {0})
guard false why = broken why
guard true why = done tt

-- A pointer that is NULL is refused, or followed.
abbrev pub present {ℓ} : {A : Type ℓ} → Option A → Attempt A
present none = refused
present (some a) = done a

abbrev pub follow {ℓ} : {A : Type ℓ} → Option A → Fault → Attempt A
follow none why = broken why
follow (some a) why = done a

abbrev pub ◌>>◌ {κ} : {B : Type κ} → Attempt (Unit {0}) → Attempt B → Attempt B
first >> second = first >>= λ u. second
