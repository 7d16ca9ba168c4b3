-- ===== src/Tcp/Listen/Slots.antt =====
-- The slots of a listening socket, counted and changed.
use computer_network.Prelude.{
  ℕ, zero, suc, ◌+◌, ◌≤◌, ◌<◌, ◌≡◌, ◌≢◌, refl, ap, List, [], ◌∷◌, Option, none, some, arith, length,
}
use computer_network.Tcp.Listen.{ConnectRequest, set_slot, slot_sd, free_slot, find_sd}

abbrev pub count : Option ℕ → ℕ
count none = 0
count (some sd) = 1

-- How many slots have a descriptor.
abbrev pub used : List ConnectRequest → ℕ
used [] = 0
used (r ∷ rs) = count r.sd + used rs

pub used-le : (rs : List ConnectRequest) → used rs ≤ length rs
used-le [] = omega arith
used-le (r ∷ rs) = ground (arith, used-le rs)

pub length-set_slot :
    (k : ℕ) (r : ConnectRequest) (rs : List ConnectRequest) → length (set_slot k r rs) ≡ length rs
length-set_slot k r [] = refl
length-set_slot zero r (x ∷ xs) = refl
length-set_slot (suc k) r (x ∷ xs) = ap suc (length-set_slot k r xs)

pub used-set_slot :
    (k : ℕ) (r : ConnectRequest) (rs : List ConnectRequest)
    → k < length rs
    → used (set_slot k r rs) + count (slot_sd k rs) ≡ used rs + count r.sd
used-set_slot k r [] h = absurd (omega arith)
used-set_slot zero r (x ∷ xs) h = omega arith
used-set_slot (suc k) r (x ∷ xs) h = omega (arith, used-set_slot k r xs (omega arith))

pub slot_sd-set_slot :
    (j k : ℕ) (r : ConnectRequest) (rs : List ConnectRequest)
    → j ≢ k
    → slot_sd j (set_slot k r rs) ≡ slot_sd j rs
slot_sd-set_slot j k r [] h = refl
slot_sd-set_slot zero zero r (x ∷ xs) h = absurd (h refl)
slot_sd-set_slot zero (suc k) r (x ∷ xs) h = refl
slot_sd-set_slot (suc j) zero r (x ∷ xs) h = refl
slot_sd-set_slot (suc j) (suc k) r (x ∷ xs) h = slot_sd-set_slot j k r xs (λ e. h (ap suc e))

-- A slot with a descriptor is one of the slots, and counts.
pub slot_sd-some :
    (k sd : ℕ) (rs : List ConnectRequest) → slot_sd k rs ≡ some sd → (k < length rs) × (0 < used rs)
slot_sd-some k sd [] h = ground arith
slot_sd-some zero sd (x ∷ xs) h = ground arith
slot_sd-some (suc k) sd (x ∷ xs) h = ground (arith, slot_sd-some k sd xs h)

pub free_slot-some :
    (rs : List ConnectRequest) (k : ℕ)
    → free_slot rs ≡ some k
    → (k < length rs) × (slot_sd k rs ≡ none)
unfolding free_slot
free_slot-some [] k h = ground arith
free_slot-some (r ∷ rs) zero h = ground arith
free_slot-some (r ∷ rs) (suc k) h = ground (arith, free_slot-some rs k)

pub free_slot-none : (rs : List ConnectRequest) → free_slot rs ≡ none → used rs ≡ length rs
unfolding free_slot
free_slot-none [] h = refl
free_slot-none (r ∷ rs) h = ground (arith, free_slot-none rs)

pub find_sd-some :
    (sd : ℕ) (rs : List ConnectRequest) (k : ℕ) → find_sd sd rs ≡ some k → slot_sd k rs ≡ some sd
unfolding find_sd
find_sd-some sd [] k h = ground arith
find_sd-some sd (r ∷ rs) zero h = ground arith
find_sd-some sd (r ∷ rs) (suc k) h = ground (arith, find_sd-some sd rs k)
