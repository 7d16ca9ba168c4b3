-- ===== src/Router/Cksum/Fold.antt =====
-- The folding loop ends, and keeps the sum modulo 65535.
use computer_network.Prelude.{ℕ, zero, suc, ◌+◌, ◌/◌, ◌%◌, ◌^◌, ◌≤◌, ◌<◌, ◌≡◌, refl, arith}
use computer_network.Router.Cksum.{cksum_fold, fold_fuel}

pub cksum_fold_mod : (n s : ℕ) → cksum_fold n s % 65535 ≡ s % 65535
unfolding cksum_fold
cksum_fold_mod zero s = refl
cksum_fold_mod (suc n) s = ground (arith, cksum_fold_mod n (s / 2 ^ 16 + s % 2 ^ 16))

pub cksum_fold_pos : (n s : ℕ) → 0 < s → 0 < cksum_fold n s
unfolding cksum_fold
cksum_fold_pos zero s h = h
cksum_fold_pos (suc n) s h = ground (arith, cksum_fold_pos n (s / 2 ^ 16 + s % 2 ^ 16))

-- Three rounds of folding bring every 32-bit sum down to 16 bits, where the loop ends by its test.
pub cksum_fold-le : (s : ℕ) → s < 2 ^ 32 → cksum_fold fold_fuel s ≤ 0xffff
unfolding cksum_fold
cksum_fold-le s h = ground arith
