-- ===== src/Router/Cksum.antt =====
-- cksum of sr_utils.c, the Internet checksum.
pub mod Fold
pub mod Verify
use computer_network.Prelude.{
  ℕ, zero, suc, ◌+◌, ◌-◌, ◌*◌, ◌/◌, ◌%◌, ◌^◌, true, false, List, [], ◌∷◌, ltb, ◌==◌, if◌then◌else◌,
}

-- The two bytes of a 16-bit value, exchanged: htons and ntohs on a little-endian machine.
unfoldable pub htons : ℕ → ℕ
htons x = x % 256 * 256 + x / 256 % 256

-- The first loop and the odd byte: `data[0] << 8 | data[1]` is a sum, since the bytes are disjoint
-- bits; `sum` is a uint32_t.
unfoldable pub cksum_words : ℕ → List ℕ → ℕ
cksum_words sum [] = sum
cksum_words sum (a ∷ []) = (sum + a * 256) % 2 ^ 32
cksum_words sum (a ∷ b ∷ data') = cksum_words ((sum + (a * 256 + b)) % 2 ^ 32) data'

-- The second loop, `while (sum > 0xffff)`.
unfoldable pub cksum_fold : ℕ → ℕ → ℕ
cksum_fold zero sum = sum
cksum_fold (suc fuel) sum = elim (ltb 0xffff sum) [
  | true ↦ cksum_fold fuel (sum / 2 ^ 16 + sum % 2 ^ 16)
  | false ↦ sum
]

-- Three rounds fold any 32-bit sum.
abbrev pub fold_fuel : ℕ
fold_fuel = 3

unfoldable pub cksum : List ℕ → ℕ
cksum data' =
    let folded = cksum_fold fold_fuel (cksum_words 0 data') in
    let sum = htons ((2 ^ 32 - 1 - folded) % 2 ^ 16) in if sum == 0 then 0xffff else sum
