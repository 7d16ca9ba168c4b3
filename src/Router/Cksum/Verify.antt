-- ===== src/Router/Cksum/Verify.antt =====
-- What the checksum means: RFC 1071's one's complement sum of 16-bit words.
use computer_network.Prelude.{
  ℕ, zero, suc, ◌+◌, ◌-◌, ◌*◌, ◌/◌, ◌%◌, ◌^◌, ◌≤◌, ◌<◌, ◌≡◌, ◌↔◌, List, [], ◌∷◌, arith, length, All,
  if◌then◌else◌, ◌==◌,
}
use computer_network.Prelude.Buffer.{IsByte, patch, store16, le_bytes, All-patch, length-patch}
use computer_network.Router.Cksum.{cksum_words, cksum_fold, fold_fuel, cksum, htons}
use computer_network.Router.Cksum.Fold.{cksum_fold_mod, cksum_fold-le}

-- The sum of the big-endian 16-bit words, an odd last byte padded by zero, without any wrap.
unfoldable pub word_sum : List ℕ → ℕ
word_sum [] = 0
word_sum (a ∷ []) = a * 256
word_sum (a ∷ b ∷ rest) = a * 256 + b + word_sum rest

-- A receiver accepts data whose one's complement sum is zero.
abbrev pub IsChecksummed : List ℕ → Type 0
IsChecksummed data' = word_sum data' % 65535 ≡ 0

pub word_sum-le : (d : List ℕ) → All IsByte d → 2 * word_sum d ≤ 65535 * (length d + 1)
unfolding word_sum
word_sum-le [] h = omega arith
word_sum-le (a ∷ []) h = omega arith
word_sum-le (a ∷ b ∷ rest) h = omega (arith, word_sum-le rest h.1.1)

cksum_words-eq-add :
    (acc : ℕ) (d : List ℕ) → acc + word_sum d < 2 ^ 32 → cksum_words acc d ≡ acc + word_sum d
unfolding word_sum cksum_words
cksum_words-eq-add acc [] h = omega arith
cksum_words-eq-add acc (a ∷ []) h = omega arith
cksum_words-eq-add acc (a ∷ b ∷ rest) h =
    omega (arith, cksum_words-eq-add ((acc + (a * 256 + b)) % 2 ^ 32) rest (omega arith))

-- Data of at most 131069 bytes cannot wrap the 32-bit sum.
abbrev pub max_len : ℕ
max_len = 131069

pub folded : List ℕ → ℕ
folded d = cksum_fold fold_fuel (word_sum d)

module _ (d : List ℕ) (bytes : All IsByte d) (short : length d ≤ max_len) where
  sum_fits : word_sum d < 2 ^ 32
  sum_fits = omega (arith, word_sum-le d bytes)

  folded_facts : (folded d ≤ 0xffff) × (folded d % 65535 ≡ word_sum d % 65535)
  unfolding folded
  folded_facts = (cksum_fold-le (word_sum d) sum_fits, cksum_fold_mod fold_fuel (word_sum d))

  -- The checksum in terms of the folded sum.
  cksum_lem :
      cksum d ≡ (if (htons (0xffff - folded d)) == 0 then 0xffff else htons (0xffff - folded d))
  unfolding cksum folded
  cksum_lem =
      let words : cksum_words 0 d ≡ word_sum d = omega (arith, sum_fits, cksum_words-eq-add 0 d) in
      let low : (2 ^ 32 - 1 - cksum_fold fold_fuel (word_sum d)) % 2 ^ 16
          ≡ 0xffff - cksum_fold fold_fuel (word_sum d) =
        omega (arith, cksum_fold-le (word_sum d) sum_fits) in
      rw (words, low)

  -- The checksum of at most 131069 bytes is 0xffff exactly when the data verify: their one's
  -- complement sum is zero.
  pub cksum-eq-ffff_iff : (cksum d ≡ 0xffff) ↔ IsChecksummed d
  unfolding htons
  cksum-eq-ffff_iff = ground (arith, cksum_lem, folded_facts)

-- Writing a word at an even offset adds that word to the sum.
word_sum-patch :
    (off x y : ℕ) (d : List ℕ)
    → off % 2 ≡ 0
    → off + 2 ≤ length d
    → word_sum (patch off (x ∷ y ∷ []) d) ≡ word_sum (patch off (0 ∷ 0 ∷ []) d) + (x * 256 + y)
unfolding word_sum patch
word_sum-patch zero x y [] e h = absurd (omega arith)
word_sum-patch zero x y (a ∷ []) e h = absurd (omega arith)
word_sum-patch zero x y (a ∷ b ∷ rest) e h = omega arith
word_sum-patch (suc zero) x y d e h = absurd (omega arith)
word_sum-patch (suc (suc off)) x y [] e h = absurd (omega arith)
word_sum-patch (suc (suc off)) x y (a ∷ []) e h = absurd (omega arith)
word_sum-patch (suc (suc off)) x y (a ∷ b ∷ rest) e h =
    omega (arith, word_sum-patch off x y rest (omega arith) (omega arith))

-- In at most 131069 bytes, a 16-bit field at an even offset that is set to the checksum of the
-- data with a zero there makes the data verify.
pub IsChecksummed-store16 :
    (off : ℕ) (d : List ℕ)
    → All IsByte d
    → length d ≤ max_len
    → off % 2 ≡ 0
    → off + 2 ≤ length d
    → IsChecksummed (store16 off (cksum (store16 off 0 d)) d)
unfolding store16 le_bytes
IsChecksummed-store16 off d bytes short even fits =
    let z = store16 off 0 d in
    let zb : All IsByte z = All-patch off (0 ∷ 0 ∷ []) d (omega arith) bytes in
    let zl : length z ≤ max_len = omega (arith, length-patch off (0 ∷ 0 ∷ []) d) in
    let c = cksum z in
    unfold htons in
    ground (
      arith,
      word_sum-patch off (c % 256) (c / 256 % 256) d even fits,
      cksum_lem z zb zl,
      folded_facts z zb zl,
    )
