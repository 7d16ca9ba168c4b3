-- ===== src/Tcp/Checksum/Verify.antt =====
-- What one socket sends is accepted by the other.
use computer_network.Prelude.{
  ℕ, zero, suc, ◌+◌, ◌*◌, ◌/◌, ◌%◌, ◌^◌, ◌≤◌, ◌<◌, ◌≡◌, ap, ◌∙◌, true, false, [], ◌∷◌, some, arith,
  length,
}
use computer_network.Prelude.Buffer.{
  patch, le_bytes, le_value, load16, store16, length-patch, slice-patch_self, le_value-le_bytes,
  length-le_bytes,
}
use computer_network.Tcp.Segment.{Bytes}
use computer_network.Tcp.Checksum.{
  pseudo_header, add_words, fold_sum, mysock_tcp_checksum, mysock_set_checksum,
  mysock_verify_checksum,
}

-- The word of th_sum does not count, whatever it holds.
add_words-patch :
    (k off x y : ℕ) (d : Bytes)
    → 2 * k + off ≡ 16
    → off + 2 ≤ length d
    → add_words true k (patch off (x ∷ y ∷ []) d) ≡ add_words true k d
unfolding add_words patch
add_words-patch k zero x y [] e h = absurd (omega arith)
add_words-patch k zero x y (a ∷ []) e h = absurd (omega arith)
add_words-patch k zero x y (a ∷ b ∷ rest) e h = ground arith
add_words-patch k (suc zero) x y d e h = absurd (omega arith)
add_words-patch k (suc (suc off)) x y [] e h = absurd (omega arith)
add_words-patch k (suc (suc off)) x y (a ∷ []) e h = absurd (omega arith)
add_words-patch k (suc (suc off)) x y (a ∷ b ∷ rest) e h =
    ground (arith, add_words-patch (suc k) off x y rest (omega arith) (omega arith))

mysock_tcp_checksum-store16 :
    (src dst sum : ℕ) (d : Bytes)
    → 20 ≤ length d
    → mysock_tcp_checksum src dst (store16 16 sum d) ≡ mysock_tcp_checksum src dst d
unfolding mysock_tcp_checksum store16 le_bytes
mysock_tcp_checksum-store16 src dst sum d h = rw (
  length-patch 16 (sum % 256 ∷ sum / 256 % 256 ∷ []) d,
  add_words-patch 0 16 (sum % 256) (sum / 256 % 256) d (omega arith) (omega arith),
)

fold_sum-lt : (s : ℕ) → fold_sum s < 2 ^ 16
unfolding fold_sum
fold_sum-lt s = omega arith

load16-store16 :
    (sum : ℕ) (d : Bytes) → sum < 2 ^ 16 → 18 ≤ length d → load16 16 (store16 16 sum d) ≡ sum
unfolding load16 store16
load16-store16 sum d small long =
    ap le_value (slice-patch_self 16 2 (le_bytes 2 sum) d (length-le_bytes 2 sum) (omega arith))
    ∙ le_value-le_bytes 2 sum (omega arith)

-- A segment of at least 20 bytes that one socket sends to another, both with an address other than
-- zero, gets a checksum that the other accepts.
pub mysock_verify_checksum-mysock_set_checksum :
    (a b : ℕ) (d : Bytes)
    → 20 ≤ length d
    → 0 < a
    → 0 < b
    → (d' : Bytes) × (mysock_set_checksum a b d ≡ some d')
      × (mysock_verify_checksum b a d' ≡ some true)
unfolding mysock_verify_checksum mysock_set_checksum
mysock_verify_checksum-mysock_set_checksum a b d long from to =
    let sum = fold_sum (add_words false 0 (pseudo_header a b (length d)) + add_words true 0 d) in
    let sent : mysock_tcp_checksum a b d ≡ some sum = unfold mysock_tcp_checksum in ground arith in
    (
      store16 16 sum d,
      ground (arith, sent),
      ground (
        arith,
        mysock_tcp_checksum-store16 a b sum d long,
        sent,
        load16-store16 sum d (fold_sum-lt _) (omega arith),
      ),
    )
