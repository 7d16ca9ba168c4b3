-- ===== src/Tcp/Checksum.antt =====
-- tcp_sum.c: the checksum of a segment and its pseudo header, on bytes, little-endian.
pub mod Verify
use computer_network.Prelude.{
  ℕ, suc, ◌+◌, ◌-◌, ◌*◌, ◌/◌, ◌%◌, ◌^◌, Bool, true, false, List, [], ◌∷◌, ◌++◌, Option, none, some,
  length, ltb, leb, ◌&&◌, ◌==◌, if◌then◌else◌,
}
use computer_network.Prelude.Buffer.{le_bytes, load16, store16}
use computer_network.Router.Cksum.{htons}
use computer_network.Tcp.Segment.{Bytes}

-- IPPROTO_TCP stands between a zero byte and the length.
unfoldable pub pseudo_header : ℕ → ℕ → ℕ → Bytes
pseudo_header src_addr dst_addr len =
    le_bytes 4 src_addr ++ le_bytes 4 dst_addr ++ 0 ∷ 6 ∷ le_bytes 2 (htons len)

-- The loop over the 16-bit words from index `k` on, and the odd byte; where `skip` says so, word 8,
-- th_sum, counts as zero.
unfoldable pub add_words : Bool → ℕ → Bytes → ℕ
add_words skip k [] = 0
add_words skip k (a ∷ []) = a
add_words skip k (a ∷ b ∷ rest) =
    (if skip && k == 8 then 0 else a + 256 * b) + add_words skip (suc k) rest

-- The two folds and the complement of a sum that fits an int32_t.
unfoldable pub fold_sum : ℕ → ℕ
fold_sum sum = let once = sum / 2 ^ 16 + sum % 2 ^ 16 in 65535 - (once + once / 2 ^ 16) % 2 ^ 16

-- none where an assertion fails. A list of bytes has no address: the assertion that bit 1 of the
-- packet's is clear is left out, and taken to hold.
unfoldable pub mysock_tcp_checksum : ℕ → ℕ → Bytes → Option ℕ
mysock_tcp_checksum src_addr dst_addr packet =
    if leb 20 (length packet) && ltb 0 src_addr && ltb 0 dst_addr
    then some (
        fold_sum (
          add_words false 0 (pseudo_header src_addr dst_addr (length packet))
          + add_words true 0 packet))
    else none

-- A socket is the IP of its network interface and that of its peer.
unfoldable pub mysock_set_checksum : ℕ → ℕ → Bytes → Option Bytes
mysock_set_checksum local_addr peer_addr packet =
    elim (mysock_tcp_checksum local_addr peer_addr packet) [
      | none ↦ none
      | some sum ↦ some (store16 16 sum packet)
    ]

unfoldable pub mysock_verify_checksum : ℕ → ℕ → Bytes → Option Bool
mysock_verify_checksum local_addr peer_addr packet =
    elim (mysock_tcp_checksum peer_addr local_addr packet) [
      | none ↦ none
      | some sum ↦ some (sum == load16 16 packet)
    ]
