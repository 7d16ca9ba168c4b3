-- ===== src/Tcp/Segment.antt =====
-- transport.h: the header of a segment, its numbers as they lie in memory, in network byte order.
use computer_network.Prelude.{
  ℕ, ◌+◌, ◌*◌, ◌/◌, ◌%◌, ◌^◌, ◌<◌, ◌≡◌, arith, Bool, List, bit_and, not, ◌==◌,
}

abbrev pub Bytes : Type 0
Bytes = List ℕ

-- struct tcphdr; `th_x2` is unused.
pub record Segment : Type 0 where
  pub th_sport : ℕ
  pub th_dport : ℕ
  pub th_seq : ℕ
  pub th_ack : ℕ
  pub th_off : ℕ
  pub th_flags : ℕ
  pub th_win : ℕ
  pub th_sum : ℕ
  pub th_urp : ℕ

-- bzero
abbrev pub no_segment : Segment
no_segment = record {
  th_sport = 0;
  th_dport = 0;
  th_seq = 0;
  th_ack = 0;
  th_off = 0;
  th_flags = 0;
  th_win = 0;
  th_sum = 0;
  th_urp = 0;
}

abbrev pub th_fin : ℕ
th_fin = 0x01

abbrev pub th_syn : ℕ
th_syn = 0x02

abbrev pub th_acked : ℕ
th_acked = 0x10

-- `th_flags & flag`
abbrev pub has_flag : ℕ → Segment → Bool
has_flag flag s = not (bit_and s.th_flags flag == 0)

-- htonl and ntohl on a little-endian machine.
unfoldable pub htonl : ℕ → ℕ
htonl x = x % 256 * 2 ^ 24 + x / 256 % 256 * 2 ^ 16 + x / 2 ^ 16 % 256 * 2 ^ 8 + x / 2 ^ 24 % 256

pub htonl-htonl : (x : ℕ) → x < 2 ^ 32 → htonl (htonl x) ≡ x
unfolding htonl
htonl-htonl x h = omega arith
